-- ===== src/Risk/Bounds.antt =====
-- internal/risk/engine.go: the range of the score.
use change_control_plane.Prelude.{
  not, ℕ, ◌+◌, ◌*◌, ◌<◌, ◌≤◌, ◌^◌, String, ◌≡◌, refl, Bool, true, false, List, [], ◌∷◌, length,
  arith,
}
use change_control_plane.Prelude.Int.{
  ℤ, pos, negsuc, ◌+ℤ◌, ◌≤ℤ◌, ◌<ℤ◌, ltb_ℤ, int64, scale, quot, int_laws, int64_of_IsInt64,
}
use change_control_plane.Types.{ChangeSet, Service, Environment}
use change_control_plane.Risk.Recommend.{min_int, is_regulated}
use change_control_plane.Risk.{
  file_points, doubled_points, change_type_case, environment_case, criticality_case, tally_of,
}
use change_control_plane.Risk.Points.{
  case_points, gained, type_points, count_points, touch_points, service_points, score-tally_of,
}

case_points-change_type_case : (kind : String) → case_points (change_type_case kind) ≤ 18
unfolding change_type_case
case_points-change_type_case kind = ground arith

type_points_bound : (kinds : List String) → type_points kinds ≤ 18 * length kinds
type_points_bound [] = omega arith
type_points_bound (kind ∷ kinds) =
    omega (arith, case_points-change_type_case kind, type_points_bound kinds)

environment_bound : (e : Environment) → case_points (environment_case e) ≤ 20
unfolding environment_case
environment_bound e = ground arith

criticality_bound : (s : Service) → case_points (criticality_case s) ≤ 18
unfolding criticality_case
criticality_bound s = ground arith

abbrev pub InRange : ℕ → ℤ → Type 0
InRange most a = (pos 0 ≤ℤ a) × (a ≤ℤ pos most)

file_points-InRange : (n : ℤ) → pos 0 ≤ℤ n → InRange 12 (file_points n)
unfolding file_points min_int quot ◌+ℤ◌
file_points-InRange (pos n) h = ground arith
file_points-InRange (negsuc n) h = absurd (omega arith)

abbrev pub half62 : ℕ
half62 = 2 ^ 62

pub int64-scale-two : (n : ℕ) → n < half62 → int64 (scale 2 (pos n)) ≡ pos (2 * n)
unfolding scale
int64-scale-two n h =
    let exact : scale 2 (pos n) ≡ pos (2 * n) = ground arith in
    rw exact (int64_of_IsInt64 (pos (2 * n)) (omega arith))

doubled_points-InRange :
    (cap : ℕ) (n : ℤ) → pos 0 ≤ℤ n → n <ℤ pos half62 → InRange cap (doubled_points cap n)
unfolding doubled_points min_int
doubled_points-InRange cap (pos n) h k = rw (int64-scale-two n (omega arith)) (ground arith)
doubled_points-InRange cap (negsuc n) h k = absurd (omega arith)

InRange-gained :
    (b : Bool) (most : ℕ) (points : ℤ)
    → (b ≡ true → InRange most points)
    → InRange most (gained b points)
InRange-gained true most points h = h refl
InRange-gained false most points h = omega arith

-- Counts whose double does not wrap.
pub record CountsFit (c : ChangeSet) : Type 0 where
  pub resources : c.resource_count <ℤ pos half62
  pub incidents : c.historical_incident_count <ℤ pos half62

count_bound : (c : ChangeSet) → CountsFit c → InRange 22 (count_points c)
unfolding count_points
count_bound c fit =
    let files =
      InRange-gained (ltb_ℤ (pos 0) c.file_count) 12 (file_points c.file_count)
        λ h. file_points-InRange c.file_count (ground arith) in
    let resources =
      InRange-gained (ltb_ℤ (pos 0) c.resource_count) 10 (doubled_points 10 c.resource_count)
        λ h. doubled_points-InRange 10 c.resource_count (ground arith) fit.resources in
    omega int_laws

touch_bound : (c : ChangeSet) → InRange 61 (touch_points c)
unfolding touch_points
touch_bound c =
    let point = λ (b : Bool) (n : ℕ). InRange-gained b n (pos n) (λ _. omega arith) in
    omega (
      int_laws,
      point c.touches_infrastructure 10,
      point c.touches_iam 16,
      point c.touches_secrets 14,
      point c.touches_schema 14,
      point c.dependency_changes 7,
    )

service_bound :
    (c : ChangeSet) (s : Service) (e : Environment)
    → CountsFit c
    → InRange 58 (service_points c s e)
unfolding service_points
service_bound c s e fit =
    let point = λ (b : Bool) (n : ℕ). InRange-gained b n (pos n) (λ _. omega arith) in
    let incidents =
      InRange-gained (ltb_ℤ (pos 0) c.historical_incident_count) 12
        (doubled_points 12 c.historical_incident_count)
        λ h. doubled_points-InRange 12 c.historical_incident_count (ground arith) fit.incidents in
    omega (
      int_laws,
      point s.customer_facing 8,
      point c.poor_rollback_history 10,
      point (not s.has_observability) 9,
      point (not s.has_slo) 7,
      point (is_regulated s e) 12,
    )

-- As long as doubling the resource count and the incident count does not wrap, the score is at
-- least 5, and at most 184 and 18 for each change type.
pub score_bounds :
    (c : ChangeSet) (s : Service) (e : Environment)
    → CountsFit c
    → (pos 5 ≤ℤ (tally_of c s e).score)
      × ((tally_of c s e).score ≤ℤ pos (184 + 18 * length c.change_types))
score_bounds c s e fit = rw (score-tally_of c s e) (
    omega (
      int_laws,
      count_bound c fit,
      touch_bound c,
      service_bound c s e fit,
      type_points_bound c.change_types,
      environment_bound e,
      criticality_bound s,
    ))
