-- ===== src/Risk/Monotone.antt =====
-- internal/risk/engine.go: a change that does more is never scored lower, nor ranked lower.
use mathlib.Core.List.{Permᴰ}
use change_control_plane.Prelude.{
  ℕ, ◌≤◌, String, ◌≡◌, refl, ◌∙◌, Bool, true, List, [], ◌∷◌, ◌++◌, arith,
}
use change_control_plane.Prelude.Int.{ℤ, pos, negsuc, ◌+ℤ◌, ◌≤ℤ◌, ◌<ℤ◌, ltb_ℤ, quot, int_laws}
use change_control_plane.Types.{ChangeSet, Service, Environment}
use change_control_plane.Risk.Recommend.{min_int}
use change_control_plane.Risk.{file_points, doubled_points, tally_of}
use change_control_plane.Risk.Points.{
  gained, type_points, count_points, touch_points, service_points, score-tally_of,
}
use change_control_plane.Risk.Bounds.{half62, int64-scale-two, CountsFit}

abbrev pub Implies : Bool → Bool → Type 0
Implies a b = a ≡ true → b ≡ true

-- `d` has all that `c` has.
pub record AtLeast (c d : ChangeSet) : Type 0 where
  pub more_types : List String
  -- in any order
  pub types : Permᴰ d.change_types (c.change_types ++ more_types)
  pub files : c.file_count ≤ℤ d.file_count
  pub resources : c.resource_count ≤ℤ d.resource_count
  pub incidents : c.historical_incident_count ≤ℤ d.historical_incident_count
  pub infrastructure : Implies c.touches_infrastructure d.touches_infrastructure
  pub iam : Implies c.touches_iam d.touches_iam
  pub secrets : Implies c.touches_secrets d.touches_secrets
  pub schema : Implies c.touches_schema d.touches_schema
  pub dependencies : Implies c.dependency_changes d.dependency_changes
  pub rollback : Implies c.poor_rollback_history d.poor_rollback_history

type_points-append : (xs ys : List String) → type_points xs ≤ type_points (xs ++ ys)
type_points-append [] ys = omega arith
type_points-append (x ∷ xs) ys = omega (arith, type_points-append xs ys)

gained_mono : (a b : Bool) (n : ℕ) → Implies a b → gained a (pos n) ≤ℤ gained b (pos n)
gained_mono a b n h = ground arith

file_gain_mono :
    (m n : ℤ)
    → m ≤ℤ n
    → gained (ltb_ℤ (pos 0) m) (file_points m) ≤ℤ gained (ltb_ℤ (pos 0) n) (file_points n)
unfolding file_points min_int quot ◌+ℤ◌
file_gain_mono (pos m) (pos n) h = ground arith
file_gain_mono (pos m) (negsuc n) h = ground arith
file_gain_mono (negsuc m) (pos n) h = ground arith
file_gain_mono (negsuc m) (negsuc n) h = ground arith

doubled_gain_mono :
    (cap : ℕ) (m n : ℤ)
    → m ≤ℤ n
    → n <ℤ pos half62
    → gained (ltb_ℤ (pos 0) m) (doubled_points cap m)
      ≤ℤ gained (ltb_ℤ (pos 0) n) (doubled_points cap n)
unfolding doubled_points min_int
doubled_gain_mono cap (pos m) (pos n) h k =
    rw (int64-scale-two m (omega arith), int64-scale-two n (omega arith)) (ground arith)
doubled_gain_mono cap (pos m) (negsuc n) h k = absurd (omega arith)
doubled_gain_mono cap (negsuc m) (pos n) h k = rw (int64-scale-two n (omega arith)) (ground arith)
doubled_gain_mono cap (negsuc m) (negsuc n) h k = ground arith

count_mono : (c d : ChangeSet) → AtLeast c d → CountsFit d → count_points c ≤ℤ count_points d
unfolding count_points
count_mono c d more fit = omega (
  int_laws,
  file_gain_mono c.file_count d.file_count more.files,
  doubled_gain_mono 10 c.resource_count d.resource_count more.resources fit.resources,
)

touch_mono : (c d : ChangeSet) → AtLeast c d → touch_points c ≤ℤ touch_points d
unfolding touch_points
touch_mono c d more = omega (
  int_laws,
  gained_mono c.touches_infrastructure d.touches_infrastructure 10 more.infrastructure,
  gained_mono c.touches_iam d.touches_iam 16 more.iam,
  gained_mono c.touches_secrets d.touches_secrets 14 more.secrets,
  gained_mono c.touches_schema d.touches_schema 14 more.schema,
  gained_mono c.dependency_changes d.dependency_changes 7 more.dependencies,
)

service_mono :
    (c d : ChangeSet) (s : Service) (e : Environment)
    → AtLeast c d
    → CountsFit d
    → service_points c s e ≤ℤ service_points d s e
unfolding service_points
service_mono c d s e more fit = omega (
  int_laws,
  doubled_gain_mono 12 c.historical_incident_count d.historical_incident_count more.incidents
      fit.incidents,
  gained_mono c.poor_rollback_history d.poor_rollback_history 10 more.rollback,
)

type_points-Permᴰ : {xs ys : List String} → Permᴰ xs ys → type_points xs ≡ type_points ys
type_points-Permᴰ Permᴰ.nil = refl
type_points-Permᴰ (Permᴰ.cons same rest) = rw (same, type_points-Permᴰ rest) refl
type_points-Permᴰ (Permᴰ.swap first second) = rw (first, second) (omega arith)
type_points-Permᴰ (Permᴰ.trans p q) = type_points-Permᴰ p ∙ type_points-Permᴰ q

types_mono :
    (c d : ChangeSet) → AtLeast c d → type_points c.change_types ≤ type_points d.change_types
types_mono c d more =
    rw (type_points-Permᴰ more.types) (type_points-append c.change_types more.more_types)

-- For one service and environment, a change that has at least the flags, the counts and the change
-- types of another one has at least its score, if doubling its counts does not wrap.
pub score_mono :
    (c d : ChangeSet) (s : Service) (e : Environment)
    → AtLeast c d
    → CountsFit d
    → (tally_of c s e).score ≤ℤ (tally_of d s e).score
score_mono c d s e more fit =
    rw (score-tally_of c s e, score-tally_of d s e)
      (omega (
        int_laws,
        types_mono c d more,
        count_mono c d more fit,
        touch_mono c d more,
        service_mono c d s e more fit,
      ))
