-- ===== src/Risk/Points.antt =====
-- internal/risk/engine.go: the score as a sum, one term for each call of `add`.
use change_control_plane.Prelude.{
  ℕ, ◌+◌, String, ◌≡◌, refl, ◌∙◌, Bool, true, false, not, none, some, List, [], ◌∷◌, if◌then◌else◌,
}
use change_control_plane.Prelude.Int.{ℤ, pos, ◌+ℤ◌, ltb_ℤ, int_laws}
use change_control_plane.Types.{ChangeSet, Service, Environment}
use change_control_plane.Risk.Recommend.{is_regulated}
use change_control_plane.Risk.{
  Tally, Case, add, add_if, add_case, add_change_types, change_type_case, environment_case,
  criticality_case, add_counts, add_touches, add_service, file_points, doubled_points, tally_of,
}

abbrev pub case_points : Case → ℕ
case_points none = 0
case_points (some (points, explanation)) = points

abbrev pub gained : Bool → ℤ → ℤ
gained b points = if b then points else pos 0

abbrev pub type_points : List String → ℕ
type_points [] = 0
type_points (kind ∷ kinds) = case_points (change_type_case kind) + type_points kinds

unfoldable pub count_points : ChangeSet → ℤ
count_points c =
    gained (ltb_ℤ (pos 0) c.file_count) (file_points c.file_count)
    +ℤ gained (ltb_ℤ (pos 0) c.resource_count) (doubled_points 10 c.resource_count)

unfoldable pub touch_points : ChangeSet → ℤ
touch_points c =
    gained c.touches_infrastructure (pos 10)
    +ℤ gained c.touches_iam (pos 16)
    +ℤ gained c.touches_secrets (pos 14)
    +ℤ gained c.touches_schema (pos 14)
    +ℤ gained c.dependency_changes (pos 7)

unfoldable pub service_points : ChangeSet → Service → Environment → ℤ
service_points c s e =
    gained s.customer_facing (pos 8)
    +ℤ gained (ltb_ℤ (pos 0) c.historical_incident_count)
        (doubled_points 12 c.historical_incident_count)
    +ℤ gained c.poor_rollback_history (pos 10)
    +ℤ gained (not s.has_observability) (pos 9)
    +ℤ gained (not s.has_slo) (pos 7)
    +ℤ gained (is_regulated s e) (pos 12)

score-add_if :
    (b : Bool) (points : ℤ) (text : String) (x : Tally)
    → (add_if b points text x).score ≡ x.score +ℤ gained b points
unfolding add_if add
score-add_if true points text x = refl
score-add_if false points text x = omega int_laws

score-add_case : (c : Case) (x : Tally) → (add_case c x).score ≡ x.score +ℤ pos (case_points c)
unfolding add_case add
score-add_case none x = omega int_laws
score-add_case (some (points, text)) x = refl

score-add_change_types :
    (kinds : List String) (x : Tally)
    → (add_change_types kinds x).score ≡ x.score +ℤ pos (type_points kinds)
unfolding add_change_types
score-add_change_types [] x = omega int_laws
score-add_change_types (kind ∷ kinds) x =
    score-add_change_types kinds (add_case (change_type_case kind) x)
    ∙ rw score-add_case (omega int_laws)

score-add_counts : (c : ChangeSet) (x : Tally) → (add_counts c x).score ≡ x.score +ℤ count_points c
unfolding add_counts count_points
score-add_counts c x = simp score-add_if (omega int_laws)

score-add_touches :
    (c : ChangeSet) (x : Tally) → (add_touches c x).score ≡ x.score +ℤ touch_points c
unfolding add_touches touch_points
score-add_touches c x = simp score-add_if (omega int_laws)

score-add_service :
    (c : ChangeSet) (s : Service) (e : Environment) (x : Tally)
    → (add_service c s e x).score ≡ x.score +ℤ service_points c s e
unfolding add_service service_points
score-add_service c s e x = simp score-add_if (omega int_laws)

-- The score is 5 and the sum of what the change types, the environment, the criticality, the
-- counts, the flags of the change and those of the service contribute.
pub score-tally_of :
    (c : ChangeSet) (s : Service) (e : Environment)
    → (tally_of c s e).score
      ≡ pos (
          5
          + type_points c.change_types
          + case_points (environment_case e)
          + case_points (criticality_case s))
        +ℤ count_points c
        +ℤ touch_points c
        +ℤ service_points c s e
unfolding tally_of
score-tally_of c s e =
    simp
      (
        score-add_service, score-add_touches, score-add_counts, score-add_case,
        score-add_change_types,
      )
      (omega int_laws)
