-- ===== src/Tests/Risk.antt =====
-- internal/risk/engine.go at concrete changes.
use mathlib.Core.List.Permᴰ
use change_control_plane.Prelude.{◌≡◌, refl, ◌↔◌, ◌∷◌, [], true, false, arith, ◌+◌, ◌*◌, ◌==◌}
use change_control_plane.Prelude.Int.{pos, ◌≤ℤ◌, ◌+ℤ◌, quot, scale, int64}
use change_control_plane.Prelude.Text.{lower, lower_char, shift}
use change_control_plane.Types.{ChangeSet}
use change_control_plane.Policies.Normal.{risk_level_rank}
use change_control_plane.Risk.{
  tally_of, assess, add, add_if, add_case, add_change_types, change_type_case, environment_case,
  criticality_case, file_points, doubled_points, add_counts, add_touches, add_service,
}
use change_control_plane.Risk.Recommend.{is_regulated, min_int}
use change_control_plane.Risk.Bounds.{CountsFit, score_bounds}
use change_control_plane.Risk.Monotone.{AtLeast}
use change_control_plane.Risk.Advice.{NeedsApproval, level_mono, approval_needed_iff}
use change_control_plane.Tests.{roles_change, ledger, live, code_change}

-- `code_change` with an infrastructure change added.
abbrev more_change : ChangeSet
more_change = record code_change {
  change_types = "infra" ∷ "code" ∷ [];
  file_count = pos 30;
  touches_infrastructure = true;
}

more_change-CountsFit : CountsFit more_change
more_change-CountsFit = record { resources = omega arith; incidents = omega arith }

roles_change-CountsFit : CountsFit roles_change
roles_change-CountsFit = record { resources = omega arith; incidents = omega arith }

more_change-AtLeast : AtLeast code_change more_change
more_change-AtLeast = record {
  more_types = "infra" ∷ [];
  types = Permᴰ.swap refl refl;
  files = omega arith;
  resources = omega arith;
  incidents = omega arith;
  infrastructure = λ h. refl;
  iam = λ h. h;
  secrets = λ h. h;
  schema = λ h. h;
  dependencies = λ h. h;
  rollback = λ h. h;
}

score_bounds_example :
    (pos 5 ≤ℤ (tally_of roles_change ledger live).score)
    × ((tally_of roles_change ledger live).score ≤ℤ pos (184 + 18 * 2))
score_bounds_example = score_bounds roles_change ledger live roles_change-CountsFit

level_mono_example :
    risk_level_rank (assess "risk_1" 7 code_change ledger live).level
    ≤ℤ risk_level_rank (assess "risk_1" 7 more_change ledger live).level
level_mono_example =
    level_mono "risk_1" 7 code_change more_change ledger live more_change-AtLeast
      more_change-CountsFit

approval_needed_iff_example :
    (((assess "risk_1" 7 code_change ledger live).recommended_approval_level == "self-serve")
      ≡ false)
    ↔ NeedsApproval (tally_of code_change ledger live).score true (is_regulated ledger live)
approval_needed_iff_example = approval_needed_iff "risk_1" 7 code_change ledger live

ledger_score : (tally_of roles_change ledger live).score ≡ pos 156
unfolding tally_of add add_if add_case add_change_types change_type_case environment_case
    criticality_case file_points doubled_points add_counts add_touches add_service is_regulated
    min_int quot scale int64 ◌+ℤ◌ lower lower_char shift
ledger_score = refl
