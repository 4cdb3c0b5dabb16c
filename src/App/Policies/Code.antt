-- ===== src/App/Policies/Code.antt =====
-- internal/app/policies.go: `normalizePolicyCode`, which makes a code of small letters, digits and single
-- dashes.
use Prim.Native.Char.{code}
use Prim.Native.String
use change_control_plane.Prelude.{
  ℕ, String, ◌≡◌, refl, Bool, true, false, not, ◌&&◌, ◌||◌, ◌==◌, if◌then◌else◌, eqb, leb,
}
use change_control_plane.Prelude.Text.{trim, lower, is_nil}

-- `r >= 'a' && r <= 'z'`, `r >= '0' && r <= '9'`
abbrev pub is_code_character : ℕ → Bool
is_code_character n = (leb b'a' n && leb n b'z') || (leb b'0' n && leb n b'9')

-- The loop: has something been written, and is the last character written a dash?
unfoldable pub dashed : (started last_dash : Bool) → String → String
dashed started last_dash String.[] = String.[]
dashed started last_dash (String.◌∷◌ c s) =
    let kept = String.◌∷◌ c (dashed true false s) in
    let skipped = dashed started last_dash s in
    let parted = String.◌++◌ "-" (dashed true true s) in
    if is_code_character (code c)
    then kept
    else if not started || last_dash
    then skipped
    else parted

abbrev pub is_dash : ℕ → Bool
is_dash n = eqb n b'-'

unfoldable pub trim_left_dash : String → String
trim_left_dash String.[] = String.[]
trim_left_dash (String.◌∷◌ c s) = if is_dash (code c) then trim_left_dash s else String.◌∷◌ c s

unfoldable pub trim_right_dash : String → String
trim_right_dash String.[] = String.[]
trim_right_dash (String.◌∷◌ c s) =
    let rest = trim_right_dash s in
    if is_dash (code c) && is_nil rest then String.[] else String.◌∷◌ c rest

unfoldable pub normalize_policy_code : (code name : String) → String
unfolding trim lower dashed trim_left_dash trim_right_dash
normalize_policy_code code name =
    let source = if trim code == "" then trim name else trim code in
    trim_right_dash (trim_left_dash (dashed false false (lower source)))

normalize_policy_code_test :
    normalize_policy_code "" " Prod: High-Risk  (v2)! " ≡ "prod-high-risk-v2"
unfolding normalize_policy_code
normalize_policy_code_test = refl
