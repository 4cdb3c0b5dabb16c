-- ===== src/Prelude/Text.antt =====
-- Go's `strings`: `ToLower`, `TrimSpace`, `EqualFold`, `Join`.
-- `lower` maps the ASCII capitals and leaves all other characters alone, where `strings.ToLower`
-- follows Unicode; `is_space` is the whole of `unicode.IsSpace`.
pub mod Laws
pub mod Search
use Prim.Native.Nat.{ℕ, ◌+◌, ◌<◌, compare, Ordering}
use Prim.Native.Char.{Char, char, code, IsScalar}
use Prim.Native.String
use Prim.Native.String.{String}
use mathlib.Core.Path.{◌≡◌, refl}
use mathlib.Core.Bool.{Bool, true, false, ◌&&◌, ◌||◌}
use mathlib.Core.List.{List, [], ◌∷◌}
use native.Mathlib.Omega.{arith}
use text.Mathlib.Text.{◌==◌}
use change_control_plane.Prelude.Tests.{leb, ltb, eqb, if◌then◌else◌}

compare_of_lt : (n m : ℕ) → n < m → compare n m ≡ Ordering.lt
compare_of_lt n m h = ground arith

pub small-IsScalar : (n : ℕ) → n < 55296 → IsScalar n
small-IsScalar n h = rw (compare_of_lt n 55296 h) tt

abbrev pub is_upper : ℕ → Bool
is_upper n = leb b'A' n && leb n b'Z'

pub upper_small : (n : ℕ) → is_upper n ≡ true → n + 32 < 55296
upper_small n h = ground arith

-- A capital moves by 32; the last argument says that the result is a character.
unfoldable pub shift : (c : Char) (b : Bool) → (b ≡ true → IsScalar (code c + 32)) → Char
shift c true p = char (code c + 32) (p refl)
shift c false p = c

unfoldable pub lower_char : Char → Char
unfolding shift
lower_char c = shift c (is_upper (code c)) (λ h. small-IsScalar _ (upper_small (code c) h))

unfoldable pub lower : String → String
unfolding lower_char
lower String.[] = String.[]
lower (String.◌∷◌ c s) = String.◌∷◌ (lower_char c) (lower s)

abbrev pub is_space : ℕ → Bool
is_space n =
    (leb 9 n && leb n 13)
    || eqb n 32
    || eqb n 133
    || eqb n 160
    || eqb n 5760
    || (leb 8192 n && leb n 8202)
    || eqb n 8232
    || eqb n 8233
    || eqb n 8239
    || eqb n 8287
    || eqb n 12288

abbrev pub is_nil : String → Bool
is_nil String.[] = true
is_nil (String.◌∷◌ c s) = false

unfoldable pub trim_left : String → String
trim_left String.[] = String.[]
trim_left (String.◌∷◌ c s) = if is_space (code c) then trim_left s else String.◌∷◌ c s

unfoldable pub trim_right : String → String
trim_right String.[] = String.[]
trim_right (String.◌∷◌ c s) =
    let rest = trim_right s in
    if is_space (code c) && is_nil rest then String.[] else String.◌∷◌ c rest

unfoldable pub trim : String → String
unfolding trim_left trim_right
trim s = trim_right (trim_left s)

-- `strings.TrimSpace(strings.ToLower(s))`
unfoldable pub normalized : String → String
unfolding lower trim
normalized s = trim (lower s)

-- `strings.TrimSpace(s) == ""`
unfoldable pub is_blank : String → Bool
unfolding trim
is_blank s = trim s == ""

unfoldable pub equal_fold : String → String → Bool
unfolding lower
equal_fold s t = lower s == lower t

-- `strings.Join`
unfoldable pub join : List String → String → String
join [] sep = ""
join (s ∷ []) sep = s
join (s ∷ t ∷ more) sep = String.◌++◌ s (String.◌++◌ sep (join (t ∷ more) sep))

-- The order of texts, by their characters.
abbrev pub text_ltb : String → String → Bool
text_ltb s String.[] = false
text_ltb String.[] (String.◌∷◌ d t) = true
text_ltb (String.◌∷◌ c s) (String.◌∷◌ d t) =
    let rest = text_ltb s t in if eqb (code c) (code d) then rest else ltb (code c) (code d)

-- `strings.Split` at one character: always at least one piece.
abbrev pub first_joined : Char → List String → List String
first_joined c [] = []
first_joined c (piece ∷ pieces) = String.◌∷◌ c piece ∷ pieces

unfoldable pub split_at : ℕ → String → List String
split_at separator String.[] = "" ∷ []
split_at separator (String.◌∷◌ c s) =
    let rest = split_at separator s in
    if eqb (code c) separator then "" ∷ rest else first_joined c rest

split_at_test : split_at b'_' "ccpt_a__b" ≡ "ccpt" ∷ "a" ∷ "" ∷ "b" ∷ []
unfolding split_at
split_at_test = refl

normalized_test : normalized " Rollout_PLAN \t" ≡ "rollout_plan"
unfolding normalized
normalized_test = refl
