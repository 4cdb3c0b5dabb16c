-- ===== src/Prelude/Text/Search.antt =====
-- Go's `strings`: `HasPrefix`, `Contains`, and `ReplaceAll` of one character.
use Prim.Native.Nat.{ℕ}
use Prim.Native.Char.{code}
use Prim.Native.String
use Prim.Native.String.{String}
use mathlib.Core.Path.{◌≡◌, refl}
use mathlib.Core.Bool.{Bool, true, false, ◌&&◌, ◌||◌}
use mathlib.Core.List.{List, [], ◌∷◌}
use change_control_plane.Prelude.Tests.{eqb, if◌then◌else◌}

abbrev pub has_prefix : (s prefix : String) → Bool
has_prefix s String.[] = true
has_prefix String.[] (String.◌∷◌ d t) = false
has_prefix (String.◌∷◌ c s) (String.◌∷◌ d t) = eqb (code c) (code d) && has_prefix s t

unfoldable pub contains_text : (s part : String) → Bool
contains_text String.[] part = has_prefix String.[] part
contains_text (String.◌∷◌ c s) part = has_prefix (String.◌∷◌ c s) part || contains_text s part

-- One of the parts is in the text.
unfoldable pub contains_one_of : (s : String) → List String → Bool
unfolding contains_text
contains_one_of s [] = false
contains_one_of s (part ∷ parts) = contains_text s part || contains_one_of s parts

-- Every character with this code becomes a blank.
unfoldable pub blanked : ℕ → String → String
blanked wanted String.[] = String.[]
blanked wanted (String.◌∷◌ c s) =
    let rest = blanked wanted s in
    if eqb (code c) wanted then String.◌++◌ " " rest else String.◌∷◌ c rest

search_test : contains_text "rollout.execution" "t.e" ≡ true
unfolding contains_text
search_test = refl

blanked_test : blanked b'.' "policy.created.now" ≡ "policy created now"
unfolding blanked
blanked_test = refl
