-- ===== src/Prelude/Text/Laws.antt =====
-- Lower case and trimming are idempotent, and commute.
use Prim.Native.Nat.{◌+◌}
use Prim.Native.Char.{Char, code, IsScalar}
use Prim.Native.String.{String}
use mathlib.Core.Path.{◌≡◌, refl, ap, ap₂, ◌∙◌}
use mathlib.Core.Bool.{Bool, true, false, ◌&&◌}
use mathlib.Core.Logic.{inl, inr}
use native.Mathlib.Omega.{arith}
use text.Mathlib.TextEquality.{Char-path}
use change_control_plane.Prelude.Tests.{if◌then◌else◌, Bool-cases}
use change_control_plane.Prelude.Text.{
  is_upper, shift, lower_char, lower, is_space, is_nil, trim_left, trim_right, trim, normalized,
}

code-shift :
    (c : Char) (b : Bool) (p : b ≡ true → IsScalar (code c + 32))
    → code (shift c b p) ≡ (if b then code c + 32 else code c)
unfolding shift
code-shift c true p = refl
code-shift c false p = refl

code-lower_char :
    (c : Char) → code (lower_char c) ≡ (if is_upper (code c) then code c + 32 else code c)
unfolding lower_char
code-lower_char c = code-shift c (is_upper (code c)) _

is_upper-lower_char : (c : Char) → is_upper (code (lower_char c)) ≡ false
is_upper-lower_char c = ground (arith, code-lower_char c)

is_space-lower_char : (c : Char) → is_space (code (lower_char c)) ≡ is_space (code c)
is_space-lower_char c = elim (Bool-cases (is_upper (code c))) [
  | inl up ↦ ground (arith, code-lower_char c)
  | inr low ↦ ap is_space {y = code c} (code-lower_char c ∙ (rw low))
]

lower_char_idem : (c : Char) → lower_char (lower_char c) ≡ lower_char c
lower_char_idem c = Char-path _ _ (code-lower_char (lower_char c) ∙ rw (is_upper-lower_char c))

pub lower_idem : (s : String) → lower (lower s) ≡ lower s
unfolding lower
lower_idem String.[] = refl
lower_idem (String.◌∷◌ c s) = ap₂ String.◌∷◌ (lower_char_idem c) (lower_idem s)

trim_left-lower : (s : String) → trim_left (lower s) ≡ lower (trim_left s)
unfolding lower trim_left
trim_left-lower String.[] = refl
trim_left-lower (String.◌∷◌ c s) =
    rw (is_space-lower_char c) (elim (Bool-cases (is_space (code c))) [
      | inl sp ↦ rw sp (trim_left-lower s)
      | inr no_sp ↦ rw no_sp
    ])

is_nil-lower : (s : String) → is_nil (lower s) ≡ is_nil s
unfolding lower
is_nil-lower String.[] = refl
is_nil-lower (String.◌∷◌ c s) = refl

trim_right-lower : (s : String) → trim_right (lower s) ≡ lower (trim_right s)
unfolding lower trim_right
trim_right-lower String.[] = refl
trim_right-lower (String.◌∷◌ c s) =
    rw (is_space-lower_char c, trim_right-lower s, is_nil-lower (trim_right s))
      (elim (Bool-cases (is_space (code c) && is_nil (trim_right s))) [
        | inl e ↦ rw e
        | inr e ↦ rw e
      ])

pub trim-lower : (s : String) → trim (lower s) ≡ lower (trim s)
unfolding trim
trim-lower s = rw (trim_left-lower s) (trim_right-lower (trim_left s))

trim_right_idem : (s : String) → trim_right (trim_right s) ≡ trim_right s
unfolding trim_right
trim_right_idem String.[] = refl
trim_right_idem (String.◌∷◌ c s) = elim (Bool-cases (is_space (code c) && is_nil (trim_right s))) [
  | inl e ↦ rw e
  | inr e ↦ rw e (rw (trim_right_idem s, e))
]

trim_left_idem : (s : String) → trim_left (trim_left s) ≡ trim_left s
unfolding trim_left
trim_left_idem String.[] = refl
trim_left_idem (String.◌∷◌ c s) = elim (Bool-cases (is_space (code c))) [
  | inl e ↦ rw e (trim_left_idem s)
  | inr e ↦ rw (e, trim_left) (rw e)
]

trim_left-trim_right :
    (s : String) → trim_left (trim_right (trim_left s)) ≡ trim_right (trim_left s)
unfolding trim_left trim_right
trim_left-trim_right String.[] = refl
trim_left-trim_right (String.◌∷◌ c s) = elim (Bool-cases (is_space (code c))) [
  | inl e ↦ rw e (trim_left-trim_right s)
  | inr e ↦ rw (e, trim_right) (rw (e, trim_left) (rw e))
]

pub trim_idem : (s : String) → trim (trim s) ≡ trim s
unfolding trim
trim_idem s = rw (trim_left-trim_right s) (trim_right_idem (trim_left s))

-- Normalising a text a second time changes nothing.
pub normalized_idem : (s : String) → normalized (normalized s) ≡ normalized s
unfolding normalized
normalized_idem s = rw (← trim-lower (lower s), lower_idem s) (trim_idem (lower s))
