-- ===== src/Prelude/Format.antt =====
-- Go's `fmt.Sprintf` for the verbs that the program uses: `%d`, `%q`, `%0.3f` and `%0.0f`. A float
-- is a number of thousandths, so `%0.3f` is exact; `%0.0f` rounds half to even. `%q` puts the
-- quotes and escapes nothing: it is exact for texts without quotes, backslashes and unprintables.
use Prim.Native.Nat.{ℕ, zero, suc, ◌+◌, ◌/◌, ◌%◌, ◌<◌}
use Prim.Native.Char.{Char, char}
use Prim.Native.String
use Prim.Native.String.{String}
use mathlib.Core.Path.{◌≡◌, refl}
use mathlib.Core.Bool.{◌&&◌, ◌||◌}
use mathlib.Core.List.{List, [], ◌∷◌}
use native.Mathlib.Omega.{arith}
use change_control_plane.Prelude.Tests.{ltb, eqb, if◌then◌else◌}
use change_control_plane.Prelude.Int.{ℤ, pos, negsuc}
use change_control_plane.Prelude.Text.{small-IsScalar}

-- The texts of a message, one after the other.
unfoldable pub concat : List String → String
concat [] = ""
concat (s ∷ rest) = String.◌++◌ s (concat rest)

pub digit_small : (n : ℕ) → 48 + n % 10 < 55296
digit_small n = omega arith

digit : ℕ → Char
digit n = char (48 + n % 10) (small-IsScalar _ (digit_small n))

-- One round for each digit; `suc n` rounds are enough.
digits_from : ℕ → ℕ → String → String
unfolding digit
digits_from zero n acc = acc
digits_from (suc rounds) n acc =
    let shorter = digits_from rounds (n / 10) (String.◌∷◌ (digit n) acc) in
    if ltb n 10 then String.◌∷◌ (digit n) acc else shorter

unfoldable pub show_nat : ℕ → String
unfolding digits_from
show_nat n = digits_from (suc n) n ""

-- `%d`
unfoldable pub show_int : ℤ → String
unfolding show_nat
show_int (pos n) = show_nat n
show_int (negsuc n) = String.◌++◌ "-" (show_nat (suc n))

-- `%q`
unfoldable pub quoted : String → String
quoted s = String.◌++◌ "\"" (String.◌++◌ s "\"")

-- Three digits.
padded : ℕ → String
unfolding digit
padded n =
    String.◌∷◌ (digit (n / 100)) (String.◌∷◌ (digit (n / 10)) (String.◌∷◌ (digit n) String.[]))

thousandths : ℕ → String
unfolding show_nat padded
thousandths n = String.◌++◌ (show_nat (n / 1000)) (String.◌++◌ "." (padded n))

-- `%0.3f`
unfoldable pub fixed3 : ℤ → String
unfolding thousandths
fixed3 (pos n) = thousandths n
fixed3 (negsuc n) = String.◌++◌ "-" (thousandths (suc n))

rounded : ℕ → ℕ
rounded n =
    let whole = n / 1000 in
    let rest = n % 1000 in
    if ltb rest 500 || (eqb rest 500 && eqb (whole % 2) 0) then whole else whole + 1

-- `%0.0f`
unfoldable pub fixed0 : ℤ → String
unfolding show_nat rounded
fixed0 (pos n) = show_nat (rounded n)
fixed0 (negsuc n) = String.◌++◌ "-" (show_nat (rounded (suc n)))

show_int_test : concat ("+" ∷ show_int (pos 120) ∷ " " ∷ show_int (negsuc 6) ∷ []) ≡ "+120 -7"
unfolding concat show_int
show_int_test = refl

fixed3_test : concat (fixed3 (pos 12034) ∷ " " ∷ fixed0 (pos 2500) ∷ []) ≡ "12.034 2"
unfolding concat fixed3 fixed0
fixed3_test = refl
