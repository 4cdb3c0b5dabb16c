-- ===== src/Prelude/Lists.antt =====
-- Lists and association lists: Go's slices and maps.
use Prim.Native.Nat.{ℕ, suc, ◌+◌}
use Prim.Native.String.{String}
use mathlib.Core.Path.{◌≡◌, refl, subst, ap}
use mathlib.Core.Logic.{inl, inr}
use mathlib.Core.Bool.{Bool, true, false, ◌&&◌, ◌||◌}
use mathlib.Core.Option.{Option, none, some, some-injective}
use mathlib.Core.List.{List, [], ◌∷◌, ◌++◌}
use native.Mathlib.Omega.{arith}
use text.Mathlib.Text.{◌==◌}
use text.Mathlib.TextEquality.{eq_iff}
use change_control_plane.Prelude.Tests.{if◌then◌else◌, Bool-cases}

module _ {ℓ} {A : Type ℓ} where
  abbrev pub length : List A → ℕ
  length [] = 0
  length (x ∷ xs) = suc (length xs)

  -- `len(items) == 0`
  abbrev pub is_empty : List A → Bool
  is_empty [] = true
  is_empty (x ∷ xs) = false

  -- `items[len(items)-1]`, if there is one
  abbrev pub last? : List A → Option A
  last? [] = none
  last? (x ∷ []) = some x
  last? (x ∷ y ∷ xs) = last? (y ∷ xs)

  abbrev pub all : (A → Bool) → List A → Bool
  all p [] = true
  all p (x ∷ xs) = p x && all p xs

  abbrev pub any : (A → Bool) → List A → Bool
  any p [] = false
  any p (x ∷ xs) = p x || any p xs

  -- `append(items, x)` under a condition
  abbrev pub append_if : Bool → List A → List A → List A
  append_if true more items = items ++ more
  append_if false more items = items

  pub last?-append : (xs : List A) (x : A) → last? (xs ++ x ∷ []) ≡ some x
  last?-append [] x = refl
  last?-append (y ∷ []) x = refl
  last?-append (y ∷ z ∷ xs) x = last?-append (z ∷ xs) x

  pub last?-split : (xs : List A) (x : A) → last? xs ≡ some x → (ys : List A) × (xs ≡ ys ++ x ∷ [])
  last?-split [] x h = cc
  last?-split (y ∷ []) x h = ([], ap (λ z. z ∷ []) (some-injective _ _ h))
  last?-split (y ∷ z ∷ xs) x h =
      let rest = last?-split (z ∷ xs) x h in (y ∷ rest.0, ap (λ zs. y ∷ zs) rest.1)

  pub length-append : (xs ys : List A) → length (xs ++ ys) ≡ length xs + length ys
  length-append [] ys = omega arith
  length-append (x ∷ xs) ys = omega (arith, length-append xs ys)

abbrev pub All {ℓ κ} : {A : Type ℓ} → (A → Type κ) → List A → Type κ
All P [] = Unit
All P (x ∷ xs) = P x × All P xs

pub All-map {ℓ κ μ} :
    {A : Type ℓ} {P : A → Type κ} {Q : A → Type μ} (xs : List A)
    → ((x : A) → P x → Q x)
    → All P xs
    → All Q xs
All-map [] f h = tt
All-map (x ∷ xs) f (h, hs) = (f x h, All-map xs f hs)

-- `slices.Contains`
abbrev pub contains : List String → String → Bool
contains [] s = false
contains (x ∷ xs) s = x == s || contains xs s

-- `slices.Equal`
abbrev pub slices_equal : List String → List String → Bool
slices_equal [] [] = true
slices_equal (x ∷ xs) (y ∷ ys) = x == y && slices_equal xs ys
slices_equal _ _ = false

-- A Go map from texts, as an association list: the first entry of a key counts.
abbrev pub Assoc {ℓ} : Type ℓ → Type ℓ
Assoc V = List (String × V)

module _ {ℓ} {V : Type ℓ} where
  abbrev pub lookup : String → Assoc V → Option V
  lookup key [] = none
  lookup key (entry ∷ entries) = if entry.0 == key then some entry.1 else lookup key entries

  -- `entries[key] = value`: the first entry of the key is changed, or a new one is put last.
  abbrev pub insert : Assoc V → String → V → Assoc V
  insert [] key value = (key, value) ∷ []
  insert (entry ∷ entries) key value =
      if entry.0 == key then (entry.0, value) ∷ entries else entry ∷ insert entries key value

  -- `delete(entries, key)`
  abbrev pub remove : Assoc V → String → Assoc V
  remove [] key = []
  remove (entry ∷ entries) key =
      let rest = remove entries key in if entry.0 == key then rest else entry ∷ rest

  pub lookup-insert :
      (entries : Assoc V) (key wanted : String) (value : V)
      → lookup wanted (insert entries key value)
        ≡ (if key == wanted then some value else lookup wanted entries)
  lookup-insert [] key wanted value = refl
  lookup-insert (entry ∷ entries) key wanted value =
      let rest = lookup-insert entries key wanted value in
      ground (arith, rest, eq_iff entry.0 key, eq_iff entry.0 wanted, eq_iff key wanted)

  -- What holds of every entry of a table holds of the entry that is found.
  pub lookup_All {κ} :
      (P : String → V → Type κ) (k : String) (m : Assoc V) (v : V)
      → All (λ (e : String × V). P e.0 e.1) m
      → lookup k m ≡ some v
      → P k v
  lookup_All P k [] v h e = cc
  lookup_All P k ((j, w) ∷ m) v (h, hs) e = elim (Bool-cases (j == k)) [
    | inl same ↦
        let found : w ≡ v = ground arith in
        subst (λ x. P x v) ((eq_iff j k).0 same) (subst (λ x. P j x) found h)
    | inr other ↦ lookup_All P k m v hs (rw other at e)
  ]
