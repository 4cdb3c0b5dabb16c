-- ===== src/Policies/Membership.antt =====
-- internal/policies/evaluator.go: what the normalised lists hold. `normalizeUnique` drops blanks and
-- repetitions, so a question about some member has the same answer for the list as it was given.
use change_control_plane.Prelude.{
  fun_ext, String, ◌≡◌, refl, sym, ap, ◌∙◌, Bool, true, false, not, ◌&&◌, ◌||◌, List, [], ◌∷◌, ◌==◌,
  eq_iff, contains, any, is_empty, arith, map, Bool-cases, inl, inr,
}
use change_control_plane.Prelude.Text.{normalized}
use change_control_plane.Prelude.Text.Laws.{normalized_idem}
use change_control_plane.Types.{ChangeSet, Service}
use change_control_plane.Policies.Normal.{unique_from, normalize_unique}
use change_control_plane.Policies.{
  intersect_from, intersect_normalized, touch_matches, matched_required_touches, capability_missing,
  matched_missing_capabilities,
}

any-of-contains :
    (f : String → Bool) (x : String) (xs : List String)
    → contains xs x ≡ true
    → f x ≡ true
    → any f xs ≡ true
any-of-contains f x [] h k = cc
any-of-contains f x (y ∷ ys) h k = elim (Bool-cases (y == x)) [
  | inl same ↦ rw ((eq_iff y x).0 same) (rw k)
  | inr other ↦ ground (arith, any-of-contains f x ys)
]

-- `f` asks about a normal form.
abbrev normal : (String → Bool) → String → Bool
normal f s = f (normalized s)

any-unique_from :
    (f : String → Bool)
    → f "" ≡ false
    → (seen values : List String)
    → any f (unique_from seen values) || any f seen ≡ any (normal f) values || any f seen
unfolding unique_from
any-unique_from f blank seen [] = refl
any-unique_from f blank seen (v ∷ vs) = ground (
  arith,
  blank,
  eq_iff (normalized v) "",
  any-unique_from f blank seen vs,
  any-unique_from f blank (normalized v ∷ seen) vs,
  any-of-contains f (normalized v) seen,
)

or_false : (b : Bool) → b || false ≡ b
or_false true = refl
or_false false = refl

pub any-normalize_unique :
    (f : String → Bool) (values : List String)
    → f "" ≡ false
    → any f (normalize_unique values) ≡ any (normal f) values
unfolding normalize_unique
any-normalize_unique f values blank =
    sym (or_false _) ∙ any-unique_from f blank [] values ∙ or_false _

pub is_given : List String → Bool
is_given = any (λ s. not (normalized s == ""))

-- The normalised list is empty exactly when every value is blank.
pub is_empty-normalize_unique :
    (values : List String) → is_empty (normalize_unique values) ≡ not (is_given values)
unfolding normalize_unique unique_from is_given
is_empty-normalize_unique [] = refl
is_empty-normalize_unique (v ∷ vs) = ground (arith, is_empty-normalize_unique vs)

map-unique_from :
    (seen values : List String) → map normalized (unique_from seen values) ≡ unique_from seen values
unfolding unique_from
map-unique_from seen [] = refl
map-unique_from seen (v ∷ vs) =
    ground
      (arith, normalized_idem v, map-unique_from seen vs, map-unique_from (normalized v ∷ seen) vs)

map-normalize_unique :
    (values : List String) → map normalized (normalize_unique values) ≡ normalize_unique values
unfolding normalize_unique
map-normalize_unique values = map-unique_from [] values

contains-eq-any : (xs : List String) (x : String) → contains xs x ≡ any (λ y. y == x) xs
contains-eq-any [] x = refl
contains-eq-any (y ∷ ys) x = ap (λ b. y == x || b) (contains-eq-any ys x)

-- Some value has the normal form `x`.
abbrev pub given : List String → String → Bool
given values x = any (λ v. normalized v == x) values

contains-normalized :
    (values : List String) (x : String)
    → ("" == x) ≡ false
    → contains (map normalized (normalize_unique values)) x ≡ given values x
contains-normalized values x blank =
    ap (λ xs. contains xs x) (map-normalize_unique values)
    ∙ contains-eq-any (normalize_unique values) x
    ∙ any-normalize_unique (λ y. y == x) values blank

-- Some item has a normal form that is allowed, and is not blank.
abbrev is_allowed : List String → String → Bool
is_allowed allowed item = not (normalized item == "") && contains allowed (normalized item)

is_empty-intersect_from :
    (allowed right : List String)
    → is_empty (intersect_from allowed [] right) ≡ not (any (is_allowed allowed) right)
unfolding intersect_from
is_empty-intersect_from allowed [] = refl
is_empty-intersect_from allowed (item ∷ right) =
    ground (arith, is_empty-intersect_from allowed right)

-- Some value and some item have one normal form, which is not blank.
pub shares : List String → List String → Bool
shares values items =
    any (λ item. not (normalized item == "") && given values (normalized item)) items

blank_sym : (x : String) → (x == "") ≡ false → ("" == x) ≡ false
blank_sym x h = ground (arith, eq_iff x "", eq_iff "" x)

is_allowed-given :
    (values : List String) (item : String)
    → is_allowed (map normalized (normalize_unique values)) item
      ≡ (not (normalized item == "") && given values (normalized item))
is_allowed-given values item = elim (Bool-cases (normalized item == "")) [
  | inl blank ↦ rw blank
  | inr text ↦ rw (contains-normalized values (normalized item) (blank_sym (normalized item) text))
]

pub is_empty-matched_required_touches :
    (required : List String) (change : ChangeSet)
    → is_empty (matched_required_touches required change)
      ≡ not (any (touch_matches change) required)
unfolding matched_required_touches
is_empty-matched_required_touches [] change = refl
is_empty-matched_required_touches (touch ∷ required) change =
    ground (arith, is_empty-matched_required_touches required change)

pub is_empty-matched_missing_capabilities :
    (required : List String) (service : Service)
    → is_empty (matched_missing_capabilities required service)
      ≡ not (any (capability_missing service) required)
unfolding matched_missing_capabilities
is_empty-matched_missing_capabilities [] service = refl
is_empty-matched_missing_capabilities (capability ∷ required) service =
    ground (arith, is_empty-matched_missing_capabilities required service)

any_ext :
    (f g : String → Bool) (xs : List String) → ((x : String) → f x ≡ g x) → any f xs ≡ any g xs
any_ext f g xs h = ap (λ k. any k xs) (fun_ext h)

-- The intersection that the code forms is empty exactly when nothing is shared.
pub is_empty-intersect_normalized :
    (values items : List String)
    → is_given values ≡ true
    → is_empty (intersect_normalized (normalize_unique values) items) ≡ not (shares values items)
unfolding intersect_normalized shares
is_empty-intersect_normalized values [] h = ground arith
is_empty-intersect_normalized values (item ∷ items) h =
    rw (is_empty-normalize_unique values, h)
      (is_empty-intersect_from (map normalized (normalize_unique values)) (item ∷ items)
        ∙ ap not (any_ext _ _ (item ∷ items) (is_allowed-given values)))
