-- ===== src/App/Store/Listing.antt =====
-- internal/app/store.go: what the sorted listings hold, and in which order.
use change_control_plane.Prelude.{
  String, ◌≡◌, refl, ◌∙◌, Bool, true, false, ◌&&◌, ◌||◌, List, [], ◌∷◌, arith, Bool-cases, inl, inr,
  if◌then◌else◌, Assoc, any, All, All-map, ltb,
}
use change_control_plane.Types.{Time, Policy}
use change_control_plane.App.Store.{
  put_before, sort_stable, filter_values, filter_sorted_values, PolicyQuery, policy_fits,
  policies_of, policy_before,
}

module _ {A : Type 0} where
  any-put_before :
      (f : A → Bool) (before : A → A → Bool) (x : A) (xs : List A)
      → any f (put_before before x xs) ≡ (f x || any f xs)
  unfolding put_before
  any-put_before f before x [] = refl
  any-put_before f before x (y ∷ ys) = ground (arith, any-put_before f before x ys)

  pub any-sort_stable :
      (f : A → Bool) (before : A → A → Bool) (xs : List A)
      → any f (sort_stable before xs) ≡ any f xs
  unfolding sort_stable
  any-sort_stable f before [] = refl
  any-sort_stable f before (x ∷ xs) =
      ground (arith, any-put_before f before x (sort_stable before xs), any-sort_stable f before xs)

  any-filter_values :
      (f match : A → Bool) (items : Assoc A)
      → any f (filter_values match items) ≡ any (λ (e : String × A). match e.1 && f e.1) items
  unfolding filter_values
  any-filter_values f match [] = refl
  any-filter_values f match (entry ∷ items) = ground (arith, any-filter_values f match items)

  -- A question about some listed item is one about some entry that matches.
  pub any-filter_sorted_values :
      (f : A → Bool) (created_at : A → Time) (match : A → Bool) (items : Assoc A)
      → any f (filter_sorted_values created_at match items)
        ≡ any (λ (e : String × A). match e.1 && f e.1) items
  unfolding filter_sorted_values
  any-filter_sorted_values f created_at match items =
      any-sort_stable f (λ x y. ltb (created_at x) (created_at y)) (filter_values match items)
      ∙ any-filter_values f match items

  put_before-All :
      (P : A → Type 0) (before : A → A → Bool) (x : A) (xs : List A)
      → P x
      → All P xs
      → All P (put_before before x xs)
  unfolding put_before
  put_before-All P before x [] p ps = (p, tt)
  put_before-All P before x (y ∷ ys) p (q, qs) = elim (Bool-cases (before y x)) [
    | inl h ↦ rw h (q, put_before-All P before x ys p qs)
    | inr h ↦ rw h (p, (q, qs))
  ]

  -- No item of the list comes before an item that stands ahead of it.
  pub IsOrdered : (A → A → Bool) → List A → Type 0
  IsOrdered before [] = Unit
  IsOrdered before (x ∷ xs) = All (λ y. before y x ≡ false) xs × IsOrdered before xs

  -- What a sort needs of its order.
  pub record IsWeakOrder (before : A → A → Bool) : Type 0 where
    pub asymmetric : (x y : A) → before x y ≡ true → before y x ≡ false
    pub transitive : (x y z : A) → before y x ≡ false → before z y ≡ false → before z x ≡ false

  module _ {before : A → A → Bool} (order : IsWeakOrder before) where
    put_before-IsOrdered :
        (x : A) (xs : List A) → IsOrdered before xs → IsOrdered before (put_before before x xs)
    unfolding put_before IsOrdered
    put_before-IsOrdered x [] h = (tt, tt)
    put_before-IsOrdered x (y ∷ ys) (below, h) = elim (Bool-cases (before y x)) [
      | inl first ↦ rw first (
        put_before-All (λ z. before z y ≡ false) before x ys (order.asymmetric y x first) below,
        put_before-IsOrdered x ys h,
      )
      | inr last ↦
          rw last ((last, All-map ys (λ z k. order.transitive x y z last k) below), (below, h))
    ]

    pub sort_stable-IsOrdered : (xs : List A) → IsOrdered before (sort_stable before xs)
    unfolding sort_stable IsOrdered
    sort_stable-IsOrdered [] = tt
    sort_stable-IsOrdered (x ∷ xs) =
        put_before-IsOrdered x (sort_stable before xs) (sort_stable-IsOrdered xs)

  -- First by one order, then by another.
  unfoldable pub lexical : (first second : A → A → Bool) → A → A → Bool
  lexical first second x y = if first x y then true else if first y x then false else second x y

  pub lexical-IsWeakOrder :
      {first second : A → A → Bool}
      → IsWeakOrder first
      → IsWeakOrder second
      → IsWeakOrder (lexical first second)
  unfolding lexical
  lexical-IsWeakOrder a b = record {
    asymmetric = λ x y h. ground (arith, a.asymmetric x y, a.asymmetric y x, b.asymmetric x y);
    transitive = λ x y z h k.
        ground
          (arith, a.transitive x y z, a.transitive y z x, a.transitive z x y, b.transitive x y z);
  }

-- A question about some listed policy is one about some stored policy that the query asks for.
pub any-policies_of :
    (f : Policy → Bool) (query : PolicyQuery) (policies : Assoc Policy)
    → any f (policies_of query policies)
      ≡ any (λ (e : String × Policy). policy_fits query e.1 && f e.1) policies
any-policies_of f query policies =
    any-sort_stable f policy_before
      (filter_sorted_values (λ (p : Policy). p.created_at) (policy_fits query) policies)
    ∙ any-filter_sorted_values f (λ (p : Policy). p.created_at) (policy_fits query) policies
