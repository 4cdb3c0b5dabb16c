-- ===== src/App/Store/Paging.antt =====
-- internal/app/store.go: the pages of `paginate`.
use change_control_plane.Prelude.{
  ℕ, zero, suc, ◌+◌, ◌-◌, ◌≤◌, ◌<◌, ◌≡◌, ◌↔◌, refl, true, none, some, List, [], ◌∷◌, ◌++◌, arith,
  length, leb, ltb, if◌then◌else◌, ap, sym, ◌∙◌, Bool-cases, inl, inr, leb→le,
}
use change_control_plane.Prelude.Int.{pos, ◌+ℤ◌, ltb_ℤ, int64, half64}
use change_control_plane.App.Store.{drop, take, page_end, paginate}

page_end_fits :
    (count start limit : ℕ)
    → start + limit < half64
    → page_end count start (pos limit)
      ≡ (if ltb count (start + limit) then pos count else pos (start + limit))
unfolding int64 ◌+ℤ◌
page_end_fits count start limit h = ground arith

page_end_wraps :
    (count start limit : ℕ)
    → start < half64
    → limit < half64
    → half64 ≤ start + limit
    → ltb_ℤ (page_end count start (pos limit)) (pos start) ≡ true
unfolding int64 ◌+ℤ◌
page_end_wraps count start limit h k w = ground arith

suc_add : (m n : ℕ) → suc (m + n) ≡ suc m + n
suc_add m n = omega arith

module _ {A : Type 0} where
  drop-all : (n : ℕ) (xs : List A) → length xs ≤ n → drop n xs ≡ []
  drop-all zero [] h = refl
  drop-all zero (x ∷ xs) h = ground arith
  drop-all (suc n) [] h = refl
  drop-all (suc n) (x ∷ xs) h = drop-all n xs (ground arith)

  length-drop : (n : ℕ) (xs : List A) → length (drop n xs) ≡ length xs - n
  length-drop zero xs = ground arith
  length-drop (suc n) [] = ground arith
  length-drop (suc n) (x ∷ xs) = ground (arith, length-drop n xs)

  take-all : (n : ℕ) (xs : List A) → length xs ≤ n → take n xs ≡ xs
  take-all zero [] h = refl
  take-all zero (x ∷ xs) h = ground arith
  take-all (suc n) [] h = refl
  take-all (suc n) (x ∷ xs) h = ap (◌∷◌ x) (take-all n xs (ground arith))

  length-take : (n : ℕ) (xs : List A) → length (take n xs) ≤ n
  length-take zero xs = omega arith
  length-take (suc n) [] = omega arith
  length-take (suc n) (x ∷ xs) = omega (arith, length-take n xs)

  take-drop : (n : ℕ) (xs : List A) → take n xs ++ drop n xs ≡ xs
  take-drop zero xs = refl
  take-drop (suc n) [] = refl
  take-drop (suc n) (x ∷ xs) = ap (◌∷◌ x) (take-drop n xs)

  drop-nil : (n : ℕ) → drop {A = A} n [] ≡ []
  drop-nil zero = refl
  drop-nil (suc n) = refl

  drop-drop : (m n : ℕ) (xs : List A) → drop n (drop m xs) ≡ drop (m + n) xs
  drop-drop zero n xs = ground arith
  drop-drop (suc m) n [] = drop-nil n ∙ sym (drop-nil (suc m + n))
  drop-drop (suc m) n (x ∷ xs) = drop-drop m n xs ∙ ap (λ k. drop k (x ∷ xs)) (suc_add m n)

  -- Without a limit, the rest of the list.
  pub paginate-rest :
      (items : List A) (offset : ℕ) → paginate items (pos offset) (pos 0) ≡ some (drop offset items)
  unfolding paginate
  paginate-rest items offset = elim (Bool-cases (leb (length items) offset)) [
    | inl past ↦ rw (past, drop-all offset items (leb→le _ _ past))
    | inr inside ↦ rw inside
  ]

  paginate-window :
      (items : List A) (offset limit : ℕ)
      → offset + suc limit < half64
      → paginate items (pos offset) (pos (suc limit)) ≡ some (take (suc limit) (drop offset items))
  unfolding paginate
  paginate-window items offset limit h = elim (Bool-cases (leb (length items) offset)) [
    | inl past ↦ rw (past, drop-all offset items (leb→le _ _ past))
    | inr inside ↦
        rw (inside, page_end_fits (length items) offset (suc limit) h)
          (elim (Bool-cases (ltb (length items) (offset + suc limit))) [
            | inl short ↦ rw short (
                ground (
                  arith,
                  take-all (length items - offset) (drop offset items)
                      (omega (arith, length-drop offset items)),
                  take-all (suc limit) (drop offset items)
                      (ground (arith, length-drop offset items)),
                ))
            | inr full ↦ rw full (ground arith)
          ])
  ]

  -- A page and the listing from its end make up the listing from its start, in order, and a page
  -- is not longer than its limit. The end of the page is below 2 ^ 63.
  pub paginate-append :
      (items : List A) (offset limit : ℕ)
      → 1 ≤ limit
      → offset + limit < half64
      → (page rest : List A) × (paginate items (pos offset) (pos limit) ≡ some page)
        × (paginate items (pos (offset + limit)) (pos 0) ≡ some rest)
        × (paginate items (pos offset) (pos 0) ≡ some (page ++ rest))
        × (length page ≤ limit)
  paginate-append items offset zero h fit = let bad : ⊥ = omega arith in elim bad [ ]
  paginate-append items offset (suc limit) h fit =
      let from = drop offset items in
      (
        take (suc limit) from,
        drop (offset + suc limit) items,
        paginate-window items offset limit fit,
        paginate-rest items (offset + suc limit),
        paginate-rest items offset
            ∙ ap some (
                sym (take-drop (suc limit) from)
                ∙ ap (◌++◌ (take (suc limit) from)) (drop-drop offset (suc limit) items)),
        length-take (suc limit) from,
      )

  -- For a positive limit `paginate` panics exactly where the page starts inside the list and its
  -- end is 2 ^ 63 or more.
  pub paginate-eq-none_iff :
      (items : List A) (offset limit : ℕ)
      → 1 ≤ limit
      → limit < half64
      → offset < half64
      → (paginate items (pos offset) (pos limit) ≡ none)
        ↔ ((offset < length items) × (half64 ≤ offset + limit))
  unfolding paginate
  paginate-eq-none_iff items offset zero h k j = let bad : ⊥ = omega arith in elim bad [ ]
  paginate-eq-none_iff items offset (suc limit) h k j =
      elim (Bool-cases (leb half64 (offset + suc limit))) [
        | inl wraps ↦ ground (arith, page_end_wraps (length items) offset (suc limit))
        | inr fits ↦ rw (paginate-window items offset limit (ground arith)) (ground arith)
      ]
