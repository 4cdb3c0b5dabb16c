-- ===== src/App/Policies/Unique.antt =====
-- internal/app/policies.go: no two policies of an organization have the same code.
use change_control_plane.Prelude.{
  String, ◌≡◌, refl, sym, ◌∙◌, ap, subst, Bool, true, false, not, ◌&&◌, ◌||◌, some, some-injective,
  false≢true, ◌⊎◌, [], ◌∷◌, ◌==◌, eq_iff, Assoc, lookup, insert, lookup-insert, any, arith,
  Bool-cases, inl, inr,
}
use change_control_plane.Prelude.Text.{equal_fold, lower}
use change_control_plane.Types.{Policy}
use change_control_plane.App.{Tables}
use change_control_plane.App.Meets.{meets_failed, Reads, found_rule, require_end_rule}
use change_control_plane.App.Store.{
  PolicyQuery, zero_policy_query, policy_fits, policies_of, paginate, list_policies,
}
use change_control_plane.App.Store.Listing.{any-policies_of}
use change_control_plane.App.Store.Paging.{paginate-rest}
use change_control_plane.App.Policies.{takes_code, ensure_policy_code_unique}

abbrev of_organization : String → PolicyQuery
of_organization organization_id = record zero_policy_query { organization_id = organization_id }

-- No other policy of the organization has the code.
pub IsFree : (policies : Assoc Policy) (organization_id current_policy_id code : String) → Type 0
IsFree policies organization_id current_policy_id code =
    any
      (λ (e : String × Policy).
        policy_fits (of_organization organization_id) e.1 && takes_code current_policy_id code e.1)
      policies
    ≡ false

pub ensure_policy_code_unique-IsFree :
    (t : Tables) (organization_id current_policy_id code : String)
    → Reads t
        (λ _. IsFree t.policies organization_id current_policy_id code)
        (ensure_policy_code_unique organization_id current_policy_id code t)
unfolding ensure_policy_code_unique list_policies IsFree
ensure_policy_code_unique-IsFree t o current code =
    let query = of_organization o in
    let f = takes_code current code in
    found_rule (paginate (policies_of query t.policies) query.offset query.limit) _ _ (λ h. refl)
      λ items listed.
        require_end_rule (not (any f items)) _
          (λ free. (
            refl,
            sym (any-policies_of f query t.policies)
                ∙ ap (any f) (
                    some-injective _ _
                      (sym (paginate-rest (policies_of query t.policies) 0) ∙ listed))
                ∙ ground arith,
          ))
          (λ h. meets_failed refl)

-- Of what holds of no entry, the entry found is no exception.
any-lookup :
    (f : Policy → Bool) (k : String) (m : Assoc Policy) (v : Policy)
    → any (λ (e : String × Policy). f e.1) m ≡ false
    → lookup k m ≡ some v
    → f v ≡ false
any-lookup f k [] v h e = cc
any-lookup f k ((j, w) ∷ m) v h e = elim (Bool-cases (j == k)) [
  | inl same ↦
      let found : w ≡ v = ground arith in
      let here : f w ≡ false = ground (arith, h) in subst (λ x. f x ≡ false) found here
  | inr other ↦ any-lookup f k m v (ground (arith, h)) (rw other at e)
]

-- Policies stand under their identifiers, none of which is empty, and those of one organization have
-- codes that differ in more than their case.
pub record IsConsistent (policies : Assoc Policy) : Type 0 where
  pub keyed : (i : String) (p : Policy) → lookup i policies ≡ some p → p.id ≡ i
  pub identified : (i : String) (p : Policy) → lookup i policies ≡ some p → (i == "") ≡ false
  pub unique :
      (i j : String) (p q : Policy)
      → lookup i policies ≡ some p
      → lookup j policies ≡ some q
      → p.organization_id ≡ q.organization_id
      → equal_fold p.code q.code ≡ true
      → i ≡ j

fits_own :
    (p q : Policy)
    → p.organization_id ≡ q.organization_id
    → policy_fits (of_organization p.organization_id) q ≡ true
unfolding policy_fits
fits_own p q h = ground (arith, eq_iff q.organization_id p.organization_id)

equal_fold_sym : (s t : String) → equal_fold s t ≡ true → equal_fold t s ≡ true
unfolding equal_fold
equal_fold_sym s t h = ground (arith, eq_iff (lower s) (lower t), eq_iff (lower t) (lower s))

clash :
    {A : Type 0} (new p q : Policy)
    → new ≡ p
    → equal_fold p.code q.code ≡ true
    → equal_fold q.code new.code ≡ false
    → A
clash new p q same fold differ =
    let there : equal_fold new.code q.code ≡ true =
      subst (λ (x : Policy). equal_fold x.code q.code ≡ true) (sym same) fold in
    let both : true ≡ false = sym (equal_fold_sym new.code q.code there) ∙ differ in
    elim (false≢true (sym both)) [ ]

module _ (policies : Assoc Policy) (new : Policy) (current : String) where
  -- The code of the new policy differs from those of the others.
  differs :
      IsConsistent policies
      → (new.id == "") ≡ false
      → (current == "" || current == new.id) ≡ true
      → IsFree policies new.organization_id current new.code
      → (j : String) (q : Policy) → lookup j policies ≡ some q
      → (new.id == j) ≡ false
      → new.organization_id ≡ q.organization_id
      → equal_fold q.code new.code ≡ false
  unfolding IsFree
  differs valid some_id known free j q at other same =
      let seen =
        any-lookup
          (λ p.
            policy_fits (of_organization new.organization_id) p && takes_code current new.code p)
          j policies q free at in
      ground (
        arith,
        seen,
        fits_own new q same,
        valid.keyed j q at,
        valid.identified j q at,
        eq_iff q.id current,
        eq_iff current new.id,
        eq_iff current "",
        eq_iff new.id j,
      )

  -- What the table holds after the write.
  stored :
      (i : String) (p : Policy)
      → lookup i (insert policies new.id new) ≡ some p
      → ((new.id ≡ i) × (new ≡ p)) ⊎ (((new.id == i) ≡ false) × (lookup i policies ≡ some p))
  stored i p at = elim (Bool-cases (new.id == i)) [
    | inl same ↦ inl (
      (eq_iff new.id i).0 same,
      some-injective _ _ (sym (lookup-insert policies new.id i new ∙ rw same refl) ∙ at),
    )
    | inr other ↦ inr (other, sym (lookup-insert policies new.id i new ∙ rw other refl) ∙ at)
  ]

  module _ (valid : IsConsistent policies) (some_id : (new.id == "") ≡ false)
      (known : (current == "" || current == new.id) ≡ true)
      (free : IsFree policies new.organization_id current new.code) where
    unique_after :
        (i j : String) (p q : Policy)
        → ((new.id ≡ i) × (new ≡ p)) ⊎ (((new.id == i) ≡ false) × (lookup i policies ≡ some p))
        → ((new.id ≡ j) × (new ≡ q)) ⊎ (((new.id == j) ≡ false) × (lookup j policies ≡ some q))
        → p.organization_id ≡ q.organization_id
        → equal_fold p.code q.code ≡ true
        → i ≡ j
    unique_after i j p q (inl (a, b)) (inl (c, d)) same fold = sym a ∙ c
    unique_after i j p q (inl (a, b)) (inr (c, d)) same fold =
        clash new p q b fold (
          differs valid some_id known free j q d c
            (ap (λ (x : Policy). x.organization_id) b ∙ same))
    unique_after i j p q (inr (a, b)) (inl (c, d)) same fold =
        clash new q p d (equal_fold_sym p.code q.code fold) (
          differs valid some_id known free i p b a
            (ap (λ (x : Policy). x.organization_id) d ∙ sym same))
    unique_after i j p q (inr (a, b)) (inr (c, d)) same fold = valid.unique i j p q b d same fold

    pub insert-IsConsistent : IsConsistent (insert policies new.id new)
    insert-IsConsistent = record {
      keyed = λ i p at. elim (stored i p at) [
        | inl (a, b) ↦ sym (ap (λ (x : Policy). x.id) b) ∙ a
        | inr (a, b) ↦ valid.keyed i p b
      ];
      identified = λ i p at. elim (stored i p at) [
        | inl (a, b) ↦ subst (λ x. (x == "") ≡ false) a some_id
        | inr (a, b) ↦ valid.identified i p b
      ];
      unique = λ i j p q at bt. unique_after i j p q (stored i p at) (stored j q bt);
    }
