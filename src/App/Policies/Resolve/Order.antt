-- ===== src/App/Policies/Resolve/Order.antt =====
-- internal/app/policies.go: which policies count for a workflow, and which of them goes first.
use change_control_plane.Prelude.{
  ℕ, String, ◌≡◌, fun_ext, refl, sym, ◌∙◌, ap, subst, Bool, true, false, not, ◌&&◌, ◌||◌, List, [],
  ◌∷◌, ◌==◌, arith, any, some-injective, eqb, ltb, if◌then◌else◌, eq_iff,
}
use change_control_plane.Prelude.Int.{ℤ, pos, negsuc, ltb_ℤ}
use change_control_plane.Types.{Policy}
use change_control_plane.Policies.Normal.{normalize_applies_to}
use change_control_plane.App.{Tables}
use change_control_plane.App.Meets.{meets_done, Reads, found_rule}
use change_control_plane.App.Store.{
  eqb_ℤ, fits, sort_stable, paginate, policies_of, policy_fits, list_policies,
}
use change_control_plane.App.Store.Listing.{
  IsOrdered, IsWeakOrder, lexical, lexical-IsWeakOrder, sort_stable-IsOrdered, any-sort_stable,
  any-policies_of,
}
use change_control_plane.App.Store.Paging.{paginate-rest}
use change_control_plane.App.Policies.Resolve.{
  policy_specificity, compare_policies, precedes, in_scope, workflow_query,
  resolve_policies_for_workflow,
}

-- The more specific policy goes first, of two that are equally specific the one with the higher
-- priority, and of two with one priority the newer one.
abbrev by_specificity : Policy → Policy → Bool
by_specificity left right = ltb (policy_specificity right) (policy_specificity left)

abbrev by_priority : Policy → Policy → Bool
by_priority left right = ltb_ℤ right.priority left.priority

abbrev by_age : Policy → Policy → Bool
by_age left right = ltb right.created_at left.created_at

pub goes_first : Policy → Policy → Bool
goes_first = lexical by_specificity (lexical by_priority by_age)

eqb-ltb : (a b : ℕ) → eqb a b ≡ (not (ltb b a) && not (ltb a b))
eqb-ltb a b = ground arith

eqb_ℤ-ltb_ℤ : (a b : ℤ) → eqb_ℤ a b ≡ (not (ltb_ℤ b a) && not (ltb_ℤ a b))
eqb_ℤ-ltb_ℤ a b = ground arith

-- The comparison as a function of what is greater.
three_levels :
    (s s' p p' c c' : Bool)
    → ltb_ℤ
        (if not (not s && not s')
          then if s then negsuc 0 else pos 1
          else if not (not p && not p')
          then if p then negsuc 0 else pos 1
          else if c
          then negsuc 0
          else if c'
          then pos 1
          else pos 0)
        (pos 0)
      ≡ (if s then true else if s' then false else if p then true else if p' then false else c)
three_levels true s' p p' c c' = refl
three_levels false true p p' c c' = refl
three_levels false false true p' c c' = refl
three_levels false false false true c c' = refl
three_levels false false false false true c' = refl
three_levels false false false false false true = refl
three_levels false false false false false false = refl

precedes-goes_first : (x y : Policy) → precedes x y ≡ goes_first x y
unfolding precedes compare_policies goes_first lexical
precedes-goes_first x y =
    rw (eqb-ltb (policy_specificity x) (policy_specificity y), eqb_ℤ-ltb_ℤ x.priority y.priority)
      (three_levels (by_specificity x y) (by_specificity y x) (by_priority x y) (by_priority y x)
        (by_age x y) (by_age y x))

goes_first-IsWeakOrder : IsWeakOrder goes_first
unfolding goes_first
goes_first-IsWeakOrder =
    lexical-IsWeakOrder
      (record { asymmetric = λ x y h. ground arith; transitive = λ x y z h k. ground arith })
      (lexical-IsWeakOrder
        (record { asymmetric = λ x y h. ground arith; transitive = λ x y z h k. ground arith })
        (record { asymmetric = λ x y h. ground arith; transitive = λ x y z h k. ground arith }))

-- The policies that count: enabled, for the workflow, and in the organization, project, service and
-- environment of the change as far as they name one. Without an organization all of them are listed.
pub counts :
    (organization_id project_id service_id environment_id applies_to : String) → Policy → Bool
counts organization_id project_id service_id environment_id applies_to p =
    p.enabled
    && fits (normalize_applies_to applies_to) p.applies_to
    && fits organization_id p.organization_id
    && fits p.project_id project_id
    && fits p.service_id service_id
    && fits p.environment_id environment_id

misses-fits : (a b : String) → (not (a == "") && not (a == b)) ≡ not (fits a b)
misses-fits a b = ground (arith, eq_iff a b, eq_iff b a)

any-skipped :
    (f : Policy → Bool) (item : Policy) (rest : List Policy) (p s e : Bool)
    → any f (if not p then rest else if not s then rest else if not e then rest else item ∷ rest)
      ≡ ((p && s && e && f item) || any f rest)
any-skipped f item rest true true true = refl
any-skipped f item rest true true false = refl
any-skipped f item rest true false e = refl
any-skipped f item rest false s e = refl

any-in_scope :
    (f : Policy → Bool) (p s e : String) (items : List Policy)
    → any f (in_scope p s e items)
      ≡ any
          (λ (x : Policy).
            fits x.project_id p && fits x.service_id s && fits x.environment_id e && f x)
          items
unfolding in_scope
any-in_scope f p s e [] = refl
any-in_scope f p s e (item ∷ items) =
    rw
      (
        misses-fits item.project_id p,
        misses-fits item.service_id s,
        misses-fits item.environment_id e,
      )
      (any-skipped f item (in_scope p s e items) (fits item.project_id p) (fits item.service_id s)
          (fits item.environment_id e)
        ∙ ap
            (◌||◌ (
              fits item.project_id p
              && fits item.service_id s
              && fits item.environment_id e
              && f item))
            (any-in_scope f p s e items))

module _ (t : Tables)
    (organization_id project_id service_id environment_id applies_to : String) where
  abbrev counted : Policy → Bool
  counted = counts organization_id project_id service_id environment_id applies_to

  counts-eq :
      (f : Policy → Bool) (x : Policy)
      → (policy_fits (workflow_query organization_id applies_to) x
          && (fits x.project_id project_id
              && fits x.service_id service_id
              && fits x.environment_id environment_id
              && f x))
        ≡ (counted x && f x)
  unfolding policy_fits counts
  counts-eq f x = ground arith

  -- The policies of a workflow are exactly those that count, from the one that goes first to the last:
  -- a question is answered by one of them if and only if it is by a stored policy that counts.
  pub resolve_policies_for_workflow-IsOrdered :
      (f : Policy → Bool)
      → Reads t
          (λ items.
            IsOrdered goes_first items
            × (any f items ≡ any (λ (e : String × Policy). counted e.1 && f e.1) t.policies))
          (resolve_policies_for_workflow organization_id project_id service_id environment_id
            applies_to t)
  unfolding resolve_policies_for_workflow list_policies
  resolve_policies_for_workflow-IsOrdered f =
      let query = workflow_query organization_id applies_to in
      let listed = policies_of query t.policies in
      found_rule (paginate listed query.offset query.limit) _ _ (λ h. refl)
        λ items h.
          let all = some-injective _ _ (sym (paginate-rest listed 0) ∙ h) in
          let scoped = in_scope project_id service_id environment_id items in
          meets_done (
            refl,
            (
              subst (λ b. IsOrdered goes_first (sort_stable b scoped))
                  (sym (fun_ext λ x. fun_ext (precedes-goes_first x)))
                  (sort_stable-IsOrdered goes_first-IsWeakOrder scoped),
              any-sort_stable f precedes scoped
                  ∙ any-in_scope f project_id service_id environment_id items
                  ∙ let g : Policy → Bool = λ x.
                    fits x.project_id project_id
                    && fits x.service_id service_id
                    && fits x.environment_id environment_id
                    && f x in
                    sym (ap (any g) all)
                    ∙ any-policies_of g query t.policies
                    ∙ ap (λ k. any k t.policies) (fun_ext λ (e : String × Policy). counts-eq f e.1),
            ),
          )
