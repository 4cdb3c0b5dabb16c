-- ===== src/Events/Outbox/Claims.antt =====
-- internal/app/store.go: what a claim of outbox events returns and keeps.
use change_control_plane.Prelude.{
  ℕ, suc, ◌≤◌, String, ◌≡◌, ◌≢◌, refl, sym, ◌∙◌, ap, subst, false≢true, true, false, ◌&&◌, Option,
  none, some, some-injective, ltb, List, [], ◌∷◌, inl, inr, ◌==◌, arith, eq_iff, eq_refl,
  Bool-cases, All, All-map, lookup, insert, lookup-insert,
}
use change_control_plane.Prelude.Int.{ℤ, pos, ltb_ℤ, leb_ℤ}
use change_control_plane.Types.{Time, OutboxEvent}
use change_control_plane.Events.Outbox.{
  Outbox, Candidate, is_claimable, claim_from, candidates, put_by_time, sort_by_time, claimed,
  claim_each, claim_outbox_events,
}

-- Every event stands under its identifier, and no other event does.
abbrev pub IsKeyed : Outbox → Type 0
IsKeyed [] = Unit
IsKeyed (entry ∷ store) = (entry.0 ≡ entry.1.id) × (lookup entry.0 store ≡ none) × IsKeyed store

insert-IsKeyed :
    (store : Outbox) (event : OutboxEvent) → IsKeyed store → IsKeyed (insert store event.id event)
insert-IsKeyed [] event keyed = (refl, refl, tt)
insert-IsKeyed (entry ∷ store) event (named, single, keyed) =
    elim (Bool-cases (entry.0 == event.id)) [
      | inl same ↦ rw same ((eq_iff entry.0 event.id).0 same, single, keyed)
      | inr other ↦ rw other (
        named,
        lookup-insert store event.id entry.0 event
            ∙ ground (arith, eq_iff entry.0 event.id, eq_iff event.id entry.0),
        insert-IsKeyed store event keyed,
      )
    ]

-- The event under an identifier was claimed at this time.
pub record IsHeld (now : Time) (store : Outbox) (id : String) : Type 0 where
  pub event : OutboxEvent
  pub stored : lookup id store ≡ some event
  pub held : event.claimed_at ≡ some now

-- The event under an identifier can be claimed.
record IsFree (now stale : Time) (store : Outbox) (id : String) : Type 0 where
  pub event : OutboxEvent
  pub stored : lookup id store ≡ some event
  pub free : is_claimable now stale event ≡ true

lookup-IsHeld :
    (now : Time) (store : Outbox) (key : String) (event : OutboxEvent)
    → IsHeld now (insert store key (claimed now event)) key
unfolding claimed
lookup-IsHeld now store key event = record {
  event = claimed now event;
  stored = lookup-insert store key key (claimed now event) ∙ rw (eq_refl key) refl;
  held = refl;
}

insert-IsHeld :
    (now : Time) (store : Outbox) (key : String) (event : OutboxEvent) (id : String)
    → IsHeld now store id
    → IsHeld now (insert store key (claimed now event)) id
unfolding claimed
insert-IsHeld now store key event id h = elim (Bool-cases (key == id)) [
  | inl same ↦ record {
    event = claimed now event;
    stored = lookup-insert store key id (claimed now event) ∙ rw same refl;
    held = refl;
  }
  | inr other ↦ record {
    event = h.event;
    stored = lookup-insert store key id (claimed now event) ∙ rw other h.stored;
    held = h.held;
  }
]

-- The entry stands under the identifier of its event.
abbrev pub IsNamed : Candidate → Type 0
IsNamed candidate = candidate.0 ≡ candidate.1.id

module _ (now : Time) (limit : ℤ) where
  claim_each-IsHeld :
      (taken : ℕ) (store : Outbox) (more : List Candidate) (id : String)
      → IsHeld now store id
      → IsHeld now (claim_each now limit taken store more).0 id
  unfolding claim_each claimed
  claim_each-IsHeld taken store [] id h = h
  claim_each-IsHeld taken store (candidate ∷ more) id h =
      let put = insert-IsHeld now store candidate.0 candidate.1 id h in
      elim (Bool-cases (ltb_ℤ (pos 0) limit && leb_ℤ limit (pos (suc taken)))) [
        | inl last ↦ rw last put
        | inr goes_on ↦ rw goes_on (claim_each-IsHeld (suc taken) _ more id put)
      ]

  claim_each-IsKeyed :
      (taken : ℕ) (store : Outbox) (more : List Candidate)
      → All IsNamed more
      → IsKeyed store
      → IsKeyed (claim_each now limit taken store more).0
  unfolding claim_each claimed
  claim_each-IsKeyed taken store [] names h = h
  claim_each-IsKeyed taken store (candidate ∷ more) (named, names) h =
      let put =
        subst (λ key. IsKeyed (insert store key (claimed now candidate.1))) (sym named)
          (insert-IsKeyed store (claimed now candidate.1) h) in
      elim (Bool-cases (ltb_ℤ (pos 0) limit && leb_ℤ limit (pos (suc taken)))) [
        | inl last ↦ rw last put
        | inr goes_on ↦ rw goes_on (claim_each-IsKeyed (suc taken) _ more names put)
      ]

  -- Each event that is returned is stored as claimed.
  pub claimed-IsHeld :
      (taken : ℕ) (store : Outbox) (more : List Candidate)
      → All IsNamed more
      → let claim = claim_each now limit taken store more in
        All (λ event. IsHeld now claim.0 event.id) claim.1
  unfolding claim_each claimed
  claimed-IsHeld taken store [] names = tt
  claimed-IsHeld taken store (candidate ∷ more) (named, names) =
      let put =
        subst (IsHeld now (insert store candidate.0 (claimed now candidate.1))) named
          (lookup-IsHeld now store candidate.0 candidate.1) in
      elim (Bool-cases (ltb_ℤ (pos 0) limit && leb_ℤ limit (pos (suc taken)))) [
        | inl last ↦ rw last (put, tt)
        | inr goes_on ↦ rw goes_on (
          claim_each-IsHeld (suc taken) _ more candidate.1.id put,
          claimed-IsHeld (suc taken) _ more names,
        )
      ]

  -- What holds of the identifiers of the candidates holds of those that are returned.
  claim_each-All :
      (P : String → Type 0) (taken : ℕ) (store : Outbox) (more : List Candidate)
      → All (λ (c : Candidate). P c.1.id) more
      → All (λ event. P event.id) (claim_each now limit taken store more).1
  unfolding claim_each claimed
  claim_each-All P taken store [] h = tt
  claim_each-All P taken store (candidate ∷ more) (h, hs) =
      elim (Bool-cases (ltb_ℤ (pos 0) limit && leb_ℤ limit (pos (suc taken)))) [
        | inl last ↦ rw last (h, tt)
        | inr goes_on ↦ rw goes_on (h, claim_each-All P (suc taken) _ more hs)
      ]

put_by_time-All :
    (P : Candidate → Type 0) (candidate : Candidate) (more : List Candidate)
    → P candidate
    → All P more
    → All P (put_by_time candidate more)
unfolding put_by_time
put_by_time-All P candidate [] p ps = (p, tt)
put_by_time-All P candidate (next ∷ more) p (q, qs) =
    elim (Bool-cases (ltb next.1.created_at candidate.1.created_at)) [
      | inl h ↦ rw h (q, put_by_time-All P candidate more p qs)
      | inr h ↦ rw h (p, (q, qs))
    ]

sort_by_time-All :
    (P : Candidate → Type 0) (more : List Candidate) → All P more → All P (sort_by_time more)
unfolding sort_by_time
sort_by_time-All P [] ps = tt
sort_by_time-All P (candidate ∷ more) (p, ps) =
    put_by_time-All P candidate (sort_by_time more) p (sort_by_time-All P more ps)

candidates-IsNamed :
    (now stale : Time) (store : Outbox) → IsKeyed store → All IsNamed (candidates now stale store)
unfolding candidates
candidates-IsNamed now stale [] keyed = tt
candidates-IsNamed now stale (entry ∷ store) (named, single, keyed) =
    let rest = candidates-IsNamed now stale store keyed in
    elim (Bool-cases (is_claimable now stale entry.1)) [
      | inl free ↦ rw free (named, rest)
      | inr busy ↦ rw busy rest
    ]

-- The candidates, as they are claimed.
pub sorted-IsNamed :
    (now stale : Time) (store : Outbox)
    → IsKeyed store
    → All IsNamed (sort_by_time (candidates now stale store))
sorted-IsNamed now stale store keyed =
    sort_by_time-All IsNamed _ (candidates-IsNamed now stale store keyed)

none_or_some :
    (found : Option OutboxEvent) (event : OutboxEvent) → found ≡ none → found ≡ some event → ⊥
none_or_some found event h k = ground arith

IsFree-cons :
    (now stale : Time) (entry : String × OutboxEvent) (store : Outbox) (id : String)
    → lookup entry.0 store ≡ none
    → IsFree now stale store id
    → IsFree now stale (entry ∷ store) id
IsFree-cons now stale entry store id single h = record {
  event = h.event;
  stored = elim (Bool-cases (entry.0 == id)) [
    | inl same ↦ absurd (
        none_or_some _ h.event
          (ap (λ k. lookup k store) (sym ((eq_iff entry.0 id).0 same)) ∙ single) h.stored)
    | inr other ↦ rw other h.stored
  ];
  free = h.free;
}

candidates-IsFree :
    (now stale : Time) (store : Outbox)
    → IsKeyed store
    → All (λ (c : Candidate). IsFree now stale store c.1.id) (candidates now stale store)
unfolding candidates
candidates-IsFree now stale [] keyed = tt
candidates-IsFree now stale (entry ∷ store) (named, single, keyed) =
    let rest =
      All-map (candidates now stale store)
        (λ (c : Candidate). IsFree-cons now stale entry store c.1.id single)
        (candidates-IsFree now stale store keyed) in
    elim (Bool-cases (is_claimable now stale entry.1)) [
      | inl free ↦ rw free (
        record { event = entry.1; stored = rw (named, eq_refl entry.1.id) refl; free = free },
        rest,
      )
      | inr busy ↦ rw busy rest
    ]

held_not_free :
    (now later stale : Time) (event : OutboxEvent)
    → stale ≤ now
    → event.claimed_at ≡ some now
    → is_claimable later stale event ≡ false
unfolding is_claimable
held_not_free now later stale event h held = ground arith

not_both :
    (now later stale : Time) (store : Outbox) (id : String)
    → stale ≤ now
    → IsHeld now store id
    → IsFree later stale store id
    → ⊥
not_both now later stale store id h held free =
    let same : held.event ≡ free.event = ground (arith, held.stored, free.stored) in
    false≢true (
      sym
        (held_not_free now later stale free.event h (ap (λ e. e.claimed_at) (sym same) ∙ held.held))
      ∙ free.free)

claim_from-claim_from :
    (store : Outbox) (now later stale stale_later : Time) (limit limit_later : ℤ)
    → IsKeyed store
    → stale_later ≤ now
    → let first = claim_from store now limit stale in
      let second = claim_from first.0 later limit_later stale_later in
      All (λ event. All (λ other. event.id ≢ other.id) second.1) first.1
unfolding claim_from
claim_from-claim_from store now later stale stale_later limit limit_later keyed h =
    let start = sort_by_time (candidates now stale store) in
    let names = sorted-IsNamed now stale store keyed in
    let first = claim_each now limit 0 store start in
    let free = claim_each-All later limit_later (IsFree later stale_later first.0) 0 first.0 _ (
      sort_by_time-All (λ (c : Candidate). IsFree later stale_later first.0 c.1.id) _
        (candidates-IsFree later stale_later first.0
          (claim_each-IsKeyed now limit 0 store start names keyed))) in
    All-map first.1
      (λ event held.
        All-map _
          (λ other unheld same.
            not_both now later stale_later first.0 other.id h (subst (IsHeld now first.0) same held)
              unheld)
          free)
      (claimed-IsHeld now limit 0 store start names)

-- A limit that is not negative makes no panic.
pub claim_outbox_events-pos :
    (store : Outbox) (now : Time) (limit : ℕ) (stale : Time)
    → claim_outbox_events store now (pos limit) stale
      ≡ some (claim_from store now (pos limit) stale)
unfolding claim_outbox_events
claim_outbox_events-pos store now limit stale = ground arith

-- A claim that does not panic.
claim_from_lem :
    (store : Outbox) (now : Time) (limit : ℤ) (stale : Time) (claim : Outbox × List OutboxEvent)
    → claim_outbox_events store now limit stale ≡ some claim
    → claim_from store now limit stale ≡ claim
unfolding claim_outbox_events
claim_from_lem store now limit stale claim h = elim (Bool-cases (ltb_ℤ limit (pos 0))) [
  | inl negative ↦ let bad = rw negative at h in cc
  | inr fits ↦ some-injective _ _ (rw fits at h)
]

-- In a store where every event stands under its identifier, two claims in a row that do not panic
-- return no event of the same identifier, if what the second one takes for a stale claim is not after
-- the first one.
pub claim_outbox_events-claim_outbox_events :
    (store : Outbox) (now later stale stale_later : Time) (limit limit_later : ℤ)
    (first second : Outbox × List OutboxEvent)
    → IsKeyed store
    → stale_later ≤ now
    → claim_outbox_events store now limit stale ≡ some first
    → claim_outbox_events first.0 later limit_later stale_later ≡ some second
    → All (λ event. All (λ other. event.id ≢ other.id) second.1) first.1
claim_outbox_events-claim_outbox_events store now later stale stale_later limit limit_later first
      second keyed h one two =
    let is_first = claim_from_lem store now limit stale first one in
    let is_second = claim_from_lem first.0 later limit_later stale_later second two in
    subst
      (λ (s : Outbox × List OutboxEvent).
        All (λ event. All (λ other. event.id ≢ other.id) s.1) first.1)
      is_second
      (subst
        (λ (f : Outbox × List OutboxEvent).
          All
            (λ event.
              All (λ other. event.id ≢ other.id) (claim_from f.0 later limit_later stale_later).1)
            f.1)
        is_first
        (claim_from-claim_from store now later stale stale_later limit limit_later keyed h))
