-- ===== src/Events/Outbox/Order.antt =====
-- internal/app/store.go: the order and the number of the events that a claim returns.
use change_control_plane.Prelude.{
  ℕ, suc, ◌+◌, ◌≤◌, ◌≡◌, some, ◌&&◌, List, [], ◌∷◌, inl, inr, arith, Bool-cases, ltb, length,
}
use change_control_plane.Prelude.Int.{ℤ, pos, ltb_ℤ, leb_ℤ}
use change_control_plane.Types.{Time, OutboxEvent}
use change_control_plane.Events.Outbox.Claims.{claim_outbox_events-pos}
use change_control_plane.Events.Outbox.{
  Outbox, Candidate, candidates, put_by_time, claim_from, sort_by_time, claimed, claim_each,
  claim_outbox_events,
}

-- The times of creation do not fall, and none is before the first one given.
abbrev pub IsOldestFirst : Time → List OutboxEvent → Type 0
IsOldestFirst from [] = Unit
IsOldestFirst from (event ∷ events) =
    (from ≤ event.created_at) × IsOldestFirst event.created_at events

abbrev AreOldestFirst : Time → List Candidate → Type 0
AreOldestFirst from [] = Unit
AreOldestFirst from (candidate ∷ more) =
    (from ≤ candidate.1.created_at) × AreOldestFirst candidate.1.created_at more

put_by_time-AreOldestFirst :
    (from : Time) (candidate : Candidate) (more : List Candidate)
    → from ≤ candidate.1.created_at
    → AreOldestFirst from more
    → AreOldestFirst from (put_by_time candidate more)
unfolding put_by_time
put_by_time-AreOldestFirst from candidate [] h sorted = (h, tt)
put_by_time-AreOldestFirst from candidate (next ∷ more) h (k, sorted) =
    elim (Bool-cases (ltb next.1.created_at candidate.1.created_at)) [
      | inl older ↦
          rw older
            (k, put_by_time-AreOldestFirst next.1.created_at candidate more (ground arith) sorted)
      | inr newer ↦ rw newer (h, (ground arith, sorted))
    ]

sort_by_time-AreOldestFirst :
    (candidates : List Candidate) → AreOldestFirst 0 (sort_by_time candidates)
unfolding sort_by_time
sort_by_time-AreOldestFirst [] = tt
sort_by_time-AreOldestFirst (candidate ∷ more) =
    put_by_time-AreOldestFirst 0 candidate (sort_by_time more) (omega arith)
      (sort_by_time-AreOldestFirst more)

claim_each-IsOldestFirst :
    (now : Time) (limit : ℤ) (taken : ℕ) (store : Outbox) (from : Time) (more : List Candidate)
    → AreOldestFirst from more
    → IsOldestFirst from (claim_each now limit taken store more).1
unfolding claim_each claimed
claim_each-IsOldestFirst now limit taken store from [] sorted = tt
claim_each-IsOldestFirst now limit taken store from (candidate ∷ more) (h, sorted) =
    elim (Bool-cases (ltb_ℤ (pos 0) limit && leb_ℤ limit (pos (suc taken)))) [
      | inl last ↦ rw last (h, tt)
      | inr goes_on ↦
          rw goes_on
            (h, claim_each-IsOldestFirst now limit (suc taken) _ candidate.1.created_at more sorted)
    ]

claim_each-bound :
    (now : Time) (limit taken : ℕ) (store : Outbox) (more : List Candidate)
    → suc taken ≤ limit
    → taken + length (claim_each now (pos limit) taken store more).1 ≤ limit
unfolding claim_each
claim_each-bound now limit taken store [] h = omega arith
claim_each-bound now limit taken store (candidate ∷ more) h =
    elim (Bool-cases (ltb_ℤ (pos 0) (pos limit) && leb_ℤ (pos limit) (pos (suc taken)))) [
      | inl last ↦ rw last (omega arith)
      | inr goes_on ↦
          rw goes_on (omega (arith, claim_each-bound now limit (suc taken) _ more (ground arith)))
    ]

-- A claim with a positive limit does not panic, and returns at most that many events, the oldest
-- first.
pub claim_outbox_events-IsOldestFirst :
    (store : Outbox) (now : Time) (limit : ℕ) (stale : Time)
    → 1 ≤ limit
    → (claim : Outbox × List OutboxEvent) × (claim_outbox_events store now (pos limit) stale
        ≡ some claim)
      × IsOldestFirst 0 claim.1
      × (length claim.1 ≤ limit)
unfolding claim_from
claim_outbox_events-IsOldestFirst store now limit stale h =
    let start = sort_by_time (candidates now stale store) in
    (
      claim_from store now (pos limit) stale,
      claim_outbox_events-pos store now limit stale,
      claim_each-IsOldestFirst now (pos limit) 0 store 0 start
          (sort_by_time-AreOldestFirst (candidates now stale store)),
      omega (arith, claim_each-bound now limit 0 store start h),
    )
