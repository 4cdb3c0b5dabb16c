-- ===== src/Events/Durable/Settlement.antt =====
-- internal/events/bus.go: what becomes of an outbox event once its handlers have run.
use change_control_plane.Prelude.{
  ℕ, zero, suc, ◌+◌, ◌^◌, ◌*◌, ◌≤◌, ◌<◌, String, ◌≡◌, refl, ap, ◌⊎◌, inl, inr, Bool, true, false,
  Option, none, some, ◌==◌, arith, Bool-cases,
}
use change_control_plane.Prelude.Int.{pos, ◌+ℤ◌, int64, scale, int_laws, int64_of_IsInt64}
use change_control_plane.Types.{Time, OutboxEvent}
use change_control_plane.Events.{DispatchError}
use change_control_plane.Events.Outbox.{claimed, is_claimable}
use change_control_plane.Events.Durable.{
  TimeFormat, DurableBus, second, backoff, should_dead_letter, attempted, dead_lettered, to_retry,
  processed, settled, outbox_event_of,
}

abbrev pub is_set : Option Time → Bool
is_set none = false
is_set (some time) = true

-- What the status of an outbox event says of its times.
pub record IsConsistent (item : OutboxEvent) : Type 0 where
  pub claimed_if : is_set item.claimed_at ≡ (item.status == "processing")
  pub processed_if : is_set item.processed_at ≡ (item.status == "processed")
  pub waits : (item.status == "error") ≡ true → is_set item.next_attempt_at ≡ true
  pub retries :
      is_set item.next_attempt_at ≡ true
      → ((item.status == "error") ≡ true) ⊎ ((item.status == "processing") ≡ true)

pub outbox_event_of-IsConsistent :
    (format : TimeFormat) (fresh : String) (now : Time)
    → (event : change_control_plane.Types.DomainEvent)
    → IsConsistent (outbox_event_of format fresh now event)
unfolding outbox_event_of
outbox_event_of-IsConsistent format fresh now event = record {
  claimed_if = refl;
  processed_if = refl;
  waits = λ h. ground arith;
  retries = λ h. ground arith;
}

-- A claim keeps an event consistent.
pub claimed-IsConsistent :
    (item : OutboxEvent) (now stale : Time)
    → is_claimable now stale item ≡ true
    → IsConsistent item
    → IsConsistent (claimed now item)
unfolding claimed is_claimable
claimed-IsConsistent item now stale free ok = record {
  claimed_if = refl;
  processed_if = ground (arith, ok.processed_if);
  waits = λ h. ground arith;
  retries = λ h. inr refl;
}

-- The wait after `n` failures before the one at hand: it doubles, and no cap is in reach.
backoff_doubles : (n : ℕ) → n < 4 → backoff (30 * second) (pos (suc n)) ≡ pos (30 * second * 2 ^ n)
unfolding backoff scale int64
backoff_doubles zero h = refl
backoff_doubles (suc zero) h = refl
backoff_doubles (suc (suc zero)) h = refl
backoff_doubles (suc (suc (suc zero))) h = refl
backoff_doubles (suc (suc (suc (suc n)))) h = absurd (omega arith)

-- The delay and the limit that `NewDurableBus` sets.
pub record IsDefault {W StoreError : Type 0} (bus : DurableBus W StoreError) : Type 0 where
  pub delay : bus.retry_delay ≡ 30 * second
  pub limit : bus.max_attempts ≡ pos 5

-- What a failure makes of an event that had `n` failed attempts before: given up at the fifth, or
-- at an error that is not to be retried, and else tried again after 30 seconds, doubled `n` times.
pub data AfterFailure (n : ℕ) (now : Time) (error : DispatchError) (out : OutboxEvent)
    : Type 0 where
  given_up :
      (4 ≤ n) ⊎ (error.retryable ≡ some false)
      → out.status ≡ "dead_letter"
      → out.next_attempt_at ≡ none
      → AfterFailure n now error out
  retried :
      n < 4
      → (error.retryable ≡ none) ⊎ (error.retryable ≡ some true)
      → out.status ≡ "error"
      → out.next_attempt_at ≡ some (now + 30 * second * 2 ^ n)
      → AfterFailure n now error out

refused_cases :
    (retryable : Option Bool)
    → (retryable ≡ some false) ⊎ (retryable ≡ none) ⊎ (retryable ≡ some true)
refused_cases none = inr (inl refl)
refused_cases (some true) = inr (inr refl)
refused_cases (some false) = inl refl

pub next_attempts : (n : ℕ) → n < 2 ^ 62 → int64 (pos n +ℤ pos 1) ≡ pos (suc n)
next_attempts n h =
    let exact : pos n +ℤ pos 1 ≡ pos (suc n) = omega int_laws in
    rw exact (int64_of_IsInt64 (pos (suc n)) (omega arith))

given_up_if :
    (n : ℕ) (error : DispatchError)
    → should_dead_letter (pos (suc n)) (pos 5) error ≡ true
    → (4 ≤ n) ⊎ (error.retryable ≡ some false)
unfolding should_dead_letter
given_up_if n error h = elim (refused_cases error.retryable) [
  | inl refused ↦ inr refused
  | inr (inl silent) ↦ inl (ground arith)
  | inr (inr willing) ↦ inl (ground arith)
]

retried_if :
    (n : ℕ) (error : DispatchError)
    → should_dead_letter (pos (suc n)) (pos 5) error ≡ false
    → (n < 4) × ((error.retryable ≡ none) ⊎ (error.retryable ≡ some true))
unfolding should_dead_letter
retried_if n error h = elim (refused_cases error.retryable) [
  | inl refused ↦ absurd (ground arith)
  | inr rest ↦ (ground arith, rest)
]

-- The three changes, with the number of attempts written out.
module _ (now : Time) (item : OutboxEvent) (error : DispatchError) (n : ℕ)
    (counted : item.attempts ≡ pos (suc n)) where
  retry_AfterFailure :
      n < 4
      → (error.retryable ≡ none) ⊎ (error.retryable ≡ some true)
      → AfterFailure n now error (to_retry (30 * second) now error item)
  unfolding to_retry
  retry_AfterFailure early willing =
      retried early willing refl (rw (counted, backoff_doubles n early) (ap some (omega arith)))

dead_lettered-IsConsistent :
    (format : TimeFormat) (now : Time) (error : DispatchError) (item : OutboxEvent)
    → is_set item.claimed_at ≡ false
    → is_set item.processed_at ≡ false
    → IsConsistent (dead_lettered format now error item)
unfolding dead_lettered
dead_lettered-IsConsistent format now error item free fresh = record {
  claimed_if = free;
  processed_if = fresh;
  waits = λ h. ground arith;
  retries = λ h. ground arith;
}

to_retry-IsConsistent :
    (delay : ℕ) (now : Time) (error : DispatchError) (item : OutboxEvent)
    → is_set item.claimed_at ≡ false
    → is_set item.processed_at ≡ false
    → IsConsistent (to_retry delay now error item)
unfolding to_retry
to_retry-IsConsistent delay now error item free fresh = record {
  claimed_if = free;
  processed_if = fresh;
  waits = λ h. refl;
  retries = λ h. inl refl;
}

busy_unprocessed :
    (item : OutboxEvent)
    → item.status ≡ "processing"
    → IsConsistent item
    → is_set item.processed_at ≡ false
busy_unprocessed item busy ok = rw (ok.processed_if, busy) refl

module _ {W StoreError : Type 0} (bus : DurableBus W StoreError) (format : TimeFormat) where
  -- With the delay and the limit of `NewDurableBus`, an event whose handlers fail, and that had `n`
  -- attempts before, is given up at its fifth attempt or at an error that is not to be retried, and
  -- else waits 30 seconds, doubled `n` times, with no cap; the attempt is counted, the claim is
  -- released and the error is noted.
  pub settled-AfterFailure :
      (now : Time) (item : OutboxEvent) (error : DispatchError) (n : ℕ)
      → IsDefault bus
      → item.attempts ≡ pos n
      → n < 2 ^ 62
      → let out = settled bus format now item (some error) in
        AfterFailure n now error out
        × (out.attempts ≡ pos (suc n))
        × (out.claimed_at ≡ none)
        × (out.last_error ≡ error.message)
  unfolding settled attempted dead_lettered to_retry
  settled-AfterFailure now item error n default count small =
      let counted = next_attempts n small in
      rw (count, counted, default.limit, default.delay)
        (elim (Bool-cases (should_dead_letter (pos (suc n)) (pos 5) error)) [
          | inl h ↦ rw h (given_up (given_up_if n error h) refl refl, refl, refl, refl)
          | inr h ↦ rw h (
            let go = retried_if n error h in
                retry_AfterFailure now
                  (record (attempted format now item) { attempts = pos (suc n) }) error n refl go.0
                  go.1,
            refl,
            refl,
            refl,
          )
        ])

  -- An event that is being processed stays consistent, whatever its handlers return.
  pub settled-IsConsistent :
      (now : Time) (item : OutboxEvent) (outcome : Option DispatchError)
      → item.status ≡ "processing"
      → IsConsistent item
      → IsConsistent (settled bus format now item outcome)
  unfolding settled processed attempted
  settled-IsConsistent now item none busy ok = record {
    claimed_if = refl;
    processed_if = refl;
    waits = λ h. ground arith;
    retries = λ h. ground arith;
  }
  settled-IsConsistent now item (some error) busy ok =
      let tried = attempted format now item in
      let unprocessed = busy_unprocessed item busy ok in
      elim (Bool-cases (should_dead_letter tried.attempts bus.max_attempts error)) [
        | inl h ↦ rw h (dead_lettered-IsConsistent format now error tried refl unprocessed)
        | inr h ↦ rw h (to_retry-IsConsistent bus.retry_delay now error tried refl unprocessed)
      ]
