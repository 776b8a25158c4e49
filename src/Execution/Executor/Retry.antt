-- ===== src/Execution/Executor/Retry.antt =====
-- What the retry loop does: how often it calls the exchange, what it answers, how long it pauses.
use utos.Prelude.{
  ℕ, zero, suc, ◌+◌, ◌*◌, ◌≤◌, ◌<◌, ◌≡◌, refl, true, false, Bool-cases, inl, inr, List, [], ◌∷◌,
  Result, ok, err, arith, length, min, ◌==◌,
}
use utos.Execution.Models.{OrderRequest, OrderResult, Failure}
use utos.Execution.Executor.{
  Event, placed, slept, Adapter, World, RetryPolicy, is_transient, sent, answered, attempts,
  execute, record_event,
}

-- how often orders have been placed
abbrev pub placements : List Event → ℕ
placements [] = 0
placements (placed r ∷ log) = suc (placements log)
placements (_ ∷ log) = placements log

-- No pause was longer than `cap`.
abbrev pub PausesWithin : ℕ → List Event → Type 0
PausesWithin cap [] = Unit
PausesWithin cap (slept d ∷ log) = (d ≤ cap) × PausesWithin cap log
PausesWithin cap (_ ∷ log) = PausesWithin cap log

module _ (p : RetryPolicy) (request : OrderRequest) (a : Adapter) where
  attempts_bounded :
      (left delay : ℕ) (w : World)
      → placements (attempts p left delay request a w).1.log ≤ placements w.log + left
  unfolding attempts
  attempts_bounded zero delay w = omega arith
  attempts_bounded (suc left) delay w = ground (
    arith,
    attempts_bounded left (min (delay * p.backoff_multiplier) p.max_delay)
        (record_event (slept delay) (record_event (placed (sent request)) w)),
  )

  answered-not-transient :
      (answer : Result Failure OrderResult) (left : ℕ) (again : Result Failure OrderResult × World)
      (w : World) (e : Failure)
      → (again.0 ≡ err e → is_transient e ≡ false)
      → (answered answer left again w).0 ≡ err e
      → is_transient e ≡ false
  unfolding answered
  answered-not-transient (ok result) left again w e ih h = cc
  answered-not-transient (err f) left again w e ih h = ground arith

  attempts-not-transient :
      (left delay : ℕ) (w : World) (e : Failure)
      → (attempts p left delay request a w).0 ≡ err e
      → is_transient e ≡ false
  unfolding attempts
  attempts-not-transient zero delay w e h = ground arith
  attempts-not-transient (suc left) delay w e h =
      answered-not-transient _ left _ _ e
        (attempts-not-transient left (min (delay * p.backoff_multiplier) p.max_delay)
          (record_event (slept delay) (record_event (placed (sent request)) w)) e)
        h

  answered_keeps :
      (P : World → Type 0) (answer : Result Failure OrderResult) (left : ℕ)
      (again : Result Failure OrderResult × World) (w : World)
      → P w
      → P again.1
      → P (answered answer left again w).1
  unfolding answered
  answered_keeps P (ok result) left again w h k = h
  answered_keeps P (err e) left again w h k = elim (Bool-cases (is_transient e)) [
    | inl t ↦ rw t (elim (Bool-cases (left == 0)) [ inl z ↦ rw z h | inr n ↦ rw n k ])
    | inr t ↦ rw t h
  ]

  -- What placing and pausing keep, the loop keeps. `Within` says what is known of a pause.
  attempts_keeps :
      (Within : ℕ → Type 0) (P : World → Type 0)
      → ((d : ℕ) → Within (min d p.max_delay))
      → ((w : World) → P w → P (record_event (placed (sent request)) w))
      → ((d : ℕ) (w : World) → Within d → P w → P (record_event (slept d) w))
      → (left delay : ℕ) (w : World) → Within delay
      → P w
      → P (attempts p left delay request a w).1
  unfolding attempts
  attempts_keeps Within P capped place pause zero delay w d h = h
  attempts_keeps Within P capped place pause (suc left) delay w d h =
      answered_keeps P _ left _ _ (place w h) (
        attempts_keeps Within P capped place pause left
          (min (delay * p.backoff_multiplier) p.max_delay)
          (record_event (slept delay) (record_event (placed (sent request)) w))
          (capped (delay * p.backoff_multiplier)) (pause delay _ d (place w h)))

  attempts_first_success :
      (k left delay : ℕ) (w : World) (r : OrderResult)
      → k < left
      → ((i : ℕ)
          → i < k
          → (e : Failure) × (a.place_order (length w.log + 2 * i) (sent request) ≡ err e)
            × (is_transient e ≡ true))
      → a.place_order (length w.log + 2 * k) (sent request) ≡ ok r
      → let (answer, w') = attempts p left delay request a w in
        (answer ≡ ok r) × (placements w'.log ≡ placements w.log + k + 1)
  unfolding attempts answered
  attempts_first_success k zero delay w r h fails good = absurd (omega arith)
  attempts_first_success zero (suc left) delay w r h fails good =
      let start : length w.log + 2 * 0 ≡ length w.log = omega arith in
      rw (rw start at good) (refl, omega arith)
  attempts_first_success (suc k) (suc left) delay w r h fails good =
      let (e, failed, transient) = fails 0 (omega arith) in
      let start : length w.log + 2 * 0 ≡ length w.log = omega arith in
      let shift : (i : ℕ) → length w.log + 2 * suc i ≡ suc (suc (length w.log)) + 2 * i =
        λ i. omega arith in
      let more : (left == 0) ≡ false = ground arith in
      let (answer, count) =
        attempts_first_success k left (min (delay * p.backoff_multiplier) p.max_delay)
          (record_event (slept delay) (record_event (placed (sent request)) w)) r (omega arith)
          (λ i below. rw (shift i) at (fails (suc i) (omega arith))) (rw (shift k) at good) in
      rw (rw start at failed) (rw (transient, more) (answer, omega (arith, count)))

-- The exchange is asked to place an order at most `max_retries` times.
pub execute_bounded :
    (p : RetryPolicy) (request : OrderRequest) (a : Adapter) (w : World)
    → placements (execute p request a w).1.log ≤ placements w.log + p.max_retries
unfolding execute
execute_bounded p request a w = attempts_bounded p request a p.max_retries p.base_delay w

-- A transient failure never reaches the caller: it is retried, or turned into another failure.
pub execute-not-transient :
    (p : RetryPolicy) (request : OrderRequest) (a : Adapter) (w : World) (e : Failure)
    → (execute p request a w).0 ≡ err e
    → is_transient e ≡ false
unfolding execute
execute-not-transient p request a w =
    attempts-not-transient p request a p.max_retries p.base_delay w

-- With a first pause within the cap, every pause is within it.
pub execute_pauses :
    (p : RetryPolicy) (request : OrderRequest) (a : Adapter) (w : World)
    → p.base_delay ≤ p.max_delay
    → PausesWithin p.max_delay w.log
    → PausesWithin p.max_delay (execute p request a w).1.log
unfolding execute
execute_pauses p request a w =
    attempts_keeps p request a (λ d. d ≤ p.max_delay) (λ v. PausesWithin p.max_delay v.log)
      (λ d. omega arith) (λ v h. h) (λ d v k h. (k, h)) p.max_retries p.base_delay w

-- The loop touches nothing but the log.
pub execute_frame :
    (p : RetryPolicy) (request : OrderRequest) (a : Adapter) (w : World)
    → let w' = (execute p request a w).1 in
      (w'.tracker ≡ w.tracker) × (w'.adapters ≡ w.adapters) × (w'.clock ≡ w.clock)
unfolding execute
execute_frame p request a w =
    attempts_keeps p request a (λ d. Unit {0})
      (λ v. (v.tracker ≡ w.tracker) × (v.adapters ≡ w.adapters) × (v.clock ≡ w.clock)) (λ d. tt)
      (λ v h. h) (λ d v k h. h) p.max_retries p.base_delay w tt (refl, refl, refl)

-- If the first k attempts, fewer than `max_retries`, fail transiently and the next one succeeds, its
-- answer is returned, and the order has been placed k + 1 times.
pub execute_first_success :
    (p : RetryPolicy) (request : OrderRequest) (a : Adapter) (k : ℕ) (w : World) (r : OrderResult)
    → k < p.max_retries
    → ((i : ℕ)
        → i < k
        → (e : Failure) × (a.place_order (length w.log + 2 * i) (sent request) ≡ err e)
          × (is_transient e ≡ true))
    → a.place_order (length w.log + 2 * k) (sent request) ≡ ok r
    → let (answer, w') = execute p request a w in
      (answer ≡ ok r) × (placements w'.log ≡ placements w.log + k + 1)
unfolding execute
execute_first_success p request a k w =
    attempts_first_success p request a k p.max_retries p.base_delay w
