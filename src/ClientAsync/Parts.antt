-- ===== src/ClientAsync/Parts.antt =====
-- What `call_async_partial` returns: a reference without futures.
use pyaseba.Base.{
  ℕ, ◌+◌, ◌≡◌, refl, sym, ◌∙◌, ap, Bool, true, false, Option, none, some, List, [], ◌∷◌, ◌++◌,
  arith, ℤ, leb, Bool-cases, inl, inr, if◌then◌else◌,
}
use pyaseba.ClientAsync.Future.{
  Future, pending, cancelled, done, Await, Signal, called, passes, turn, run_scheduled, wait_for,
  timed_out, step_part, steps_part, start_part, awaited, time_left, on_part, call_async_partial,
  first_of, deadline_of,
}

module _ {ℓ} {A : Type ℓ} where
  -- The first complete answer of those that come while the request is made.
  unfoldable pub first_complete : List (A × Bool) → Option A
  first_complete [] = none
  first_complete ((a, complete) ∷ parts) =
      let rest = first_complete parts in if complete then some a else rest

  -- What a call with a positive time to wait is to return, without futures: at the first turn at
  -- which a complete answer has been called or the time is over, the first complete answer, or else
  -- the latest one. `elapsed` is the time before the signals.
  unfoldable pub answer_in_time : ℕ → ℕ → A → Option A → List (Signal A) → Option A
  answer_in_time deadline elapsed latest found [] = none
  answer_in_time deadline elapsed latest found (called a complete ∷ signals) =
      answer_in_time deadline elapsed a (first_of found (if complete then some a else none)) signals
  answer_in_time deadline elapsed latest found (passes n ∷ signals) =
      answer_in_time deadline (elapsed + n) latest found signals
  answer_in_time deadline elapsed latest (some a) (turn ∷ signals) = some a
  answer_in_time deadline elapsed latest none (turn ∷ signals) =
      let rest = answer_in_time deadline elapsed latest none signals in
      if leb deadline elapsed then some latest else rest

  -- The same without a time to wait: the latest answer at the first turn.
  unfoldable pub answer_at_once : A → List (Signal A) → Option A
  answer_at_once latest [] = none
  answer_at_once latest (called a complete ∷ signals) = answer_at_once a signals
  answer_at_once latest (passes n ∷ signals) = answer_at_once latest signals
  answer_at_once latest (turn ∷ signals) = some latest

  unfoldable pub partial_answer : Option ℕ → List (A × Bool) → A → List (Signal A) → Option A
  unfolding answer_in_time answer_at_once first_complete
  partial_answer none parts r signals = answer_at_once r signals
  partial_answer (some deadline) parts r signals =
      answer_in_time deadline 0 r (first_complete parts) signals

  abbrev head : List A → Option A
  head [] = none
  head (x ∷ xs) = some x

  head-append : (xs : List A) (a : A) → head (xs ++ a ∷ []) ≡ first_of (head xs) (some a)
  head-append [] a = refl
  head-append (x ∷ xs) a = refl

  first_of-none : (o : Option A) → first_of o none ≡ o
  first_of-none none = refl
  first_of-none (some a) = refl

  run_done : (xs : List A) (a : A) → run_scheduled xs (done a) ≡ done a
  unfolding run_scheduled
  run_done [] a = refl
  run_done (x ∷ xs) a = run_done xs a

  run_cancelled : (xs : List A) → run_scheduled xs cancelled ≡ cancelled
  unfolding run_scheduled
  run_cancelled [] = refl
  run_cancelled (x ∷ xs) = run_cancelled xs

  wait_for_returned :
      (f : Future A) (n : ℕ) (s : Await A) (v : A)
      → s.returned ≡ some v
      → (wait_for f n s).returned ≡ some v
  wait_for_returned (done a) n s v h = rw h refl
  wait_for_returned pending n s v h = elim (Bool-cases (leb n s.elapsed)) [
    | inl over ↦ rw (over, h) refl
    | inr early ↦ rw (early, h) refl
  ]
  wait_for_returned cancelled n s v h = elim (Bool-cases (leb n s.elapsed)) [
    | inl over ↦ rw (over, h) refl
    | inr early ↦ rw (early, h) refl
  ]

  -- A coroutine that has returned keeps its result.
  steps_part_returned :
      (n : ℕ) (signals : List (Signal A)) (s : Await A) (v : A)
      → s.returned ≡ some v
      → (steps_part n signals s).returned ≡ some v
  unfolding steps_part step_part
  steps_part_returned n [] s v h = h
  steps_part_returned n (called a c ∷ signals) s v h =
      steps_part_returned n signals (on_part a c s) v h
  steps_part_returned n (passes m ∷ signals) s v h =
      steps_part_returned n signals (record s { elapsed = s.elapsed + m }) v h
  steps_part_returned n (turn ∷ signals) s v h =
      let f = run_scheduled s.scheduled s.future in
      let resting = record s { future = f; scheduled = [] } in
      steps_part_returned n signals (wait_for f n resting) v (wait_for_returned f n resting v h)

  -- A call that has not returned.
  abbrev waiting : Future A → List A → ℕ → A → Await A
  waiting f xs elapsed latest = record {
    future = f;
    scheduled = xs;
    elapsed = elapsed;
    latest = latest;
    returned = none;
  }

  timed_out-over :
      (n : ℕ) (s : Await A)
      → leb n s.elapsed ≡ true
      → timed_out n s
        ≡ record s { future = cancelled; returned = first_of s.returned (some s.latest) }
  timed_out-over n s h = rw h refl

  timed_out-early : (n : ℕ) (s : Await A) → leb n s.elapsed ≡ false → timed_out n s ≡ s
  timed_out-early n s h = rw h refl

  steps-in_time :
      (n : ℕ) (signals : List (Signal A)) (xs : List A) (t : ℕ) (p : A)
      → (steps_part n signals (waiting pending xs t p)).returned
        ≡ answer_in_time n t p (head xs) signals
  unfolding steps_part step_part answer_in_time run_scheduled
  steps-in_time n [] xs t p = refl
  steps-in_time n (called a true ∷ signals) xs t p =
      steps-in_time n signals (xs ++ a ∷ []) t a
      ∙ ap (λ o. answer_in_time n t a o signals) (head-append xs a)
  steps-in_time n (called a false ∷ signals) xs t p =
      steps-in_time n signals xs t a
      ∙ ap (λ o. answer_in_time n t a o signals) (sym (first_of-none (head xs)))
  steps-in_time n (passes m ∷ signals) xs t p = steps-in_time n signals xs (t + m) p
  steps-in_time n (turn ∷ signals) [] t p =
      let start = waiting pending [] t p in
      let later = answer_in_time n t p none signals in
      elim (Bool-cases (leb n t)) [
        | inl over ↦
            ap (λ s. (steps_part n signals s).returned) (timed_out-over n start over)
            ∙ (steps_part_returned n signals
                  (record (waiting cancelled [] t p) { returned = some p }) p refl
                ∙ sym (ap (λ b. if b then some p else later) over))
        | inr early ↦
            ap (λ s. (steps_part n signals s).returned) (timed_out-early n start early)
            ∙ (steps-in_time n signals [] t p ∙ sym (ap (λ b. if b then some p else later) early))
      ]
  steps-in_time n (turn ∷ signals) (x ∷ xs) t p =
      ap (λ f. (steps_part n signals (wait_for f n (waiting f [] t p))).returned) (run_done xs x)
      ∙ steps_part_returned n signals (record (waiting (done x) [] t p) { returned = some x }) x
          refl

  steps-at_once :
      (signals : List (Signal A)) (xs : List A) (t : ℕ) (p : A)
      → (steps_part 0 signals (waiting cancelled xs t p)).returned ≡ answer_at_once p signals
  unfolding steps_part step_part answer_at_once
  steps-at_once [] xs t p = refl
  steps-at_once (called a true ∷ signals) xs t p = steps-at_once signals xs t a
  steps-at_once (called a false ∷ signals) xs t p = steps-at_once signals xs t a
  steps-at_once (passes m ∷ signals) xs t p = steps-at_once signals xs (t + m) p
  steps-at_once (turn ∷ signals) xs t p =
      let over : leb 0 t ≡ true = ground arith in
      ap (λ f. (steps_part 0 signals (wait_for f 0 (waiting f [] t p))).returned) (run_cancelled xs)
      ∙ (ap (λ s. (steps_part 0 signals s).returned)
            (timed_out-over 0 (waiting cancelled [] t p) over)
          ∙ steps_part_returned 0 signals (record (waiting cancelled [] t p) { returned = some p })
              p refl)

  start_lem :
      (parts : List (A × Bool)) (r : A)
      → (xs : List A) × (start_part parts r ≡ waiting pending xs 0 r)
        × (head xs ≡ first_complete parts)
  unfolding start_part first_complete
  start_lem [] r = ([], refl, refl)
  start_lem ((a, true) ∷ parts) r =
      let (xs, e, h) = start_lem parts r in
      (a ∷ xs, ap (λ (s : Await A). record s { scheduled = a ∷ s.scheduled }) e, refl)
  start_lem ((a, false) ∷ parts) r = start_lem parts r

  pub call_async_partial-partial_answer :
      (wait_ms : ℤ) (parts : List (A × Bool)) (r : A) (signals : List (Signal A))
      → call_async_partial wait_ms parts r signals
        ≡ partial_answer (deadline_of wait_ms) parts r signals
  unfolding call_async_partial partial_answer
  call_async_partial-partial_answer wait_ms parts r signals =
      let (xs, e, h) = start_lem parts r in by_deadline (deadline_of wait_ms) xs e h
    where
      by_deadline :
          (deadline : Option ℕ) (xs : List A)
          → start_part parts r ≡ waiting pending xs 0 r
          → head xs ≡ first_complete parts
          → (steps_part
              (time_left deadline)
              signals
              (awaited deadline (start_part parts r))).returned
            ≡ partial_answer deadline parts r signals
      by_deadline none xs e h =
          ap (λ (s : Await A). (steps_part 0 signals (record s { future = cancelled })).returned) e
          ∙ steps-at_once signals xs 0 r
      by_deadline (some n) xs e h =
          ap (λ (s : Await A). (steps_part n signals s).returned) e
          ∙ (steps-in_time n signals xs 0 r ∙ ap (λ o. answer_in_time n 0 r o signals) h)
