-- ===== src/ClientAsync/Waits.antt =====
-- What a coroutine of `ClientAsync` returns, and when.
use pyaseba.Base.{
  ℕ, ◌+◌, ◌≤◌, ◌≡◌, refl, sym, ◌∙◌, ap, true, false, Option, Option-cases, none, some, List, [],
  ◌∷◌, ◌++◌, arith, ℤ, if◌then◌else◌, ◌⊎◌, inl, inr,
}
use pyaseba.Base.Dicts.{or_else}
use pyaseba.ClientAsync.Future.{
  Future, pending, cancelled, done, Await, Signal, called, passes, turn, run_scheduled, step, steps,
  fresh, call_async, deadline_of, is_cancelled, resumed, is_over, first_of,
}

module _ {ℓ} {A : Type ℓ} where
  -- The argument of the first callback.
  abbrev pub first_called : List (Signal A) → Option A
  first_called [] = none
  first_called (called a complete ∷ signals) = some a
  first_called (passes n ∷ signals) = first_called signals
  first_called (turn ∷ signals) = first_called signals

  -- The time that passes.
  abbrev pub total : List (Signal A) → ℕ
  total [] = 0
  total (called a complete ∷ signals) = total signals
  total (passes n ∷ signals) = n + total signals
  total (turn ∷ signals) = total signals

  abbrev pub head_of : List A → Option A
  head_of [] = none
  head_of (a ∷ rest) = some a

  -- The answer that a future has.
  abbrev value : Future A → Option A
  value (done a) = some a
  value pending = none
  value cancelled = none

  -- The first answer that a call in progress has got, run by the loop or not.
  abbrev heard : Await A → Option A
  heard s = or_else (value s.future) (head_of s.scheduled)

  run_done : (l : List A) (a : A) → run_scheduled l (done a) ≡ done a
  unfolding run_scheduled
  run_done [] a = refl
  run_done (b ∷ l) a = run_done l a

  run_heard :
      (l : List A) (f : Future A)
      → is_cancelled f ≡ false
      → (value (run_scheduled l f) ≡ or_else (value f) (head_of l))
        × (is_cancelled (run_scheduled l f) ≡ false)
  unfolding run_scheduled
  run_heard [] pending h = (refl, refl)
  run_heard [] (done a) h = (refl, refl)
  run_heard [] cancelled h = cc
  run_heard (b ∷ l) pending h = let e = run_done l b in rw e (refl, refl)
  run_heard (b ∷ l) (done a) h = let e = run_done l a in rw e (refl, refl)
  run_heard (b ∷ l) cancelled h = cc

  head-append : (l : List A) (a : A) → head_of (l ++ a ∷ []) ≡ or_else (head_of l) (some a)
  head-append [] a = refl
  head-append (b ∷ l) a = refl

  or_else-none : (o : Option A) → or_else o none ≡ o
  or_else-none none = refl
  or_else-none (some a) = refl

  -- An answer that follows others changes nothing that they decide.
  regroup :
      (o p : Option A) (a : A) (q : Option A)
      → or_else (or_else o (or_else p (some a))) q ≡ or_else (or_else o p) (some a)
  regroup none none a q = refl
  regroup none (some b) a q = refl
  regroup (some b) p a q = refl

  module _ (deadline : Option ℕ) (r : A) where
    -- Why a call may return `v`, at a state with the given signals to come.
    abbrev Justified : A → Await A → List (Signal A) → Type ℓ
    Justified v s signals =
        (s.returned ≡ some v)
        ⊎ ((or_else (heard s) (first_called signals) ≡ some v)
            ⊎ ((n : ℕ) × (deadline ≡ some n) × (n ≤ s.elapsed + total signals) × (v ≡ r)))

    step-heard :
        (x : Signal A) (s : Await A) (signals : List (Signal A))
        → is_cancelled s.future ≡ false
        → (or_else (heard (step deadline r x s)) (first_called signals)
            ≡ or_else (heard s) (first_called (x ∷ signals)))
          × (is_cancelled (step deadline r x s).future ≡ false)
    unfolding step
    step-heard (called a complete) s signals h =
        let shift = head-append s.scheduled a in
        rw (h, shift) (regroup (value s.future) (head_of s.scheduled) a (first_called signals), h)
    step-heard (passes n) s signals h = (refl, h)
    step-heard turn s signals h =
        let (kept, alive) = run_heard s.scheduled s.future h in
        rw kept (ap (λ o. or_else o (first_called signals)) (or_else-none (heard s)), alive)

    over_sound :
        (o : Option ℕ) (elapsed : ℕ) (v : A)
        → (if is_over o elapsed then some r else none) ≡ some v
        → (n : ℕ) × (o ≡ some n) × (n ≤ elapsed) × (v ≡ r)
    over_sound none elapsed v h = cc
    over_sound (some n) elapsed v h = (n, refl, ground arith, ground arith)

    resumed_sound :
        (f : Future A) (elapsed : ℕ) (v : A)
        → resumed deadline r f elapsed ≡ some v
        → (value f ≡ some v) ⊎ ((n : ℕ) × (deadline ≡ some n) × (n ≤ elapsed) × (v ≡ r))
    resumed_sound (done a) elapsed v h = inl h
    resumed_sound pending elapsed v h = inr (over_sound deadline elapsed v h)
    resumed_sound cancelled elapsed v h = inr (over_sound deadline elapsed v h)

    first_of_sound : (o p : Option A) (v : A) → first_of o p ≡ some v → (o ≡ some v) ⊎ (p ≡ some v)
    first_of_sound none p v h = inr h
    first_of_sound (some a) p v h = inl h

    -- What a signal makes the coroutine return.
    step_returned :
        (x : Signal A) (s : Await A) (signals : List (Signal A)) (v : A)
        → is_cancelled s.future ≡ false
        → (step deadline r x s).returned ≡ some v
        → Justified v s (x ∷ signals)
    unfolding step
    step_returned (called a complete) s signals v h e =
        let e' : s.returned ≡ some v = rw h at e in inl e'
    step_returned (passes n) s signals v h e = inl e
    step_returned turn s signals v h e =
        let f = run_scheduled s.scheduled s.future in
        let kept = (run_heard s.scheduled s.future h).0 in
        elim (first_of_sound s.returned (resumed deadline r f s.elapsed) v e) [
          | inl old ↦ inl old
          | inr new ↦ elim (resumed_sound f s.elapsed v new) [
            | inl known ↦ inr (inl (ap (λ o. or_else o (first_called signals)) (sym kept ∙ known)))
            | inr (n, limit, over, same) ↦ inr (inr (n, limit, omega arith, same))
          ]
        ]

    step_time :
        (x : Signal A) (s : Await A) (signals : List (Signal A))
        → is_cancelled s.future ≡ false
        → (step deadline r x s).elapsed + total signals ≡ s.elapsed + total (x ∷ signals)
    unfolding step
    step_time (called a complete) s signals h = rw h refl
    step_time (passes n) s signals h = omega arith
    step_time turn s signals h = refl

    steps_sound :
        (signals : List (Signal A)) (s : Await A) (v : A)
        → is_cancelled s.future ≡ false
        → (steps deadline r signals s).returned ≡ some v
        → Justified v s signals
    unfolding steps
    steps_sound [] s v h e = inl e
    steps_sound (x ∷ signals) s v h e =
        let (same, alive) = step-heard x s signals h in
        let time = step_time x s signals h in
        elim (steps_sound signals (step deadline r x s) v alive e) [
          | inl now ↦ step_returned x s signals v h now
          | inr (inl answer) ↦ inr (inl (sym same ∙ answer))
          | inr (inr (n, limit, over, late)) ↦ inr (inr (n, limit, omega arith, late))
        ]

  -- A value that `call_async` returns is the argument of the first callback, or, once the positive
  -- time to wait has passed, what the request has answered at once.
  pub call_async_sound :
      (wait_ms : ℤ) (r : A) (signals : List (Signal A)) (v : A)
      → call_async wait_ms r signals ≡ some v
      → (first_called signals ≡ some v)
        ⊎ ((n : ℕ) × (deadline_of wait_ms ≡ some n) × (n ≤ total signals) × (v ≡ r))
  unfolding call_async
  call_async_sound wait_ms r signals v h =
      elim (steps_sound (deadline_of wait_ms) r signals (fresh r) v refl h) [
        | inl now ↦ absurd (cc)
        | inr (inl answer) ↦ inl answer
        | inr (inr (n, limit, over, same)) ↦ inr (n, limit, omega arith, same)
      ]

  module _ (deadline : Option ℕ) (r : A) where
    steps_turn :
        (signals : List (Signal A)) (s : Await A)
        → steps deadline r (signals ++ turn ∷ []) s
          ≡ step deadline r turn (steps deadline r signals s)
    unfolding steps
    steps_turn [] s = refl
    steps_turn (x ∷ signals) s = steps_turn signals (step deadline r x s)

    -- What a call in progress has heard, and how long it has taken.
    steps-heard :
        (signals : List (Signal A)) (s : Await A)
        → is_cancelled s.future ≡ false
        → (heard (steps deadline r signals s) ≡ or_else (heard s) (first_called signals))
          × (is_cancelled (steps deadline r signals s).future ≡ false)
          × ((steps deadline r signals s).elapsed ≡ s.elapsed + total signals)
    unfolding steps
    steps-heard [] s h = (sym (or_else-none (heard s)), h, omega arith)
    steps-heard (x ∷ signals) s h =
        let (same, alive) = step-heard deadline r x s signals h in
        let time = step_time deadline r x s signals h in
        let (answer, alive', time') = steps-heard signals (step deadline r x s) alive in
        (answer ∙ same, alive', omega arith)

    -- A turn of the loop behind the deadline, or with an answer there.
    turn_late :
        (s : Await A) (n : ℕ)
        → deadline ≡ some n
        → n ≤ s.elapsed
        → (v : A) × ((step deadline r turn s).returned ≡ some v)
    unfolding step
    turn_late s n limit over =
        let f = run_scheduled s.scheduled s.future in
        let due : is_over deadline s.elapsed ≡ true = rw limit (ground arith) in
        elim (Option-cases s.returned) [
          | inl waiting ↦ rw waiting (resumed_late f s.elapsed due)
          | inr (v, old) ↦ (v, rw old refl)
        ]
      where
        resumed_late :
            (f : Future A) (elapsed : ℕ)
            → is_over deadline elapsed ≡ true
            → (v : A) × (resumed deadline r f elapsed ≡ some v)
        resumed_late (done a) elapsed due = (a, refl)
        resumed_late pending elapsed due = (r, rw due refl)
        resumed_late cancelled elapsed due = (r, rw due refl)

    step_keeps :
        (s : Await A) (v : A) → s.returned ≡ some v → (step deadline r turn s).returned ≡ some v
    unfolding step
    step_keeps s v old = rw old refl

    turn_heard :
        (s : Await A) (v : A)
        → is_cancelled s.future ≡ false
        → heard s ≡ some v
        → s.returned ≡ none
        → (step deadline r turn s).returned ≡ some v
    unfolding step
    turn_heard s v alive answer waiting =
        let kept = (run_heard s.scheduled s.future alive).0 in
        rw waiting (resumed_heard (run_scheduled s.scheduled s.future) (kept ∙ answer))
      where
        resumed_heard : (f : Future A) → value f ≡ some v → resumed deadline r f s.elapsed ≡ some v
        resumed_heard (done a) h = h
        resumed_heard pending h = cc
        resumed_heard cancelled h = cc

  pub call_async_deadline :
      (wait_ms : ℤ) (r : A) (signals : List (Signal A)) (n : ℕ)
      → deadline_of wait_ms ≡ some n
      → n ≤ total signals
      → (v : A) × (call_async wait_ms r (signals ++ turn ∷ []) ≡ some v)
  unfolding call_async
  call_async_deadline wait_ms r signals n limit over =
      let deadline = deadline_of wait_ms in
      let s = steps deadline r signals (fresh r) in
      let time = (steps-heard deadline r signals (fresh r) refl).2 in
      let (v, e) = turn_late deadline r s n limit (omega arith) in
      (v, ap (λ (s' : Await A). s'.returned) (steps_turn deadline r signals (fresh r)) ∙ e)

  -- Without a positive time to wait, a call has returned at the first turn of the loop behind a
  -- callback, and the value is the argument of the first one.
  call_async_waits :
      (wait_ms : ℤ) (r : A) (signals : List (Signal A)) (v : A)
      → deadline_of wait_ms ≡ none
      → first_called signals ≡ some v
      → call_async wait_ms r (signals ++ turn ∷ []) ≡ some v
  unfolding call_async
  call_async_waits wait_ms r signals v open_end answer =
      let deadline = deadline_of wait_ms in
      let s = steps deadline r signals (fresh r) in
      let (known, alive, time) = steps-heard deadline r signals (fresh r) refl in
      let ended : (step deadline r turn s).returned ≡ some v = elim (Option-cases s.returned) [
        | inl waiting ↦ turn_heard deadline r s v alive (known ∙ answer) waiting
        | inr (v', old) ↦ elim (steps_sound deadline r signals (fresh r) v' refl old) [
          | inl now ↦ cc
          | inr (inl first) ↦ step_keeps deadline r s v (old ∙ (sym first ∙ answer))
          | inr (inr (n, limit, over, same)) ↦ cc
        ]
      ] in
      ap (λ (s' : Await A). s'.returned) (steps_turn deadline r signals (fresh r)) ∙ ended
