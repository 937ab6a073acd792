-- ===== src/ClientAsync/Timely.antt =====
-- When `call_async_partial` returns.
use pyaseba.Base.{
  ℕ, zero, suc, ◌+◌, ◌≤◌, ◌≡◌, refl, ◌∙◌, ap, Bool, true, Option, none, some, List, [], ◌∷◌, ◌++◌,
  arith, ℤ, pos, negsuc, leb, Bool-cases, inl, inr,
}
use pyaseba.Base.Int.{◌≤ℤ◌}
use pyaseba.ClientAsync.Future.{
  Future, pending, cancelled, done, Await, Signal, called, passes, turn, run_scheduled, wait_for,
  step_part, steps_part, start_part, awaited, time_left, on_part, call_async_partial, first_of,
  deadline_of,
}
use pyaseba.ClientAsync.Waits.{total}

time_left-deadline_of :
    (wait_ms : ℤ) (n : ℕ) → wait_ms ≤ℤ pos n → time_left (deadline_of wait_ms) ≤ n
time_left-deadline_of (pos zero) n h = omega arith
time_left-deadline_of (pos (suc k)) n h = omega arith
time_left-deadline_of (negsuc k) n h = omega arith

module _ {ℓ} {A : Type ℓ} where
  steps_part_turn :
      (n : ℕ) (signals : List (Signal A)) (s : Await A)
      → steps_part n (signals ++ turn ∷ []) s ≡ step_part n turn (steps_part n signals s)
  unfolding steps_part
  steps_part_turn n [] s = refl
  steps_part_turn n (x ∷ signals) s = steps_part_turn n signals (step_part n x s)

  -- Waiting changes neither the clock nor what was returned before.
  wait_for_time : (f : Future A) (n : ℕ) (s : Await A) → (wait_for f n s).elapsed ≡ s.elapsed
  wait_for_time (done a) n s = refl
  wait_for_time pending n s = elim (Bool-cases (leb n s.elapsed)) [
    | inl over ↦ rw over refl
    | inr early ↦ rw early refl
  ]
  wait_for_time cancelled n s = elim (Bool-cases (leb n s.elapsed)) [
    | inl over ↦ rw over refl
    | inr early ↦ rw early refl
  ]

  steps_part_time :
      (n : ℕ) (signals : List (Signal A)) (s : Await A)
      → (steps_part n signals s).elapsed ≡ s.elapsed + total signals
  unfolding steps_part step_part
  steps_part_time n [] s = omega arith
  steps_part_time n (called a c ∷ signals) s = steps_part_time n signals (on_part a c s)
  steps_part_time n (passes m ∷ signals) s =
      let ih = steps_part_time n signals (record s { elapsed = s.elapsed + m }) in omega arith
  steps_part_time n (turn ∷ signals) s =
      let f = run_scheduled s.scheduled s.future in
      let resting = record s { future = f; scheduled = [] } in
      let same = wait_for_time f n resting in
      let ih = steps_part_time n signals (wait_for f n resting) in omega arith

  first_of-some : (o : Option A) (a : A) → (v : A) × (first_of o (some a) ≡ some v)
  first_of-some none a = (a, refl)
  first_of-some (some b) a = (b, refl)

  wait_for_ends :
      (f : Future A) (n : ℕ) (s : Await A)
      → n ≤ s.elapsed
      → (v : A) × ((wait_for f n s).returned ≡ some v)
  wait_for_ends (done a) n s over = first_of-some s.returned a
  wait_for_ends pending n s over =
      let due : leb n s.elapsed ≡ true = ground arith in rw due (first_of-some s.returned s.latest)
  wait_for_ends cancelled n s over =
      let due : leb n s.elapsed ≡ true = ground arith in rw due (first_of-some s.returned s.latest)

  turn_ends :
      (n : ℕ) (s : Await A) → n ≤ s.elapsed → (v : A) × ((step_part n turn s).returned ≡ some v)
  unfolding step_part
  turn_ends n s over =
      let f = run_scheduled s.scheduled s.future in
      wait_for_ends f n (record s { future = f; scheduled = [] }) over

  -- `call_async_partial` has returned at the first turn of the loop behind its deadline, whatever
  -- happened before; without a positive time to wait this is the first turn.
  pub call_async_partial_live :
      (wait_ms : ℤ) (parts : List (A × Bool)) (r : A) (signals : List (Signal A))
      → (n : ℕ) → wait_ms ≤ℤ pos n
      → n ≤ total signals
      → (v : A) × (call_async_partial wait_ms parts r (signals ++ turn ∷ []) ≡ some v)
  unfolding call_async_partial
  call_async_partial_live wait_ms parts r signals n limit over =
      let deadline = deadline_of wait_ms in
      let start = awaited deadline (start_part parts r) in
      let s = steps_part (time_left deadline) signals start in
      let time = steps_part_time (time_left deadline) signals start in
      let early = time_left-deadline_of wait_ms n limit in
      let (v, e) = turn_ends (time_left deadline) s (omega arith) in
      (
        v,
        ap (λ (s' : Await A). s'.returned) (steps_part_turn (time_left deadline) signals start) ∙ e,
      )
