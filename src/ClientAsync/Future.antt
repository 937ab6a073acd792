-- ===== src/ClientAsync/Future.antt =====
-- The futures of `call_async`, `call_async_tuple` and `call_async_partial`: what a coroutine
-- returns for a sequence of signals. The client's thread calls back at any time, time passes, and
-- the event loop takes turns, in which it runs what was scheduled and then resumes the coroutine,
-- if it can.
use pyaseba.Base.{
  ℕ, zero, suc, ◌+◌, Bool, true, false, not, ◌&&◌, Option, none, some, List, [], ◌∷◌, ◌++◌, leb, ℤ,
  pos, negsuc, if◌then◌else◌,
}

-- `wait_ms > 0`, as a deadline.
abbrev pub deadline_of : ℤ → Option ℕ
deadline_of (pos zero) = none
deadline_of (pos (suc n)) = some (suc n)
deadline_of (negsuc n) = none

abbrev pub time_left : Option ℕ → ℕ
time_left none = 0
time_left (some deadline) = deadline

abbrev pub is_over : Option ℕ → ℕ → Bool
is_over none elapsed = false
is_over (some deadline) elapsed = leb deadline elapsed

module _ {ℓ} where
  -- `asyncio.Future`
  pub data Future (A : Type ℓ) : Type ℓ where
    pending cancelled : Future A
    done : A → Future A

  -- A call in progress: its future, the calls of `set_result` that the loop has not run yet, the
  -- milliseconds since the call, the variable `p`, and what the coroutine has returned.
  pub record Await (A : Type ℓ) : Type ℓ where
    pub future : Future A
    pub scheduled : List A
    pub elapsed : ℕ
    pub latest : A
    pub returned : Option A

  -- The flag says that the answer is complete; only `call_async_partial` is told it.
  pub data Signal (A : Type ℓ) : Type ℓ where
    called : A → Bool → Signal A
    passes : ℕ → Signal A
    turn : Signal A

  module _ {A : Type ℓ} where
    -- `future.cancelled()`
    abbrev pub is_cancelled : Future A → Bool
    is_cancelled cancelled = true
    is_cancelled _ = false

    -- `future.set_result(a)`: on a future that is not pending it raises, in the loop, and changes
    -- nothing.
    abbrev pub set_result : A → Future A → Future A
    set_result a pending = done a
    set_result a cancelled = cancelled
    set_result a (done b) = done b

    unfoldable pub run_scheduled : List A → Future A → Future A
    run_scheduled [] f = f
    run_scheduled (a ∷ rest) f = run_scheduled rest (set_result a f)

    -- The callback of `call_async` and of `call_async_tuple`.
    abbrev pub on_called : A → Await A → Await A
    on_called a s =
        if is_cancelled s.future then s else record s { scheduled = s.scheduled ++ a ∷ [] }

    -- The callback of `call_async_partial`.
    abbrev pub on_part : A → Bool → Await A → Await A
    on_part a complete s = record s {
      scheduled =
          if complete && not (is_cancelled s.future) then s.scheduled ++ a ∷ [] else s.scheduled;
      latest = a;
    }

    -- What `call_async` returns in a turn, if anything: `future.result() if done else r`.
    abbrev pub resumed : Option ℕ → A → Future A → ℕ → Option A
    resumed deadline r (done a) elapsed = some a
    resumed deadline r pending elapsed = if is_over deadline elapsed then some r else none
    resumed deadline r cancelled elapsed = if is_over deadline elapsed then some r else none

    -- A coroutine returns once.
    abbrev pub first_of : Option A → Option A → Option A
    first_of none next = next
    first_of (some a) next = some a

    -- One signal in a `call_async` whose request has answered `r` at once.
    unfoldable pub step : Option ℕ → A → Signal A → Await A → Await A
    unfolding run_scheduled
    step deadline r (called a complete) s = on_called a s
    step deadline r (passes n) s = record s { elapsed = s.elapsed + n }
    step deadline r turn s =
        let f = run_scheduled s.scheduled s.future in
        record s {
          future = f;
          scheduled = [];
          returned = first_of s.returned (resumed deadline r f s.elapsed);
        }

    unfoldable pub steps : Option ℕ → A → List (Signal A) → Await A → Await A
    steps deadline r [] s = s
    steps deadline r (x ∷ xs) s = steps deadline r xs (step deadline r x s)

    abbrev pub fresh : A → Await A
    fresh r = record { future = pending; scheduled = []; elapsed = 0; latest = r; returned = none }

    -- `call_async`: the request has answered `r` at once, and the signals
    -- follow. `none` as long as the coroutine waits.
    unfoldable pub call_async : ℤ → A → List (Signal A) → Option A
    unfolding steps
    call_async wait_ms r signals = (steps (deadline_of wait_ms) r signals (fresh r)).returned

    -- `call_async_tuple`, which differs in that the callback takes the items of the tuple.
    abbrev pub call_async_tuple : ℤ → A → List (Signal A) → Option A
    call_async_tuple wait_ms r signals = call_async wait_ms r signals

    abbrev pub timed_out : ℕ → Await A → Await A
    timed_out deadline s =
        if leb deadline s.elapsed
        then record s { future = cancelled; returned = first_of s.returned (some s.latest) }
        else s

    -- `asyncio.wait_for`: behind the deadline it cancels the future.
    abbrev pub wait_for : Future A → ℕ → Await A → Await A
    wait_for (done a) deadline s = record s { returned = first_of s.returned (some a) }
    wait_for pending deadline s = timed_out deadline s
    wait_for cancelled deadline s = timed_out deadline s

    -- One signal in a `call_async_partial`.
    unfoldable pub step_part : ℕ → Signal A → Await A → Await A
    unfolding run_scheduled
    step_part deadline (called a complete) s = on_part a complete s
    step_part deadline (passes n) s = record s { elapsed = s.elapsed + n }
    step_part deadline turn s =
        let f = run_scheduled s.scheduled s.future in
        wait_for f deadline (record s { future = f; scheduled = [] })

    unfoldable pub steps_part : ℕ → List (Signal A) → Await A → Await A
    steps_part deadline [] s = s
    steps_part deadline (x ∷ xs) s = steps_part deadline xs (step_part deadline x s)

    -- The callbacks that come while the request is made, in front of the assignment `p = f(...)`.
    unfoldable pub start_part : List (A × Bool) → A → Await A
    start_part [] r = fresh r
    start_part ((a, complete) ∷ parts) r =
        let s = start_part parts r in
        record s { scheduled = if complete then a ∷ s.scheduled else s.scheduled }

    -- With a time to wait, the future is pending; with none, `wait_for` has cancelled it at once
    -- and times out in the next turn.
    abbrev pub awaited : Option ℕ → Await A → Await A
    awaited none s = record s { future = cancelled }
    awaited (some deadline) s = s

    unfoldable pub call_async_partial : ℤ → List (A × Bool) → A → List (Signal A) → Option A
    unfolding steps_part start_part
    call_async_partial wait_ms parts r signals =
        let deadline = deadline_of wait_ms in
        (steps_part (time_left deadline) signals (awaited deadline (start_part parts r))).returned
