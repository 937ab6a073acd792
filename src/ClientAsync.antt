-- ===== src/ClientAsync.antt =====
-- pyaseba/client/client_async.py: the coroutines of the client, in the children, and the retries of
-- `ClientAsync.connect`. The attempts of the native
-- client are answered by a parameter, which may depend on all that was done before.
pub mod Future
pub mod Waits
pub mod Parts
pub mod Timely
pub mod Requests
pub mod Coroutines
pub mod Ends
pub mod Retries
mod Tests
use pyaseba.Base.{
  ℕ, zero, suc, Bool, true, false, List, [], ◌∷◌, ◌++◌, Text, ℤ, pos, negsuc, if◌then◌else◌,
}

-- What `connect` does: `self._connect`, `asyncio.sleep` for milliseconds, and `self._start`.
pub data Effect : Type 0 where
  attempt : Text → Effect
  sleep : ℕ → Effect
  start : Effect

-- `max(max_retries, 0)`
abbrev pub retries_of : ℤ → ℕ
retries_of (pos n) = n
retries_of (negsuc n) = 0

-- The result, and whether an attempt has failed.
abbrev pub LoopState : Type 0
LoopState = ℕ × Bool × List Effect

module _ (answer : List Effect → ℕ) (target : Text) (wait_ms : ℕ) where
  -- The loop `while max_retries >= 0`.
  unfoldable pub connect_loop : ℕ → Bool → List Effect → LoopState
  connect_loop zero failed done = elim (answer (done ++ attempt target ∷ [])) [
    | zero ↦ (0, true, (done ++ attempt target ∷ []) ++ sleep wait_ms ∷ [])
    | suc c ↦ (suc c, failed, done ++ attempt target ∷ [])
  ]
  connect_loop (suc n) failed done =
      let rest = connect_loop n true ((done ++ attempt target ∷ []) ++ sleep wait_ms ∷ []) in
      elim (answer (done ++ attempt target ∷ [])) [
        | zero ↦ rest
        | suc c ↦ (suc c, failed, done ++ attempt target ∷ [])
      ]

-- What follows the loop.
unfoldable pub finish : LoopState → ℕ × List Effect
finish (zero, failed, done) = (0, done)
finish (suc c, failed, done) =
    (suc c, done ++ ((if failed then sleep 1000 ∷ [] else []) ++ start ∷ []))

-- `ClientAsync.connect`, for a completed target.
unfoldable pub connect : (List Effect → ℕ) → Text → ℕ → ℤ → ℕ × List Effect
unfolding connect_loop finish
connect answer target wait_ms max_retries =
    finish (connect_loop answer target wait_ms (retries_of max_retries) false [])
