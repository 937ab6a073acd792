-- ===== src/ClientAsync/Tests.antt =====
-- A client that is reached at the third attempt.
use pyaseba.Base.{
  ℕ, zero, suc, ◌<◌, ◌≤◌, ◌≡◌, refl, List, [], ◌∷◌, ◌++◌, arith, Text, text, pos, ltb, length,
  if◌then◌else◌, true, false, some, ◌⊎◌,
}
use pyaseba.ClientAsync.{Effect, attempt, sleep, start, connect}
use pyaseba.ClientAsync.Future.{
  Signal, called, passes, turn, call_async, call_async_partial, deadline_of, steps, step,
  run_scheduled,
}
use pyaseba.ClientAsync.Waits.{first_called, total, call_async_sound, call_async_deadline}
use pyaseba.ClientAsync.Parts.{
  first_complete, answer_in_time, partial_answer, call_async_partial-partial_answer,
}
use pyaseba.ClientAsync.Timely.{call_async_partial_live}
use pyaseba.ClientAsync.Requests.{Coroutine}
use pyaseba.ClientAsync.Coroutines.{Network, perform}
use pyaseba.ClientAsync.Ends.{with_turn, perform_ends}
use pyaseba.ClientAsync.Retries.{failures, connect_succeeds, connect_fails}

abbrev tcp : Text
tcp = text "tcp:port=33333"

-- Each failed attempt leaves two effects behind.
abbrev slow : List Effect → ℕ
slow done = if ltb (length done) 5 then 0 else 7

slow_at : (j : ℕ) → j < 2 → slow (failures slow tcp 500 j ++ attempt tcp ∷ []) ≡ zero
slow_at zero h = refl
slow_at (suc zero) h = refl
slow_at (suc (suc j)) h = ground arith

slow_within : (j : ℕ) → j ≤ 1 → slow (failures slow tcp 500 j ++ attempt tcp ∷ []) ≡ zero
slow_within j h = slow_at j (omega arith)

connect_succeeds_example :
    connect slow tcp 500 (pos 3)
    ≡ (7, attempt tcp ∷ sleep 500 ∷ attempt tcp ∷ sleep 500 ∷ attempt tcp ∷ sleep 1000 ∷ start ∷ [])
connect_succeeds_example = connect_succeeds slow tcp 500 2 3 6 (omega arith) slow_at refl

-- Two callbacks, the first of them in time.
abbrev answers : List (Signal ℕ)
answers = passes 3 ∷ called 4 true ∷ turn ∷ called 5 true ∷ passes 10 ∷ []

answers_returned : call_async (pos 8) 0 answers ≡ some 4
unfolding call_async steps step run_scheduled
answers_returned = refl

call_async_sound_example :
    (first_called answers ≡ some 4)
    ⊎ ((n : ℕ) × (deadline_of (pos 8) ≡ some n) × (n ≤ total answers) × (◌≡◌ {A = ℕ} 4 0))
call_async_sound_example = call_async_sound (pos 8) 0 answers 4 answers_returned

-- A part of the answer comes in time, the rest does not.
abbrev parts : List (Signal ℕ)
parts = called 2 false ∷ passes 9 ∷ turn ∷ called 6 true ∷ []

call_async_partial-partial_answer_example :
    call_async_partial (pos 8) ((1, false) ∷ []) 0 parts ≡ some 2
unfolding partial_answer answer_in_time first_complete
call_async_partial-partial_answer_example =
    call_async_partial-partial_answer (pos 8) ((1, false) ∷ []) 0 parts

call_async_partial_live_example :
    (v : ℕ) × (call_async_partial (pos 8) [] 0 (parts ++ turn ∷ []) ≡ some v)
call_async_partial_live_example =
    call_async_partial_live (pos 8) [] 0 parts 9 (omega arith) (omega arith)

-- A network that never answers.
abbrev silent : Network ℕ
silent = record { parts = λ f. []; answer = λ f. 0; signals = λ f. passes 1000 ∷ [] }

perform_ends_example :
    (v : ℕ) × (perform (with_turn silent) (Coroutine.wait_nodes [] (pos 1) (pos 500) [] [])
      ≡ some v)
perform_ends_example =
    perform_ends silent 499 (Coroutine.wait_nodes [] (pos 1) (pos 500) [] []) (λ f. omega arith)
      refl

call_async_deadline_example :
    (v : ℕ) × (call_async (pos 8) 0 ((passes 3 ∷ turn ∷ passes 5 ∷ []) ++ turn ∷ []) ≡ some v)
call_async_deadline_example =
    call_async_deadline (pos 8) 0 (passes 3 ∷ turn ∷ passes 5 ∷ []) 8 refl (omega arith)

connect_fails_example :
    connect slow tcp 500 (pos 1) ≡ (0, attempt tcp ∷ sleep 500 ∷ attempt tcp ∷ sleep 500 ∷ [])
connect_fails_example = connect_fails slow tcp 500 1 slow_within
