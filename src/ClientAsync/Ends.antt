-- ===== src/ClientAsync/Ends.antt =====
-- That every coroutine of `ClientAsync` ends.
use pyaseba.Base.{ℕ, suc, ℤ, pos, ◌≤◌, ◌≡◌, refl, some, [], ◌∷◌, ◌++◌, arith}
use pyaseba.ClientAsync.Future.{turn}
use pyaseba.ClientAsync.Waits.{total, call_async_deadline}
use pyaseba.ClientAsync.Timely.{call_async_partial_live}
use pyaseba.ClientAsync.Requests.{Request, Coroutine}
use pyaseba.ClientAsync.Coroutines.{Network, awaits, awaits_partial, perform}

-- `wait_ms`
abbrev pub time_of : Coroutine → ℤ
time_of (Coroutine.scan _ wait_ms) = wait_ms
time_of (Coroutine.query_description _ wait_ms _ _) = wait_ms
time_of (Coroutine.query_description_fragment _ _ wait_ms _ _) = wait_ms
time_of (Coroutine.query_device_info _ _ wait_ms _ _) = wait_ms
time_of (Coroutine.query_device_name _ wait_ms _ _) = wait_ms
time_of (Coroutine.query_device_uuid _ wait_ms _ _) = wait_ms
time_of (Coroutine.query_thymio_rf_settings _ wait_ms _ _) = wait_ms
time_of (Coroutine.get_message _ _ wait_ms _ _ _) = wait_ms
time_of (Coroutine.get_event _ _ wait_ms _ _) = wait_ms
time_of (Coroutine.get_variable _ _ wait_ms _ _) = wait_ms
time_of (Coroutine.get_all_variables _ wait_ms _ _) = wait_ms
time_of (Coroutine.get_changed_variables _ wait_ms _ _) = wait_ms
time_of (Coroutine.wait_nodes _ _ wait_ms _ _) = wait_ms
time_of (Coroutine.wait_connection _ wait_ms) = wait_ms
time_of (Coroutine.wait_disconnection _ wait_ms) = wait_ms
time_of (Coroutine.wait_node _ wait_ms _ _) = wait_ms
time_of (Coroutine.wait_node_disconnection _ wait_ms _ _) = wait_ms

module _ {ℓ} {A : Type ℓ} where
  -- A further turn of the event loop, behind everything else.
  abbrev pub with_turn : Network A → Network A
  with_turn native = record native { signals = λ f. native.signals f ++ turn ∷ [] }

  module _ (native : Network A) (k : ℕ) where
    -- The deadline has passed for every request.
    abbrev pub Late : Type 0
    Late = (f : Request) → suc k ≤ total (native.signals f)

    awaits_ends :
        (f : Request) (wait_ms : ℤ)
        → Late
        → wait_ms ≡ pos (suc k)
        → (v : A) × (awaits (with_turn native) f wait_ms ≡ some v)
    awaits_ends f wait_ms late e = rw e (
        call_async_deadline (pos (suc k)) (native.answer f) (native.signals f) (suc k) refl
          (late f))

    awaits_partial_ends :
        (f : Request) (wait_ms : ℤ)
        → Late
        → wait_ms ≡ pos (suc k)
        → (v : A) × (awaits_partial (with_turn native) f wait_ms ≡ some v)
    awaits_partial_ends f wait_ms late e = rw e (
        call_async_partial_live (pos (suc k)) (native.parts f) (native.answer f) (native.signals f)
          (suc k) (omega arith) (late f))

    -- Every coroutine with a positive time to wait has returned at the first turn of the loop at
    -- which its time has passed, whatever the native client answers and calls back before.
    pub perform_ends :
        (coroutine : Coroutine)
        → Late
        → time_of coroutine ≡ pos (suc k)
        → (v : A) × (perform (with_turn native) coroutine ≡ some v)
    unfolding perform
    perform_ends (Coroutine.scan number wait_ms) late e =
        awaits_partial_ends (Request.scan number) wait_ms late e
    perform_ends (Coroutine.query_description node_id wait_ms include exclude) late e =
        awaits_ends (Request.query_description node_id include exclude) wait_ms late e
    perform_ends (Coroutine.query_description_fragment node_id fragment wait_ms include exclude)
          late e =
        awaits_ends (Request.query_description_fragment node_id fragment include exclude) wait_ms
          late e
    perform_ends (Coroutine.query_device_info node_id type wait_ms include exclude) late e =
        awaits_ends (Request.query_device_info node_id type include exclude) wait_ms late e
    perform_ends (Coroutine.query_device_name node_id wait_ms include exclude) late e =
        awaits_ends (Request.query_device_name node_id include exclude) wait_ms late e
    perform_ends (Coroutine.query_device_uuid node_id wait_ms include exclude) late e =
        awaits_ends (Request.query_device_uuid node_id include exclude) wait_ms late e
    perform_ends (Coroutine.query_thymio_rf_settings node_id wait_ms include exclude) late e =
        awaits_ends (Request.query_thymio_rf_settings node_id include exclude) wait_ms late e
    perform_ends (Coroutine.get_message node_id types wait_ms include exclude pause) late e =
        awaits_ends (Request.get_message node_id types include exclude pause) wait_ms late e
    perform_ends (Coroutine.get_event node_id name wait_ms include exclude) late e =
        awaits_ends (Request.get_event node_id name include exclude) wait_ms late e
    perform_ends (Coroutine.get_variable node_id name wait_ms include exclude) late e =
        awaits_ends (Request.get_variable node_id name include exclude) wait_ms late e
    perform_ends (Coroutine.get_all_variables node_id wait_ms include exclude) late e =
        awaits_ends (Request.get_all_variables node_id include exclude) wait_ms late e
    perform_ends (Coroutine.get_changed_variables node_id wait_ms include exclude) late e =
        awaits_ends (Request.get_changed_variables node_id include exclude) wait_ms late e
    perform_ends (Coroutine.wait_nodes node_ids number wait_ms include exclude) late e =
        awaits_partial_ends (Request.wait_nodes node_ids number include exclude) wait_ms late e
    perform_ends (Coroutine.wait_connection connection wait_ms) late e =
        awaits_ends (Request.wait_connection connection) wait_ms late e
    perform_ends (Coroutine.wait_disconnection connection wait_ms) late e =
        awaits_ends (Request.wait_disconnection connection) wait_ms late e
    perform_ends (Coroutine.wait_node node_id wait_ms include exclude) late e =
        awaits_ends (Request.wait_node node_id include exclude) wait_ms late e
    perform_ends (Coroutine.wait_node_disconnection node_id wait_ms include exclude) late e =
        awaits_ends (Request.wait_node_disconnection node_id include exclude) wait_ms late e
