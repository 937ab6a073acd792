-- ===== src/ClientAsync/Coroutines.antt =====
-- The coroutines of `ClientAsync` that make a request of the native client: each binds the
-- arguments of the request, and leaves `wait_ms` and the callback to `call_async`,
-- `call_async_tuple` or `call_async_partial`. The methods of the native client are a parameter.
use pyaseba.Base.{ℕ, ℤ, Bool, Option, List, Text}
use pyaseba.ClientAsync.Future.{Signal, call_async, call_async_tuple, call_async_partial}
use pyaseba.ClientAsync.Requests.{Request, Coroutine}

module _ {ℓ} where
  -- How the native client treats a request: the callbacks made while it runs, the answer that it
  -- returns at once, and what happens afterwards.
  pub record Network (A : Type ℓ) : Type ℓ where
    pub parts : Request → List (A × Bool)
    pub answer : Request → A
    pub signals : Request → List (Signal A)

  module _ {A : Type ℓ} (native : Network A) where
    -- The request `f` of a coroutine that awaits `call_async(f, wait_ms=wait_ms)`.
    abbrev pub awaits : Request → ℤ → Option A
    awaits f wait_ms = call_async wait_ms (native.answer f) (native.signals f)

    -- The same for `call_async_tuple`.
    abbrev pub awaits_tuple : Request → ℤ → Option A
    awaits_tuple f wait_ms = call_async_tuple wait_ms (native.answer f) (native.signals f)

    -- The same for `call_async_partial`.
    abbrev pub awaits_partial : Request → ℤ → Option A
    awaits_partial f wait_ms =
        call_async_partial wait_ms (native.parts f) (native.answer f) (native.signals f)

    -- `ClientAsync.scan`
    unfoldable pub scan : ℤ → ℤ → Option A
    unfolding call_async_partial
    scan number wait_ms = awaits_partial (Request.scan number) wait_ms

    -- `ClientAsync.query_description`
    unfoldable pub query_description : ℤ → ℤ → List ℕ → List ℕ → Option A
    unfolding call_async
    query_description node_id wait_ms include exclude =
        awaits (Request.query_description node_id include exclude) wait_ms

    -- `ClientAsync.query_description_fragment`
    unfoldable pub query_description_fragment : ℤ → ℤ → ℤ → List ℕ → List ℕ → Option A
    unfolding call_async
    query_description_fragment node_id fragment wait_ms include exclude =
        awaits (Request.query_description_fragment node_id fragment include exclude) wait_ms

    -- `ClientAsync.query_device_info`
    unfoldable pub query_device_info : ℤ → ℕ → ℤ → List ℕ → List ℕ → Option A
    unfolding call_async
    query_device_info node_id type wait_ms include exclude =
        awaits (Request.query_device_info node_id type include exclude) wait_ms

    -- `ClientAsync.query_device_name`
    unfoldable pub query_device_name : ℤ → ℤ → List ℕ → List ℕ → Option A
    unfolding call_async
    query_device_name node_id wait_ms include exclude =
        awaits (Request.query_device_name node_id include exclude) wait_ms

    -- `ClientAsync.query_device_uuid`
    unfoldable pub query_device_uuid : ℤ → ℤ → List ℕ → List ℕ → Option A
    unfolding call_async
    query_device_uuid node_id wait_ms include exclude =
        awaits (Request.query_device_uuid node_id include exclude) wait_ms

    -- `ClientAsync.query_thymio_rf_settings`
    unfoldable pub query_thymio_rf_settings : ℤ → ℤ → List ℕ → List ℕ → Option A
    unfolding call_async
    query_thymio_rf_settings node_id wait_ms include exclude =
        awaits (Request.query_thymio_rf_settings node_id include exclude) wait_ms

    -- `ClientAsync.get_message`
    unfoldable pub get_message : ℤ → List ℕ → ℤ → List ℕ → List ℕ → Bool → Option A
    unfolding call_async
    get_message node_id types wait_ms include exclude pause =
        awaits_tuple (Request.get_message node_id types include exclude pause) wait_ms

    -- `ClientAsync.get_event`
    unfoldable pub get_event : ℤ → Text → ℤ → List ℕ → List ℕ → Option A
    unfolding call_async
    get_event node_id name wait_ms include exclude =
        awaits (Request.get_event node_id name include exclude) wait_ms

    -- `ClientAsync.get_variable`
    unfoldable pub get_variable : ℤ → Text → ℤ → List ℕ → List ℕ → Option A
    unfolding call_async
    get_variable node_id name wait_ms include exclude =
        awaits (Request.get_variable node_id name include exclude) wait_ms

    -- `ClientAsync.get_all_variables`
    unfoldable pub get_all_variables : ℤ → ℤ → List ℕ → List ℕ → Option A
    unfolding call_async
    get_all_variables node_id wait_ms include exclude =
        awaits (Request.get_all_variables node_id include exclude) wait_ms

    -- `ClientAsync.get_changed_variables`
    unfoldable pub get_changed_variables : ℤ → ℤ → List ℕ → List ℕ → Option A
    unfolding call_async
    get_changed_variables node_id wait_ms include exclude =
        awaits (Request.get_changed_variables node_id include exclude) wait_ms

    -- `ClientAsync.wait_nodes`
    unfoldable pub wait_nodes : List ℤ → ℤ → ℤ → List ℕ → List ℕ → Option A
    unfolding call_async_partial
    wait_nodes node_ids number wait_ms include exclude =
        awaits_partial (Request.wait_nodes node_ids number include exclude) wait_ms

    -- `ClientAsync.wait_connection`
    unfoldable pub wait_connection : ℕ → ℤ → Option A
    unfolding call_async
    wait_connection connection wait_ms = awaits_tuple (Request.wait_connection connection) wait_ms

    -- `ClientAsync.wait_disconnection`
    unfoldable pub wait_disconnection : ℕ → ℤ → Option A
    unfolding call_async
    wait_disconnection connection wait_ms =
        awaits_tuple (Request.wait_disconnection connection) wait_ms

    -- `ClientAsync.wait_node`
    unfoldable pub wait_node : ℤ → ℤ → List ℕ → List ℕ → Option A
    unfolding call_async
    wait_node node_id wait_ms include exclude =
        awaits_tuple (Request.wait_node node_id include exclude) wait_ms

    -- `ClientAsync.wait_node_disconnection`
    unfoldable pub wait_node_disconnection : ℤ → ℤ → List ℕ → List ℕ → Option A
    unfolding call_async
    wait_node_disconnection node_id wait_ms include exclude =
        awaits_tuple (Request.wait_node_disconnection node_id include exclude) wait_ms

    -- A coroutine by its request.
    unfoldable pub perform : Coroutine → Option A
    unfolding scan query_description query_description_fragment query_device_info query_device_name
        query_device_uuid query_thymio_rf_settings get_message get_event get_variable
        get_all_variables get_changed_variables wait_nodes wait_connection wait_disconnection
        wait_node wait_node_disconnection
    perform (Coroutine.scan number wait_ms) = scan number wait_ms
    perform (Coroutine.query_description node_id wait_ms include exclude) =
        query_description node_id wait_ms include exclude
    perform (Coroutine.query_description_fragment node_id fragment wait_ms include exclude) =
        query_description_fragment node_id fragment wait_ms include exclude
    perform (Coroutine.query_device_info node_id type wait_ms include exclude) =
        query_device_info node_id type wait_ms include exclude
    perform (Coroutine.query_device_name node_id wait_ms include exclude) =
        query_device_name node_id wait_ms include exclude
    perform (Coroutine.query_device_uuid node_id wait_ms include exclude) =
        query_device_uuid node_id wait_ms include exclude
    perform (Coroutine.query_thymio_rf_settings node_id wait_ms include exclude) =
        query_thymio_rf_settings node_id wait_ms include exclude
    perform (Coroutine.get_message node_id types wait_ms include exclude pause) =
        get_message node_id types wait_ms include exclude pause
    perform (Coroutine.get_event node_id name wait_ms include exclude) =
        get_event node_id name wait_ms include exclude
    perform (Coroutine.get_variable node_id name wait_ms include exclude) =
        get_variable node_id name wait_ms include exclude
    perform (Coroutine.get_all_variables node_id wait_ms include exclude) =
        get_all_variables node_id wait_ms include exclude
    perform (Coroutine.get_changed_variables node_id wait_ms include exclude) =
        get_changed_variables node_id wait_ms include exclude
    perform (Coroutine.wait_nodes node_ids number wait_ms include exclude) =
        wait_nodes node_ids number wait_ms include exclude
    perform (Coroutine.wait_connection connection wait_ms) = wait_connection connection wait_ms
    perform (Coroutine.wait_disconnection connection wait_ms) =
        wait_disconnection connection wait_ms
    perform (Coroutine.wait_node node_id wait_ms include exclude) =
        wait_node node_id wait_ms include exclude
    perform (Coroutine.wait_node_disconnection node_id wait_ms include exclude) =
        wait_node_disconnection node_id wait_ms include exclude
