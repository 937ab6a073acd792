-- ===== src/ClientAsync/Requests.antt =====
-- The requests that the coroutines of `ClientAsync` make of the native client.
use pyaseba.Base.{ℕ, ℤ, Bool, List, Text}

-- The bound requests, `partial(super().f, ...)`. Sets of connections, and of the types of messages,
-- are lists.
pub data Request : Type 0 where
  scan : ℤ → Request
  query_description : ℤ → List ℕ → List ℕ → Request
  query_description_fragment : ℤ → ℤ → List ℕ → List ℕ → Request
  query_device_info : ℤ → ℕ → List ℕ → List ℕ → Request
  query_device_name : ℤ → List ℕ → List ℕ → Request
  query_device_uuid : ℤ → List ℕ → List ℕ → Request
  query_thymio_rf_settings : ℤ → List ℕ → List ℕ → Request
  get_message : ℤ → List ℕ → List ℕ → List ℕ → Bool → Request
  get_event : ℤ → Text → List ℕ → List ℕ → Request
  get_variable : ℤ → Text → List ℕ → List ℕ → Request
  get_all_variables : ℤ → List ℕ → List ℕ → Request
  get_changed_variables : ℤ → List ℕ → List ℕ → Request
  wait_nodes : List ℤ → ℤ → List ℕ → List ℕ → Request
  wait_connection : ℕ → Request
  wait_disconnection : ℕ → Request
  wait_node : ℤ → List ℕ → List ℕ → Request
  wait_node_disconnection : ℤ → List ℕ → List ℕ → Request

-- The requests with the time to wait.
pub data Coroutine : Type 0 where
  scan : ℤ → ℤ → Coroutine
  query_description : ℤ → ℤ → List ℕ → List ℕ → Coroutine
  query_description_fragment : ℤ → ℤ → ℤ → List ℕ → List ℕ → Coroutine
  query_device_info : ℤ → ℕ → ℤ → List ℕ → List ℕ → Coroutine
  query_device_name : ℤ → ℤ → List ℕ → List ℕ → Coroutine
  query_device_uuid : ℤ → ℤ → List ℕ → List ℕ → Coroutine
  query_thymio_rf_settings : ℤ → ℤ → List ℕ → List ℕ → Coroutine
  get_message : ℤ → List ℕ → ℤ → List ℕ → List ℕ → Bool → Coroutine
  get_event : ℤ → Text → ℤ → List ℕ → List ℕ → Coroutine
  get_variable : ℤ → Text → ℤ → List ℕ → List ℕ → Coroutine
  get_all_variables : ℤ → ℤ → List ℕ → List ℕ → Coroutine
  get_changed_variables : ℤ → ℤ → List ℕ → List ℕ → Coroutine
  wait_nodes : List ℤ → ℤ → ℤ → List ℕ → List ℕ → Coroutine
  wait_connection : ℕ → ℤ → Coroutine
  wait_disconnection : ℕ → ℤ → Coroutine
  wait_node : ℤ → ℤ → List ℕ → List ℕ → Coroutine
  wait_node_disconnection : ℤ → ℤ → List ℕ → List ℕ → Coroutine
