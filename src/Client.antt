-- ===== src/Client.antt =====
-- The native client (pyaseba/client/_client_impl, a compiled module) as a node sees it: every call
-- is logged, and what a call answers is a parameter that may depend on all calls so far. So
-- nothing is assumed of the network and of the remote nodes.
use pyaseba.Base.{ℕ, Bool, Option, List, Text, ℤ, Dict}
use pyaseba.Description.{Description, Event}

-- The calls, in the order of the arguments that the Python code gives; `include` is the set of
-- connections, where the empty set stands for all of them.
pub data Call : Type 0 where
  new_client : Call
  add_event_callback : Call
  connections : Call
  connect : Text → ℕ → ℕ → Call
  wait_node : ℕ → ℤ → List ℕ → Call
  get_description : ℤ → List ℕ → Call
  load_script : ℤ → Text → Dict Text ℤ → Dict Text ℤ → Call
  get_script : ℤ → List ℕ → Call
  cmd_run cmd_pause cmd_stop cmd_reset : ℤ → List ℕ → Call
  get_event : ℤ → Text → List ℕ → ℕ → Call
  emit_event : ℤ → Text → List ℤ → List ℕ → Call
  set_variable : ℤ → Text → List ℤ → List ℕ → Call
  get_variable : ℤ → Text → ℕ → List ℕ → Call
  get_all_variables : ℤ → ℕ → List ℕ → Call
  get_changed_variables : ℤ → ℕ → List ℕ → Call
  close : Call
  is_connected get_node_ids get_message : Call
  wait_nodes : ℤ → Call
  -- `loop.call_soon_threadsafe(loop.create_task, ...)`, for a callback that is a coroutine
  create_task : ℕ → Call
  -- `time.sleep`, in milliseconds
  sleep : ℕ → Call
  -- `warnings.warn('Could not update variables')`
  warn : Call

-- Calls with the client that each is made on.
abbrev pub History : Type 0
History = List (ℕ × Call)

-- The answers, each after the history that ends with the call in question.
pub record Client : Type 0 where
  pub new_client : History → ℕ
  pub connections : History → Dict ℕ Text
  pub connect : History → ℕ
  pub wait_node : History → ℤ × ℕ
  pub get_description : History → Option Description
  -- The text of the exception, if the call raises one.
  pub load_script : History → Option Text
  pub get_script : History → Text
  pub get_event : History → Option Event
  pub get_variable : History → List ℤ
  pub get_all_variables : History → Dict Text (List ℤ)
  pub get_changed_variables : History → List (ℕ × List ℤ)
  pub is_connected : History → Bool
  -- The node identifiers by connection.
  pub get_node_ids : History → Dict ℕ (List ℤ)
  pub wait_nodes : History → Dict ℕ (List ℤ)
  -- A number stands for the message object.
  pub get_message : History → Option ℕ × ℕ
  pub complete_target : Text → Dict Text Text → Text
  pub uses_mobsya_aseba : Bool
  -- `re.search(r"Error at Line: (\d*)", message)`, and the digits that it finds.
  pub error_line : Text → Option Text
