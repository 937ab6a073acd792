-- ===== src/Node/Construct.antt =====
-- The construction of a node.
use pyaseba.Base.{Bool, false, none, [], List, ◌++◌, Text, ℤ, pos, negsuc}
use pyaseba.Base.Heap.{Heap}
use pyaseba.Mirroring.{MirroringConfig}
use pyaseba.Client.{History}
use pyaseba.Node.State.{World}

-- `Node.__init__`, from the configuration and the functions of the class and with the list objects
-- and calls of the program so far; also what `Thymio.__init__` adds without its options. The list
-- of included functions is the one that this instance sees if it is the first of its class.
unfoldable pub new_node : MirroringConfig → List Text → Bool → Heap ℤ → History → World
new_node config functions cached heap history = record {
  mirroring_config = record config { function_include = config.function_include ++ functions };
  mirroring = none;
  connection = 0;
  description = none;
  target = [];
  cached = cached;
  client = none;
  node_id = negsuc 0;
  node_id_int16 = negsuc 0;
  shared_client = false;
  variable_values = [];
  variable_sizes = [];
  event_callbacks = [];
  next_variables_values = [];
  prev_variables_values = [];
  sync_variables = [];
  last_payloads = [];
  prox_comm = record { should_record = false; buffer = []; next_buffers = []; counter = pos 0 };
  heap = heap;
  calls = history;
}
