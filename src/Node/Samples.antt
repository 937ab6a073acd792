-- ===== src/Node/Samples.antt =====
-- A node with one cached value and one pending value, and a client that gives the same answer to
-- every question.
use pyaseba.Base.{true, false, none, some, [], ◌∷◌, text, pos, text_eq}
use pyaseba.Client.{Client}
use pyaseba.Mirroring.Samples.{robot, robot_config, robot_tables}
use pyaseba.Node.State.{World, ProxComm}

abbrev pub steady_client : Client
steady_client = record {
  new_client = λ h. 1;
  connections = λ h. [];
  connect = λ h. 1;
  wait_node = λ h. (pos 5, 1);
  get_description = λ h. some robot;
  load_script = λ h. none;
  get_script = λ h. [];
  get_event = λ h. none;
  get_variable = λ h. pos 4 ∷ [];
  get_all_variables = λ h. [];
  get_changed_variables = λ h. [];
  is_connected = λ h. false;
  get_node_ids = λ h. [];
  wait_nodes = λ h. [];
  get_message = λ h. (none, 0);
  complete_target = λ target params. target;
  uses_mobsya_aseba = false;
  error_line = λ message. none;
}

abbrev pub quiet : ProxComm
quiet = record { should_record = false; buffer = []; next_buffers = []; counter = pos 0 }

-- `prox` is cached; a new value for `acc` is pending, which differs from the last one.
abbrev pub node : World
node = record {
  mirroring_config = robot_config;
  mirroring = some (robot_tables []);
  connection = 2;
  description = some robot;
  target = text "tcp:port=33333";
  cached = true;
  client = some 1;
  node_id = pos 5;
  node_id_int16 = pos 5;
  shared_client = false;
  variable_values = (text "prox", 0) ∷ (text "acc", 2) ∷ [];
  variable_sizes = (text "prox", 2) ∷ (text "acc", 3) ∷ [];
  event_callbacks = [];
  next_variables_values = (text "acc", 2) ∷ (text "prox", 0) ∷ [];
  prev_variables_values = (text "prox", 0) ∷ (text "acc", 1) ∷ [];
  sync_variables = text "prox" ∷ text "acc" ∷ [];
  last_payloads = [];
  prox_comm = quiet;
  heap = (pos 7 ∷ pos 8 ∷ []) ∷ (pos 0 ∷ pos 0 ∷ pos 0 ∷ []) ∷ (pos 1 ∷ pos 2 ∷ pos 3 ∷ []) ∷ [];
  calls = [];
}
