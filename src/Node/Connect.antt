-- ===== src/Node/Connect.antt =====
-- The life of a node: `connect`, `start_mirroring`, `load_script`, the commands, `close`, and
-- `set_controller`.
use pyaseba.Base.{
  ℕ, Bool, true, false, not, Option, none, some, List, [], ◌∷◌, Text, text_eq, is_some,
  if◌then◌else◌, Dict, ℤ, pos, ◌=ℕ◌,
}
use pyaseba.Base.Int.{leb_ℤ, ltb_ℤ}
use pyaseba.Base.Heap.{Ref}
use pyaseba.Base.Results.{Result, ok, err, assertion_error, value_error, runtime_error}
use pyaseba.Utils.{Finder, matches, int16}
use pyaseba.Targets.{are_targets_compatible}
use pyaseba.Description.{Description}
use pyaseba.Mirroring.{Mirroring, mirror, is_empty}
use pyaseba.Client.{Call, Client}
use pyaseba.Node.State.{
  Action, Callback, NodeClass, pure, raise, gets, or_raise, modify, skip, the_client, perform, ask,
  new_list, here, ◌>>=◌, ◌>>◌,
}
use pyaseba.Node.Update.{update}
use pyaseba.Node.Events.{set_callback, or_name}

abbrev pub variables_of : Option Description → Dict Text (ℕ × ℕ)
variables_of none = []
variables_of (some desc) = desc.variables

-- `{k: [] for k in variables}`
unfoldable pub empty_values : Dict Text (ℕ × ℕ) → Action (Dict Text Ref)
unfolding new_list
empty_values [] = pure []
empty_values ((name, _) ∷ variables) = do
  r ← new_list []
  rest ← empty_values variables
  pure ((name, r) ∷ rest)

abbrev pub sizes_by_name : Dict Text (ℕ × ℕ) → Dict Text ℕ
sizes_by_name [] = []
sizes_by_name ((name, (_, size)) ∷ variables) = (name, size) ∷ sizes_by_name variables

-- What a subclass overrides: `setup`, `stop` and `set_control_period` with its time step in
-- microseconds.
pub record Overrides : Type 0 where
  pub setup : Action (Unit {0})
  pub stop : Action (Unit {0})
  pub set_control_period : ℤ → Text → Action (Unit {0})

abbrev pub when : Bool → Action (Unit {0}) → Action (Unit {0})
when true m = m
when false m = skip

-- The handler of an exception of the client's `load_script`: the digits behind `Error at Line: `
-- are made an integer for the log, and an empty match is none.
abbrev pub log_error : Option Text → Action Bool
log_error none w = (ok false, w)
log_error (some []) w = (err value_error, w)
log_error (some (digit ∷ digits)) w = (ok false, w)

-- `Node.run`, `Node.pause`, and the bodies of `Node.stop` and `Node.reset`.
unfoldable pub run : Action (Unit {0})
unfolding the_client perform
run = do
  c ← the_client
  id ← gets (λ w. w.node_id)
  include ← gets here
  perform c (Call.cmd_run id include)

unfoldable pub pause : Action (Unit {0})
unfolding the_client perform
pause = do
  c ← the_client
  id ← gets (λ w. w.node_id)
  include ← gets here
  perform c (Call.cmd_pause id include)

unfoldable pub stop : Action (Unit {0})
unfolding the_client perform
stop = do
  c ← the_client
  modify (λ w. record w { mirroring = none })
  id ← gets (λ w. w.node_id)
  include ← gets here
  perform c (Call.cmd_stop id include)

unfoldable pub reset : Action (Unit {0})
unfolding the_client perform
reset = do
  c ← the_client
  modify (λ w. record w { mirroring = none })
  id ← gets (λ w. w.node_id)
  include ← gets here
  perform c (Call.cmd_reset id include)

-- Closing the client that the node has made itself.
unfoldable pub drop_client : ℕ → Action (Unit {0})
unfolding perform
drop_client c w =
    (if w.shared_client
        then skip
        else (perform c Call.close >> modify (λ w'. record w' { client = none })))
      w

-- `Node.close`
unfoldable pub close : Overrides → Bool → Action (Unit {0})
unfolding the_client perform drop_client reset
close overrides with_reset = do
  c ← the_client
  if with_reset then reset else overrides.stop
  perform c (Call.sleep 100)
  drop_client c
  modify (λ w. record w { connection = 0; target = [] })

-- `Node.set_controller`
unfoldable pub set_controller : Overrides → NodeClass → ℕ → ℤ → Text → Action (Unit {0})
set_controller overrides class callback time_step event =
    let event' = or_name event class.control_event in
    if is_empty event'
    then raise runtime_error
    else if ltb_ℤ (pos 0) time_step
    then (overrides.set_control_period time_step event'
        >> set_callback event' (some (Callback.control callback time_step)))
    else (overrides.set_control_period (pos 0) event' >> set_callback event' none)

-- The known connections to a compatible target.
unfoldable pub compatible_connections : Text → Dict ℕ Text → List ℕ
compatible_connections target [] = []
compatible_connections target ((conn, t) ∷ connections) =
    let rest = compatible_connections target connections in
    if are_targets_compatible target t then conn ∷ rest else rest

module _ (client : Client) (finds : Finder) (class : NodeClass) where
  unfoldable pub selected_names : Dict Text (ℕ × ℕ) → List Text
  selected_names [] = []
  selected_names ((name, _) ∷ variables) =
      let rest = selected_names variables in
      if matches finds name class.sync_include class.sync_exclude then name ∷ rest else rest

  -- `_init_variables`
  unfoldable pub init_variables : Action (Unit {0})
  init_variables = do
    variables ← gets (λ w. variables_of w.description)
    values ← empty_values variables
    modify (λ w. record w {
      variable_values = values;
      variable_sizes = sizes_by_name variables;
      sync_variables = selected_names variables;
    })

  -- What follows the client's `load_script`, by the exception that it has raised.
  unfoldable pub after_load : ℕ → Option Text → Action Bool
  unfolding ask
  after_load c (some message) = log_error (client.error_line message)
  after_load c none = do
    id ← gets (λ w. w.node_id)
    include ← gets here
    desc ← ask client.get_description c (Call.get_description id include)
    modify (λ w. record w { description = desc })
    init_variables
    pure true

  -- `Node.load_script`
  unfoldable pub load_script : Text → Dict Text ℤ → Dict Text ℤ → Action Bool
  unfolding the_client ask
  load_script script events constants = do
    c ← the_client
    modify (λ w. record w { mirroring = none })
    id ← gets (λ w. w.node_id)
    raised ← ask client.load_script c (Call.load_script id script events constants)
    after_load c raised

  unfoldable pub install : ℕ → Mirroring → Bool → Action (Unit {0})
  unfolding perform
  install c m false w = (ok tt, w)
  install c m true w =
      (modify (λ w'. record w' { mirroring = some m }) >> perform c (Call.cmd_run w.node_id [])) w

  abbrev pub lift : {A : Type 0} → Result A → Action A
  lift r w = (r, w)

  -- `Node.start_mirroring`
  unfoldable pub start_mirroring : Action (Unit {0})
  unfolding the_client ask
  start_mirroring = do
    c ← the_client
    id ← gets (λ w. w.node_id)
    include ← gets here
    found ← ask client.get_description c (Call.get_description id include)
    description ← or_raise found assertion_error
    config ← gets (λ w. w.mirroring_config)
    m ← lift (mirror finds description config)
    when (not (is_empty m.code))
        (do loaded ← load_script m.code m.code_events []; install c m loaded)

  -- The client that the node uses: its own, the given one, or a new one.
  unfoldable pub obtain_client : Option ℕ → Option ℕ → Action ℕ
  unfolding perform ask
  obtain_client (some own) given = pure own
  obtain_client none (some shared) = do
    modify (λ w. record w { client = some shared })
    perform shared Call.add_event_callback
    pure shared
  obtain_client none none = do
    c ← ask client.new_client 0 Call.new_client
    modify (λ w. record w { client = some c })
    perform c Call.add_event_callback
    pure c

  -- `self._client.connect(...)`, only if no connection is known.
  unfoldable pub connect_unless : ℕ → List ℕ → Text → ℕ → ℕ → Action Bool
  unfolding ask
  connect_unless c (conn ∷ connections) target wait_ms max_retries = pure true
  connect_unless c [] target wait_ms max_retries = do
    conn ← ask client.connect c (Call.connect target wait_ms max_retries)
    pure (not (conn =ℕ 0))

  -- What `connect` does with the node that it has found.
  unfoldable pub adopt : Overrides → ℕ → Text → ℕ → Bool → ℤ × ℕ → Action Bool
  unfolding ask int16
  adopt overrides c target wait_ms mirroring (node_id, conn) = do
    modify (λ w. record w {
      connection = conn;
      target = target;
      node_id = node_id;
      node_id_int16 = int16 node_id;
    })
    desc ← ask client.get_description c (Call.get_description node_id (conn ∷ []))
    modify (λ w. record w { description = desc })
    when mirroring start_mirroring
    init_variables
    update client wait_ms false
    overrides.setup
    pure true

  unfoldable pub give_up : ℕ → Action Bool
  unfolding drop_client
  give_up c = do drop_client c; pure false

  -- The wait for a node, once the target is connected.
  unfoldable pub find_node : Overrides → ℕ → Text → ℕ → ℤ → Bool → List ℕ → Action Bool
  unfolding perform ask
  find_node overrides c target wait_ms node_id mirroring connections = do
    when (leb_ℤ (pos 0) node_id) (perform c (Call.cmd_reset node_id []))
    found ← ask client.wait_node c (Call.wait_node wait_ms node_id connections)
    if found.1 =ℕ 0 then give_up c else adopt overrides c target wait_ms mirroring found

  -- `Node.connect`
  unfoldable pub connect :
      Overrides → Option ℕ → Text → Dict Text Text → ℕ → ℕ → ℤ → Bool → Action Bool
  unfolding ask
  connect overrides given target params wait_ms max_retries node_id mirroring = do
    let full = client.complete_target (or_name target class.default_target) params
    modify (λ w. record w { shared_client = if is_some given then true else w.shared_client })
    own ← gets (λ w. w.client)
    c ← obtain_client own given
    known ← ask client.connections c Call.connections
    let connections = compatible_connections full known
    connected ← connect_unless c connections full wait_ms max_retries
    if connected
        then find_node overrides c full wait_ms node_id mirroring connections
        else give_up c
