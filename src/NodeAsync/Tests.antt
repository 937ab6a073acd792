-- ===== src/NodeAsync/Tests.antt =====
-- Runs of an asynchronous node.
use pyaseba.Base.{◌≡◌, refl, none, true, false, some, [], ◌∷◌, text, text_eq, pos, negsuc}
use pyaseba.Base.Results.{ok}
use pyaseba.Mirroring.Samples.{robot_config, finds_name}
use pyaseba.Client.{Call}
use pyaseba.Node.State.{World, NodeClass, the_client, perform, skip}
use pyaseba.Node.Cache.{scalar, set}
use pyaseba.Node.Events.{UserCode}
use pyaseba.Node.Connect.{Overrides, stop}
use pyaseba.Node.Construct.{new_node}
use pyaseba.Node.Samples.{steady_client, node}
use pyaseba.NodeAsync.{connect_async, update_async, close_async}
use pyaseba.NodeAsync.Closing.{close_async_lem}

abbrev idle : UserCode
idle = record { extra_event_cb = λ e. skip; on_event = λ f. skip; on_control = λ f t. skip }

abbrev plain : Overrides
plain = record { setup = skip; stop = stop; set_control_period = λ t e. skip }

abbrev plain_class : NodeClass
plain_class = record {
  default_target = [];
  control_event = [];
  sync_include = text "acc" ∷ [];
  sync_exclude = [];
}

abbrev made : World
made = new_node robot_config [] true [] []

-- Nothing happens.
abbrev alone : World → World
alone w = w

-- Another coroutine sets a variable.
abbrev busy : World → World
unfolding set
busy w = (set (text "acc") (scalar (pos 4)) none w).1

abbrev linked : World
unfolding connect_async
linked =
    (connect_async steady_client alone finds_name plain_class plain (some 1) (text "tcp:") 1000 3
      (pos 5) false made).1

abbrev changed : World
unfolding update_async
changed = (update_async steady_client busy 1000 linked).1

-- The client is the node's own.
close_async_lem_example : close_async steady_client alone plain false node ≡ (
  ok tt,
  record node {
    mirroring = none;
    client = none;
    calls = (1, Call.cmd_stop (pos 5) (2 ∷ [])) ∷ (0, Call.sleep 100) ∷ (1, Call.close) ∷ [];
    node_id = negsuc 0;
  },
)
unfolding stop the_client perform
close_async_lem_example =
    close_async_lem steady_client alone plain false node
      (record node { mirroring = none; calls = (1, Call.cmd_stop (pos 5) (2 ∷ [])) ∷ [] }) refl
