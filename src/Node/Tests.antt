-- ===== src/Node/Tests.antt =====
-- Runs of a node's methods, and the theorems about them at the sample node.
use pyaseba.Base.{
  ◌≡◌, ◌≢◌, refl, map, none, true, false, some, [], ◌∷◌, arith, text, text_eq, int_eq, list_eq,
  nat_eq, pos, negsuc,
}
use pyaseba.Base.Dicts.{lookup, insert}
use pyaseba.Base.Heap.{Ref, read, write, alloc, next}
use pyaseba.Base.Results.{ok, err, out_of_fuel}
use pyaseba.Utils.{matches, any_finds}
use pyaseba.Mirroring.{sized_variables}
use pyaseba.Mirroring.Samples.{
  robot, prox_spec, robot_config, robot_tables, robot_code, robot_mirrored, finds_name, prox_values,
  prox_event,
}
use pyaseba.Client.{Call, History}
use pyaseba.Node.State.{World, NodeClass, Callback, the_client, perform, new_list, words_at, skip}
use pyaseba.Node.Cache.{
  scalar, set, forward, put_next, put_prev, put_value, is_new, forward_pending, sync_variable,
  sync_all, sync, get, word, got,
}
use pyaseba.Node.Update.{
  set_slice, locate, write_slice, write_change, change_loop, change_all, set_changes,
}
use pyaseba.Node.Events.{UserCode, set_callback, call, run_callback, event_cb}
use pyaseba.Node.Invariant.{IsWellFormed}
use pyaseba.Node.Access.{get-set}
use pyaseba.Node.Sync.{Synced, sync-Synced}
use pyaseba.Node.Callbacks.{call-mirrored, call-cut}
use pyaseba.Mirroring.Slices.{cut}
use pyaseba.Mirroring.Code.{argument_slices}
use pyaseba.Node.Found.{Outcome}
use pyaseba.Node.Connected.{connect-Outcome}
use pyaseba.Node.Mirrored.{Holds}
use pyaseba.Node.Delivery.{after_values, user_part, event_cb-mirrored}
use pyaseba.Node.Observed.{event_cb-set_callback}
use pyaseba.Node.Started.{Described, start_mirroring-Described}
use pyaseba.Node.Changes.{set_changes-fuel}
use pyaseba.Node.Connect.{Overrides, start_mirroring, stop, connect, compatible_connections}
use pyaseba.Node.Construct.{new_node}
use pyaseba.Node.Exposed.{list_object, get_property, set_property, get_property-set_property}
use pyaseba.Node.Samples.{steady_client, node}

node-IsWellFormed : IsWellFormed node
unfolding next
node-IsWellFormed = omega arith

-- Only `acc` differs from the last known value.
node-sync :
    (sync node).1.calls
    ≡ (1, Call.set_variable (pos 5) (text "acc") (pos 1 ∷ pos 2 ∷ pos 3 ∷ []) (2 ∷ [])) ∷ []
unfolding sync sync_all sync_variable forward_pending is_new set the_client new_list forward
    put_value put_prev put_next perform words_at lookup insert read alloc next list_eq int_eq
    text_eq
node-sync = refl

-- A change that spans two variables is written into both cached lists, and so into the pending
-- value that shares one of them.
node_changes :
    ((set_changes ((35, pos 9 ∷ pos 6 ∷ []) ∷ []) node).0 ≡ ok (text "prox" ∷ text "acc" ∷ []))
    × ((set_changes ((35, pos 9 ∷ pos 6 ∷ []) ∷ []) node).1.heap
        ≡ (pos 7 ∷ pos 9 ∷ []) ∷ (pos 6 ∷ pos 0 ∷ pos 0 ∷ []) ∷ (pos 6 ∷ pos 2 ∷ pos 3 ∷ []) ∷ [])
unfolding set_changes change_all change_loop locate write_change write_slice set_slice lookup read
    write text_eq nat_eq
node_changes = (refl, refl)

get-set_example :
    let w' = (set (text "acc") (scalar (negsuc 0)) (some false) node).1 in
    ((set (text "acc") (scalar (negsuc 0)) (some false) node).0 ≡ ok tt)
    × (w'.calls ≡ (1, Call.set_variable (pos 5) (text "acc") (negsuc 0 ∷ []) (2 ∷ [])) ∷ [])
    × (get steady_client (text "acc") 1000 (some true) w' ≡ (ok (word (negsuc 0)), w'))
    × (read w'.heap (next node.heap) ≡ negsuc 0 ∷ [])
get-set_example =
    get-set steady_client 1 node (text "acc") (scalar (negsuc 0)) (some false) 1000 refl

sync-Synced_example :
    Synced 1 node node.sync_variables (sync node) × ((sync node).1.next_variables_values ≡ [])
unfolding text_eq
sync-Synced_example = sync-Synced 1 node refl node-IsWellFormed (refl, (refl, tt))

abbrev idle : UserCode
idle = record { extra_event_cb = λ e. skip; on_event = λ f. skip; on_control = λ f t. skip }

event_cb-mirrored_example :
    (event_cb idle sync prox_event node
      ≡ user_part idle sync prox_event (after_values prox_event prox_values node))
    × Holds (text "acc") (pos 1 ∷ pos 2 ∷ pos 3 ∷ []) (after_values prox_event prox_values node)
unfolding lookup text_eq
event_cb-mirrored_example =
    event_cb-mirrored idle sync prox_event node (robot_tables []) prox_values (pos 12 ∷ [])
      (text "acc") (pos 1 ∷ pos 2 ∷ pos 3 ∷ []) refl refl refl refl (refl, (refl, tt)) refl refl

set_changes-fuel_example :
    (set_changes ((33, pos 1 ∷ pos 2 ∷ []) ∷ (34, pos 3 ∷ []) ∷ []) node).0 ≢ err out_of_fuel
set_changes-fuel_example = set_changes-fuel ((33, pos 1 ∷ pos 2 ∷ []) ∷ (34, pos 3 ∷ []) ∷ []) node

abbrev mirroring_node : World
mirroring_node = record node { mirroring = some (robot_tables robot_code) }

call-mirrored_example : call (text "leds") (pos 8 ∷ []) mirroring_node ≡ (
  ok tt,
  record mirroring_node {
    calls = (1, Call.emit_event (pos 5) (text "call_leds") (pos 5 ∷ pos 8 ∷ []) (2 ∷ [])) ∷ [];
  },
)
unfolding matches any_finds lookup text_eq
call-mirrored_example =
    call-mirrored finds_name robot_config robot (robot_tables robot_code) 1 mirroring_node
      (text "leds") (pos 8 ∷ []) (refl, tt) robot_mirrored refl refl

event_cb-set_callback_example :
    let w = (set_callback (text "prox") (some (Callback.user 3)) mirroring_node).1 in
    let w1 = after_values prox_event prox_values w in
    (event_cb idle sync prox_event w ≡ run_callback idle sync (some (Callback.user 3)) w1)
    × ((r : Ref) × (get steady_client (text "acc") 1000 (some true) w1
          ≡ (ok (got r (pos 1 ∷ pos 2 ∷ pos 3 ∷ [])), w1)))
unfolding sized_variables lookup text_eq
event_cb-set_callback_example =
    event_cb-set_callback finds_name robot_config robot (robot_tables robot_code) (text "prox")
      prox_spec (refl, tt) robot_mirrored refl refl steady_client 1 idle sync (Callback.user 3)
      prox_event mirroring_node prox_values (pos 12 ∷ []) (text "acc") (pos 1 ∷ pos 2 ∷ pos 3 ∷ [])
      1000 refl refl refl refl refl refl (refl, (refl, tt)) refl refl refl

call-cut_example :
    let payload = pos 5 ∷ pos 32 ∷ pos 16 ∷ pos 0 ∷ pos 1 ∷ [] in
    ((call (text "leds") (pos 32 ∷ pos 16 ∷ pos 0 ∷ pos 1 ∷ []) mirroring_node).1.calls
      ≡ (1, Call.emit_event (pos 5) (text "call_leds") payload (2 ∷ [])) ∷ [])
    × (map (cut payload) (argument_slices (pos 1) (pos 3 ∷ pos 1 ∷ []))
        ≡ (pos 32 ∷ pos 16 ∷ pos 0 ∷ []) ∷ (pos 1 ∷ []) ∷ [])
unfolding matches any_finds lookup text_eq
call-cut_example =
    call-cut finds_name robot_config robot (robot_tables robot_code) 1 mirroring_node (text "leds")
      (text "set") ((text "rgb", pos 3) ∷ (text "on", pos 1) ∷ [])
      ((pos 32 ∷ pos 16 ∷ pos 0 ∷ []) ∷ (pos 1 ∷ []) ∷ []) (refl, tt) robot_mirrored refl refl refl
      refl refl

abbrev plain : Overrides
plain = record { setup = skip; stop = stop; set_control_period = λ t e. skip }

abbrev plain_class : NodeClass
plain_class = record {
  default_target = text "tcp:port=33333";
  control_event = [];
  sync_include = text "acc" ∷ [];
  sync_exclude = [];
}

abbrev made : World
made = new_node robot_config [] true [] []

abbrev linked : World
unfolding connect
linked =
    (connect steady_client finds_name plain_class plain (some 1) [] [] 1000 3 (pos 5) false made).1

abbrev changed : World
unfolding connect set
changed = (set (text "acc") (scalar (pos 4)) none linked).1

-- The list 0 is assigned to `acc`, and then written into.
get_property-set_property_example :
    let w1 = (set_property (text "acc") (list_object 0) node).1 in
    let w2 : World = record w1 { heap = write w1.heap 0 (pos 9 ∷ []) } in
    (get_property (text "acc") w1 ≡ (ok (got 0 (read node.heap 0)), w1))
    × (get_property (text "acc") w2 ≡ (ok (got 0 (pos 9 ∷ [])), w2))
    × (lookup ⦃e = text_eq⦄ (text "acc") w2.next_variables_values ≡ some 0)
    × (read w2.heap 0 ≡ pos 9 ∷ [])
    × (w2.calls ≡ [])
unfolding next
get_property-set_property_example =
    get_property-set_property (text "acc") 0 (pos 9 ∷ []) node (omega arith)

connect-Outcome_example :
    let calls : History =
      (1, Call.add_event_callback)
      ∷ (1, Call.connections)
      ∷ (1, Call.connect (text "tcp:port=33333") 1000 3)
      ∷ (1, Call.cmd_reset (pos 5) [])
      ∷ (1, Call.wait_node 1000 (pos 5) [])
      ∷ [] in
    Outcome stop made (text "tcp:port=33333") true 1 calls (some (pos 5, 1)) (
      connect steady_client finds_name plain_class
        (record plain { setup = stop })
        (some 1)
        []
        []
        1000
        3
        (pos 5)
        false
        made)
unfolding compatible_connections new_node
connect-Outcome_example =
    connect-Outcome steady_client finds_name plain_class (record plain { setup = stop }) (some 1) []
      [] 1000 3 (pos 5) false made

start_mirroring-Described_example :
    Described steady_client finds_name plain_class 1 node refl
      (some robot)
      (start_mirroring steady_client finds_name plain_class node)
start_mirroring-Described_example =
    start_mirroring-Described steady_client finds_name plain_class 1 node refl
