-- ===== src/Node/Events.antt =====
-- Events: the callback `_event_cb` that the client calls for each event, the user's callbacks, and
-- `emit`, `call` and `wait`.
use pyaseba.Base.{
  ℕ, Bool, false, Option, none, some, List, [], ◌∷◌, Text, text_eq, int_eq, ◌==◌, contains, is_some,
  if◌then◌else◌, Dict, ℤ,
}
use pyaseba.Base.Dicts.{lookup, lookup_or, insert, erase, has_key, keys, values}
use pyaseba.Base.Results.{ok}
use pyaseba.Description.{Description, Event}
use pyaseba.Mirroring.{Mirroring, get_event_name, get_function_name, read_variables}
use pyaseba.Client.{Call, Client}
use pyaseba.Node.State.{
  World, Action, Callback, pure, gets, modify, skip, the_client, perform, ask, new_list, here,
  ◌>>=◌, ◌>>◌,
}
use pyaseba.Node.Cache.{put_value, put_prev}

abbrev pub or_name : Text → Text → Text
or_name [] name = name
or_name (c ∷ found) name = c ∷ found

-- `_event_name`
unfoldable pub event_name : Option Mirroring → Text → Text
event_name none name = name
event_name (some m) name = or_name (get_event_name m name) name

-- `Node.events`
abbrev pub user_events_of : Option Description → List Text
user_events_of none = []
user_events_of (some desc) = keys desc.user_events

-- `Node.mirrored_functions`
unfoldable pub mirrored_functions : World → List Text
mirrored_functions w = elim w.mirroring [ none ↦ [] | some m ↦ keys m.functions ]

-- `Node.mirrored_events`
unfoldable pub mirrored_events : World → List Text
mirrored_events w = elim w.mirroring [ none ↦ [] | some m ↦ values m.events ]

-- `Node.set_callback`
unfoldable pub set_callback : Text → Option Callback → Action (Unit {0})
unfolding text_eq insert erase
set_callback name none w =
    (ok tt, record w { event_callbacks = erase (event_name w.mirroring name) w.event_callbacks })
set_callback name (some cb) w = (
  ok tt,
  record w { event_callbacks = insert (event_name w.mirroring name) cb w.event_callbacks },
)

-- `Node.get_callback`
unfoldable pub get_callback : Text → World → Option Callback
unfolding text_eq lookup
get_callback name w = lookup (event_name w.mirroring name) w.event_callbacks

-- `Node.get_last_payload`
unfoldable pub get_last_payload : Text → World → List ℤ
unfolding text_eq lookup_or
get_last_payload name w = lookup_or name [] w.last_payloads

-- `Node.emit`
unfoldable pub emit : Text → List ℤ → Action (Unit {0})
unfolding the_client perform
emit name args = do
  c ← the_client
  node_id ← gets (λ w. w.node_id)
  include ← gets here
  perform c (Call.emit_event node_id name args include)

-- The emission in `call`: none for a function that is not mirrored.
unfoldable pub call_event : ℕ → Text → List ℤ → Action (Unit {0})
unfolding perform
call_event c [] args w = (ok tt, w)
call_event c (x ∷ fname) args w =
    perform c (Call.emit_event w.node_id (x ∷ fname) (w.node_id_int16 ∷ args) (here w)) w

abbrev pub function_name : Option Mirroring → Text → Text
function_name none name = []
function_name (some m) name = get_function_name m name

-- `Node.call`
unfoldable pub call : Text → List ℤ → Action (Unit {0})
unfolding the_client call_event
call name args = do
  c ← the_client
  fname ← gets (λ w. function_name w.mirroring name)
  call_event c fname args

-- `Node.wait`
unfoldable pub wait : Client → Text → ℕ → Action Bool
unfolding the_client ask
wait client name wait_ms = do
  c ← the_client
  event ← gets (λ w. event_name w.mirroring name)
  events ← gets (λ w. user_events_of w.description)
  node_id ← gets (λ w. w.node_id)
  include ← gets here
  if contains events event
      then (do
        e ← ask client.get_event c (Call.get_event node_id event include wait_ms)
        pure (is_some e))
      else pure false

-- The values of an event that belong to variables of the node.
unfoldable pub store_values : Dict Text (List ℤ) → Action (Unit {0})
unfolding text_eq new_list put_value put_prev
store_values [] w = (ok tt, w)
store_values ((name, words) ∷ values) w =
    ((if has_key name w.variable_values
          then (do r ← new_list words; put_value name r; put_prev name r)
          else skip)
        >> store_values values)
      w

unfoldable pub store_event : Option Mirroring → Event → Action (Unit {0})
store_event none event = skip
store_event (some m) event = store_values (read_variables m event)

-- What the user has registered and the subclass adds: `_extra_event_cb`, and the functions behind
-- the callbacks.
pub record UserCode : Type 0 where
  pub extra_event_cb : Event → Action (Unit {0})
  pub on_event : ℕ → Action (Unit {0})
  -- A controller, with the time step.
  pub on_control : ℕ → ℤ → Action (Unit {0})

module _ (code : UserCode) (sync : Action (Unit {0})) where
  -- The closure that `set_controller` registers calls the controller and then `sync`.
  unfoldable pub run_callback : Option Callback → Action (Unit {0})
  unfolding perform
  run_callback none = skip
  run_callback (some (Callback.user f)) = code.on_event f
  run_callback (some (Callback.control f time_step)) = code.on_control f time_step >> sync
  run_callback (some (Callback.scheduled f)) = perform 0 (Call.create_task f)

  unfoldable pub accept_event : Event → Action (Unit {0})
  unfolding text_eq insert
  accept_event event = do
    modify (λ w. record w { last_payloads = insert event.name event.words w.last_payloads })
    mirroring ← gets (λ w. w.mirroring)
    store_event mirroring event
    code.extra_event_cb event
    cb ← gets (λ w. lookup event.name w.event_callbacks)
    run_callback cb

  -- `_event_cb`
  unfoldable pub event_cb : Event → Action (Unit {0})
  unfolding int_eq accept_event
  event_cb event w = (if event.source == w.node_id then accept_event event else skip) w
