-- ===== src/Node/Lives.antt =====
-- The well-formedness of the caches through `_event_cb`, the commands, `emit` and `call`.
use pyaseba.Base.{ℕ, refl, Option, some, none, List, [], ◌∷◌, Text, text_eq, int_eq, ◌==◌, ℤ, Dict}
use pyaseba.Base.Dicts.{lookup, has_key, insert}
use pyaseba.Description.{Event}
use pyaseba.Mirroring.{Mirroring, read_variables}
use pyaseba.Client.{Call}
use pyaseba.Node.State.{Callback, gets, modify, here, ◌>>=◌, perform}
use pyaseba.Node.Cache.{sync}
use pyaseba.Node.Events.{
  store_values, store_event, UserCode, run_callback, accept_event, event_cb, function_name,
  call_event, call, emit,
}
use pyaseba.Node.Connect.{run, pause, stop, reset}
use pyaseba.Node.Keeps.{
  Keeps, Any, AnyValue, keeps_bind, keeps_gets, keeps_if, keeps_modify, keeps_skip, keeps_client,
  keeps_perform,
}
use pyaseba.Node.Preserve.{keeps_store, keeps_sync}

-- Code of the user that keeps the caches well-formed.
pub record KeepsCaches (code : UserCode) : Type 0 where
  pub extra : (event : Event) → Keeps Any (code.extra_event_cb event) AnyValue
  pub user : (f : ℕ) → Keeps Any (code.on_event f) AnyValue
  pub control : (f : ℕ) (t : ℤ) → Keeps Any (code.on_control f t) AnyValue

keeps_store_values : (values : Dict Text (List ℤ)) → Keeps Any (store_values values) AnyValue
unfolding store_values
keeps_store_values [] = keeps_skip Any
keeps_store_values ((name, words) ∷ values) = record {
  run = λ w.
      (keeps_bind
          (keeps_if Any (has_key name w.variable_values) (keeps_store name words) (keeps_skip Any))
          (λ _. keeps_store_values values)).run
        w;
}

keeps_store_event :
    (m : Option Mirroring) (event : Event) → Keeps Any (store_event m event) AnyValue
unfolding store_event
keeps_store_event none event = keeps_skip Any
keeps_store_event (some m) event = keeps_store_values (read_variables m event)

module _ (code : UserCode) (gentle : KeepsCaches code) where
  keeps_run_callback : (cb : Option Callback) → Keeps Any (run_callback code sync cb) AnyValue
  unfolding run_callback
  keeps_run_callback none = keeps_skip Any
  keeps_run_callback (some (Callback.user f)) = gentle.user f
  keeps_run_callback (some (Callback.control f t)) =
      keeps_bind (gentle.control f t) (λ _. keeps_sync)
  keeps_run_callback (some (Callback.scheduled f)) =
      keeps_perform (λ _. Unit) 0 (Call.create_task f)

  keeps_accept_event : (event : Event) → Keeps Any (accept_event code sync event) AnyValue
  unfolding accept_event
  keeps_accept_event event =
      keeps_bind
        (keeps_modify
          (λ w. record w { last_payloads = insert event.name event.words w.last_payloads })
          (λ w. refl))
        (λ _. keeps_bind (keeps_gets Any (λ w. w.mirroring)) (λ mirroring.
          keeps_bind (keeps_store_event mirroring event) (λ _. keeps_bind (gentle.extra event) (λ _.
            keeps_bind (keeps_gets Any (λ w. lookup event.name w.event_callbacks))
              (λ cb. keeps_run_callback cb)))))

  pub keeps_event_cb : (event : Event) → Keeps Any (event_cb code sync event) AnyValue
  unfolding event_cb
  keeps_event_cb event = record {
    run = λ w.
        (keeps_if Any (event.source == w.node_id) (keeps_accept_event event) (keeps_skip Any)).run
          w;
  }

-- A command to the node, or an event that is sent to it.
keeps_command :
    (f : ℤ → List ℕ → Call) (c : ℕ)
    → Keeps Any
        (gets (λ w. w.node_id) >>= λ id. gets here >>= λ include. perform c (f id include))
        AnyValue
keeps_command f c =
    keeps_bind (keeps_gets Any (λ w. w.node_id)) (λ id.
      keeps_bind (keeps_gets Any here) (λ include. keeps_perform (λ _. Unit) c (f id include)))

pub keeps_no_mirroring : Keeps Any (modify (λ w. record w { mirroring = none })) AnyValue
keeps_no_mirroring = keeps_modify (λ w. record w { mirroring = none }) (λ w. refl)

pub keeps_run : Keeps Any run AnyValue
unfolding run
keeps_run = keeps_bind (keeps_client (λ _. Unit)) (λ c. keeps_command Call.cmd_run c)

pub keeps_pause : Keeps Any pause AnyValue
unfolding pause
keeps_pause = keeps_bind (keeps_client (λ _. Unit)) (λ c. keeps_command Call.cmd_pause c)

pub keeps_stop : Keeps Any stop AnyValue
unfolding stop
keeps_stop =
    keeps_bind (keeps_client (λ _. Unit))
      (λ c. keeps_bind keeps_no_mirroring (λ _. keeps_command Call.cmd_stop c))

pub keeps_reset : Keeps Any reset AnyValue
unfolding reset
keeps_reset =
    keeps_bind (keeps_client (λ _. Unit))
      (λ c. keeps_bind keeps_no_mirroring (λ _. keeps_command Call.cmd_reset c))

pub keeps_emit : (name : Text) (args : List ℤ) → Keeps Any (emit name args) AnyValue
unfolding emit
keeps_emit name args =
    keeps_bind (keeps_client (λ _. Unit))
      (λ c. keeps_command (λ id include. Call.emit_event id name args include) c)

keeps_call_event :
    (c : ℕ) (fname : Text) (args : List ℤ) → Keeps Any (call_event c fname args) AnyValue
unfolding call_event
keeps_call_event c [] args = keeps_skip Any
keeps_call_event c (x ∷ fname) args = record {
  run = λ w.
      (keeps_perform (λ _. Unit) c
          (Call.emit_event w.node_id (x ∷ fname) (w.node_id_int16 ∷ args) (here w))).run
        w;
}

pub keeps_call : (name : Text) (args : List ℤ) → Keeps Any (call name args) AnyValue
unfolding call
keeps_call name args = keeps_bind (keeps_client (λ _. Unit)) (λ c.
    keeps_bind (keeps_gets Any (λ w. function_name w.mirroring name))
      (λ fname. keeps_call_event c fname args))
