-- ===== src/Node/Link.antt =====
-- The well-formedness of the caches through `load_script`, `close`, `wait` and `set_callback`.
use pyaseba.Base.{
  ℕ, suc, ◌≤◌, refl, Bool, true, false, Option, some, none, [], ◌∷◌, arith, Text, text_eq, int_eq,
  ℤ, Dict, is_some, contains,
}
use pyaseba.Base.Heap.{Ref, next}
use pyaseba.Utils.{Finder}
use pyaseba.Description.{Description}
use pyaseba.Client.{Call, Client}
use pyaseba.Node.State.{Action, Callback, NodeClass, pure, modify, here}
use pyaseba.Node.Events.{event_name, wait, user_events_of, set_callback}
use pyaseba.Node.Connect.{
  variables_of, empty_values, sizes_by_name, Overrides, when, log_error, drop_client, close,
  selected_names, init_variables, after_load, load_script,
}
use pyaseba.Node.Invariant.{AllBelow}
use pyaseba.Node.Keeps.{
  Keeps, Any, AnyValue, caches-IsWellFormed, keeps_bind, keeps_pure, keeps_gets, keeps_if,
  keeps_weaken, keeps_modify, keeps_skip, keeps_client, keeps_perform, keeps_ask,
}
use pyaseba.Node.Lives.{keeps_reset, keeps_no_mirroring}
use pyaseba.Node.Refresh.{keeps_new_list_from}

-- Methods of a subclass that keep the caches well-formed.
pub record KeepOverrides (overrides : Overrides) : Type 0 where
  pub setup : Keeps Any overrides.setup AnyValue
  pub stop : Keeps Any overrides.stop AnyValue

pub keeps_guarded :
    (b : Bool) {m : Action (Unit {0})} → Keeps Any m AnyValue → Keeps Any (when b m) AnyValue
keeps_guarded true k = k
keeps_guarded false k = keeps_skip Any

pub keeps_set_callback :
    (name : Text) (cb : Option Callback) → Keeps Any (set_callback name cb) AnyValue
unfolding set_callback
keeps_set_callback name none = record {
  run = λ w wf p. (caches-IsWellFormed w (set_callback name none w).1 refl wf, tt);
}
keeps_set_callback name (some cb) = record {
  run = λ w wf p. (caches-IsWellFormed w (set_callback name (some cb) w).1 refl wf, tt);
}

pub keeps_wait :
    (client : Client) (name : Text) (wait_ms : ℕ) → Keeps Any (wait client name wait_ms) AnyValue
unfolding wait
keeps_wait client name wait_ms = keeps_bind (keeps_client (λ _. Unit)) (λ c.
    keeps_bind (keeps_gets Any (λ w. event_name w.mirroring name)) (λ event.
      keeps_bind (keeps_gets Any (λ w. user_events_of w.description)) (λ events.
        keeps_bind (keeps_gets Any (λ w. w.node_id)) (λ node_id.
          keeps_bind (keeps_gets Any here) (λ include.
            keeps_if Any (contains events event)
              (keeps_bind
                (keeps_ask (λ _. Unit) client.get_event c
                  (Call.get_event node_id event include wait_ms))
                (λ e. keeps_pure Any (is_some e)))
              (keeps_pure Any false))))))

pub keeps_drop_client : (c : ℕ) → Keeps Any (drop_client c) AnyValue
unfolding drop_client
keeps_drop_client c = record {
  run = λ w.
      (keeps_if Any w.shared_client (keeps_skip Any) (
          keeps_bind (keeps_perform (λ _. Unit) c Call.close)
            (λ _. keeps_modify (λ w'. record w' { client = none }) (λ w'. refl)))).run
        w;
}

pub keeps_close :
    (overrides : Overrides) (with_reset : Bool)
    → KeepOverrides overrides
    → Keeps Any (close overrides with_reset) AnyValue
unfolding close
keeps_close overrides with_reset k = keeps_bind (keeps_client (λ _. Unit)) (λ c.
    keeps_bind (keeps_if Any with_reset keeps_reset k.stop) (λ _.
      keeps_bind (keeps_perform (λ _. Unit) c (Call.sleep 100)) (λ _.
        keeps_bind (keeps_drop_client c)
          (λ _. keeps_modify (λ w. record w { connection = 0; target = [] }) (λ w. refl)))))

keeps_empty_values :
    (variables : Dict Text (ℕ × ℕ)) (n : ℕ)
    → Keeps
        (λ w. n ≤ next w.heap)
        (empty_values variables)
        (λ d w. AllBelow (next w.heap) d × (n ≤ next w.heap))
unfolding empty_values
keeps_empty_values [] n = record { run = λ w wf p. (wf, (tt, p)) }
keeps_empty_values ((name, size) ∷ variables) n = keeps_bind (keeps_new_list_from n []) (λ r.
    record {
      run = λ w wf p.
          (keeps_bind {B = Dict Text Ref} {f = λ rest. pure ((name, r) ∷ rest)}
              {R = λ d w'. AllBelow (next w'.heap) d × (n ≤ next w'.heap)}
              (keeps_empty_values variables (suc r))
              (λ rest. record {
                run = λ w' wf' q. (wf', ((q.1, q.0), omega (arith, q.1, p.0)));
              })).run
            w wf p.1;
    })

module _ (client : Client) (finds : Finder) (class : NodeClass) where
  keeps_install_values :
      (values : Dict Text Ref) (variables : Dict Text (ℕ × ℕ))
      → Keeps
          (λ w. AllBelow (next w.heap) values)
          (modify (λ w. record w {
            variable_values = values;
            variable_sizes = sizes_by_name variables;
            sync_variables = selected_names client finds class variables;
          }))
          AnyValue
  keeps_install_values values variables = record {
    run = λ w wf p. (record { of_values = p; of_next = wf.of_next; of_prev = wf.of_prev }, tt);
  }

  pub keeps_init_variables : Keeps Any (init_variables client finds class) AnyValue
  unfolding init_variables
  keeps_init_variables = keeps_bind (keeps_gets Any (λ w. variables_of w.description)) (λ variables.
      keeps_bind (keeps_weaken (keeps_empty_values variables 0) (λ w p. omega arith) (λ d w q. q.0))
        (λ values. keeps_install_values values variables))

  keeps_log_error : (line : Option Text) → Keeps Any (log_error line) AnyValue
  keeps_log_error none = record { run = λ w wf p. (wf, tt) }
  keeps_log_error (some []) = record { run = λ w wf p. (wf, tt) }
  keeps_log_error (some (digit ∷ digits)) = record { run = λ w wf p. (wf, tt) }

  -- The description that the client has of the node replaces the old one.
  pub keeps_describe :
      (desc : Option Description)
      → Keeps Any (modify (λ w. record w { description = desc })) AnyValue
  keeps_describe desc = keeps_modify (λ w. record w { description = desc }) (λ w. refl)

  keeps_after_load :
      (c : ℕ) (raised : Option Text) → Keeps Any (after_load client finds class c raised) AnyValue
  unfolding after_load
  keeps_after_load c (some message) = keeps_log_error (client.error_line message)
  keeps_after_load c none = keeps_bind (keeps_gets Any (λ w. w.node_id)) (λ id.
      keeps_bind (keeps_gets Any here) (λ include.
        keeps_bind
          (keeps_ask (λ _. Unit) client.get_description c (Call.get_description id include))
          (λ desc.
            keeps_bind (keeps_describe desc)
              (λ _. keeps_bind keeps_init_variables (λ _. keeps_pure Any true)))))

  pub keeps_load_script :
      (script : Text) (events constants : Dict Text ℤ)
      → Keeps Any (load_script client finds class script events constants) AnyValue
  unfolding load_script
  keeps_load_script script events constants = keeps_bind (keeps_client (λ _. Unit)) (λ c.
      keeps_bind keeps_no_mirroring (λ _. keeps_bind (keeps_gets Any (λ w. w.node_id)) (λ id.
        keeps_bind
          (keeps_ask (λ _. Unit) client.load_script c (Call.load_script id script events constants))
          (λ raised. keeps_after_load c raised))))
