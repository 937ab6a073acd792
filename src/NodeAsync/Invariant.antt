-- ===== src/NodeAsync/Invariant.antt =====
-- The well-formedness of the caches through the coroutines of `NodeAsync`.
use pyaseba.Base.{
  ℕ, refl, Bool, true, false, not, ◌||◌, Option, some, none, List, [], ◌∷◌, arith, Text, text_eq, ℤ,
  pos, negsuc, Dict, if◌then◌else◌, ◌=ℕ◌, is_some, contains,
}
use pyaseba.Base.Int.{leb_ℤ}
use pyaseba.Base.Dicts.{lookup, has_key}
use pyaseba.Base.Heap.{Ref, next}
use pyaseba.Base.Results.{key_error, attribute_error}
use pyaseba.Utils.{Finder, int16}
use pyaseba.Mirroring.{given}
use pyaseba.Client.{Call, Client, History}
use pyaseba.Node.State.{World, NodeClass, modify}
use pyaseba.Node.Cache.{got}
use pyaseba.Node.Events.{or_name, event_name, user_events_of}
use pyaseba.Node.Connect.{Overrides}
use pyaseba.Node.Invariant.{AllBelow, IsWellFormed}
use pyaseba.Node.Keeps.{
  Keeps, Any, AnyValue, keeps_bind, keeps_pure, keeps_gets, keeps_or_raise, keeps_if, keeps_modify,
  keeps_weaken, keeps_skip, keeps_client, keeps_perform, keeps_ask, keeps_new_list, keeps_words_at,
}
use pyaseba.Node.Preserve.{keeps_put_value}
use pyaseba.Node.Refresh.{keeps_new_lists}
use pyaseba.Node.Lives.{keeps_reset}
use pyaseba.Node.Link.{
  KeepOverrides, keeps_guarded, keeps_init_variables, keeps_describe, keeps_set_callback,
}
use pyaseba.Node.Arrive.{keeps_start_mirroring}
use pyaseba.NodeAsync.{
  live_client, MaybeAsyncCallback, wrap_callback, set_callback_async, await_call, store_answer,
  update_async, get_all_async, fetch_async, get_async, wait_async, drop_own, close_async,
  take_client, give_up_async, adopt_async, find_node_async, connect_unless_async, connect_async,
}

keeps_live_client : Keeps Any live_client AnyValue
unfolding live_client
keeps_live_client = record {
  run = λ w wf p. (keeps_or_raise Any w.client attribute_error).run w wf p;
}

pub keeps_set_callback_async :
    (name : Text) (cb : Option MaybeAsyncCallback) → Keeps Any (set_callback_async name cb) AnyValue
unfolding set_callback_async
keeps_set_callback_async name none = keeps_set_callback name none
keeps_set_callback_async name (some cb) = keeps_set_callback name (some (wrap_callback cb))

-- The dict of an answer replaces the cached values.
keeps_renew :
    (d : Dict Text Ref)
    → Keeps
        (λ w. AllBelow (next w.heap) d)
        (modify (λ w. record w { variable_values = d }))
        AnyValue
keeps_renew d = record {
  run = λ w wf p. (record { of_values = p; of_next = wf.of_next; of_prev = wf.of_prev }, tt);
}

module _ (client : Client) (meanwhile : World → World)
    (gentle : (w : World) → IsWellFormed w → IsWellFormed (meanwhile w)) where
  keeps_meanwhile : Keeps Any (modify meanwhile) AnyValue
  keeps_meanwhile = record { run = λ w wf p. (gentle w wf, tt) }

  keeps_await_call :
      {A : Type 0} (answer : History → A) (c : ℕ) (call : Call)
      → Keeps Any (await_call client meanwhile answer c call) AnyValue
  unfolding await_call
  keeps_await_call answer c call =
      keeps_bind (keeps_perform (λ _. Unit) c call)
        (λ _. keeps_bind keeps_meanwhile (λ _. keeps_gets Any (λ w. answer w.calls)))

  keeps_store_answer :
      (vs : Dict Text (List ℤ)) → Keeps Any (store_answer client meanwhile vs) AnyValue
  unfolding store_answer
  keeps_store_answer [] = keeps_skip Any
  keeps_store_answer (v ∷ vs) =
      keeps_bind
        (keeps_weaken (keeps_new_lists client (v ∷ vs) 0) (λ w p. omega arith) (λ d w q. q.0))
        (λ d. keeps_renew d)

  pub keeps_update_async :
      (wait_ms : ℕ) → Keeps Any (update_async client meanwhile wait_ms) AnyValue
  unfolding update_async
  keeps_update_async wait_ms = keeps_bind (keeps_client (λ _. Unit)) (λ c.
      keeps_bind (keeps_gets Any (λ w. w.node_id)) (λ node_id.
        keeps_bind
          (keeps_await_call client.get_all_variables c (Call.get_all_variables node_id wait_ms []))
          (λ vs. keeps_store_answer vs)))

  pub keeps_get_all_async :
      (wait_ms : ℕ) (mode : Option Bool)
      → Keeps Any (get_all_async client meanwhile wait_ms mode) AnyValue
  unfolding get_all_async
  keeps_get_all_async wait_ms mode = keeps_bind (keeps_client (λ _. Unit)) (λ _.
      keeps_bind (keeps_gets Any (λ w. w.cached)) (λ default.
        keeps_bind (keeps_if Any (given mode default) (keeps_skip Any) (keeps_update_async wait_ms))
          (λ _. keeps_gets Any (λ w. w.variable_values))))

  keeps_fetch_async :
      (c : ℕ) (name : Text) (wait_ms : ℕ)
      → Keeps Any (fetch_async client meanwhile c name wait_ms) AnyValue
  unfolding fetch_async
  keeps_fetch_async c name wait_ms = keeps_bind (keeps_gets Any (λ w. w.node_id)) (λ node_id.
      keeps_bind
        (keeps_await_call client.get_variable c (Call.get_variable node_id name wait_ms []))
        (λ v.
          keeps_bind (keeps_new_list v)
            (λ r. keeps_weaken (keeps_put_value name r) (λ w p. p) (λ a w q. tt))))

  pub keeps_get_async :
      (name : Text) (wait_ms : ℕ) (mode : Option Bool)
      → Keeps Any (get_async client meanwhile name wait_ms mode) AnyValue
  unfolding get_async
  keeps_get_async name wait_ms mode = keeps_bind (keeps_client (λ _. Unit)) (λ c.
      keeps_bind (keeps_gets Any (λ w. w.cached)) (λ default.
        keeps_bind (keeps_gets Any (λ w. has_key name w.variable_values)) (λ known.
          keeps_bind
            (keeps_if Any (not (given mode default) || not known) (keeps_fetch_async c name wait_ms)
              (keeps_skip Any))
            (λ _. keeps_bind (keeps_gets Any (λ w. lookup name w.variable_values)) (λ found.
              keeps_bind (keeps_or_raise Any found key_error) (λ r.
                keeps_bind (keeps_words_at Any r) (λ words. keeps_pure Any (got r words))))))))

  pub keeps_wait_async :
      (name : Text) (wait_ms : ℕ) → Keeps Any (wait_async client meanwhile name wait_ms) AnyValue
  unfolding wait_async
  keeps_wait_async name wait_ms = keeps_bind (keeps_client (λ _. Unit)) (λ c.
      keeps_bind (keeps_gets Any (λ w. event_name w.mirroring name)) (λ event.
        keeps_bind (keeps_gets Any (λ w. user_events_of w.description)) (λ events.
          keeps_bind (keeps_gets Any (λ w. w.node_id)) (λ node_id.
            keeps_if Any (contains events event)
              (keeps_bind
                (keeps_await_call client.get_event c (Call.get_event node_id event [] wait_ms))
                (λ e. keeps_pure Any (is_some e)))
              (keeps_pure Any false)))))

  keeps_forget_client : Keeps Any (modify (λ w. record w { client = none })) AnyValue
  keeps_forget_client = keeps_modify (λ w. record w { client = none }) (λ w. refl)

  keeps_drop_own :
      (own : Option ℕ) (shared : Bool) → Keeps Any (drop_own client meanwhile own shared) AnyValue
  unfolding drop_own
  keeps_drop_own none shared = keeps_skip Any
  keeps_drop_own (some c) true = keeps_skip Any
  keeps_drop_own (some c) false =
      keeps_bind (keeps_perform (λ _. Unit) c Call.close) (λ _. keeps_forget_client)

  pub keeps_close_async :
      (overrides : Overrides) (with_reset : Bool)
      → KeepOverrides overrides
      → Keeps Any (close_async client meanwhile overrides with_reset) AnyValue
  unfolding close_async
  keeps_close_async overrides with_reset k =
      keeps_bind (keeps_if Any with_reset keeps_reset k.stop) (λ _.
        keeps_bind (keeps_perform (λ _. Unit) 0 (Call.sleep 100)) (λ _.
          keeps_bind keeps_meanwhile (λ _. keeps_bind (keeps_gets Any (λ w. w.client)) (λ own.
            keeps_bind (keeps_gets Any (λ w. w.shared_client)) (λ shared.
              keeps_bind (keeps_drop_own own shared)
                (λ _. keeps_modify (λ w. record w { node_id = negsuc 0 }) (λ w. refl)))))))

  keeps_take_client : (given : Option ℕ) → Keeps Any (take_client client meanwhile given) AnyValue
  unfolding take_client
  keeps_take_client (some c) = keeps_pure Any c
  keeps_take_client none = keeps_ask (λ _. Unit) client.new_client 0 Call.new_client

  keeps_give_up_async : Keeps Any (give_up_async client meanwhile) AnyValue
  unfolding give_up_async
  keeps_give_up_async = keeps_bind (keeps_gets Any (λ w. w.shared_client)) (λ shared.
      keeps_if Any shared (keeps_pure Any false) (
        keeps_bind keeps_live_client (λ c.
          keeps_bind (keeps_ask (λ _. Unit) client.is_connected c Call.is_connected) (λ connected.
            keeps_bind
              (keeps_guarded (not connected)
                (keeps_bind (keeps_perform (λ _. Unit) c Call.close) (λ _. keeps_forget_client)))
              (λ _. keeps_pure Any false)))))

  module _ (finds : Finder) (class : NodeClass) (overrides : Overrides)
      (k : KeepOverrides overrides) where
    keeps_adopt_async :
        (target : Text) (wait_ms : ℕ) (mirroring : Bool) (found : ℤ × ℕ)
        → Keeps Any
            (adopt_async client meanwhile finds class overrides target wait_ms mirroring found)
            AnyValue
    unfolding adopt_async
    keeps_adopt_async target wait_ms mirroring (node_id, conn) =
        keeps_bind
          (keeps_modify
            (λ w. record w {
              connection = conn;
              target = target;
              node_id = node_id;
              node_id_int16 = int16 node_id;
            })
            (λ w. refl))
          (λ _. keeps_bind keeps_live_client (λ c.
            keeps_bind
              (keeps_ask (λ _. Unit) client.get_description c
                (Call.get_description node_id (conn ∷ [])))
              (λ desc. keeps_bind (keeps_describe client finds class desc) (λ _.
                keeps_bind (keeps_guarded mirroring (keeps_start_mirroring client finds class))
                  (λ _. keeps_bind (keeps_init_variables client finds class) (λ _.
                    keeps_bind (keeps_update_async wait_ms)
                      (λ _. keeps_bind k.setup (λ _. keeps_pure Any true))))))))

    keeps_find_node_async :
        (target : Text) (wait_ms : ℕ) (node_id : ℤ) (mirroring : Bool)
        → Keeps Any
            (find_node_async client meanwhile finds class overrides target wait_ms node_id
              mirroring)
            AnyValue
    unfolding find_node_async
    keeps_find_node_async target wait_ms node_id mirroring =
        keeps_bind
          (keeps_guarded (leb_ℤ (pos 0) node_id) (
            keeps_bind keeps_live_client
              (λ c. keeps_perform (λ _. Unit) c (Call.cmd_reset node_id []))))
          (λ _. keeps_bind keeps_live_client (λ c.
            keeps_bind (keeps_await_call client.wait_node c (Call.wait_node wait_ms node_id []))
              (λ found.
                keeps_if Any (found.1 =ℕ 0) keeps_give_up_async
                  (keeps_adopt_async target wait_ms mirroring found))))

    keeps_connect_unless_async :
        (c : ℕ) (target : Text) (wait_ms max_retries : ℕ)
        → Keeps Any
            (connect_unless_async client meanwhile finds class overrides c target wait_ms
              max_retries)
            AnyValue
    unfolding connect_unless_async
    keeps_connect_unless_async c target wait_ms max_retries =
        keeps_bind (keeps_ask (λ _. Unit) client.is_connected c Call.is_connected) (λ connected.
          keeps_if Any connected (keeps_pure Any true) (
            keeps_bind (keeps_await_call client.connect c (Call.connect target wait_ms max_retries))
              (λ conn. keeps_pure Any (not (conn =ℕ 0)))))

    pub keeps_connect_async :
        (given : Option ℕ) (target : Text) (wait_ms max_retries : ℕ) (node_id : ℤ)
        (mirroring : Bool)
        → Keeps Any
            (connect_async client meanwhile finds class overrides given target wait_ms max_retries
              node_id mirroring)
            AnyValue
    unfolding connect_async
    keeps_connect_async given target wait_ms max_retries node_id mirroring =
        keeps_bind
          (keeps_modify
            (λ w. record w { shared_client = if is_some given then true else w.shared_client })
            (λ w. refl))
          (λ _. keeps_bind (keeps_take_client given) (λ c.
            keeps_bind (keeps_modify (λ w. record w { client = some c }) (λ w. refl)) (λ _.
              keeps_bind (keeps_gets Any (λ w. w.target)) (λ last.
                keeps_bind (keeps_connect_unless_async c (or_name target last) wait_ms max_retries)
                  (λ connected.
                    keeps_if Any connected (keeps_find_node_async target wait_ms node_id mirroring)
                      keeps_give_up_async)))))
