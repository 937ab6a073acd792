-- ===== src/Node/Arrive.antt =====
-- The well-formedness of the caches through `start_mirroring` and `connect`.
use pyaseba.Base.{
  ℕ, refl, Bool, true, false, not, Option, some, none, List, [], ◌∷◌, Text, text_eq, int_eq, ℤ, pos,
  Dict, if◌then◌else◌, ◌=ℕ◌, is_some,
}
use pyaseba.Base.Int.{leb_ℤ}
use pyaseba.Base.Results.{Result, ok, err, assertion_error}
use pyaseba.Utils.{Finder, int16}
use pyaseba.Mirroring.{Mirroring, is_empty, mirror}
use pyaseba.Client.{Call, Client}
use pyaseba.Node.State.{NodeClass, here}
use pyaseba.Node.Events.{or_name}
use pyaseba.Node.Connect.{
  Overrides, install, start_mirroring, obtain_client, connect_unless, adopt, give_up, find_node,
  connect, compatible_connections,
}
use pyaseba.Node.Keeps.{
  Keeps, Any, AnyValue, keeps_bind, keeps_pure, keeps_gets, keeps_or_raise, keeps_if, keeps_modify,
  keeps_skip, keeps_client, keeps_perform, keeps_ask,
}
use pyaseba.Node.Link.{
  KeepOverrides, keeps_guarded, keeps_drop_client, keeps_init_variables, keeps_describe,
  keeps_load_script,
}
use pyaseba.Node.Refresh.{keeps_update}

module _ (client : Client) (finds : Finder) (class : NodeClass) where
  keeps_install :
      (c : ℕ) (m : Mirroring) (b : Bool) → Keeps Any (install client finds class c m b) AnyValue
  unfolding install
  keeps_install c m false = keeps_skip Any
  keeps_install c m true = record {
    run = λ w.
        (keeps_bind (keeps_modify (λ w'. record w' { mirroring = some m }) (λ w'. refl))
            (λ _. keeps_perform (λ _. Unit) c (Call.cmd_run w.node_id []))).run
          w;
  }

  keeps_lift : {A : Type 0} (r : Result A) → Keeps Any (λ w. (r, w)) AnyValue
  keeps_lift (ok a) = record { run = λ w wf p. (wf, tt) }
  keeps_lift (err e) = record { run = λ w wf p. (wf, tt) }

  pub keeps_start_mirroring : Keeps Any (start_mirroring client finds class) AnyValue
  unfolding start_mirroring
  keeps_start_mirroring = keeps_bind (keeps_client (λ _. Unit)) (λ c.
      keeps_bind (keeps_gets Any (λ w. w.node_id)) (λ id.
        keeps_bind (keeps_gets Any here) (λ include.
          keeps_bind
            (keeps_ask (λ _. Unit) client.get_description c (Call.get_description id include))
            (λ found. keeps_bind (keeps_or_raise Any found assertion_error) (λ description.
              keeps_bind (keeps_gets Any (λ w. w.mirroring_config)) (λ config.
                keeps_bind (keeps_lift (mirror finds description config)) (λ m.
                  keeps_guarded (not (is_empty m.code)) (
                    keeps_bind (keeps_load_script client finds class m.code m.code_events [])
                      (λ loaded. keeps_install c m loaded)))))))))

  keeps_obtain_client :
      (own given : Option ℕ) → Keeps Any (obtain_client client finds class own given) AnyValue
  unfolding obtain_client
  keeps_obtain_client (some own) given = keeps_pure Any own
  keeps_obtain_client none (some shared) =
      keeps_bind (keeps_modify (λ w. record w { client = some shared }) (λ w. refl)) (λ _.
        keeps_bind (keeps_perform (λ _. Unit) shared Call.add_event_callback)
          (λ _. keeps_pure Any shared))
  keeps_obtain_client none none =
      keeps_bind (keeps_ask (λ _. Unit) client.new_client 0 Call.new_client) (λ c.
        keeps_bind (keeps_modify (λ w. record w { client = some c }) (λ w. refl)) (λ _.
          keeps_bind (keeps_perform (λ _. Unit) c Call.add_event_callback) (λ _. keeps_pure Any c)))

  keeps_connect_unless :
      (c : ℕ) (connections : List ℕ) (target : Text) (wait_ms max_retries : ℕ)
      → Keeps Any
          (connect_unless client finds class c connections target wait_ms max_retries)
          AnyValue
  unfolding connect_unless
  keeps_connect_unless c (conn ∷ connections) target wait_ms max_retries = keeps_pure Any true
  keeps_connect_unless c [] target wait_ms max_retries =
      keeps_bind (keeps_ask (λ _. Unit) client.connect c (Call.connect target wait_ms max_retries))
        (λ conn. keeps_pure Any (not (conn =ℕ 0)))

  keeps_give_up : (c : ℕ) → Keeps Any (give_up client finds class c) AnyValue
  unfolding give_up
  keeps_give_up c = keeps_bind (keeps_drop_client c) (λ _. keeps_pure Any false)

  module _ (overrides : Overrides) (k : KeepOverrides overrides) where
    keeps_adopt :
        (c : ℕ) (target : Text) (wait_ms : ℕ) (mirroring : Bool) (found : ℤ × ℕ)
        → Keeps Any (adopt client finds class overrides c target wait_ms mirroring found) AnyValue
    unfolding adopt
    keeps_adopt c target wait_ms mirroring (node_id, conn) =
        keeps_bind
          (keeps_modify
            (λ w. record w {
              connection = conn;
              target = target;
              node_id = node_id;
              node_id_int16 = int16 node_id;
            })
            (λ w. refl))
          (λ _.
            keeps_bind
              (keeps_ask (λ _. Unit) client.get_description c
                (Call.get_description node_id (conn ∷ [])))
              (λ desc. keeps_bind (keeps_describe client finds class desc) (λ _.
                keeps_bind (keeps_guarded mirroring keeps_start_mirroring) (λ _.
                  keeps_bind (keeps_init_variables client finds class) (λ _.
                    keeps_bind (keeps_update client wait_ms false)
                      (λ _. keeps_bind k.setup (λ _. keeps_pure Any true)))))))

    keeps_find_node :
        (c : ℕ) (target : Text) (wait_ms : ℕ) (node_id : ℤ) (mirroring : Bool) (known : List ℕ)
        → Keeps Any
            (find_node client finds class overrides c target wait_ms node_id mirroring known)
            AnyValue
    unfolding find_node
    keeps_find_node c target wait_ms node_id mirroring known =
        keeps_bind
          (keeps_guarded (leb_ℤ (pos 0) node_id)
            (keeps_perform (λ _. Unit) c (Call.cmd_reset node_id [])))
          (λ _.
            keeps_bind
              (keeps_ask (λ _. Unit) client.wait_node c (Call.wait_node wait_ms node_id known))
              (λ found.
                keeps_if Any (found.1 =ℕ 0) (keeps_give_up c)
                  (keeps_adopt c target wait_ms mirroring found)))

    pub keeps_connect :
        (given : Option ℕ) (target : Text) (params : Dict Text Text) (wait_ms max_retries : ℕ)
        (node_id : ℤ) (mirroring : Bool)
        → Keeps Any
            (connect client finds class overrides given target params wait_ms max_retries node_id
              mirroring)
            AnyValue
    unfolding connect
    keeps_connect given target params wait_ms max_retries node_id mirroring =
        let full = client.complete_target (or_name target class.default_target) params in
        keeps_bind
          (keeps_modify
            (λ w. record w { shared_client = if is_some given then true else w.shared_client })
            (λ w. refl))
          (λ _. keeps_bind (keeps_gets Any (λ w. w.client)) (λ own.
            keeps_bind (keeps_obtain_client own given) (λ c.
              keeps_bind (keeps_ask (λ _. Unit) client.connections c Call.connections) (λ known.
                let found = compatible_connections full known in
                keeps_bind (keeps_connect_unless c found full wait_ms max_retries) (λ connected.
                  keeps_if Any connected (keeps_find_node c full wait_ms node_id mirroring found)
                    (keeps_give_up c))))))
