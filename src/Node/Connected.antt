-- ===== src/Node/Connected.antt =====
-- The outcomes of `Node.connect`.
use pyaseba.Base.{
  ℕ, zero, suc, ◌≡◌, refl, ◌∙◌, ap, Bool, true, false, Option, none, some, [], List, ◌∷◌, ◌++◌,
  arith, Text, ℤ, pos, Dict, is_some, if◌then◌else◌, ◌=ℕ◌, Bool-cases, inl, inr,
}
use mathlib.Core.List.{append-nil}
use pyaseba.Base.Int.{leb_ℤ}
use pyaseba.Base.Results.{Result, ok, err}
use pyaseba.Utils.{Finder, int16}
use pyaseba.Client.{Call, Client, History}
use pyaseba.Node.State.{World, Action, NodeClass, perform, ask, bind-ok, pure, ◌>>=◌, ◌>>◌}
use pyaseba.Node.Events.{or_name}
use pyaseba.Node.Connect.{
  Overrides, drop_client, obtain_client, connect_unless, adopt, give_up, find_node, connect,
  compatible_connections,
}
use pyaseba.Node.Linked.{
  link, KeepsLink, links_ask, links_modify, links_when, links_start_mirroring, links_init_variables,
  links_update,
}
use pyaseba.Node.Found.{equipped, some_node, client_of, joined_by, waited, found_with, Outcome}

-- A last part that returns true, and what comes before it.
module _ (overrides : Overrides) where
  abbrev Ran : World → Result Bool × World → Type 0
  Ran w (ok true, w') = (w2 : World) × (link w2 ≡ link w) × (overrides.setup w2 ≡ (ok tt, w'))
  Ran w (ok false, w') = ⊥
  Ran w (err e, w') = Unit

  Ran-setup : (w : World) → Ran w ((overrides.setup >> pure true) w)
  Ran-setup w = elim_setup (overrides.setup w) refl
    where
      elim_setup :
          (p : Result (Unit {0}) × World)
          → overrides.setup w ≡ p
          → Ran w (
              let x : Result Bool × World = elim p.0 [
                | ok a ↦ (ok true, p.1)
                | err e ↦ (err e, p.1)
              ] in
              x)
      elim_setup (ok a, w') e = (w, refl, e)
      elim_setup (err e', w') e = tt

  Ran-link : (w w1 : World) (p : Result Bool × World) → link w1 ≡ link w → Ran w1 p → Ran w p
  Ran-link w w1 (ok true, w') e (w2, e', run) = (w2, e' ∙ e, run)
  Ran-link w w1 (ok false, w') e r = r
  Ran-link w w1 (err _, w') e r = tt

  -- A part that leaves the link alone, in front.
  Ran-bind :
      {A : Type 0} {m : Action A} (f : A → Action Bool)
      → KeepsLink m
      → ((a : A) (w : World) → Ran w (f a w))
      → (w : World) → Ran w ((m >>= f) w)
  Ran-bind {A} {m} f k h w = rest (m w) (k.run w)
    where
      rest :
          (p : Result A × World)
          → link p.1 ≡ link w
          → Ran w (
              let x : Result Bool × World = elim p.0 [ ok a ↦ f a p.1 | err e ↦ (err e, p.1) ] in x)
      rest (ok a, w1) e = Ran-link w w1 (f a w1) e (h a w1)
      rest (err e', w1) e = tt

module _ (client : Client) (finds : Finder) (class : NodeClass) (overrides : Overrides) where
  abbrev linked_to : World → ℤ → ℕ → Text → World
  linked_to w id conn target = record w {
    connection = conn;
    target = target;
    node_id = id;
    node_id_int16 = int16 id;
  }

  adopt-Ran :
      (c : ℕ) (target : Text) (wait_ms : ℕ) (mirroring : Bool) (id : ℤ) (conn : ℕ) (w : World)
      → Ran overrides
          (linked_to w id conn target)
          (adopt client finds class overrides c target wait_ms mirroring (id, conn) w)
  unfolding adopt
  adopt-Ran c target wait_ms mirroring id conn w =
      Ran-bind overrides _
        (links_ask client.get_description c (Call.get_description id (conn ∷ [])))
        (λ desc.
          Ran-bind overrides _ (links_modify (λ w'. record w' { description = desc }) (λ w'. refl))
            (λ _.
              Ran-bind overrides _
                (links_when client finds class mirroring (links_start_mirroring client finds class))
                (λ _. Ran-bind overrides _ (links_init_variables client finds class) (λ _.
                  Ran-bind overrides _ (links_update client wait_ms) (λ _. Ran-setup overrides)))))
        (linked_to w id conn target)

  give_up_lem :
      (c : ℕ) (w : World)
      → w.client ≡ some c
      → give_up client finds class c w ≡ (
        ok false,
        equipped w w.shared_client
            (if w.shared_client then some c else none)
            (w.calls ++ (if w.shared_client then [] else (c, Call.close) ∷ [])),
      )
  unfolding give_up drop_client perform
  give_up_lem c w e = ground (arith, e, append-nil w.calls)

  obtain_lem :
      (own given : Option ℕ) (w : World)
      → w.client ≡ own
      → let (c, calls) = client_of client own given w.calls in
        obtain_client client finds class own given w
        ≡ (ok c, equipped w w.shared_client (some c) calls)
  unfolding obtain_client perform ask
  obtain_lem (some own) given w e = ap (λ o. (ok own, equipped w w.shared_client o w.calls)) e
  obtain_lem none (some shared) w e = refl
  obtain_lem none none w e = refl

  unless_lem :
      (c : ℕ) (connections : List ℕ) (target : Text) (wait_ms max_retries : ℕ) (w : World)
      → let (b, calls) = joined_by client c connections target wait_ms max_retries w.calls in
        connect_unless client finds class c connections target wait_ms max_retries w
        ≡ (ok b, record w { calls = calls })
  unfolding connect_unless ask
  unless_lem c (conn ∷ connections) target wait_ms max_retries w = refl
  unless_lem c [] target wait_ms max_retries w = refl

  module _ (target : Text) (shared : Bool) (w : World) (c : ℕ) where
    abbrev After : Option (ℤ × ℕ) → History → Result Bool × World → Type 0
    After node calls = Outcome overrides.setup w target shared c calls node

    given_up :
        (calls : History)
        → After none calls (give_up client finds class c (equipped w shared (some c) calls))
    given_up calls = rw (give_up_lem c (equipped w shared (some c) calls) refl) (refl, refl)

    adopted :
        (wait_ms : ℕ) (mirroring : Bool) (id : ℤ) (conn : ℕ) (calls : History)
        → After (some (id, conn)) calls (
            adopt client finds class overrides c target wait_ms mirroring
              (id, conn)
              (equipped w shared (some c) calls))
    adopted wait_ms mirroring id conn calls =
        let w1 = equipped w shared (some c) calls in
        outcome (adopt client finds class overrides c target wait_ms mirroring (id, conn) w1)
          (adopt-Ran c target wait_ms mirroring id conn w1)
      where
        outcome :
            (p : Result Bool × World)
            → Ran overrides (linked_to (equipped w shared (some c) calls) id conn target) p
            → After (some (id, conn)) calls p
        outcome (ok true, w') r = r
        outcome (ok false, w') r = r
        outcome (err _, w') r = tt

    -- What follows the answer of `wait_node`.
    decided :
        (wait_ms : ℕ) (mirroring : Bool) (calls : History) (node : ℤ × ℕ)
        → After (some_node node) calls (
            (if node.1 =ℕ 0
                then give_up client finds class c
                else adopt client finds class overrides c target wait_ms mirroring node)
              (equipped w shared (some c) calls))
    decided wait_ms mirroring calls (id, zero) = given_up calls
    decided wait_ms mirroring calls (id, suc conn) =
        let connected : (suc conn =ℕ 0) ≡ false = ground arith in
        rw connected (adopted wait_ms mirroring id (suc conn) calls)

    joined :
        (wait_ms : ℕ) (node_id : ℤ) (mirroring : Bool) (connections : List ℕ) (calls : History)
        (connected : Bool)
        → let found = waited client c wait_ms node_id connections connected calls in
          After found.0 found.1 (
            (if connected
                then find_node client finds class overrides c target wait_ms node_id mirroring
                    connections
                else give_up client finds class c)
              (equipped w shared (some c) calls))
    unfolding find_node ask perform
    joined wait_ms node_id mirroring connections calls true =
        let question =
          λ (before : History). before ++ (c, Call.wait_node wait_ms node_id connections) ∷ [] in
        elim (Bool-cases (leb_ℤ (pos 0) node_id)) [
          | inl e ↦
              let before = calls ++ (c, Call.cmd_reset node_id []) ∷ [] in
              rw e
                (decided wait_ms mirroring (question before) (client.wait_node (question before)))
          | inr e ↦
              rw e (decided wait_ms mirroring (question calls) (client.wait_node (question calls)))
        ]
    joined wait_ms node_id mirroring connections calls false = given_up calls

  -- What `connect` has done. The client is the one that the node has, or else the given one, or
  -- else a new one; it counts as shared from the first time on that one is given. `found` is the
  -- conversation with it: `wait_node` is asked among the connections compatible with the completed
  -- target, if there are any or a new one succeeds, and if a node is named, behind its reset. If
  -- this finds no node, `connect` returns false; nothing but the client, whether it is shared, and
  -- the calls has changed, and a client that is not shared is closed and dropped. If it finds one,
  -- `connect` returns true or raises; if it returns, the last step was the subclass's `setup`, in a
  -- state in which the attributes name exactly the node and the connection that `wait_node` has
  -- answered, the completed target and the client.
  pub connect-Outcome :
      (given : Option ℕ) (target : Text) (params : Dict Text Text) (wait_ms max_retries : ℕ)
      (node_id : ℤ) (mirroring : Bool) (w : World)
      → let full = client.complete_target (or_name target class.default_target) params in
        let shared = if is_some given then true else w.shared_client in
        let found =
          found_with client
            (client_of client w.client given w.calls)
            full
            wait_ms
            max_retries
            node_id in
        Outcome overrides.setup w full shared found.client found.calls found.node (
          connect client finds class overrides given target params wait_ms max_retries node_id
            mirroring w)
  unfolding connect ask
  connect-Outcome given target params wait_ms max_retries node_id mirroring w =
      let full = client.complete_target (or_name target class.default_target) params in
      let shared = if is_some given then true else w.shared_client in
      let w1 : World = record w { shared_client = shared } in
      let (c, calls) = client_of client w.client given w.calls in
      let asked = calls ++ (c, Call.connections) ∷ [] in
      let connections = compatible_connections full (client.connections asked) in
      let w2 = equipped w shared (some c) asked in
      let (connected, calls') = joined_by client c connections full wait_ms max_retries asked in
      rw
        (bind-ok (obtain_client client finds class w.client given) _ w1 c
          (equipped w shared (some c) calls) (obtain_lem w.client given w1 refl))
        (rw
          (bind-ok (connect_unless client finds class c connections full wait_ms max_retries) _ w2
            connected (equipped w shared (some c) calls')
            (unless_lem c connections full wait_ms max_retries w2))
          (joined full shared w c wait_ms node_id mirroring connections calls' connected))
