-- ===== src/Node/Started.antt =====
-- The outcomes of `Node.start_mirroring`.
use pyaseba.Base.{
  ℕ, ◌≡◌, refl, sym, Bool, true, false, not, Option, none, some, [], ◌∷◌, ◌++◌, Text, text_eq, Dict,
  ℤ, arith,
}
use mathlib.Core.Path.{subst}
use pyaseba.Base.Dicts.{lookup, has_key}
use pyaseba.Base.Heap.{Ref, Heap, next, alloc}
use pyaseba.Base.Results.{Result, ok, err, assertion_error, value_error}
use pyaseba.Utils.{Finder}
use pyaseba.Description.{Description}
use pyaseba.Mirroring.{Mirroring, mirror, is_empty}
use pyaseba.Client.{Call, Client, History}
use pyaseba.Node.State.{
  World, NodeClass, pure, gets, or_raise, modify, the_client, the_client_lem, bind-ok, ask, perform,
  here, ◌>>=◌, ◌>>◌,
}
use pyaseba.Node.Connect.{
  variables_of, empty_values, sizes_by_name, when, selected_names, init_variables, log_error,
  after_load, load_script, install, lift, start_mirroring,
}

-- The new lists of `_init_variables`.
abbrev Emptied : Dict Text (ℕ × ℕ) → World → Type 0
Emptied vs w =
    (d : Dict Text Ref) × (h : Heap ℤ) × (empty_values vs w ≡ (ok d, record w { heap = h }))
    × ((name : Text) → has_key name d ≡ has_key name vs)

empty_values-Emptied : (vs : Dict Text (ℕ × ℕ)) (w : World) → Emptied vs w
unfolding empty_values lookup
empty_values-Emptied [] w = ([], w.heap, refl, λ name. refl)
empty_values-Emptied ((j, size) ∷ vs) w =
    let w1 : World = record w { heap = alloc w.heap [] } in
    let (d, h, run, same) = empty_values-Emptied vs w1 in
    (
      (j, next w.heap) ∷ d,
      h,
      bind-ok (empty_values vs) (λ rest. pure ((j, next w.heap) ∷ rest)) w1 d
          (record w { heap = h }) run,
      λ name. ground (arith, same name),
    )

module _ (client : Client) (finds : Finder) (class : NodeClass) (c : ℕ) (w : World)
    (connected : w.client ≡ some c) where
  -- The calls up to the description, up to the script, and up to the second description.
  abbrev pub asked : History
  asked = w.calls ++ (c, Call.get_description w.node_id (here w)) ∷ []

  abbrev pub sent : Mirroring → History
  sent m = asked ++ (c, Call.load_script w.node_id m.code m.code_events []) ∷ []

  abbrev pub asked_again : Mirroring → History
  asked_again m = sent m ++ (c, Call.get_description w.node_id (here w)) ∷ []

  -- What a node that mirrors has kept, and what is new.
  pub record Started (m : Mirroring) (w' : World) : Type 0 where
    pub mirroring_eq : w'.mirroring ≡ some m
    pub calls_eq : w'.calls ≡ asked_again m ++ (c, Call.cmd_run w.node_id []) ∷ []
    pub description_eq : w'.description ≡ client.get_description (asked_again m)
    pub sync_eq :
        w'.sync_variables
        ≡ selected_names client finds class (variables_of (client.get_description (asked_again m)))
    pub known :
        (name : Text)
        → has_key name w'.variable_values
          ≡ has_key name (variables_of (client.get_description (asked_again m)))
    pub client_eq : w'.client ≡ w.client
    pub node_id_eq : w'.node_id ≡ w.node_id
    pub callbacks_eq : w'.event_callbacks ≡ w.event_callbacks

  abbrev pub refused : Option Text → Result (Unit {0})
  refused none = ok tt
  refused (some []) = err value_error
  refused (some (digit ∷ digits)) = ok tt

  -- The outcome, by the exception that the client has raised for the script.
  abbrev pub Loaded : Mirroring → Option Text → Result (Unit {0}) × World → Type 0
  Loaded m none (r, w') = (r ≡ ok tt) × Started m w'
  Loaded m (some message) (r, w') =
      (r ≡ refused (client.error_line message))
      × (w' ≡ record w { mirroring = none; calls = sent m })

  -- By whether there is no code.
  abbrev pub Coded : Mirroring → Bool → Result (Unit {0}) × World → Type 0
  Coded m true (r, w') = (r ≡ ok tt) × (w' ≡ record w { calls = asked })
  Coded m false p = Loaded m (client.load_script (sent m)) p

  -- By the constructed `Mirroring`.
  abbrev pub Constructed : Result Mirroring → Result (Unit {0}) × World → Type 0
  Constructed (err e) (r, w') = (r ≡ err e) × (w' ≡ record w { calls = asked })
  Constructed (ok m) p = Coded m (is_empty m.code) p

  -- By the description of the node.
  abbrev pub Described : Option Description → Result (Unit {0}) × World → Type 0
  Described none (r, w') = (r ≡ err assertion_error) × (w' ≡ record w { calls = asked })
  Described (some desc) p = Constructed (mirror finds desc w.mirroring_config) p

  abbrev installed : Mirroring → Result Bool × World → Result (Unit {0}) × World
  installed m p =
      let x : Result (Unit {0}) × World = elim p.0 [
        | ok loaded ↦ install client finds class c m loaded p.1
        | err e ↦ (err e, p.1)
      ] in
      x

  abbrev unloaded : Mirroring → World
  unloaded m = record w { mirroring = none; calls = sent m }

  handled :
      (m : Mirroring) (message : Text) (line : Option Text)
      → ((installed m (log_error line (unloaded m))).0 ≡ refused line)
        × ((installed m (log_error line (unloaded m))).1 ≡ unloaded m)
  unfolding install
  handled m message none = (refl, refl)
  handled m message (some []) = (refl, refl)
  handled m message (some (digit ∷ digits)) = (refl, refl)

  loaded_lem :
      (m : Mirroring) (raised : Option Text)
      → Loaded m raised (installed m (after_load client finds class c raised (unloaded m)))
  unfolding after_load
  loaded_lem m (some message) = handled m message (client.error_line message)
  loaded_lem m none =
      let desc = client.get_description (asked_again m) in
      let vs = variables_of desc in
      let w1 : World = record (unloaded m) { description = desc; calls = asked_again m } in
      let (d, h, run, same) = empty_values-Emptied vs w1 in
      let w2 : World = record w1 {
        heap = h;
        variable_values = d;
        variable_sizes = sizes_by_name vs;
        sync_variables = selected_names client finds class vs;
      } in
      let initialised : init_variables client finds class w1 ≡ (ok tt, w2) =
        unfold init_variables in
        bind-ok (empty_values vs)
          (λ values. modify (λ w'. record w' {
            variable_values = values;
            variable_sizes = sizes_by_name vs;
            sync_variables = selected_names client finds class vs;
          }))
          w1 d (record w1 { heap = h }) run in
      let all : after_load client finds class c none (unloaded m) ≡ (ok true, w2) =
        unfold ask in
        bind-ok (init_variables client finds class) (λ _. pure true) w1 tt w2 initialised in
      subst (λ p. Loaded m none (installed m p)) (sym all)
        (
          unfold install in refl,
          record {
            mirroring_eq = unfold install in refl;
            calls_eq = unfold install perform in refl;
            description_eq = unfold install perform in refl;
            sync_eq = unfold install perform in refl;
            known = λ name. unfold install perform in same name;
            client_eq = unfold install perform in refl;
            node_id_eq = unfold install perform in refl;
            callbacks_eq = unfold install perform in refl;
          },
        )

  coded_lem :
      (m : Mirroring) (b : Bool)
      → Coded m b (
          when
            (not b)
            (load_script client finds class m.code m.code_events [] >>= λ loaded.
              install client finds class c m loaded)
            (record w { calls = asked }))
  unfolding load_script ask
  coded_lem m true = (refl, refl)
  coded_lem m false =
      let w1 : World = record w { calls = asked } in
      let raised = client.load_script (sent m) in
      let load : load_script client finds class m.code m.code_events [] w1
          ≡ after_load client finds class c raised (unloaded m) =
        bind-ok the_client
          (λ c'. do
            modify (λ w'. record w' { mirroring = none })
            id ← gets (λ w'. w'.node_id)
            raised' ← ask client.load_script c' (Call.load_script id m.code m.code_events [])
            after_load client finds class c' raised')
          w1 c w1 (the_client_lem w1 c connected) in
      subst (λ p. Loaded m raised (installed m p)) (sym load) (loaded_lem m raised)

  constructed_lem :
      (r : Result Mirroring)
      → Constructed r (
          (lift client finds class r >>= λ m. when (not (is_empty m.code)) (
              load_script client finds class m.code m.code_events [] >>= λ loaded.
              install client finds class c m loaded))
            (record w { calls = asked }))
  constructed_lem (err e) = (refl, refl)
  constructed_lem (ok m) = coded_lem m (is_empty m.code)

  described_lem :
      (found : Option Description)
      → Described found (
          (or_raise found assertion_error >>= λ desc. gets (λ w'. w'.mirroring_config) >>= λ config.
          lift client finds class (mirror finds desc config) >>= λ m. when (not (is_empty m.code)) (
            load_script client finds class m.code m.code_events [] >>= λ loaded.
            install client finds class c m loaded))
            (record w { calls = asked }))
  described_lem none = (refl, refl)
  described_lem (some desc) = constructed_lem (mirror finds desc w.mirroring_config)

  -- What `start_mirroring` does on a node with a client, in all cases. It asks for the description:
  -- without one it raises an `AssertionError`, and if the construction of the `Mirroring` raises,
  -- so does it; then, or if there is no code, nothing but the calls has changed. Otherwise it sends
  -- the code with the declared events. If the client raises for it, the node has stopped to mirror,
  -- and nothing else has changed; the method returns, or raises a `ValueError` if the message has
  -- `Error at Line: ` without digits. If the client takes the code, the method returns, and the
  -- node mirrors with what was constructed; its description is the one that the client gives behind
  -- that, its known variables are those of this description, the selected ones are to be
  -- synchronised, the last call is `cmd_run`, and the client, the identifier and the callbacks are
  -- as before.
  pub start_mirroring-Described :
      Described (client.get_description asked) (start_mirroring client finds class w)
  unfolding start_mirroring ask
  start_mirroring-Described =
      subst (Described (client.get_description asked))
        (sym (
          bind-ok the_client
            (λ c'. do
              id ← gets (λ w'. w'.node_id)
              include ← gets here
              found ← ask client.get_description c' (Call.get_description id include)
              description ← or_raise found assertion_error
              config ← gets (λ w'. w'.mirroring_config)
              m ← lift client finds class (mirror finds description config)
              when (not (is_empty m.code)) (do
                loaded ← load_script client finds class m.code m.code_events []
                install client finds class c' m loaded))
            w c w (the_client_lem w c connected)))
        (described_lem (client.get_description asked))
