-- ===== src/Examples/Entry.antt =====
-- pyaseba/client/node/__main__.py and pyaseba/client/thymio/__main__.py: the programs that connect
-- a node and start its shell. What `argparse` reads is their argument; the shell's loop is a
-- parameter.
use pyaseba.Base.{
  ◌≡◌, refl, ◌∙◌, ap, Bool, true, false, not, none, List, [], ◌∷◌, ◌++◌, Text, text, negsuc,
  if◌then◌else◌,
}
use pyaseba.Base.Lines.{concat}
use pyaseba.Base.Heap.{Heap}
use pyaseba.Base
use pyaseba.Base.Results.{Result, ok, err, assertion_error}
use pyaseba.Utils.{Finder}
use pyaseba.Mirroring.{MirroringConfig}
use pyaseba.Client.{Client, History}
use pyaseba.Node.State.{World, NodeClass, Action, the_client}
use pyaseba.Node.Connect.{connect, start_mirroring}
use pyaseba.Node.Refused.{connect-refused}
use pyaseba.Node.Construct.{new_node}
use pyaseba.Node.Exposed.{node_overrides}
use pyaseba.Thymio.{thymio_overrides}
use pyaseba.Thymio.Construct.{thymio_config, thymio_functions, thymio_class}
use pyaseba.Shells.NodeShell.{Session, Command, Shown, on_node, print, ◌>>=◌, ◌>>◌}

-- The class attributes of `Node`.
abbrev pub node_class : NodeClass
node_class = record {
  default_target = [];
  control_event = [];
  sync_include = text ".*" ∷ [];
  sync_exclude = [];
}

abbrev pub node_config : MirroringConfig
node_config = record {
  events = [];
  function_include = [];
  function_exclude = [];
  script_inits = [];
}

-- A session in which nothing is printed yet.
abbrev pub session_of : World → Session
session_of w = record { node = w; shown = [] }

abbrev pub refused_text : Text → Text
refused_text target = concat (text "Could not connect to " ∷ target ∷ text ": exiting ..." ∷ [])

on_node-ok :
    {A B : Type 0} (m : Action A) (f : A → Command B) (s : Session) (a : A) (w : World)
    → m s.node ≡ (ok a, w)
    → (on_node m >>= f) s ≡ f a (record s { node = w })
on_node-ok {A} {B} m f s a w h =
    ap
      (λ (p : Result A × World).
        let x : Result B × Session = elim p.0 [
          | ok b ↦ f b (record s { node = p.1 })
          | err e ↦ (err e, record s { node = p.1 })
        ] in
        x)
      h

module _ (client : Client) (finds : Finder) (loop : Command (Unit {0})) where
  abbrev connected_to : NodeClass → Text → Command Bool
  connected_to class target =
      on_node (connect client finds class node_overrides none target [] 5000 3 (negsuc 0) false)

  -- `pyaseba.client.node`
  unfoldable pub node_main : Text → Heap Base.ℤ → Result (Unit {0}) × Session
  node_main target heap =
      (do
        connected ← connected_to node_class target
        if connected then (λ s. (ok tt, s)) else print (Shown.written (refused_text target))
        loop)
        (session_of (new_node node_config [] false heap []))

  -- `pyaseba.client.thymio`
  unfoldable pub thymio_main : Text → Heap Base.ℤ → Result (Unit {0}) × Session
  thymio_main target heap =
      (do
        on_node (
            connect client finds thymio_class (thymio_overrides client) none target [] 5000 3
              (negsuc 0) false)
        on_node (start_mirroring client finds thymio_class)
        loop)
        (session_of (new_node thymio_config thymio_functions false heap []))

  module _ (target : Text) (heap : Heap Base.ℤ) where
    -- The node that each program makes, before it is connected.
    abbrev pub fresh_node : World
    fresh_node = new_node node_config [] false heap []

    abbrev pub fresh_thymio : World
    fresh_thymio = new_node thymio_config thymio_functions false heap []

    -- A node that cannot be connected: the program says that it exits, but runs the shell on that
    -- node, which has no client.
    node_main-refused :
        (connect client finds node_class node_overrides none target [] 5000 3
            (negsuc 0)
            false
            fresh_node).0
          ≡ ok false
        → (calls : History) × (node_main target heap
            ≡ loop (record {
              node = record fresh_node { calls = calls };
              shown = Shown.written (refused_text target) ∷ [];
            }))
    unfolding node_main new_node
    node_main-refused refused =
        let (calls, e) =
          connect-refused client finds node_class node_overrides target [] 5000 3 (negsuc 0) false
            fresh_node refl refl refused in
        (
          calls,
          on_node-ok
              (connect client finds node_class node_overrides none target [] 5000 3 (negsuc 0)
                false)
              (λ connected.
                (if connected
                  then (λ s. (ok tt, s))
                  else print (Shown.written (refused_text target)))
                >> loop)
              (session_of fresh_node) false (record fresh_node { calls = calls }) e,
        )

    -- A Thymio that cannot be connected: the program ends with an `AssertionError`, whatever the
    -- shell would do.
    thymio_main-refused :
        (connect client finds thymio_class
            (thymio_overrides client)
            none
            target
            []
            5000
            3
            (negsuc 0)
            false
            fresh_thymio).0
          ≡ ok false
        → (thymio_main target heap).0 ≡ err assertion_error
    unfolding thymio_main start_mirroring the_client new_node
    thymio_main-refused refused =
        let (calls, e) =
          connect-refused client finds thymio_class (thymio_overrides client) target [] 5000 3
            (negsuc 0) false fresh_thymio refl refl refused in
        ap (λ (out : Result (Unit {0}) × Session). out.0)
          (on_node-ok
            (connect client finds thymio_class (thymio_overrides client) none target [] 5000 3
              (negsuc 0) false)
            (λ _. on_node (start_mirroring client finds thymio_class) >> loop)
            (session_of fresh_thymio) false (record fresh_thymio { calls = calls }) e)
