-- ===== src/Shells/Tests.antt =====
-- Lines typed at the shells of a client and of a node.
use pyaseba.Base.{
  ◌≡◌, refl, [], ◌∷◌, ◌&&◌, text, text_eq, int_eq, pos, negsuc, contains, map, if◌then◌else◌,
}
use pyaseba.Base.Dicts.{keys, has_key}
use pyaseba.Base.Texts.{join, decimal_ℤ}
use pyaseba.Base.Numerals.{int_of, read_sign, read_digits}
use pyaseba.Base.Results.{ok}
use pyaseba.Client.{Call, Client}
use pyaseba.Mirroring.Samples.{robot}
use pyaseba.Node.Samples.{steady_client, node}
use pyaseba.Shells.ClientShell.{Session, log, do_set_variable}
use pyaseba.Shells.NodeShell
use pyaseba.Shells.Typed.{Solid, do_set_variable-join, do_set_variable-none}
use pyaseba.Shells.Values.{do_get-do_set}
use pyaseba.Shells.Completion.{do_add_mirrored_event-join}

acc_Solid : Solid (text "acc")
acc_Solid = (refl, (refl, (refl, tt)))

abbrev session : Session
session = record { client = 1; calls = []; shown = [] }

do_set_variable-join_example :
    do_set_variable
      (join (b' ' ∷ []) (decimal_ℤ (pos 5) ∷ text "acc" ∷ map decimal_ℤ (negsuc 2 ∷ pos 40 ∷ [])))
      session
    ≡ log (Call.set_variable (pos 5) (text "acc") (negsuc 2 ∷ pos 40 ∷ []) []) session
do_set_variable-join_example =
    do_set_variable-join (pos 5) (text "acc") (negsuc 2 ∷ pos 40 ∷ []) session acc_Solid

-- `5 acc 1 x`
do_set_variable-none_example :
    do_set_variable (join (b' ' ∷ []) (text "5" ∷ text "acc" ∷ text "1" ∷ text "x" ∷ [])) session
    ≡ session
unfolding int_of read_sign read_digits
do_set_variable-none_example =
    do_set_variable-none (text "5") (text "acc") (text "1" ∷ []) [] (text "x") session
      ((refl, tt), (acc_Solid, ((refl, tt), ((refl, tt), tt)))) refl

abbrev node_session : NodeShell.Session
node_session = record { node = node; shown = [] }

do_get-do_set_example :
    let s1 =
      (NodeShell.do_set
        (join (b' ' ∷ []) (text "acc" ∷ map decimal_ℤ (pos 3 ∷ [])))
        node_session).1 in
    let out = NodeShell.do_get steady_client (text "acc") s1 in
    (out.0 ≡ ok tt)
    × (out.1.shown ≡ NodeShell.number (pos 3) ∷ [])
    × (out.1.node.calls ≡ (1, Call.set_variable (pos 5) (text "acc") (pos 3 ∷ []) (2 ∷ [])) ∷ [])
do_get-do_set_example =
    do_get-do_set steady_client 1 (text "acc") (pos 3 ∷ []) node_session refl refl acc_Solid
      (λ e. cc)

abbrev three_nodes : Client
three_nodes = record steady_client {
  get_node_ids = λ h. (1, pos 12 ∷ pos 7 ∷ []) ∷ (2, pos 7 ∷ []) ∷ [];
}

do_add_mirrored_event-join_example :
    let kept = NodeShell.known_variables robot.variables (text "acc" ∷ text "none" ∷ []) in
    (NodeShell.do_add_mirrored_event
        (join (b' ' ∷ []) (text "prox" ∷ text "acc" ∷ text "none" ∷ []))
        node_session
      ≡ (
        ok tt,
        (if contains (keys robot.local_events) (text "prox")
            then record node_session {
              node = NodeShell.put_spec (text "prox") (NodeShell.plain_spec kept) node;
            }
            else node_session),
      ))
    × (contains kept (text "acc") ≡ (
        contains (text "acc" ∷ text "none" ∷ []) (text "acc")
        && has_key (text "acc") robot.variables))
do_add_mirrored_event-join_example =
    do_add_mirrored_event-join (text "prox") (text "acc" ∷ text "none" ∷ []) (text "acc") robot
      node_session refl
      ((refl, (refl, (refl, (refl, tt)))), (acc_Solid, ((refl, (refl, (refl, (refl, tt)))), tt)))
      ((λ e. cc), ((λ e. cc), ((λ e. cc), tt)))
