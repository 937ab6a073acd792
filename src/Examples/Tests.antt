-- ===== src/Examples/Tests.antt =====
-- The example programs at a robot that cannot be reached, and at one that sends `event_prox`.
use pyaseba.Base.{◌≡◌, refl, none, false, [], ◌∷◌, ◌++◌, arith, List, text, text_eq, pos}
use pyaseba.Base.Dicts.{insert}
use pyaseba.Base.Heap.{next, read}
use pyaseba.Base.Results.{ok, err, assertion_error}
use pyaseba.Client.{Client}
use pyaseba.Description.{Event}
use pyaseba.Mirroring.Samples.{finds_name, prox_event}
use pyaseba.Node.State.{World, skip}
use pyaseba.Node.Connect.{
  connect, obtain_client, connect_unless, find_node, give_up, drop_client, compatible_connections,
}
use pyaseba.Node.Construct.{new_node}
use pyaseba.Node.Samples.{steady_client, node}
use pyaseba.Examples.Behavior.{
  select, select_all, chosen, main, main-refused, Selection, line_following, make_thymio, with_acc,
  add, acc, nothing_selected,
}
use pyaseba.Examples.Callbacks.{register, wait_done}
use pyaseba.Examples.Callbacks.Unheard.{wait_done-register}

-- A client that never connects.
abbrev refusing : Client
refusing = record steady_client { connect = λ h. 0 }

abbrev selection : Selection
selection = with_acc (add acc (add line_following nothing_selected))

main-refused_example :
    (main refusing finds_name
      (λ behaviors. 0)
      skip
      (text "ser:name=Thymio")
      (text "line" ∷ text "acc" ∷ [])
      []).0
    ≡ err assertion_error
unfolding with_acc insert chosen select_all select text_eq connect obtain_client connect_unless
    find_node give_up drop_client compatible_connections make_thymio new_node
main-refused_example =
    main-refused refusing finds_name (λ behaviors. 0) skip (text "ser:name=Thymio")
      (text "line" ∷ text "acc" ∷ []) [] selection refl refl

abbrev unmirrored : World
unmirrored = record node { mirroring = none; event_callbacks = [] }

-- The sample node, which mirrors, with the program's callbacks and their attributes.
abbrev listening : World
listening = record node {
  event_callbacks = (register unmirrored).1.event_callbacks;
  heap = node.heap ++ (pos 0 ∷ []) ∷ (pos 0 ∷ []) ∷ [];
}

abbrev two_seconds : List (List Event)
two_seconds = (prox_event ∷ prox_event ∷ []) ∷ (prox_event ∷ []) ∷ []

wait_done-register_example : (wait_done 3 4 two_seconds listening).0 ≡ ok false
unfolding next read text_eq
wait_done-register_example =
    wait_done-register unmirrored refl refl 3 4 two_seconds listening refl (omega arith) refl
      ((refl, (refl, tt)), ((refl, tt), tt))
