-- ===== src/Node/Memory/Tests.antt =====
-- The memory of the sample node, refreshed and changed.
use pyaseba.Base.{
  ℕ, zero, suc, ◌≡◌, refl, false, List, [], ◌∷◌, ◌++◌, arith, text, text_eq, nat_eq, ℤ, pos, negsuc,
}
use pyaseba.Base.Dicts.{lookup}
use pyaseba.Base.Heap.{Heap}
use pyaseba.Base.Results.{ok}
use pyaseba.Client.{Client}
use pyaseba.Mirroring.Samples.{robot}
use pyaseba.Node.Update.{set_changes, update}
use pyaseba.Node.Samples.{steady_client, node}
use pyaseba.Node.Memory.Overlay.{overlay}
use pyaseba.Node.Memory.Touched.{touched}
use pyaseba.Node.Memory.Changed.{memory, written, changed_names, IsTiled}
use pyaseba.Node.Memory.Round.{with_heap}
use pyaseba.Node.Memory.Answers.{answered, answered_words}
use pyaseba.Node.Memory.Updated.{update-set_changes}

abbrev zeros : ℕ → List ℤ
zeros zero = []
zeros (suc n) = pos 0 ∷ zeros n

-- A client that answers with all variables of the robot.
abbrev full_client : Client
full_client = record steady_client {
  get_all_variables = λ h.
      (text "_id", pos 5 ∷ [])
      ∷ (text "source", pos 0 ∷ [])
      ∷ (text "args", zeros 32)
      ∷ (text "prox", pos 7 ∷ pos 8 ∷ [])
      ∷ (text "acc", pos 1 ∷ pos 2 ∷ pos 3 ∷ [])
      ∷ [];
}

robot-IsTiled : IsTiled robot
unfolding text_eq
robot-IsTiled = record {
  tiles = (
    refl,
    omega arith,
    refl,
    (
      refl,
      omega arith,
      refl,
      (refl, omega arith, refl, (refl, omega arith, refl, (refl, omega arith, refl, tt))),
    ),
  );
  some_words = omega arith;
  whole = refl;
}

-- Two changes: across `prox` and `acc`, and inside `args`.
abbrev two_changes : List (ℕ × List ℤ)
two_changes = (35, pos 9 ∷ pos 6 ∷ []) ∷ (2, negsuc 0 ∷ []) ∷ []

-- What the client answers, in the order of the addresses, and what the changes make of it.
abbrev before : List ℤ
before = pos 5 ∷ pos 0 ∷ zeros 32 ++ pos 7 ∷ pos 8 ∷ pos 1 ∷ pos 2 ∷ pos 3 ∷ []

abbrev after : List ℤ
after = pos 5 ∷ pos 0 ∷ negsuc 0 ∷ zeros 31 ++ pos 7 ∷ pos 9 ∷ pos 6 ∷ pos 2 ∷ pos 3 ∷ []

update-set_changes_example :
    let (r, w) = update full_client 1000 false node in
    let vi = robot.variables_by_index in
    (r ≡ ok tt)
    × (memory w.heap w.variable_values vi ≡ before)
    × (memory w.heap w.prev_variables_values vi ≡ before)
    × ((h : Heap ℤ) × (set_changes two_changes w
          ≡ (ok (text "prox" ∷ text "acc" ∷ text "args" ∷ []), with_heap w h))
        × (memory h w.variable_values vi ≡ after)
        × (memory h w.prev_variables_values vi ≡ after))
unfolding lookup answered answered_words written changed_names overlay touched text_eq nat_eq
update-set_changes_example =
    update-set_changes full_client robot robot-IsTiled 1 1000 node refl refl two_changes (
      (pos 5 ∷ [], refl, refl),
      (
        (pos 0 ∷ [], refl, refl),
        (
          (zeros 32, refl, refl),
          ((pos 7 ∷ pos 8 ∷ [], refl, refl), ((pos 1 ∷ pos 2 ∷ pos 3 ∷ [], refl, refl), tt)),
        ),
      ),
    )
