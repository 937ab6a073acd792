-- ===== src/Node/Sync/Tests.antt =====
-- A second `sync` of the sample node, and the other order of its variables.
use pyaseba.Base.{◌≡◌, refl, [], ◌∷◌, text, text_eq, arith, Text}
use mathlib.Core.List
use mathlib.Core.List.{Perm}
use pyaseba.Base.Heap.{next}
use pyaseba.Node.Invariant.{IsWellFormed}
use pyaseba.Node.Cache.{sync}
use pyaseba.Node.Sync.{Distinct}
use pyaseba.Node.State.{World}
use pyaseba.Node.Sync.Again.{sync_again}
use pyaseba.Node.Sync.Unordered.{sync-perm}
use pyaseba.Node.Sync.Settled.{look}
use pyaseba.Node.Samples.{node}

node-IsWellFormed : IsWellFormed node
unfolding next
node-IsWellFormed = omega arith

node-Distinct : Distinct node.sync_variables
unfolding text_eq
node-Distinct = (refl, (refl, tt))

sync_again_example :
    let w : World = record (sync node).1 { next_variables_values = node.next_variables_values } in
    (sync w).1.calls ≡ (sync node).1.calls
sync_again_example = sync_again 1 node refl node-IsWellFormed node-Distinct

-- `acc` in front of `prox`.
abbrev turned : World
turned = record node { sync_variables = text "acc" ∷ text "prox" ∷ [] }

turned-Distinct : Distinct turned.sync_variables
unfolding text_eq
turned-Distinct = (refl, (refl, tt))

sync-perm_example :
    let w = (sync node).1 in
    let w' = (sync turned).1 in
    Perm w.calls w'.calls
    × ((j : Text) → look w.heap w.variable_values j ≡ look w'.heap w'.variable_values j)
    × ((j : Text) → look w.heap w.prev_variables_values j ≡ look w'.heap w'.prev_variables_values j)
sync-perm_example =
    sync-perm 1 node refl node-IsWellFormed node-Distinct (text "acc" ∷ text "prox" ∷ [])
      turned-Distinct (List.Perm.swap (text "acc") (text "prox") [])
