-- ===== src/Node/Invariant.antt =====
-- The well-formedness of a node's caches: every list that they name is an object of the heap.
use pyaseba.Base.{ℕ, ◌<◌, ◌≤◌, ◌≡◌, [], ◌∷◌, some, arith, Text, text_eq, Dict}
use pyaseba.Base.Heap.{Ref, next}
use pyaseba.Base.Dicts.{lookup, insert}
use pyaseba.Node.State.{World}

-- Every reference of the dict lies below the bound.
abbrev pub AllBelow : ℕ → Dict Text Ref → Type 0
AllBelow n [] = Unit
AllBelow n ((_, r) ∷ d) = (r < n) × AllBelow n d

pub record IsWellFormed (w : World) : Type 0 where
  pub of_values : AllBelow (next w.heap) w.variable_values
  pub of_next : AllBelow (next w.heap) w.next_variables_values
  pub of_prev : AllBelow (next w.heap) w.prev_variables_values

pub AllBelow-mono : (n m : ℕ) (d : Dict Text Ref) → n ≤ m → AllBelow n d → AllBelow m d
AllBelow-mono n m [] h a = tt
AllBelow-mono n m ((_, r) ∷ d) h a = (omega arith, AllBelow-mono n m d h a.1)

pub AllBelow-insert :
    (n : ℕ) (k : Text) (r : Ref) (d : Dict Text Ref)
    → r < n
    → AllBelow n d
    → AllBelow n (insert k r d)
unfolding insert
AllBelow-insert n k r [] h a = (h, tt)
AllBelow-insert n k r ((j, q) ∷ d) h a = ground (arith, AllBelow-insert n k r d h a.1)

pub lookup-AllBelow :
    (n : ℕ) (k : Text) (r : Ref) (d : Dict Text Ref) → AllBelow n d → lookup k d ≡ some r → r < n
unfolding lookup
lookup-AllBelow n k r [] a h = cc
lookup-AllBelow n k r ((j, q) ∷ d) a h = ground (arith, lookup-AllBelow n k r d a.1)
