-- ===== src/SimpleNode.antt =====
-- pyaseba/examples/network/simple.py: the simulated node `SimpleNode`, on the variables and events
-- of a node of the compiled network module, which are a parameter.
pub mod Ticks
mod Tests
use pyaseba.Base.{ℕ, zero, suc, ◌*◌, List, [], ◌∷◌, map, Text, text, ℤ, pos, negsuc}
use pyaseba.Base.Int.{◌+ℤ◌, pos_part, neg_part}

-- What `pyaseba.network.Node` offers: the variables, and the events that are emitted.
pub record NetworkNode (S : Type 0) : Type 0 where
  pub get : Text → S → List ℤ
  pub set : Text → List ℤ → S → S
  pub emit : Text → S → S

-- `x * 2`
abbrev pub double : ℤ → ℤ
double x = x +ℤ x

-- `x ** 2`
abbrev pub squared : ℤ → ℤ
squared (pos n) = pos (n * n)
squared (negsuc n) = pos (suc n * suc n)

-- `vs[0] if vs else 0`
abbrev pub first_or_zero : List ℤ → ℤ
first_or_zero [] = pos 0
first_or_zero (x ∷ xs) = x

module _ {S : Type 0} (node : NetworkNode S) where
  -- The getters and setters of the properties.
  unfoldable pub counter : S → ℤ
  counter s = first_or_zero (node.get (text "counter") s)

  unfoldable pub set_counter : ℤ → S → S
  set_counter x s = node.set (text "counter") (x ∷ []) s

  unfoldable pub value : S → ℤ
  value s = first_or_zero (node.get (text "value") s)

  unfoldable pub set_value : ℤ → S → S
  set_value x s = node.set (text "value") (x ∷ []) s

  -- `SimpleNode.init`
  unfoldable pub init : S → S
  unfolding set_counter set_value
  init s = node.set (text "_productId") (pos 0 ∷ []) (set_value (pos 0) (set_counter (pos 0) s))

  -- `SimpleNode.tick`
  unfoldable pub tick : S → S
  unfolding counter set_counter
  tick s = node.emit (text "event") (set_counter (counter s +ℤ pos 1) s)

  -- `SimpleNode.reset`
  unfoldable pub reset : S → S
  unfolding set_counter
  reset s = set_counter (pos 0) s

  -- `SimpleNode.square`
  unfoldable pub square : List ℤ → S → S
  unfolding set_value
  square [] s = s
  square (x ∷ xs) s = set_value (squared x) s

  -- The network calls `tick` at each step.
  unfoldable pub spin : ℕ → S → S
  unfolding tick
  spin zero s = s
  spin (suc n) s = tick (spin n s)

-- `SimpleNode.duplicate`
unfoldable pub duplicate : List ℤ → List ℤ
duplicate xs = map double xs
