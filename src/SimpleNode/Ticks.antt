-- ===== src/SimpleNode/Ticks.antt =====
-- What a simulated node counts and emits.
use pyaseba.Base.{
  ℕ, zero, suc, Bool, true, ◌+◌, ◌≤◌, ◌≡◌, ◌≢◌, ◌∙◌, ap, [], ◌∷◌, Text, text, text_eq, ℤ, pos,
  arith,
}
use pyaseba.Base.Int.{◌+ℤ◌}
use pyaseba.SimpleNode.{
  NetworkNode, counter, set_counter, set_value, init, tick, spin, first_or_zero,
}

-- What the code relies on of the variables and events of a node. `declared` says that a node has a
-- variable of one word with this name, and `raises` that it has the event and can execute it: no
-- step by step execution is on, and no script is loaded that handles it. A word of 16 bits that is
-- set in such a variable is read back, and setting one variable changes no other. Such an event is
-- emitted once, and changes no variable. Nothing is said of other names.
pub record IsNetworkNode {S : Type 0} (node : NetworkNode S) (declared raises : Text → S → Bool)
    (emitted : S → ℕ) : Type 0 where
  pub get-set :
      (name : Text) (n : ℕ) (s : S)
      → declared name s ≡ true
      → n ≤ 32767
      → node.get name (node.set name (pos n ∷ []) s) ≡ pos n ∷ []
  pub get-set_ne :
      (name other : Text) (x : ℤ) (s : S)
      → name ≢ other
      → node.get name (node.set other (x ∷ []) s) ≡ node.get name s
  pub get-emit :
      (name event : Text) (s : S)
      → raises event s ≡ true
      → node.get name (node.emit event s) ≡ node.get name s
  pub emitted-set : (name : Text) (x : ℤ) (s : S) → emitted (node.set name (x ∷ []) s) ≡ emitted s
  pub emitted-emit :
      (event : Text) (s : S) → raises event s ≡ true → emitted (node.emit event s) ≡ suc (emitted s)
  pub declared-set :
      (name other : Text) (x : ℤ) (s : S)
      → declared name (node.set other (x ∷ []) s) ≡ declared name s
  pub declared-emit :
      (name event : Text) (s : S) → declared name (node.emit event s) ≡ declared name s
  pub raises-set :
      (event name : Text) (x : ℤ) (s : S) → raises event (node.set name (x ∷ []) s) ≡ raises event s
  pub raises-emit :
      (event : Text) (s : S) → raises event s ≡ true → raises event (node.emit event s) ≡ true

plus_one : (n : ℕ) → (pos n +ℤ pos 1) ≡ pos (suc n)
plus_one n = ground arith

module _ {S : Type 0} (node : NetworkNode S) (declared raises : Text → S → Bool) (emitted : S → ℕ)
    (laws : IsNetworkNode node declared raises emitted) where
  -- The node has the variable and the event that the code uses.
  abbrev Ready : S → Type 0
  Ready s = (declared (text "counter") s ≡ true) × (raises (text "event") s ≡ true)

  Ready-set : (name : Text) (x : ℤ) (s : S) → Ready s → Ready (node.set name (x ∷ []) s)
  Ready-set name x s h = (
    laws.declared-set (text "counter") name x s ∙ h.0,
    laws.raises-set (text "event") name x s ∙ h.1,
  )

  Ready-init : (s : S) → Ready s → Ready (init node s)
  unfolding init set_counter set_value
  Ready-init s h =
      let s1 = set_counter node (pos 0) s in
      Ready-set (text "_productId") (pos 0) (set_value node (pos 0) s1)
        (Ready-set (text "value") (pos 0) s1 (Ready-set (text "counter") (pos 0) s h))

  Ready-tick : (s : S) → Ready s → Ready (tick node s)
  unfolding tick set_counter
  Ready-tick s h =
      let x = counter node s +ℤ pos 1 in
      let s1 = set_counter node x s in
      let h1 = Ready-set (text "counter") x s h in
      (
        laws.declared-emit (text "counter") (text "event") s1 ∙ h1.0,
        laws.raises-emit (text "event") s1 h1.1,
      )

  counter-set_counter :
      (n : ℕ) (s : S) → Ready s → n ≤ 32767 → counter node (set_counter node (pos n) s) ≡ pos n
  unfolding counter set_counter
  counter-set_counter n s r h = ap first_or_zero (laws.get-set (text "counter") n s r.0 h)

  counter-init : (s : S) → Ready s → counter node (init node s) ≡ pos 0
  unfolding init counter set_counter set_value
  counter-init s r =
      let s1 = set_counter node (pos 0) s in
      let s2 = set_value node (pos 0) s1 in
      ap first_or_zero (
        laws.get-set_ne (text "counter") (text "_productId") (pos 0) s2 (λ e. cc)
        ∙ (laws.get-set_ne (text "counter") (text "value") (pos 0) s1 (λ e. cc)
            ∙ laws.get-set (text "counter") 0 s r.0 (omega arith)))

  unchanged : (s : S) → Ready s → counter node (node.emit (text "event") s) ≡ counter node s
  unfolding counter
  unchanged s r = ap first_or_zero (laws.get-emit (text "counter") (text "event") s r.1)

  counter-tick :
      (n : ℕ) (s : S)
      → Ready s
      → suc n ≤ 32767
      → counter node s ≡ pos n
      → counter node (tick node s) ≡ pos (suc n)
  unfolding tick set_counter
  counter-tick n s r h e =
      let x = counter node s +ℤ pos 1 in
      let s1 = set_counter node x s in
      unchanged s1 (Ready-set (text "counter") x s r)
      ∙ (ap (λ z. counter node (set_counter node z s)) (ap (λ z. z +ℤ pos 1) e ∙ plus_one n)
          ∙ counter-set_counter (suc n) s r h)

  emitted-tick : (s : S) → Ready s → emitted (tick node s) ≡ suc (emitted s)
  unfolding tick set_counter
  emitted-tick s r =
      let x = counter node s +ℤ pos 1 in
      laws.emitted-emit (text "event") (set_counter node x s) (Ready-set (text "counter") x s r).1
      ∙ ap suc (laws.emitted-set (text "counter") x s)

  emitted-init : (s : S) → emitted (init node s) ≡ emitted s
  unfolding init set_counter set_value
  emitted-init s =
      let s1 = set_counter node (pos 0) s in
      laws.emitted-set (text "_productId") (pos 0) (set_value node (pos 0) s1)
      ∙ (laws.emitted-set (text "value") (pos 0) s1 ∙ laws.emitted-set (text "counter") (pos 0) s)

  pub counter-spin :
      (n : ℕ) (s : S)
      → declared (text "counter") s ≡ true
      → raises (text "event") s ≡ true
      → n ≤ 32767
      → (counter node (spin node n (init node s)) ≡ pos n)
        × (emitted (spin node n (init node s)) ≡ n + emitted s)
  unfolding spin
  counter-spin n s known able h = (all n s (known, able) h).1
    where
      all :
          (n : ℕ) (s : S)
          → Ready s
          → n ≤ 32767
          → Ready (spin node n (init node s))
            × ((counter node (spin node n (init node s)) ≡ pos n)
                × (emitted (spin node n (init node s)) ≡ n + emitted s))
      all zero s r h =
          let events = emitted-init s in (Ready-init s r, (counter-init s r, omega arith))
      all (suc n) s r h =
          let (ready, (count, events)) = all n s r (omega arith) in
          let s1 = spin node n (init node s) in
          let further = emitted-tick s1 ready in
          (Ready-tick s1 ready, (counter-tick n s1 ready h count, omega arith))
