-- ===== src/Node/Memory/Write.antt =====
-- One round of `_set_changes` on the cached lists of the variable that an address belongs to.
use pyaseba.Base.{
  ℕ, ◌+◌, ◌<◌, ◌≡◌, ◌≢◌, sym, ◌∙◌, some, List, arith, Text, text_eq, nat_eq, Dict, ℤ, pos, length,
  ◌⊎◌,
}
use mathlib.Core.Path.{subst}
use native.Mathlib.Decide.{ℕ_discrete}
use pyaseba.Base.Dicts.{lookup}
use pyaseba.Base.Heap.{Ref, Heap, read, write, next, read-write, read-write_ne, next-write}
use pyaseba.Base.Results.{ok}
use pyaseba.Node.State.{World}
use pyaseba.Node.Update.{set_slice, take_ℤ, write_slice, write_change}
use pyaseba.Node.Memory.Overlay.{
  overlay, length-overlay, overlay_twice, part_length, set_slice-overlay,
}

-- A list object that the value or the last known value of a variable is.
abbrev pub Names : World → Text → Ref → Type 0
Names w name r =
    (lookup name w.variable_values ≡ some r) ⊎ (lookup name w.prev_variables_values ≡ some r)

abbrev pub Cell : World → Dict Text Ref → Text → ℕ → Type 0
Cell w d name size = (r : Ref) × (lookup name d ≡ some r) × (r < next w.heap)

-- The caches have each variable at its size, and no list is shared between two variables. The value
-- of a variable and its last known value may be one list.
pub record Mapped (vi : Dict ℕ (Text × ℕ)) (w : World) : Type 0 where
  pub values :
      (s : ℕ) (name : Text) (size : ℕ)
      → lookup s vi ≡ some (name, size)
      → Cell w w.variable_values name size
  pub prevs :
      (s : ℕ) (name : Text) (size : ℕ)
      → lookup s vi ≡ some (name, size)
      → Cell w w.prev_variables_values name size
  pub sized :
      (s : ℕ) (name : Text) (size : ℕ) (r : Ref)
      → lookup s vi ≡ some (name, size)
      → Names w name r
      → length (read w.heap r) ≡ size
  pub apart : (n m : Text) (r q : Ref) → n ≢ m → Names w n r → Names w m q → r ≢ q

-- The two assignments, as one lemma about the heap.
module _ (h : Heap ℤ) (r p : Ref) (s j : ℕ) (vs : List ℤ) (size : ℕ) (hr : r < next h)
    (hp : p < next h) (zr : length (read h r) ≡ size) (zp : length (read h p) ≡ size)
    (inside : j < size) where
  abbrev pub part : ℤ
  part = pos (part_length size j (length vs))

  abbrev pub once : Heap ℤ
  once = write h r (set_slice (read h r) j part (take_ℤ part vs))

  abbrev pub twice : Heap ℤ
  twice = write once p (set_slice (read once p) j part (take_ℤ part vs))

  assigned :
      (xs : List ℤ)
      → length xs ≡ size
      → set_slice xs j part (take_ℤ part vs) ≡ overlay s xs (s + j) vs
  assigned xs z = let lt : j < length xs = omega arith in rw (← z) (set_slice-overlay s j xs vs lt)

  read-once : read once r ≡ overlay s (read h r) (s + j) vs
  read-once = read-write h r _ hr ∙ assigned (read h r) zr

  pub next-twice : next twice ≡ next h
  next-twice = next-write once p _ ∙ next-write h r _

  pub read-twice_ne : (q : Ref) → q ≢ r → q ≢ p → read twice q ≡ read h q
  read-twice_ne q n m =
      read-write_ne once p q _ (λ e. m (sym e)) ∙ read-write_ne h r q _ (λ e. n (sym e))

  hp_once : p < next once
  hp_once = omega (arith, next-write h r (set_slice (read h r) j part (take_ℤ part vs)))

  pub read-twice_p : read twice p ≡ overlay s (read h p) (s + j) vs
  read-twice_p = elim (ℕ_discrete r p) [
    | yes same ↦
        let e : read once p ≡ overlay s (read h p) (s + j) vs = rw (← same) read-once in
        let z : length (read once p) ≡ size = rw e (length-overlay s (read h p) (s + j) vs ∙ zp) in
        read-write once p _ hp_once
        ∙ (assigned (read once p) z ∙ rw e (overlay_twice s (read h p) (s + j) vs))
    | no other ↦
        let e : read once p ≡ read h p = read-write_ne h r p _ other in
        read-write once p _ hp_once ∙ rw e (assigned (read h p) zp)
  ]

  pub read-twice_r : read twice r ≡ overlay s (read h r) (s + j) vs
  read-twice_r = elim (ℕ_discrete r p) [
    | yes same ↦
        subst (λ (x : Ref). read twice x ≡ overlay s (read h x) (s + j) vs) (sym same) read-twice_p
    | no other ↦ read-write_ne once p r _ (λ e. other (sym e)) ∙ read-once
  ]

pub write_change_lem :
    (name : Text) (j : ℕ) (l : ℤ) (words : List ℤ) (w : World) (r p : Ref)
    → lookup name w.variable_values ≡ some r
    → lookup name w.prev_variables_values ≡ some p
    → write_change name j l words w ≡ (
      ok tt,
      record w {
        heap =
            let h = write w.heap r (set_slice (read w.heap r) j l words) in
            write h p (set_slice (read h p) j l words);
      },
    )
unfolding write_change write_slice
write_change_lem name j l words w r p e e' = ground arith
