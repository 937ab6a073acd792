-- ===== src/Node/Memory/Round.antt =====
-- A round of `_set_changes` against a write to the words of all variables.
use pyaseba.Base.{
  ℕ, ◌+◌, ◌-◌, ◌≤◌, ◌<◌, ◌≡◌, ◌≢◌, sym, ◌∙◌, ap, some, List, arith, Text, text_eq, nat_eq, Dict, ℤ,
  pos, length, length-take, take, inl, inr,
}
use mathlib.Core.Path.{subst}
use mathlib.Core.Option.{some-injective}
use native.Mathlib.Decide.{ℕ_discrete}
use pyaseba.Base.Dicts.{lookup}
use pyaseba.Base.Heap.{Ref, Heap, read, next}
use pyaseba.Base.Results.{ok}
use pyaseba.Node.State.{World}
use pyaseba.Node.Update.{take_ℤ, write_change}
use pyaseba.Node.Memory.Overlay.{
  overlay, length-overlay, take-length, overlay_before, overlay_behind, overlay-take, part_length,
}
use pyaseba.Node.Memory.Layout.{Tiles, CoversAddress, CoversAddress-apart, Tiles-names}
use pyaseba.Node.Memory.Touched.{part_cases}
use pyaseba.Node.Memory.Write.{
  Names, Mapped, twice, next-twice, read-twice_ne, read-twice_p, read-twice_r, write_change_lem,
}

abbrev pub with_heap : World → Heap ℤ → World
with_heap w h = record w { heap = h }

-- In the heap `h'`, every cached list of a variable holds its words with `vs` written at
-- the address `i`.
pub record Overlaid (vi : Dict ℕ (Text × ℕ)) (w : World) (i : ℕ) (vs : List ℤ) (h' : Heap ℤ)
    : Type 0 where
  pub grown : next h' ≡ next w.heap
  pub words :
      (s : ℕ) (name : Text) (size : ℕ) (q : Ref)
      → lookup s vi ≡ some (name, size)
      → Names w name q
      → read h' q ≡ overlay s (read w.heap q) i vs

pub Mapped-Overlaid :
    (vi : Dict ℕ (Text × ℕ)) (w : World) (i : ℕ) (vs : List ℤ) (h' : Heap ℤ)
    → Mapped vi w
    → Overlaid vi w i vs h'
    → Mapped vi (with_heap w h')
Mapped-Overlaid vi w i vs h' m o = record {
  values = λ s name size found.
      let (r, e, below) = m.values s name size found in (r, e, omega (arith, o.grown));
  prevs = λ s name size found.
      let (r, e, below) = m.prevs s name size found in (r, e, omega (arith, o.grown));
  sized = λ s name size q found named.
      ap length (o.words s name size q found named)
      ∙ (length-overlay s (read w.heap q) i vs ∙ m.sized s name size q found named);
  apart = m.apart;
}

module _ (a : ℕ) (vi : Dict ℕ (Text × ℕ)) (i s : ℕ) (name : Text) (size : ℕ) (vs : List ℤ)
    (w : World) (t : Tiles a vi) (c : CoversAddress vi i s name size) (m : Mapped vi w) where
  abbrev l : ℕ
  l = part_length size (i - s) (length vs)

  -- The words of a round, at the variable of the address.
  round_here :
      (xs : List ℤ) → length xs ≡ size → overlay s xs (s + (i - s)) vs ≡ overlay s xs i (take l vs)
  round_here xs z =
      let e : s + (i - s) ≡ i = omega (arith, c.from) in
      rw e (elim (part_cases s i size (length vs) c.from c.to).1 [
        | inl full ↦ sym (overlay-take s xs i vs l (omega arith))
        | inr (short, _) ↦ ap (overlay s xs i) (sym (take-length l vs (omega arith)))
      ])

  -- A round leaves the other variables alone.
  round_there :
      (q : ℕ) (other : Text) (n : ℕ) (xs : List ℤ)
      → lookup q vi ≡ some (other, n)
      → q ≢ s
      → length xs ≡ n
      → xs ≡ overlay q xs i (take l vs)
  round_there q other n xs found ne z =
      let cases = part_cases s i size (length vs) c.from c.to in
      elim (CoversAddress-apart vi i s name size a q other n t c found ne) [
        | inl before ↦ sym (overlay_before q xs i (take l vs) (omega (arith, c.from)))
        | inr behind ↦
            let k : i + length (take l vs) ≤ q = elim cases.1 [
              | inl e ↦ omega (arith, length-take l vs)
              | inr e ↦ omega (arith, length-take l vs)
            ] in
            sym (overlay_behind q xs i (take l vs) k)
      ]

  module _ (r p : Ref) (er : lookup name w.variable_values ≡ some r) (hr : r < next w.heap)
      (ep : lookup name w.prev_variables_values ≡ some p) (hp : p < next w.heap) where
    zr : length (read w.heap r) ≡ size
    zr = m.sized s name size r c.found (inl er)

    zp : length (read w.heap p) ≡ size
    zp = m.sized s name size p c.found (inr ep)

    inside : i - s < size
    inside = omega (arith, c.from, c.to)

    abbrev h1 : Heap ℤ
    h1 = twice w.heap r p s (i - s) vs size hr hp zr zp inside

    words_here : (x : Ref) → Names w name x → read h1 x ≡ overlay s (read w.heap x) i (take l vs)
    words_here x (inl e) =
        subst (λ x'. read h1 x' ≡ overlay s (read w.heap x') i (take l vs))
          (some-injective r x (sym er ∙ e))
          (read-twice_r w.heap r p s (i - s) vs size hr hp zr zp inside
            ∙ round_here (read w.heap r) zr)
    words_here x (inr e) =
        subst (λ x'. read h1 x' ≡ overlay s (read w.heap x') i (take l vs))
          (some-injective p x (sym ep ∙ e))
          (read-twice_p w.heap r p s (i - s) vs size hr hp zr zp inside
            ∙ round_here (read w.heap p) zp)

    words_there :
        (q : ℕ) (other : Text) (n : ℕ) (x : Ref)
        → lookup q vi ≡ some (other, n)
        → Names w other x
        → q ≢ s
        → read h1 x ≡ overlay q (read w.heap x) i (take l vs)
    words_there q other n x found named ne =
        let differ : other ≢ name =
          λ e. ne (Tiles-names a vi q s name n size t (rw (← e) found) c.found) in
        read-twice_ne w.heap r p s (i - s) vs size hr hp zr zp inside x
          (m.apart other name x r differ named (inl er))
          (m.apart other name x p differ named (inr ep))
        ∙ round_there q other n (read w.heap x) found ne (m.sized q other n x found named)

    words_all :
        (q : ℕ) (other : Text) (n : ℕ) (x : Ref)
        → lookup q vi ≡ some (other, n)
        → Names w other x
        → read h1 x ≡ overlay q (read w.heap x) i (take l vs)
    words_all q other n x found named = elim (ℕ_discrete q s) [
      | yes at ↦
          let same = sym (subst (λ k. lookup k vi ≡ some (other, n)) at found) ∙ c.found in
          let e : other ≡ name = ap (λ (d : Text × ℕ). d.0) (some-injective _ _ same) in
          rw at (words_here x (subst (λ d. Names w d x) e named))
      | no away ↦ words_there q other n x found named away
    ]

    round_lem :
        (h' : Heap ℤ) × (write_change name (i - s) (pos l) (take_ℤ (pos l) vs) w
          ≡ (ok tt, with_heap w h'))
        × Overlaid vi w i (take l vs) h'
    round_lem = (
      h1,
      write_change_lem name (i - s) (pos l) (take_ℤ (pos l) vs) w r p er ep,
      record {
        grown = next-twice w.heap r p s (i - s) vs size hr hp zr zp inside;
        words = words_all;
      },
    )

  -- The two assignments of a round write the words that it takes.
  pub round-Overlaid :
      (h' : Heap ℤ) × (write_change name (i - s) (pos l) (take_ℤ (pos l) vs) w
        ≡ (ok tt, with_heap w h'))
      × Overlaid vi w i (take l vs) h'
  round-Overlaid =
      let (r, er, hr) = m.values s name size c.found in
      let (p, ep, hp) = m.prevs s name size c.found in round_lem r p er hr ep hp
