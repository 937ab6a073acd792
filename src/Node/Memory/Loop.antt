-- ===== src/Node/Memory/Loop.antt =====
-- The loop of `_set_changes` for one change.
use pyaseba.Base.{
  ℕ, zero, suc, ◌+◌, ◌-◌, ◌≤◌, ◌<◌, ◌≡◌, refl, sym, ◌∙◌, ap, true, false, some, List, [], ◌∷◌, ◌++◌,
  arith, Text, text_eq, nat_eq, Dict, ℤ, pos, length, length-drop, take, drop, inl, inr, min,
}
use mathlib.Core.List.{append-nil, append_assoc}
use native.Mathlib.Decide.{dec_lt}
use pyaseba.Base.Int.{◌-ℤ◌}
use pyaseba.Base.Heap.{Heap, read}
use pyaseba.Base.Results.{ok}
use pyaseba.Node.State.{World, bind-ok}
use pyaseba.Node.Update.{locate, take_ℤ, drop_ℤ, min_ℤ, is_zero, write_change, change_loop}
use pyaseba.Node.Changes.{loop_round, loop_done}
use pyaseba.Node.Memory.Overlay.{
  overlay, overlay-nil, drop-length, overlay_before, overlay-take-drop, part_length,
  min_ℤ-part_length,
}
use pyaseba.Node.Memory.Layout.{
  Tiles, CoversAddress, end_of, covers, covers_self, locate-CoversAddress, lookup-le, locate_end,
}
use pyaseba.Node.Memory.Touched.{touched, touched-zero, touched_behind, touched-round, part_cases}
use pyaseba.Node.Memory.Write.{Mapped}
use pyaseba.Node.Memory.Round.{Overlaid, with_heap, Mapped-Overlaid, round-Overlaid}

-- The loop for one change returns the names of the variables that the words overlap,
-- behind those that are there, and writes the words.
abbrev pub Changed : Dict ℕ (Text × ℕ) → ℕ → ℕ → List ℤ → List Text → World → Type 0
Changed vi fuel i vs names w =
    (h' : Heap ℤ) × (change_loop fuel vi i vs names w
      ≡ (ok (names ++ touched vi i (length vs)), with_heap w h'))
    × Overlaid vi w i vs h'

nothing_left :
    (fuel : ℕ) (vi : Dict ℕ (Text × ℕ)) (i : ℕ) (names : List Text) (w : World)
    → Changed vi (suc fuel) i [] names w
unfolding change_loop
nothing_left fuel vi i names w = (
  w.heap,
  rw (touched-zero vi i, append-nil names) refl,
  record {
    grown = refl;
    words = λ s name size q found named. sym (overlay-nil s (read w.heap q) i);
  },
)

module _ (fuel a : ℕ) (vi : Dict ℕ (Text × ℕ)) (i : ℕ) (v : ℤ) (vs : List ℤ) (names : List Text)
    (w : World) (t : Tiles a vi) (m : Mapped vi w) where
  at_end : a < end_of a vi → end_of a vi ≡ i → Changed vi (suc fuel) i (v ∷ vs) names w
  at_end h e =
      let (s, name, size, found) = locate_end a vi t h in
      let z : is_zero (min_ℤ (pos size -ℤ pos size) (length (v ∷ vs))) ≡ true = ground arith in
      let none_touched = touched_behind a vi i (length (v ∷ vs)) t (omega arith) in
      (
        w.heap,
        loop_done fuel vi i v vs names w s size name size (ap (λ k. locate vi k 0) (sym e) ∙ found)
              z
            ∙ rw (none_touched, append-nil names) refl,
        record {
          grown = refl;
          words = λ s' name' size' q here named. sym (
              overlay_before s' (read w.heap q) i (v ∷ vs) (
                omega (
                  arith,
                  m.sized s' name' size' q here named,
                  (covers_self a vi s' name' size' t here).1,
                )));
        },
      )

  module _ (s : ℕ) (name : Text) (size : ℕ) (c : CoversAddress vi i s name size) where
    abbrev l : ℕ
    l = part_length size (i - s) (length (v ∷ vs))

    some_words : 0 < l
    unfolding part_length
    some_words = omega (arith, c.to)

    step :
        (h1 : Heap ℤ)
        → write_change name (i - s) (pos l) (take_ℤ (pos l) (v ∷ vs)) w ≡ (ok tt, with_heap w h1)
        → change_loop (suc fuel) vi i (v ∷ vs) names w
          ≡ change_loop fuel vi (s + size) (drop l (v ∷ vs)) (names ++ name ∷ []) (with_heap w h1)
    step h1 e =
        let n = length (v ∷ vs) in
        let j-eq : 0 + (i - s) ≡ i - s = omega arith in
        let found =
          locate-CoversAddress vi i s name size c 0
          ∙ ap (λ (j : ℕ). some (s, j, name, size)) j-eq in
        let l-eq = min_ℤ-part_length size (i - s) n (omega (arith, c.from, c.to)) in
        let z : is_zero (min_ℤ (pos size -ℤ pos (i - s)) n) ≡ false =
          rw l-eq (ground (arith, some_words)) in
        let taken : l ≤ n = (part_cases s i size n c.from c.to).0 in
        let d : min l n ≡ l = omega arith in
        loop_round fuel vi i v vs names w s (i - s) name size found z
        ∙ rw l-eq (
            bind-ok (write_change name (i - s) (pos l) (take_ℤ (pos l) (v ∷ vs)))
              (λ _. change_loop fuel vi (s + size) (drop_ℤ (pos l) (v ∷ vs)) (names ++ name ∷ [])) w
              tt (with_heap w h1) e
            ∙ ap
                (λ k.
                  change_loop fuel vi (s + size) (drop k (v ∷ vs)) (names ++ name ∷ [])
                    (with_heap w h1))
                d)

    -- Whatever is left is written at the end of the variable, which the round has come to.
    shift :
        (b : ℕ) (xs : List ℤ)
        → overlay b xs (s + size) (drop l (v ∷ vs)) ≡ overlay b xs (i + l) (drop l (v ∷ vs))
    shift b xs = elim (part_cases s i size (length (v ∷ vs)) c.from c.to).1 [
      | inl e ↦ ap (λ k. overlay b xs k (drop l (v ∷ vs))) e
      | inr (e, _) ↦
          let nothing : drop l (v ∷ vs) ≡ [] = drop-length l (v ∷ vs) (omega arith) in
          rw nothing (overlay-nil b xs (s + size) ∙ sym (overlay-nil b xs (i + l)))
    ]

    join :
        (h1 h2 : Heap ℤ)
        → Overlaid vi w i (take l (v ∷ vs)) h1
        → Overlaid vi (with_heap w h1) (s + size) (drop l (v ∷ vs)) h2
        → Overlaid vi w i (v ∷ vs) h2
    join h1 h2 o1 o2 = record {
      grown = o2.grown ∙ o1.grown;
      words = λ q other n x found named.
          o2.words q other n x found named
          ∙ (ap (λ xs. overlay q xs (s + size) (drop l (v ∷ vs))) (o1.words q other n x found named)
              ∙ (shift q (overlay q (read w.heap x) i (take l (v ∷ vs)))
                  ∙ overlay-take-drop q (read w.heap x) i (v ∷ vs) l));
    }

    joined :
        (h1 h2 : Heap ℤ)
        → write_change name (i - s) (pos l) (take_ℤ (pos l) (v ∷ vs)) w ≡ (ok tt, with_heap w h1)
        → Overlaid vi w i (take l (v ∷ vs)) h1
        → change_loop fuel vi (s + size) (drop l (v ∷ vs)) (names ++ name ∷ []) (with_heap w h1) ≡ (
          ok ((names ++ name ∷ []) ++ touched vi (s + size) (length (drop l (v ∷ vs)))),
          with_heap w h2,
        )
        → Overlaid vi (with_heap w h1) (s + size) (drop l (v ∷ vs)) h2
        → Changed vi (suc fuel) i (v ∷ vs) names w
    joined h1 h2 e o1 run o2 =
        let n = length (v ∷ vs) in
        let first = touched-round a vi i s name size n t c (omega arith) in
        let rest = length-drop l (v ∷ vs) in
        let names-eq : (names ++ name ∷ []) ++ touched vi (s + size) (length (drop l (v ∷ vs)))
            ≡ names ++ touched vi i n =
          rw (rest, first) (append_assoc names (name ∷ []) (touched vi (s + size) (n - l))) in
        (h2, step h1 e ∙ (run ∙ ap (λ ns. (ok ns, with_heap w h2)) names-eq), join h1 h2 o1 o2)

pub change_loop-Overlaid :
    (fuel a : ℕ) (vi : Dict ℕ (Text × ℕ)) (i : ℕ) (vs : List ℤ) (names : List Text) (w : World)
    → Tiles a vi
    → a ≤ i
    → i ≤ end_of a vi
    → a < end_of a vi
    → length vs < fuel
    → Mapped vi w
    → Changed vi fuel i vs names w
change_loop-Overlaid zero a vi i vs names w t lo hi some_vi f m = absurd (omega arith)
change_loop-Overlaid (suc fuel) a vi i [] names w t lo hi some_vi f m =
    nothing_left fuel vi i names w
change_loop-Overlaid (suc fuel) a vi i (v ∷ vs) names w t lo hi some_vi f m =
    elim (dec_lt i (end_of a vi)) [
      | no behind ↦ at_end fuel a vi i v vs names w t m some_vi (omega arith)
      | yes inside ↦
          let (s, name, size, c) = covers a vi i t lo inside in
          let (h1, e, o1) = round-Overlaid a vi i s name size (v ∷ vs) w t c m in
          let k = part_length size (i - s) (length (v ∷ vs)) in
          let taken = some_words fuel a vi i v vs names w t m s name size c in
          let from = lookup-le a vi s (name, size) t c.found in
          let to = (covers_self a vi s name size t c.found).1 in
          let (h2, run, o2) =
            change_loop-Overlaid fuel a vi (s + size) (drop k (v ∷ vs)) (names ++ name ∷ [])
              (with_heap w h1) t (omega arith) to some_vi (omega (arith, length-drop k (v ∷ vs)))
              (Mapped-Overlaid vi w i (take k (v ∷ vs)) h1 m o1) in
          joined fuel a vi i v vs names w t m s name size c h1 h2 e o1 run o2
    ]
