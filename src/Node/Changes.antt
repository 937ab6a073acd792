-- ===== src/Node/Changes.antt =====
-- The loops of `_set_changes`, and the fuel that the model gives them.
use pyaseba.Base.{
  ℕ, zero, suc, ◌+◌, ◌-◌, ◌*◌, ◌≤◌, ◌<◌, ◌≡◌, ◌≢◌, sym, ◌∙◌, ap, Bool, true, false, Option, none,
  some, List, [], ◌∷◌, ◌++◌, arith, Text, text_eq, nat_eq, Dict, ℤ, pos, length, length-drop, inl,
  inr, Bool-cases, Option-cases, ltb, min,
}
use native.Mathlib.Decide.{dec_lt}
use pyaseba.Base.Int.{◌-ℤ◌}
use pyaseba.Base.Dicts.{lookup}
use pyaseba.Base.Results.{Result, ok, err, out_of_fuel, assertion_error}
use pyaseba.Description.{Description}
use pyaseba.Node.State.{World, Action, ◌>>=◌, ◌>>◌}
use pyaseba.Node.Update.{
  locate, write_slice, write_change, change_part, change_round, change_loop, change_all, changes_of,
  stop_behind, set_changes, drop_ℤ, take_ℤ, min_ℤ, slice_end, is_zero,
}

module _ (vi : Dict ℕ (Text × ℕ)) where
  pub locate-absent :
      (i j : ℕ) → lookup (suc i) vi ≡ none → locate vi (suc i) j ≡ locate vi i (suc j)
  unfolding locate
  locate-absent i j e = ground (arith, e)

  pub locate-found :
      (i j : ℕ) (name : Text) (size : ℕ)
      → lookup (suc i) vi ≡ some (name, size)
      → locate vi (suc i) j ≡ some (suc i, j, name, size)
  unfolding locate
  locate-found i j name size e = ground (arith, e)

  locate-le :
      (i j s j' : ℕ) (name : Text) (size : ℕ) → locate vi i j ≡ some (s, j', name, size) → s ≤ i
  locate-le zero j s j' name size h = unfold locate in ground arith
  locate-le (suc i) j s j' name size h = elim (Option-cases (lookup (suc i) vi)) [
    | inl absent ↦
        let below = locate-le i (suc j) s j' name size (sym (locate-absent i j absent) ∙ h) in
        omega arith
    | inr ((name', size'), found) ↦
        let e = sym (locate-found i j name' size' found) ∙ h in ground (arith, e)
  ]

  -- From every index between the entry that is found and the start, the same entry is found.
  locate-within :
      (i j s j' : ℕ) (name : Text) (size : ℕ)
      → locate vi i j ≡ some (s, j', name, size)
      → (k q : ℕ) → s ≤ k
      → k ≤ i
      → locate vi k q ≡ some (s, q + (k - s), name, size)
  locate-within zero j s j' name size h zero q lo hi = unfold locate in ground arith
  locate-within zero j s j' name size h (suc k) q lo hi = absurd (omega arith)
  locate-within (suc i) j s j' name size h k q lo hi = elim (Option-cases (lookup (suc i) vi)) [
    | inl absent ↦
        let h' = sym (locate-absent i j absent) ∙ h in
        let below = locate-le i (suc j) s j' name size h' in
        elim (dec_lt i k) [
          | yes above ↦
              let k-eq : k ≡ suc i = omega arith in
              let e : suc q + (i - s) ≡ q + (suc i - s) = omega arith in
              rw k-eq (
                locate-absent i q absent
                ∙ (locate-within i (suc j) s j' name size h' i (suc q) below (omega arith)
                    ∙ ap (λ (d : ℕ). some (s, d, name, size)) e))
          | no inside ↦ locate-within i (suc j) s j' name size h' k q lo (omega arith)
        ]
    | inr ((name', size'), found) ↦
        let e = sym (locate-found i j name' size' found) ∙ h in
        let s-eq : s ≡ suc i = ground (arith, e) in
        let k-eq : k ≡ suc i = omega arith in
        let n-eq : name' ≡ name = ground (arith, e) in
        let z-eq : size' ≡ size = ground (arith, e) in
        let d-eq : q + (suc i - suc i) ≡ q = omega arith in
        rw (k-eq, s-eq, d-eq) (locate-found i q name' size' found ∙ cc (n-eq, z-eq))
  ]

write_change-fuel :
    (name : Text) (j : ℕ) (l : ℤ) (words : List ℤ) (w : World)
    → (write_change name j l words w).0 ≢ err out_of_fuel
unfolding write_change write_slice
write_change-fuel name j l words w = ground arith

module _ (fuel : ℕ) (vi : Dict ℕ (Text × ℕ)) (i : ℕ) (v : ℤ) (vs : List ℤ) (names : List Text)
    (w : World) where
  loop_lost :
      locate vi i 0 ≡ none → change_loop (suc fuel) vi i (v ∷ vs) names w ≡ (err assertion_error, w)
  unfolding change_loop
  loop_lost e = ap (λ o. change_round o (v ∷ vs) names (change_loop fuel vi) w) e

  pub loop_done :
      (s j : ℕ) (name : Text) (size : ℕ)
      → locate vi i 0 ≡ some (s, j, name, size)
      → is_zero (min_ℤ (pos size -ℤ pos j) (length (v ∷ vs))) ≡ true
      → change_loop (suc fuel) vi i (v ∷ vs) names w ≡ (ok names, w)
  unfolding change_loop
  loop_done s j name size e z =
      let l = min_ℤ (pos size -ℤ pos j) (length (v ∷ vs)) in
      ap (λ o. change_round o (v ∷ vs) names (change_loop fuel vi) w) e
      ∙ ap (λ b. change_part b s j name size l (v ∷ vs) names (change_loop fuel vi) w) z

  pub loop_round :
      (s j : ℕ) (name : Text) (size : ℕ)
      → locate vi i 0 ≡ some (s, j, name, size)
      → let l = min_ℤ (pos size -ℤ pos j) (length (v ∷ vs)) in
        is_zero l ≡ false
        → change_loop (suc fuel) vi i (v ∷ vs) names w
          ≡ (write_change name j l (take_ℤ l (v ∷ vs))
                >> change_loop fuel vi (s + size) (drop_ℤ l (v ∷ vs)) (names ++ name ∷ []))
              w
  unfolding change_loop
  loop_round s j name size e z =
      let l = min_ℤ (pos size -ℤ pos j) (length (v ∷ vs)) in
      ap (λ o. change_round o (v ∷ vs) names (change_loop fuel vi) w) e
      ∙ ap (λ b. change_part b s j name size l (v ∷ vs) names (change_loop fuel vi) w) z

-- A sequence of two parts neither of which runs out of fuel.
bind-fuel :
    {A B : Type 0} (m : Action A) (f : A → Action B) (w : World)
    → (m w).0 ≢ err out_of_fuel
    → ((a : A) (w' : World) → (f a w').0 ≢ err out_of_fuel)
    → ((m >>= f) w).0 ≢ err out_of_fuel
bind-fuel {A} {B} m f w h g = continue (m w) h
  where
    continue :
        (p : Result A × World)
        → p.0 ≢ err out_of_fuel
        → (let x : Result B × World = elim p.0 [ ok a ↦ f a p.1 | err e ↦ (err e, p.1) ] in x.0)
          ≢ err out_of_fuel
    continue (ok a, w') h' = g a w'
    continue (err e, w') h' = λ q. h' (ground arith)

length-rest :
    (size j : ℕ) (xs : List ℤ)
    → j < size
    → 0 < length xs
    → length (drop_ℤ (min_ℤ (pos size -ℤ pos j) (length xs)) xs) + 1 ≤ length xs
length-rest size j xs h p =
    let n = length xs in
    let e : min_ℤ (pos size -ℤ pos j) n ≡ pos (min (size - j) n) = ground arith in
    rw e (omega (arith, length-drop (min (min (size - j) n) n) xs))

length-drop-le : (l : ℤ) (xs : List ℤ) → length (drop_ℤ l xs) ≤ length xs
length-drop-le l xs = omega (arith, length-drop (slice_end (length xs) l) xs)

gap_end :
    (vi : Dict ℕ (Text × ℕ)) (i s j : ℕ) (name : Text) (size : ℕ)
    → locate vi i 0 ≡ some (s, j, name, size)
    → size ≤ j
    → locate vi (s + size) 0 ≡ some (s, size, name, size)
gap_end vi i s j name size h out =
    let below = locate-le vi i 0 s j name size h in
    let at = sym h ∙ locate-within vi i 0 s j name size h i 0 below (omega arith) in
    let j-eq : j ≡ 0 + (i - s) = ground (arith, at) in
    let e : 0 + (s + size - s) ≡ size = omega arith in
    locate-within vi i 0 s j name size h (s + size) 0 (omega arith) (omega arith)
    ∙ ap (λ (d : ℕ). some (s, d, name, size)) e

-- Behind a round that began between two variables, the loop ends at once.
after_gap :
    (fuel : ℕ) (vi : Dict ℕ (Text × ℕ)) (s size : ℕ) (name : Text) (vs : List ℤ) (names : List Text)
    (w : World)
    → locate vi (s + size) 0 ≡ some (s, size, name, size)
    → (change_loop (suc fuel) vi (s + size) vs names w).0 ≢ err out_of_fuel
after_gap fuel vi s size name [] names w h = unfold change_loop in ground arith
after_gap fuel vi s size name (v ∷ vs) names w h =
    let z : is_zero (min_ℤ (pos size -ℤ pos size) (length (v ∷ vs))) ≡ true = ground arith in
    rw (loop_done fuel vi (s + size) v vs names w s size name size h z) (ground arith)

-- The loop for one change does not run out of fuel.
change_loop-fuel :
    (fuel : ℕ) (vi : Dict ℕ (Text × ℕ)) (i : ℕ) (vs : List ℤ) (names : List Text) (w : World)
    → length vs + 2 ≤ fuel
    → (change_loop fuel vi i vs names w).0 ≢ err out_of_fuel
change_loop-fuel zero vi i vs names w h = absurd (omega arith)
change_loop-fuel (suc fuel) vi i [] names w h = unfold change_loop in ground arith
change_loop-fuel (suc zero) vi i (v ∷ vs) names w h = absurd (omega arith)
change_loop-fuel (suc (suc fuel)) vi i (v ∷ vs) names w h = elim (Option-cases (locate vi i 0)) [
  | inl lost ↦ rw (loop_lost (suc fuel) vi i v vs names w lost) (ground arith)
  | inr ((s, j, name, size), found) ↦
      let n = length (v ∷ vs) in
      let l = min_ℤ (pos size -ℤ pos j) n in
      elim (Bool-cases (is_zero l)) [
        | inl z ↦ rw (loop_done (suc fuel) vi i v vs names w s j name size found z) (ground arith)
        | inr z ↦ rw (loop_round (suc fuel) vi i v vs names w s j name size found z) (
            bind-fuel (write_change name j l (take_ℤ l (v ∷ vs)))
              (λ _. change_loop (suc fuel) vi (s + size) (drop_ℤ l (v ∷ vs)) (names ++ name ∷ [])) w
              (write_change-fuel name j l (take_ℤ l (v ∷ vs)) w)
              (λ _ w'. elim (dec_lt j size) [
                | yes inside ↦
                    change_loop-fuel (suc fuel) vi (s + size) (drop_ℤ l (v ∷ vs))
                      (names ++ name ∷ []) w'
                      (omega (arith, length-rest size j (v ∷ vs) inside (omega arith)))
                | no outside ↦
                    after_gap fuel vi s size name (drop_ℤ l (v ∷ vs)) (names ++ name ∷ []) w'
                      (gap_end vi i s j name size found (omega arith))
              ]))
      ]
]

stop_behind-fuel :
    (b : Bool) (names : List Text) (rest : Action (List Text)) (w : World)
    → (rest w).0 ≢ err out_of_fuel
    → (stop_behind b names rest w).0 ≢ err out_of_fuel
stop_behind-fuel true names rest w h = ground arith
stop_behind-fuel false names rest w h = h

change_all-fuel :
    (desc : Description) (changes : List (ℕ × List ℤ)) (names : List Text) (w : World)
    → (change_all desc changes names w).0 ≢ err out_of_fuel
unfolding change_all
change_all-fuel desc [] names w = ground arith
change_all-fuel desc ((i, vs) ∷ changes) names w =
    let loop = change_loop (2 * length vs + 2) desc.variables_by_index i vs names in
    let rest = λ (names' : List Text). change_all desc changes names' in
    stop_behind-fuel (ltb desc.variables_size i) names (loop >>= rest) w (
      bind-fuel loop rest w
        (change_loop-fuel (2 * length vs + 2) desc.variables_by_index i vs names w (omega arith))
        (λ names' w'. change_all-fuel desc changes names' w'))

changes_of-fuel :
    (description : Option Description) (changes : List (ℕ × List ℤ)) (w : World)
    → (changes_of description changes w).0 ≢ err out_of_fuel
changes_of-fuel none changes w = ground arith
changes_of-fuel (some desc) changes w = change_all-fuel desc changes [] w

-- `_set_changes` ends for every description and every list of changes: it returns the names of the
-- changed variables, or raises an exception of the program.
pub set_changes-fuel :
    (changes : List (ℕ × List ℤ)) (w : World) → (set_changes changes w).0 ≢ err out_of_fuel
unfolding set_changes
set_changes-fuel changes w = changes_of-fuel w.description changes w
