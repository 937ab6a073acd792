-- ===== src/ClientAsync/Retries.antt =====
-- The attempts of `ClientAsync.connect`, for any answers.
use pyaseba.Base.{
  ℕ, zero, suc, ◌<◌, ◌≤◌, ◌≡◌, refl, ◌∙◌, ap, Bool, true, false, List, [], ◌∷◌, ◌++◌, arith, Text,
  pos, if◌then◌else◌,
}
use mathlib.Core.List.{append_assoc}
use pyaseba.ClientAsync.{Effect, attempt, sleep, start, connect_loop, finish, connect}

module _ (answer : List Effect → ℕ) (target : Text) (wait_ms : ℕ) where
  -- Attempts that fail, each followed by a pause.
  abbrev pub failures : ℕ → List Effect
  failures zero = []
  failures (suc k) = attempt target ∷ sleep wait_ms ∷ failures k

  -- The history in which the attempt behind `k` failures is answered.
  abbrev pub tried : List Effect → ℕ → List Effect
  tried done k = done ++ (failures k ++ attempt target ∷ [])

  abbrev was_late : ℕ → Bool → Bool
  was_late zero failed = failed
  was_late (suc k) failed = true

  pause_assoc :
      (done rest : List Effect)
      → ((done ++ attempt target ∷ []) ++ sleep wait_ms ∷ []) ++ rest
        ≡ done ++ (attempt target ∷ sleep wait_ms ∷ rest)
  pause_assoc [] rest = refl
  pause_assoc (e ∷ done) rest = ap (λ es. e ∷ es) (pause_assoc done rest)

  loop_zero :
      (n c : ℕ) (failed : Bool) (done : List Effect)
      → answer (done ++ attempt target ∷ []) ≡ suc c
      → connect_loop answer target wait_ms n failed done
        ≡ (suc c, failed, done ++ attempt target ∷ [])
  unfolding connect_loop
  loop_zero zero c failed done h = rw (h, connect_loop) refl
  loop_zero (suc n) c failed done h = rw (h, connect_loop) refl

  loop_suc :
      (n : ℕ) (failed : Bool) (done : List Effect)
      → answer (done ++ attempt target ∷ []) ≡ zero
      → connect_loop answer target wait_ms (suc n) failed done
        ≡ connect_loop answer target wait_ms n true
            ((done ++ attempt target ∷ []) ++ sleep wait_ms ∷ [])
  unfolding connect_loop
  loop_suc n failed done h = rw (h, connect_loop) refl

  loop_last :
      (failed : Bool) (done : List Effect)
      → answer (done ++ attempt target ∷ []) ≡ zero
      → connect_loop answer target wait_ms zero failed done
        ≡ (0, true, (done ++ attempt target ∷ []) ++ sleep wait_ms ∷ [])
  unfolding connect_loop
  loop_last failed done h = rw (h, connect_loop) refl

  loop_succeeds :
      (k n c : ℕ) (failed : Bool) (done : List Effect)
      → k ≤ n
      → ((j : ℕ) → j < k → answer (tried done j) ≡ zero)
      → answer (tried done k) ≡ suc c
      → connect_loop answer target wait_ms n failed done ≡ (suc c, was_late k failed, tried done k)
  loop_succeeds zero n c failed done le before h = loop_zero n c failed done h
  loop_succeeds (suc k) zero c failed done le before h = ground arith
  loop_succeeds (suc k) (suc n) c failed done le before h =
      let done' = (done ++ attempt target ∷ []) ++ sleep wait_ms ∷ [] in
      let shift : (j : ℕ) → tried done' j ≡ tried done (suc j) =
        λ j. pause_assoc done (failures j ++ attempt target ∷ []) in
      let late : was_late k true ≡ true = elim k as (λ k'. was_late k' true ≡ true) [
        | zero ↦ refl
        | suc _ ↦ refl
      ] in
      loop_suc n failed done (before 0 (omega arith))
      ∙ loop_succeeds k n c true done' (omega arith)
          (λ j l. ap answer (shift j) ∙ before (suc j) (omega arith)) (ap answer (shift k) ∙ h)
      ∙ ap (λ b. (suc c, b, tried done' k)) late
      ∙ ap (λ es. (suc c, true, es)) (shift k)

  loop_fails :
      (n : ℕ) (failed : Bool) (done : List Effect)
      → ((j : ℕ) → j ≤ n → answer (tried done j) ≡ zero)
      → connect_loop answer target wait_ms n failed done ≡ (0, true, done ++ failures (suc n))
  loop_fails zero failed done before =
      loop_last failed done (before 0 (omega arith))
      ∙ ap (λ es. (0, true, es)) (append_assoc done (attempt target ∷ []) (sleep wait_ms ∷ []))
  loop_fails (suc n) failed done before =
      let done' = (done ++ attempt target ∷ []) ++ sleep wait_ms ∷ [] in
      loop_suc n failed done (before 0 (omega arith))
      ∙ loop_fails n true done' (λ j l.
        ap answer (pause_assoc done (failures j ++ attempt target ∷ []))
        ∙ before (suc j) (omega arith))
      ∙ ap (λ es. (0, true, es)) (pause_assoc done (failures (suc n)))

  pub connect_succeeds :
      (k n c : ℕ)
      → k ≤ n
      → ((j : ℕ) → j < k → answer (failures j ++ attempt target ∷ []) ≡ zero)
      → answer (failures k ++ attempt target ∷ []) ≡ suc c
      → connect answer target wait_ms (pos n) ≡ (
        suc c,
        (failures k ++ attempt target ∷ [])
            ++ ((if was_late k false then sleep 1000 ∷ [] else []) ++ start ∷ []),
      )
  unfolding connect finish
  connect_succeeds k n c le before h = ap finish (loop_succeeds k n c false [] le before h)

  pub connect_fails :
      (n : ℕ)
      → ((j : ℕ) → j ≤ n → answer (failures j ++ attempt target ∷ []) ≡ zero)
      → connect answer target wait_ms (pos n) ≡ (0, failures (suc n))
  unfolding connect finish
  connect_fails n before = ap finish (loop_fails n false [] before)
