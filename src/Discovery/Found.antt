-- ===== src/Discovery/Found.antt =====
-- What the listener adds, and when `discover` ends.
use pyaseba.Base.{
  ℕ, zero, suc, ◌+◌, ◌≤◌, ◌≡◌, ◌≢◌, refl, ◌∙◌, ap, false, Bool-cases, ◌⊎◌, inl, inr, some, List, [],
  ◌∷◌, Text, text, text_eq, ◌==◌, ==_refl, Dict, if◌then◌else◌, arith, length, ltb, ◌=ℕ◌, ◌/◌, ◌%◌,
}
use pyaseba.Base.Texts.{decimal, decimal_loop, join}
use pyaseba.Base.Numerals.{is_digit}
use pyaseba.Base.Dicts.{lookup, NodupKeys}
use pyaseba.Base.Results.{ok}
use pyaseba.Targets.{get_target_protocol, get_target_parameters}
use pyaseba.Targets.Split.{Lacks, ParametersArePlain, format_target, get_target_parameters-format}
use pyaseba.Discovery.{
  ServiceInfo, kind_of, loopbacks, address_of, target_of, add_target, add_at, add_service,
  wait_loop, discover,
}

decimal_loop-Lacks :
    (sep fuel n : ℕ) (rest : Text)
    → is_digit sep ≡ false
    → Lacks sep rest
    → Lacks sep (decimal_loop fuel n rest)
unfolding decimal_loop
decimal_loop-Lacks sep zero n rest h k = k
decimal_loop-Lacks sep (suc fuel) n rest h k =
    let digit : (b'0' + n % 10) ≢ sep = (λ e. ground (arith, e, h)) in
    let ih = decimal_loop-Lacks sep fuel (n / 10) ((b'0' + n % 10) ∷ rest) h (digit, k) in
    elim (Bool-cases (n / 10 =ℕ 0)) [ inl single ↦ rw single (digit, k) | inr more ↦ rw more ih ]

decimal-Lacks : (sep n : ℕ) → is_digit sep ≡ false → Lacks sep (decimal n)
unfolding decimal
decimal-Lacks sep n h = decimal_loop-Lacks sep (suc n) n [] h tt

abbrev parameters : Text → ℕ → Dict Text Text
parameters address port = (text "host", address) ∷ (text "port", decimal port) ∷ []

parameters_plain :
    (address : Text) (port : ℕ)
    → Lacks b'=' address × Lacks b';' address × Lacks b':' address
    → ParametersArePlain (parameters address port)
parameters_plain address port h = (
  (omega arith, h.0, omega arith, h.1, omega arith, h.2),
  (
    (
      omega arith,
      decimal-Lacks b'=' port refl,
      omega arith,
      decimal-Lacks b';' port refl,
      omega arith,
      decimal-Lacks b':' port refl,
    ),
    tt,
  ),
)

parameters_distinct : (address : Text) (port : ℕ) → NodupKeys (parameters address port)
unfolding lookup text_eq
parameters_distinct address port = (refl, (refl, tt))

target_of-format :
    (address : Text) (port : ℕ)
    → target_of address port ≡ format_target (text "tcp") (parameters address port)
unfolding target_of join
target_of-format address port = refl

-- For a service of the type `Thymio II` with an address, the listener adds one target, whose
-- protocol is `tcp` and whose parameters are read back as the chosen address and the port, if the
-- address holds none of `=`, `;` and `:`.
add_service-format :
    (info : ServiceInfo) (targets : List Text) (address : Text)
    → info.kind ≡ some (text "Thymio II")
    → address_of (loopbacks info.addresses) info.addresses ≡ some address
    → Lacks b'=' address × Lacks b';' address × Lacks b':' address
    → let target = target_of address info.port in
      (add_service (some info) targets ≡ ok (add_target target targets))
      × (get_target_protocol target ≡ text "tcp")
      × (get_target_parameters target
          ≡ (text "host", address) ∷ (text "port", decimal info.port) ∷ [])
unfolding add_service
add_service-format info targets address h k plain =
    let added = add_at (address_of (loopbacks info.addresses) info.addresses) info.port targets in
    let read =
      get_target_parameters-format (text "tcp") (parameters address info.port) (omega arith)
        (parameters_plain address info.port plain) (parameters_distinct address info.port) in
    let same = target_of-format address info.port in
    (
      ap (λ o. if kind_of o == text "Thymio II" then added else ok targets) h
          ∙ (ap (λ b. if b then added else ok targets) (==_refl (text "Thymio II"))
              ∙ ap (λ o. add_at o info.port targets) k),
      ap get_target_protocol same ∙ read.0,
      ap get_target_parameters same ∙ read.1,
    )

module _ (found : ℕ → List Text) (min_number : ℕ) where
  wait_loop_lem :
      (i k : ℕ)
      → let n = wait_loop found min_number i k in
        (n ≤ i + k) × ((n ≡ i + k) ⊎ (min_number ≤ length (found n)))
  unfolding wait_loop
  wait_loop_lem zero k = (omega arith, inl (omega arith))
  wait_loop_lem (suc i) k =
      let ih = wait_loop_lem i (suc k) in
      elim (Bool-cases (ltb (length (found k)) min_number)) [
        | inl fewer ↦
            rw fewer (omega (arith, ih.0), ended i k (wait_loop found min_number i (suc k)) ih.1)
        | inr enough ↦ rw enough (omega arith, inr (ground arith))
      ]
    where
      ended :
          (i k n : ℕ)
          → (n ≡ i + suc k) ⊎ (min_number ≤ length (found n))
          → (n ≡ suc i + k) ⊎ (min_number ≤ length (found n))
      ended i k n (inl all) = inl (omega arith)
      ended i k n (inr many) = inr many

  -- `discover` ends behind at most as many pauses as the timeout allows; it returns what was found
  -- by then, which are as many targets as were asked for, unless the time was up.
  pub discover-wait_loop :
      (steps : ℕ)
      → let n = wait_loop found min_number steps 0 in
        (discover found min_number steps ≡ found n)
        × (n ≤ steps)
        × ((n ≡ steps) ⊎ (min_number ≤ length (discover found min_number steps)))
  unfolding discover
  discover-wait_loop steps =
      let (few, ended) = wait_loop_lem steps 0 in
      (refl, omega arith, elim ended [ inl all ↦ inl (omega arith) | inr many ↦ inr many ])
