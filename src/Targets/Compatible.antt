-- ===== src/Targets/Compatible.antt =====
-- `are_targets_compatible` against the relation that it decides.
use pyaseba.Base.{
  ◌≡◌, refl, sym, ◌↔◌, true, Option, none, some, List, [], ◌∷◌, arith, Text, text_eq, Dict,
  contains, Bool-eq_of_iff,
}
use pyaseba.Base.Dicts.{lookup, keys, contains-keys}
use pyaseba.Targets.{
  get_target_protocol, get_target_parameters, agree, agree_on, are_targets_compatible,
}

-- The two targets have the same protocol, and no parameter has two different values in them.
pub record Overlap (target other : Text) : Type 0 where
  pub protocols : get_target_protocol target ≡ get_target_protocol other
  pub parameters :
      (key v w : Text)
      → lookup key (get_target_parameters target) ≡ some v
      → lookup key (get_target_parameters other) ≡ some w
      → v ≡ w

agree_on_sound :
    (ks : List Text) (p q : Dict Text Text) (key : Text)
    → agree_on ks p q ≡ true
    → contains ks key ≡ true
    → agree (lookup key p) (lookup key q) ≡ true
unfolding agree_on
agree_on_sound [] p q key h m = cc
agree_on_sound (k ∷ ks) p q key h m = ground (arith, agree_on_sound ks p q key)

agree_on_complete :
    (ks : List Text) (p q : Dict Text Text)
    → ((key : Text) → agree (lookup key p) (lookup key q) ≡ true)
    → agree_on ks p q ≡ true
unfolding agree_on
agree_on_complete [] p q h = refl
agree_on_complete (k ∷ ks) p q h = ground (arith, h k, agree_on_complete ks p q h)

agree_of_eq :
    (o u : Option Text) → ((v w : Text) → o ≡ some v → u ≡ some w → v ≡ w) → agree o u ≡ true
agree_of_eq none u h = refl
agree_of_eq (some v) none h = refl
agree_of_eq (some v) (some w) h = ground (arith, h v w refl refl)

-- The test is true exactly for targets that overlap.
pub are_targets_compatible_iff :
    (target other : Text) → (are_targets_compatible target other ≡ true) ↔ Overlap target other
unfolding are_targets_compatible
are_targets_compatible_iff target other = (sound, complete)
  where
    sound : are_targets_compatible target other ≡ true → Overlap target other
    sound h = record {
      protocols = ground arith;
      parameters = λ key v w ep eq.
          let p = get_target_parameters target in
          let q = get_target_parameters other in
          ground (arith, contains-keys key p, agree_on_sound (keys p) p q key);
    }

    complete : Overlap target other → are_targets_compatible target other ≡ true
    complete h =
        let p = get_target_parameters target in
        let q = get_target_parameters other in
        ground (
          arith,
          h.protocols,
          agree_on_complete (keys p) p q
              (λ key. agree_of_eq (lookup key p) (lookup key q) (h.parameters key)),
        )

Overlap-symm : (target other : Text) → Overlap target other → Overlap other target
Overlap-symm target other h = record {
  protocols = sym h.protocols;
  parameters = λ key v w ep eq. sym (h.parameters key w v eq ep);
}

Overlap-refl : (target : Text) → Overlap target target
Overlap-refl target = record { protocols = refl; parameters = λ key v w ep eq. ground arith }

-- The test does not depend on the order of the two targets, and holds of a target and itself.
pub are_targets_compatible_comm :
    (target other : Text)
    → (are_targets_compatible target other ≡ are_targets_compatible other target)
      × (are_targets_compatible target target ≡ true)
are_targets_compatible_comm target other =
    let there = are_targets_compatible_iff target other in
    let back = are_targets_compatible_iff other target in
    (
      Bool-eq_of_iff (are_targets_compatible target other) (are_targets_compatible other target)
          (λ h. back.1 (Overlap-symm target other (there.0 h)))
          (λ h. there.1 (Overlap-symm other target (back.0 h))),
      (are_targets_compatible_iff target target).1 (Overlap-refl target),
    )
