-- ===== src/Node/Memory/Layout.antt =====
-- Variables that lie one behind the other, and which of them an address belongs to.
use pyaseba.Base.{
  ℕ, zero, suc, ◌+◌, ◌-◌, ◌≤◌, ◌<◌, ◌≡◌, ◌≢◌, refl, sym, ◌∙◌, ap, true, false, none, some, List, [],
  ◌∷◌, arith, Text, text_eq, nat_eq, Dict, contains, inl, inr, ◌⊎◌, Option-cases,
}
use native.Mathlib.Decide.{dec_lt}
use pyaseba.Base.Dicts.{lookup, lookup-nil, lookup-cases}
use pyaseba.Node.Update.{locate}
use pyaseba.Node.Changes.{locate-absent, locate-found}

abbrev pub names_of : Dict ℕ (Text × ℕ) → List Text
names_of [] = []
names_of ((_, (name, _)) ∷ vi) = name ∷ names_of vi

-- The variables of `vi` have distinct names and at least one word each, and lie one behind
-- the other from the address `a` on.
abbrev pub Tiles : ℕ → Dict ℕ (Text × ℕ) → Type 0
Tiles a [] = Unit
Tiles a ((s, (name, size)) ∷ vi) =
    (s ≡ a) × (0 < size) × (contains (names_of vi) name ≡ false) × Tiles (a + size) vi

-- The address behind the last variable.
abbrev pub end_of : ℕ → Dict ℕ (Text × ℕ) → ℕ
end_of a [] = a
end_of a ((_, (_, size)) ∷ vi) = end_of (a + size) vi

pub le-end_of : (a : ℕ) (vi : Dict ℕ (Text × ℕ)) → a ≤ end_of a vi
le-end_of a [] = omega arith
le-end_of a ((s, (name, size)) ∷ vi) = omega (arith, le-end_of (a + size) vi)

-- Nothing begins in front of the first variable.
lookup_below : (a : ℕ) (vi : Dict ℕ (Text × ℕ)) (k : ℕ) → Tiles a vi → k < a → lookup k vi ≡ none
unfolding lookup
lookup_below a [] k t h = refl
lookup_below a ((s, (name, size)) ∷ vi) k t h =
    ground (arith, lookup_below (a + size) vi k t.3 (omega arith))

pub lookup_head :
    (a : ℕ) (e : Text × ℕ) (vi : Dict ℕ (Text × ℕ)) (k : ℕ)
    → k ≢ a
    → lookup k ((a, e) ∷ vi) ≡ lookup k vi
unfolding lookup
lookup_head a e vi k h = ground arith

pub lookup_first : (a : ℕ) (e : Text × ℕ) (vi : Dict ℕ (Text × ℕ)) → lookup a ((a, e) ∷ vi) ≡ some e
unfolding lookup
lookup_first a e vi = ground arith

-- The variable of an address: it begins at `s`, and no other begins inside it.
pub record CoversAddress (vi : Dict ℕ (Text × ℕ)) (i s : ℕ) (name : Text) (size : ℕ) : Type 0 where
  pub found : lookup s vi ≡ some (name, size)
  pub from : s ≤ i
  pub to : i < s + size
  pub alone : (k : ℕ) → s < k → k < s + size → lookup k vi ≡ none

-- A variable at the head, with its address named as the tiling has it.
pub covers_head :
    (a : ℕ) (name : Text) (size : ℕ) (vi : Dict ℕ (Text × ℕ)) (i : ℕ)
    → Tiles (a + size) vi
    → a ≤ i
    → i < a + size
    → CoversAddress ((a, (name, size)) ∷ vi) i a name size
covers_head a name size vi i t lo hi = record {
  found = lookup_first a (name, size) vi;
  from = lo;
  to = hi;
  alone = λ k above below.
      lookup_head a (name, size) vi k (λ e. omega arith) ∙ lookup_below (a + size) vi k t below;
}

pub covers_tail :
    (a : ℕ) (e : Text × ℕ) (vi : Dict ℕ (Text × ℕ)) (i s : ℕ) (name : Text) (size : ℕ)
    → a < s
    → CoversAddress vi i s name size
    → CoversAddress ((a, e) ∷ vi) i s name size
covers_tail a e vi i s name size h c = record {
  found = lookup_head a e vi s (λ q. omega arith) ∙ c.found;
  from = c.from;
  to = c.to;
  alone = λ k above below. lookup_head a e vi k (λ q. omega arith) ∙ c.alone k above below;
}

pub covers_rest :
    (a : ℕ) (e : Text × ℕ) (vi : Dict ℕ (Text × ℕ)) (i s : ℕ) (name : Text) (size : ℕ)
    → a < s
    → CoversAddress ((a, e) ∷ vi) i s name size
    → CoversAddress vi i s name size
covers_rest a e vi i s name size h c = record {
  found = sym (lookup_head a e vi s (λ q. omega arith)) ∙ c.found;
  from = c.from;
  to = c.to;
  alone = λ k above below. sym (lookup_head a e vi k (λ q. omega arith)) ∙ c.alone k above below;
}

-- A variable does not begin in front of the first one.
pub lookup-le :
    (a : ℕ) (vi : Dict ℕ (Text × ℕ)) (s : ℕ) (e : Text × ℕ)
    → Tiles a vi
    → lookup s vi ≡ some e
    → a ≤ s
lookup-le a vi s e t h = elim (dec_lt s a) [
  | yes below ↦ cc (lookup_below a vi s t below)
  | no above ↦ omega arith
]

pub covers :
    (a : ℕ) (vi : Dict ℕ (Text × ℕ)) (i : ℕ)
    → Tiles a vi
    → a ≤ i
    → i < end_of a vi
    → (s : ℕ) × (name : Text) × (size : ℕ) × CoversAddress vi i s name size
covers a [] i t lo hi = absurd (omega arith)
covers a ((s, (name, size)) ∷ vi) i t lo hi = elim (dec_lt i (a + size)) [
  | yes inside ↦ (a, name, size, rw t.0 (covers_head a name size vi i t.3 lo inside))
  | no outside ↦
      let (s', name', size', c) = covers (a + size) vi i t.3 (omega arith) hi in
      let above = lookup-le (a + size) vi s' (name', size') t.3 c.found in
      (s', name', size', rw t.0 (covers_tail a (name, size) vi i s' name' size' (omega arith) c))
]

-- What the address at which a variable begins says of it.
pub covers_self :
    (a : ℕ) (vi : Dict ℕ (Text × ℕ)) (s : ℕ) (name : Text) (size : ℕ)
    → Tiles a vi
    → lookup s vi ≡ some (name, size)
    → CoversAddress vi s s name size × (s + size ≤ end_of a vi)
covers_self a [] s name size t h = cc (lookup-nil {V = Text × ℕ} s)
covers_self a ((s', (name', size')) ∷ vi) s name size t h =
    elim (lookup-cases s (name, size) s' (name', size') vi h) [
      | inl (at, same) ↦
          let n-eq : name ≡ name' = ap (λ (e : Text × ℕ). e.0) same in
          let z-eq : size ≡ size' = ap (λ (e : Text × ℕ). e.1) same in
          rw (at, t.0, n-eq, z-eq)
            (
              covers_head a name' size' vi a t.3 (omega arith) (omega arith),
              le-end_of (a + size') vi,
            )
      | inr rest ↦
          let (c, below) = covers_self (a + size') vi s name size t.3 rest in
          let above = lookup-le (a + size') vi s (name, size) t.3 rest in
          rw t.0 (covers_tail a (name', size') vi s s name size (omega arith) c, below)
    ]

-- The search of `_set_changes` finds the variable of an address.
pub locate-CoversAddress :
    (vi : Dict ℕ (Text × ℕ)) (i s : ℕ) (name : Text) (size : ℕ)
    → CoversAddress vi i s name size
    → (j : ℕ) → locate vi i j ≡ some (s, j + (i - s), name, size)
locate-CoversAddress vi zero s name size c j =
    let e : s ≡ 0 = omega (arith, c.from) in
    let found : lookup 0 vi ≡ some (name, size) = rw (← e) c.found in
    let d : j + (0 - 0) ≡ j = omega arith in rw (e, d) (unfold locate in ground (arith, found))
locate-CoversAddress vi (suc i) s name size c j = elim (dec_lt i s) [
  | yes here ↦
      let e : s ≡ suc i = omega (arith, c.from) in
      let found : lookup (suc i) vi ≡ some (name, size) = rw (← e) c.found in
      let d : j + (suc i - suc i) ≡ j = omega arith in
      rw (e, d) (locate-found vi i j name size found)
  | no below ↦
      let d : suc j + (i - s) ≡ j + (suc i - s) = omega arith in
      locate-absent vi i j (c.alone (suc i) (omega arith) c.to)
      ∙ rw (← d) (locate-CoversAddress vi i s name size (within below) (suc j))
]
  where
    within : ¬ (i < s) → CoversAddress vi i s name size
    within below = record {
      found = c.found;
      from = omega arith;
      to = omega (arith, c.to);
      alone = c.alone;
    }

-- Two variables do not overlap.
pub CoversAddress-apart :
    (vi : Dict ℕ (Text × ℕ)) (i s : ℕ) (name : Text) (size : ℕ) (a q : ℕ) (other : Text) (n : ℕ)
    → Tiles a vi
    → CoversAddress vi i s name size
    → lookup q vi ≡ some (other, n)
    → q ≢ s
    → (q + n ≤ s) ⊎ (s + size ≤ q)
CoversAddress-apart vi i s name size a q other n t c h ne =
    let itself = covers_self a vi q other n t h in
    elim (dec_lt q s) [
      | yes before ↦ elim (dec_lt s (q + n)) [
        | yes overlap ↦ absurd (not_both s (name, size) (itself.0.alone s before overlap) c.found)
        | no clear ↦ inl (omega arith)
      ]
      | no behind ↦ elim (dec_lt q (s + size)) [
        | yes overlap ↦ absurd (not_both q (other, n) (c.alone q (omega arith) overlap) h)
        | no clear ↦ inr (omega arith)
      ]
    ]
  where
    not_both : (k : ℕ) (e : Text × ℕ) → lookup k vi ≡ none → lookup k vi ≡ some e → ⊥
    not_both k e p p' = cc

contains-names_of :
    (vi : Dict ℕ (Text × ℕ)) (s : ℕ) (name : Text) (size : ℕ)
    → lookup s vi ≡ some (name, size)
    → contains (names_of vi) name ≡ true
contains-names_of [] s name size h = cc (lookup-nil {V = Text × ℕ} s)
contains-names_of ((s', (name', size')) ∷ vi) s name size h =
    elim (lookup-cases s (name, size) s' (name', size') vi h) [
      | inl (at, same) ↦ ground (arith, ap (λ (e : Text × ℕ). e.0) same)
      | inr rest ↦ ground (arith, contains-names_of vi s name size rest)
    ]

-- A name belongs to one variable.
pub Tiles-names :
    (a : ℕ) (vi : Dict ℕ (Text × ℕ)) (s q : ℕ) (name : Text) (size n : ℕ)
    → Tiles a vi
    → lookup s vi ≡ some (name, size)
    → lookup q vi ≡ some (name, n)
    → s ≡ q
Tiles-names a [] s q name size n t h k = cc (lookup-nil {V = Text × ℕ} s)
Tiles-names a ((s', (name', size')) ∷ vi) s q name size n t h k =
    elim (lookup-cases s (name, size) s' (name', size') vi h) [
      | inl (at, same) ↦ elim (lookup-cases q (name, n) s' (name', size') vi k) [
        | inl (at', same') ↦ omega arith
        | inr rest ↦
            let e = ap (λ (e : Text × ℕ). e.0) same in cc (contains-names_of vi q name n rest, t.2)
      ]
      | inr rest ↦ elim (lookup-cases q (name, n) s' (name', size') vi k) [
        | inl (at', same') ↦
            let e = ap (λ (e : Text × ℕ). e.0) same' in
            cc (contains-names_of vi s name size rest, t.2)
        | inr rest' ↦ Tiles-names (a + size') vi s q name size n t.3 rest rest'
      ]
    ]

lookup_end : (a : ℕ) (vi : Dict ℕ (Text × ℕ)) → Tiles a vi → lookup (end_of a vi) vi ≡ none
lookup_end a vi t = elim (Option-cases (lookup (end_of a vi) vi)) [
  | inl absent ↦ absent
  | inr ((name, size), found) ↦
      let (c, below) = covers_self a vi (end_of a vi) name size t found in
      absurd (omega (arith, c.to))
]

-- At the end of the memory the search finds the last variable, past its last word.
pub locate_end :
    (a : ℕ) (vi : Dict ℕ (Text × ℕ))
    → Tiles a vi
    → a < end_of a vi
    → (s : ℕ) × (name : Text) × (size : ℕ) × (locate vi (end_of a vi) 0
        ≡ some (s, size, name, size))
locate_end a vi t h =
    let last = end_of a vi - 1 in
    let (s, name, size, c) = covers a vi last t (omega arith) (omega arith) in
    let itself = covers_self a vi s name size t c.found in
    let e : end_of a vi ≡ suc last = omega arith in
    let absent : lookup (suc last) vi ≡ none = rw (← e) (lookup_end a vi t) in
    let d : 1 + (last - s) ≡ size = omega (arith, itself.1, c.from, c.to) in
    (
      s,
      name,
      size,
      ap (λ k. locate vi k 0) e
          ∙ (locate-absent vi last 0 absent
              ∙ (locate-CoversAddress vi last s name size c 1
                  ∙ ap (λ (k : ℕ). some (s, k, name, size)) d)),
    )
