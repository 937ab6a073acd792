-- ===== src/Node/Memory/Touched.antt =====
-- The variables that a run of words at an address overlaps.
use pyaseba.Base.{
  ℕ, ◌+◌, ◌-◌, ◌≤◌, ◌<◌, ◌≡◌, refl, ap, Bool, ◌&&◌, List, [], ◌∷◌, arith, Text, nat_eq, Dict, inl,
  inr, ◌⊎◌, ltb, if◌then◌else◌,
}
use native.Mathlib.Decide.{dec_lt}
use pyaseba.Base.Dicts.{lookup-nil, lookup-cases}
use pyaseba.Node.Memory.Overlay.{part_length}
use pyaseba.Node.Memory.Layout.{Tiles, CoversAddress, end_of, le-end_of, covers_rest, lookup-le}

-- Whether `n` words at the address `i` overlap the variable of `size` words at `s`.
abbrev overlaps : ℕ → ℕ → ℕ → ℕ → Bool
overlaps s size i n = ltb 0 n && (ltb s (i + n) && ltb i (s + size))

-- The names of the variables that `n` words at the address `i` overlap, by their addresses.
unfoldable pub touched : Dict ℕ (Text × ℕ) → ℕ → ℕ → List Text
touched [] i n = []
touched ((s, (name, size)) ∷ vi) i n =
    let rest = touched vi i n in if overlaps s size i n then name ∷ rest else rest

pub touched-zero : (vi : Dict ℕ (Text × ℕ)) (i : ℕ) → touched vi i 0 ≡ []
unfolding touched
touched-zero [] i = refl
touched-zero ((s, (name, size)) ∷ vi) i = ground (arith, touched-zero vi i)

pub touched_behind :
    (a : ℕ) (vi : Dict ℕ (Text × ℕ)) (i n : ℕ) → Tiles a vi → end_of a vi ≤ i → touched vi i n ≡ []
unfolding touched
touched_behind a [] i n t h = refl
touched_behind a ((s, (name, size)) ∷ vi) i n t h =
    ground (arith, le-end_of (a + size) vi, touched_behind (a + size) vi i n t.3 h)

-- Behind the first `l` words only the others count.
touched-drop :
    (b : ℕ) (vi : Dict ℕ (Text × ℕ)) (i n c l : ℕ)
    → Tiles b vi
    → i ≤ c
    → c ≤ b
    → l ≤ n
    → (c ≡ i + l) ⊎ ((n ≡ l) × (i + n ≤ c))
    → touched vi i n ≡ touched vi c (n - l)
unfolding touched
touched-drop b [] i n c l t h h' k e = refl
touched-drop b ((s, (name, size)) ∷ vi) i n c l t h h' k (inl e) =
    ground (arith, touched-drop (b + size) vi i n c l t.3 h (omega arith) k (inl e))
touched-drop b ((s, (name, size)) ∷ vi) i n c l t h h' k (inr e) =
    ground (arith, touched-drop (b + size) vi i n c l t.3 h (omega arith) k (inr e))

-- A round goes to the end of its variable, or to the end of the words.
pub part_cases :
    (s i size n : ℕ)
    → s ≤ i
    → i < s + size
    → let l = part_length size (i - s) n in
      (l ≤ n) × ((s + size ≡ i + l) ⊎ ((n ≡ l) × (i + n ≤ s + size)))
unfolding part_length
part_cases s i size n h k = elim (dec_lt n (size - (i - s))) [
  | yes short ↦ (omega arith, inr (omega arith, omega arith))
  | no long ↦ (omega arith, inl (omega arith))
]

-- A round takes the first of them.
pub touched-round :
    (a : ℕ) (vi : Dict ℕ (Text × ℕ)) (i s : ℕ) (name : Text) (size n : ℕ)
    → Tiles a vi
    → CoversAddress vi i s name size
    → 0 < n
    → touched vi i n ≡ name ∷ touched vi (s + size) (n - part_length size (i - s) n)
unfolding touched
touched-round a [] i s name size n t c h = cc (lookup-nil {V = Text × ℕ} s, c.found)
touched-round a ((s', (name', size')) ∷ vi) i s name size n t c h =
    elim (lookup-cases s (name, size) s' (name', size') vi c.found) [
      | inl (at, same) ↦
          let n-eq = ap (λ (e : Text × ℕ). e.0) same in
          let z-eq = ap (λ (e : Text × ℕ). e.1) same in
          let cases = part_cases s i size n c.from c.to in
          ground (
            arith,
            c.from,
            c.to,
            touched-drop (a + size') vi i n (s + size) (part_length size (i - s) n) t.3
                (omega (arith, c.to)) (omega arith) cases.0 cases.1,
          )
      | inr rest ↦
          let above = lookup-le (a + size') vi s (name, size) t.3 rest in
          let c' = covers_rest s' (name', size') vi i s name size (omega arith) c in
          ground (arith, c.from, c.to, touched-round (a + size') vi i s name size n t.3 c' h)
    ]
