-- ===== src/Mirroring/Slices.antt =====
-- The intervals of the argument buffer that a generated call passes to a native function.
use pyaseba.Base.{
  ℕ, zero, suc, ◌+◌, ◌-◌, ◌<◌, ◌≡◌, refl, sym, ap, ◌∙◌, some, List, [], ◌∷◌, ◌++◌, map, length,
  length-append, take, drop, arith, Text, text_eq, ℤ, pos, sum,
}
use mathlib.Core.Path.{ap₂}
use mathlib.Core.List.{append_assoc}
use pyaseba.Base.Int.{◌+ℤ◌, ◌-ℤ◌}
use pyaseba.Base.Dicts.{lookup, lookup-insert_self}
use pyaseba.Mirroring.{Mirroring, sum_ℤ, add_function, function_event}
use pyaseba.Mirroring.Code.{argument_slices}

-- The numbers from `i` on, `n` of them.
abbrev pub span : ℕ → ℕ → List ℕ
span i zero = []
span i (suc n) = i ∷ span (suc i) n

-- The positions of the Aseba slice `[first:last]`, whose two ends belong to it.
abbrev pub positions : ℤ × ℤ → List ℕ
positions (pos first, pos last) = span first (suc last - first)
positions _ = []

abbrev pub all_positions : List (ℤ × ℤ) → List ℕ
all_positions [] = []
all_positions (slice ∷ slices) = positions slice ++ all_positions slices

span-append : (i a b : ℕ) → span i a ++ span (i + a) b ≡ span i (a + b)
span-append i zero b =
    let e : i + 0 ≡ i = omega arith in let e' : 0 + b ≡ b = omega arith in rw (e, e')
span-append i (suc a) b =
    let e : suc i + a ≡ i + suc a = omega arith in
    let e' : suc a + b ≡ suc (a + b) = omega arith in
    rw e' (rw (← e) (ap (λ r. i ∷ r) (span-append (suc i) a b)))

slice_parts :
    (i n : ℕ) → 0 < i → (pos i +ℤ pos n -ℤ pos 1 ≡ pos (i + n - 1)) × (pos i +ℤ pos n ≡ pos (i + n))
slice_parts i n h = (ground arith, ground arith)

-- The slices of a call whose arguments have natural sizes, one behind the other, are exactly the
-- buffer's positions from the first one on, as many as the sizes have together: no word is skipped
-- and none belongs to two arguments.
pub argument_slices-positions :
    (i : ℕ) (ns : List ℕ)
    → 0 < i
    → all_positions (argument_slices (pos i) (map pos ns)) ≡ span i (sum ns)
unfolding argument_slices
argument_slices-positions i [] h = refl
argument_slices-positions i (n ∷ ns) h =
    let parts = slice_parts i n h in
    let e : suc (i + n - 1) - i ≡ n = omega arith in
    rw (parts.0, parts.1)
      (rw e (
        ap (λ r. span i n ++ r) (argument_slices-positions (i + n) ns (omega arith))
        ∙ span-append i n (sum ns)))

sum_ℤ-pos : (ns : List ℕ) → sum_ℤ (map pos ns) ≡ pos (sum ns)
sum_ℤ-pos [] = refl
sum_ℤ-pos (n ∷ ns) = rw (sum_ℤ-pos ns) (ground arith)

pub add_function-code_events :
    (name : Text) (ns : List ℕ) (m : Mirroring)
    → (lookup (function_event name) (add_function name (map pos ns) m).code_events
        ≡ some (pos (sum ns)))
      × (all_positions (argument_slices (pos 1) (map pos ns)) ≡ span 1 (sum ns))
unfolding add_function
add_function-code_events name ns m = (
  rw (sum_ℤ-pos ns) (lookup-insert_self (function_event name) (pos (sum ns)) m.code_events),
  argument_slices-positions 1 ns (omega arith),
)

-- The words that an Aseba slice `[first:last]` takes of a buffer, its two ends included.
abbrev pub cut : List ℤ → ℤ × ℤ → List ℤ
cut words (pos first, pos last) = take (suc last - first) (drop first words)
cut words _ = []

-- The words of all arguments.
abbrev pub flat : List (List ℤ) → List ℤ
flat [] = []
flat (x ∷ xs) = x ++ flat xs

drop-append : (xs ys : List ℤ) → drop (length xs) (xs ++ ys) ≡ ys
drop-append [] ys = refl
drop-append (x ∷ xs) ys = drop-append xs ys

take-append : (xs ys : List ℤ) → take (length xs) (xs ++ ys) ≡ xs
take-append [] ys = refl
take-append (x ∷ xs) ys = ap (λ r. x ∷ r) (take-append xs ys)

-- In a buffer that has the arguments one behind the other, behind at least one word, the slices of
-- the generated call cut out exactly the arguments.
pub cut-argument_slices :
    (front : List ℤ) (arguments : List (List ℤ))
    → 0 < length front
    → map
        (cut (front ++ flat arguments))
        (argument_slices (pos (length front)) (map pos (map length arguments)))
      ≡ arguments
unfolding argument_slices
cut-argument_slices front [] h = refl
cut-argument_slices front (x ∷ arguments) h =
    let i = length front in
    let n = length x in
    let parts = slice_parts i n h in
    let e : suc (i + n - 1) - i ≡ n = omega arith in
    let longer = length-append front x in
    let rest = cut-argument_slices (front ++ x) arguments (omega arith) in
    let first : take n (drop i (front ++ (x ++ flat arguments))) ≡ x =
      rw (drop-append front (x ++ flat arguments)) (take-append x (flat arguments)) in
    rw (parts.0, parts.1, e)
      (ap₂ ◌∷◌ first (
        rw (← longer) (
          ap
            (λ words.
              map (cut words)
                (argument_slices (pos (length (front ++ x))) (map pos (map length arguments))))
            (sym (append_assoc front x (flat arguments)))
          ∙ rest)))
