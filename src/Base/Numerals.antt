-- ===== src/Base/Numerals.antt =====
-- Python's `int(text)`, for the digits of ASCII, and `text.split()`.
use Prim.Native.Nat.{ℕ, zero, suc, ◌+◌, ◌-◌, ◌*◌, ◌/◌, ◌%◌, ◌<◌}
use mathlib.Core.Path.{◌≡◌, refl, sym, ◌∙◌, ap}
use mathlib.Core.Logic.{inl, inr}
use mathlib.Core.Bool.{Bool, true, false, ◌&&◌}
use mathlib.Core.Option.{Option, none, some}
use mathlib.Core.Option
use mathlib.Core.List.{[], ◌∷◌}
use native.Mathlib.Omega.{arith}
use pyaseba.Base.Tests.{◌=ℕ◌, leb, if◌then◌else◌, Bool-cases}
use pyaseba.Base.Int.{ℤ, pos, negsuc}
use pyaseba.Base.Texts.{Text, decimal_loop, decimal, decimal_ℤ}
use pyaseba.Base.Lines.{is_space, is_blank}

abbrev pub is_digit : ℕ → Bool
is_digit c = leb b'0' c && leb c b'9'

-- The number whose digits are read so far is `n`, and the flag says whether a digit stands before.
-- Single underscores may stand between digits, and spaces behind the last one.
unfoldable pub read_digits : ℕ → Bool → Text → Option ℕ
read_digits n after [] = if after then some n else none
read_digits n after (c ∷ s) =
    let digit = read_digits (n * 10 + (c - b'0')) true s in
    let underscore = read_digits n false s in
    if is_digit c
    then digit
    else if after && (c =ℕ b'_')
    then underscore
    else if after && (is_space c && is_blank s)
    then some n
    else none

-- `-n`
abbrev pub negative : ℕ → ℤ
negative zero = pos 0
negative (suc n) = negsuc n

unfoldable pub read_sign : Text → Option ℤ
unfolding read_digits
read_sign [] = none
read_sign (c ∷ s) =
    if c =ℕ b'-'
    then Option.map negative (read_digits 0 false s)
    else if c =ℕ b'+'
    then Option.map pos (read_digits 0 false s)
    else Option.map pos (read_digits 0 false (c ∷ s))

-- `int(s)`; none if it raises a `ValueError`.
unfoldable pub int_of : Text → Option ℤ
unfolding read_sign
int_of [] = none
int_of (c ∷ s) = let rest = int_of s in if is_space c then rest else read_sign (c ∷ s)

read_digit :
    (n d : ℕ) (after : Bool) (s : Text)
    → d < 10
    → read_digits n after ((b'0' + d) ∷ s) ≡ read_digits (n * 10 + d) true s
unfolding read_digits
read_digit n d after s h = ground arith

read_digits-decimal_loop :
    (fuel n : ℕ) (rest : Text)
    → n < fuel
    → read_digits 0 false (decimal_loop fuel n rest) ≡ read_digits n true rest
unfolding decimal_loop
read_digits-decimal_loop zero n rest h = ground arith
read_digits-decimal_loop (suc fuel) n rest h =
    let ih = read_digits-decimal_loop fuel (n / 10) ((b'0' + n % 10) ∷ rest) in
    let last : n % 10 < 10 = omega arith in
    let whole : n / 10 * 10 + n % 10 ≡ n = omega arith in
    let ends = λ (m : ℕ). read_digit m (n % 10) in
    elim (Bool-cases (n / 10 =ℕ 0)) [
      | inl single ↦
          rw single (ends 0 false rest last ∙ ap (λ m. read_digits m true rest) (ground arith))
      | inr more ↦ rw more (
          ih (ground arith)
          ∙ (ends (n / 10) true rest last ∙ ap (λ m. read_digits m true rest) whole))
    ]

-- A number of decimal digits is read as itself.
read_digits-decimal : (n : ℕ) → read_digits 0 false (decimal n) ≡ some n
unfolding decimal read_digits
read_digits-decimal n = read_digits-decimal_loop (suc n) n [] (omega arith)

-- The numeral of a number begins with a digit.
decimal_loop-digit :
    (fuel n : ℕ) (rest : Text)
    → n < fuel
    → (c : ℕ) × (s : Text) × (decimal_loop fuel n rest ≡ c ∷ s) × (is_digit c ≡ true)
unfolding decimal_loop
decimal_loop-digit zero n rest h = ground arith
decimal_loop-digit (suc fuel) n rest h =
    let ih = decimal_loop-digit fuel (n / 10) ((b'0' + n % 10) ∷ rest) in
    elim (Bool-cases (n / 10 =ℕ 0)) [
      | inl single ↦ rw single (b'0' + n % 10, rest, refl, ground arith)
      | inr more ↦ rw more (ih (ground arith))
    ]

read_sign-digit :
    (c : ℕ) (s : Text)
    → is_digit c ≡ true
    → int_of (c ∷ s) ≡ Option.map pos (read_digits 0 false (c ∷ s))
unfolding int_of read_sign
read_sign-digit c s h = ground arith

pub int_of-decimal : (n : ℕ) → int_of (decimal n) ≡ some (pos n)
unfolding decimal
int_of-decimal n =
    let (c, s, e, d) = decimal_loop-digit (suc n) n [] (omega arith) in
    ap int_of e
    ∙ (read_sign-digit c s d
        ∙ (ap (λ t. Option.map pos (read_digits 0 false t)) (sym e)
            ∙ ap (Option.map pos) (read_digits-decimal n)))

-- Printing an integer and reading it back.
pub int_of-decimal_ℤ : (z : ℤ) → int_of (decimal_ℤ z) ≡ some z
unfolding decimal_ℤ int_of read_sign
int_of-decimal_ℤ (pos n) = int_of-decimal n
int_of-decimal_ℤ (negsuc n) = ap (Option.map negative) (read_digits-decimal (suc n))
