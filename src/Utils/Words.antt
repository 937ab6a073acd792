-- ===== src/Utils/Words.antt =====
-- What `int16` does to a 16-bit word: which words it reads as two's complement.
use pyaseba.Base.{ℕ, ◌-◌, ◌<◌, ◌≡◌, ◌≢◌, ◌↔◌, ℤ, pos, negsuc, arith, ltb, if◌then◌else◌}
use pyaseba.Base.Int.{◌≤ℤ◌, mod_ℤ}
use pyaseba.Utils.{int16}

-- The integer that a 16-bit word stands for in two's complement.
abbrev pub signed16 : ℕ → ℤ
signed16 x = if ltb x 32768 then pos x else negsuc (65535 - x)

-- On the 16-bit words, `int16` gives the two's complement value exactly when the word is not
-- 2^15; that one it leaves positive.
pub int16-signed16 : (x : ℕ) → x < 65536 → (int16 (pos x) ≡ signed16 x) ↔ (x ≢ 32768)
unfolding int16
int16-signed16 x h = (λ e. ground arith, λ n. ground arith)

-- On every 16-bit word, `int16` keeps the residue modulo 2^16, and the results lie in
-- [-32767, 32768].
pub int16-mod :
    (x : ℕ)
    → x < 65536
    → (mod_ℤ (int16 (pos x)) 65536 ≡ x)
      × (negsuc 32766 ≤ℤ int16 (pos x))
      × (int16 (pos x) ≤ℤ pos 32768)
unfolding int16
int16-mod x h = (ground arith, ground arith, ground arith)
