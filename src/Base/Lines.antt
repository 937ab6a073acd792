-- ===== src/Base/Lines.antt =====
-- Python's line operations: `str.splitlines`, the blank test behind `str.strip`, concatenation.
use pyaseba.Base.Tests.{leb, ◌=ℕ◌, if◌then◌else◌}
use pyaseba.Base.Texts.{Text, push_head}
use Prim.Native.Nat.{ℕ}
use mathlib.Core.Bool.{Bool, true, false, ◌&&◌, ◌||◌}
use mathlib.Core.List.{List, [], ◌∷◌, ◌++◌}

abbrev between : ℕ → ℕ → ℕ → Bool
between lo hi c = leb lo c && leb c hi

-- A character at which `splitlines` breaks a line.
abbrev pub is_break : ℕ → Bool
is_break c = between 10 13 c || between 28 30 c || c =ℕ 0x85 || between 0x2028 0x2029 c

-- A character that `strip` removes.
abbrev pub is_space : ℕ → Bool
is_space c =
    between 9 13 c
    || between 28 32 c
    || c =ℕ 0x85
    || c =ℕ 0xa0
    || c =ℕ 0x1680
    || between 0x2000 0x200a c
    || between 0x2028 0x2029 c
    || c =ℕ 0x202f
    || c =ℕ 0x205f
    || c =ℕ 0x3000

-- The lines of a text; the flag is set behind a carriage return, with which a line feed makes one
-- break.
lines_after : Bool → Text → List Text
lines_after cr [] = []
lines_after cr (c ∷ s) =
    let rest = lines_after (c =ℕ 13) s in
    if cr && c =ℕ 10 then rest else if is_break c then [] ∷ rest else push_head c rest

-- `s.splitlines()`
unfoldable pub splitlines : Text → List Text
unfolding lines_after
splitlines s = lines_after false s

-- `not s.strip()`
unfoldable pub is_blank : Text → Bool
is_blank [] = true
is_blank (c ∷ s) = is_space c && is_blank s

-- `"".join(pieces)`
abbrev pub concat : List Text → Text
concat [] = []
concat (piece ∷ pieces) = piece ++ concat pieces
