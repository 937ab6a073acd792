-- ===== src/Utils.antt =====
-- pyaseba/client/node/utils.py. The regular expressions are Python's `re`: whether
-- `re.findall(pattern, name)` finds anything is a parameter.
pub mod Words
mod Tests
use pyaseba.Base.{
  ℕ, suc, ◌+◌, ◌^◌, Bool, not, ◌&&◌, ◌||◌, List, [], ◌∷◌, false, Text, ℤ, pos, if◌then◌else◌,
}
use pyaseba.Base.Int.{◌-ℤ◌, ltb_ℤ}

-- `int16`
unfoldable pub int16 : ℤ → ℤ
int16 x = if ltb_ℤ (pos (2 ^ 15)) x then x -ℤ pos (2 ^ 16) else x

-- The type of `λ pattern name. bool(re.findall(pattern, name))`.
abbrev pub Finder : Type 0
Finder = Text → Text → Bool

module _ (finds : Finder) where
  -- `any(re.findall(e, name) for e in patterns)`
  unfoldable pub any_finds : List Text → Text → Bool
  any_finds [] name = false
  any_finds (e ∷ patterns) name = finds e name || any_finds patterns name

  -- `matches`
  unfoldable pub matches : Text → List Text → List Text → Bool
  unfolding any_finds
  matches name include exclude = any_finds include name && not (any_finds exclude name)
