-- ===== src/Printing/Levels.antt =====
-- pyaseba/__init__.py: `set_logger_level`.
use pyaseba.Base.{
  refl, Bool, true, false, Option, none, some, List, [], ◌∷◌, ◌++◌, Text, text, text_eq,
  if◌then◌else◌, ℤ, pos, negsuc, ◌≡◌, ◌≤◌, ℕ, arith, ◌==◌,
}
use pyaseba.Base.Int.{ltb_ℤ, ◌≤ℤ◌}

-- What it does: the levels of the two native modules, the warning, and the attributes of Python's
-- logger.
pub data Effect : Type 0 where
  network_level client_level : Text → Effect
  warns : Effect
  sets_disabled : Bool → Effect
  sets_level : ℤ → Effect

-- A level by number, or by name.
pub data Level : Type 0 where
  number : ℤ → Level
  name : Text → Level

-- `DEBUG`, `INFO`, `WARN`, `ERROR` and `CRITICAL` of the module `logging` are 10, 20, 30, 40 and
-- 50. The first `if` does not end with an `else`, so that its name is overwritten.
unfoldable pub level_name : ℤ → Text
level_name level =
    if ltb_ℤ level (pos 10)
    then text "trace"
    else if ltb_ℤ level (pos 20)
    then text "debug"
    else if ltb_ℤ level (pos 30)
    then text "info"
    else if ltb_ℤ level (pos 40)
    then text "warning"
    else if ltb_ℤ level (pos 50)
    then text "error"
    else text "critical"

module _ (supports_logging : Bool) (named : Text → Option ℤ) where
  -- `logging.getLevelNamesMapping().get(level.upper(), -1)`, the entries a parameter
  abbrev pub level_of : Level → ℤ
  level_of (number n) = n
  level_of (name s) = elim (named s) [ none ↦ negsuc 0 | some n ↦ n ]

  -- `set_logger_level`
  unfoldable pub set_logger_level : Level → List Effect
  unfolding level_name
  set_logger_level level =
      let n = level_of level in
      (if supports_logging
        then network_level (level_name n) ∷ client_level (level_name n) ∷ []
        else warns ∷ [])
      ++ (if ltb_ℤ n (pos 0)
          then sets_disabled true ∷ []
          else sets_disabled false ∷ sets_level n ∷ [])

-- How severe the messages of a native level are; `off` is above all.
abbrev pub severity : Text → ℕ
unfolding text_eq
severity s =
    if s == text "trace"
    then 0
    else if s == text "debug"
    then 1
    else if s == text "info"
    then 2
    else if s == text "warning"
    then 3
    else if s == text "error"
    then 4
    else if s == text "critical"
    then 5
    else 6

-- The rank of a level among the native ones.
abbrev rank : ℤ → ℕ
rank level =
    if ltb_ℤ level (pos 10)
    then 0
    else if ltb_ℤ level (pos 20)
    then 1
    else if ltb_ℤ level (pos 30)
    then 2
    else if ltb_ℤ level (pos 40)
    then 3
    else if ltb_ℤ level (pos 50)
    then 4
    else 5

severity-level_name : (level : ℤ) → severity (level_name level) ≡ rank level
unfolding level_name text_eq
severity-level_name level = ground arith

rank_mono : (a b : ℤ) → a ≤ℤ b → rank a ≤ rank b
rank_mono a b h = ground arith

-- The native names grow in severity with the level, and none of them is `off`. For a negative
-- level, if the modules support logging, `set_logger_level` sets both native modules to `trace`,
-- the most verbose name, and then disables the Python logger only.
pub level_name_mono :
    (named : Text → Option ℤ) (a b : ℤ) (n : ℕ)
    → a ≤ℤ b
    → (severity (level_name a) ≤ severity (level_name b))
      × (severity (level_name b) ≤ 5)
      × (severity (text "trace") ≡ 0)
      × (set_logger_level true named (number (negsuc n))
          ≡ network_level (text "trace") ∷ client_level (text "trace") ∷ sets_disabled true ∷ [])
unfolding set_logger_level level_name text_eq
level_name_mono named a b n h =
    let from = severity-level_name a in
    let to = severity-level_name b in
    let grows = rank_mono a b h in
    let negative : ltb_ℤ (negsuc n) (pos 0) ≡ true = ground arith in
    let low : ltb_ℤ (negsuc n) (pos 10) ≡ true = ground arith in
    (omega arith, ground arith, refl, rw (negative, low) refl)
