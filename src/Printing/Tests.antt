-- ===== src/Printing/Tests.antt =====
-- What is printed for a small description, and the levels of two numbers.
use pyaseba.Base.{◌≡◌, ◌≤◌, [], ◌∷◌, true, none, text, text_eq, pos, negsuc, arith}
use pyaseba.Printing.Levels.{
  level_name, severity, set_logger_level, number, network_level, client_level, sets_disabled,
  level_name_mono,
}

level_name_mono_example :
    (severity (level_name (pos 15)) ≤ severity (level_name (pos 40)))
    × (severity (level_name (pos 40)) ≤ 5)
    × (severity (text "trace") ≡ 0)
    × (set_logger_level true (λ name. none) (number (negsuc 0))
        ≡ network_level (text "trace") ∷ client_level (text "trace") ∷ sets_disabled true ∷ [])
level_name_mono_example = level_name_mono (λ name. none) (pos 15) (pos 40) 0 (omega arith)
