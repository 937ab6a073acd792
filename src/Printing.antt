-- ===== src/Printing.antt =====
-- pyaseba/__init__.py: the text that `print_description` writes, and the level of the loggers.
pub mod Levels
mod Tests
use pyaseba.Base.{
  ℕ, zero, suc, Bool, List, [], ◌∷◌, ◌++◌, map, Text, text, if◌then◌else◌, Dict, ℤ, length,
}
use pyaseba.Base.Texts.{decimal, decimal_ℤ, join}
use pyaseba.Base.Lines.{concat}
use pyaseba.Description.{Description}

-- What `print` writes for a text.
abbrev pub line : Text → Text
line s = s ++ b'\n' ∷ []

-- `n * c`
abbrev pub repeat : ℕ → ℕ → Text
repeat zero c = []
repeat (suc n) c = c ∷ repeat n c

-- `f"- {name}: {desc}"`, without an empty description.
abbrev pub entry : Text → Text → Text
entry name [] = line (text "- " ++ name)
entry name (c ∷ desc) = line (text "- " ++ (name ++ (text ": " ++ c ∷ desc)))

unfoldable pub variable_lines : Dict Text (ℕ × ℕ) → Text
unfolding decimal
variable_lines [] = []
variable_lines ((name, (index, size)) ∷ variables) =
    line (concat (text "- " ∷ name ∷ text "[" ∷ decimal size ∷ text "]" ∷ []))
    ++ variable_lines variables

unfoldable pub event_lines : Dict Text Text → Text
event_lines [] = []
event_lines ((name, desc) ∷ events) = entry name desc ++ event_lines events

unfoldable pub user_event_lines : Dict Text ℤ → Text
unfolding decimal_ℤ
user_event_lines [] = []
user_event_lines ((name, size) ∷ events) =
    line (concat (text "- " ∷ name ∷ text " [" ∷ decimal_ℤ size ∷ text "]" ∷ []))
    ++ user_event_lines events

-- `f'{name}[{size}]'`
abbrev pub argument : Text × ℤ → Text
argument (name, size) = concat (name ∷ text "[" ∷ decimal_ℤ size ∷ text "]" ∷ [])

unfoldable pub function_lines : Dict Text (Text × List (Text × ℤ)) → Text
unfolding decimal_ℤ join
function_lines [] = []
function_lines ((name, (desc, args)) ∷ functions) =
    let arguments = join (text ", ") (map argument args) in
    entry (concat (name ∷ text "(" ∷ arguments ∷ text ")" ∷ [])) desc ++ function_lines functions

-- A section with its title and a line of dashes, if there is anything in it.
abbrev pub section_of {ℓ κ} : {K : Type ℓ} {V : Type κ} → Text → ℕ → Dict K V → Text → Text
section_of title dashes [] lines = []
section_of title dashes (e ∷ d) lines =
    line (b'\n' ∷ (title ++ b'\n' ∷ repeat dashes b'-')) ++ lines

-- `print_description`, for a description of the client: what it writes.
unfoldable pub print_description : ℤ → Description → Text → Text
unfolding decimal_ℤ variable_lines event_lines user_event_lines function_lines
print_description node_id description prefix =
    let title = prefix ++ (text "Node " ++ decimal_ℤ node_id) in
    concat (
      line (title ++ b'\n' ∷ repeat (length title) b'=')
      ∷ section_of (text "Variables") 9 description.variables (variable_lines description.variables)
      ∷ section_of (text "Local events") 12 description.local_events
          (event_lines description.local_events)
      ∷ section_of (text "User events") 12 description.user_events
          (user_event_lines description.user_events)
      ∷ section_of (text "Functions") 9 description.functions (function_lines description.functions)
      ∷ line []
      ∷ [])
