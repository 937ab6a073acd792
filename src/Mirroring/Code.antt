-- ===== src/Mirroring/Code.antt =====
-- The Aseba code that mirroring generates, piece by piece.
use pyaseba.Base.{
  Bool, List, [], ◌∷◌, ◌++◌, map, Text, text, text_eq, int_eq, if◌then◌else◌, ℤ, pos,
}
use pyaseba.Base.Int.{◌+ℤ◌, ◌-ℤ◌}
use pyaseba.Base.Texts.{decimal_ℤ, join}
use pyaseba.Base.Lines.{concat, splitlines, is_blank}

-- `EventSpec`
pub record EventSpec : Type 0 where
  pub variables : List Text
  pub use_counter : Bool
  pub external_counter : Text
  pub window : ℤ
  pub preamble : Text
  pub epilog : Text

abbrev pub newline : Text
newline = 10 ∷ []

-- `f"""` with these lines between the first and the last line break.
abbrev pub block : List Text → Text
block lines = join newline ([] ∷ (lines ++ [] ∷ []))

-- The intervals `i:i + size - 1` of the arguments that begin at `i`.
unfoldable pub argument_slices : ℤ → List ℤ → List (ℤ × ℤ)
argument_slices i [] = []
argument_slices i (size ∷ sizes) = (i, i +ℤ size -ℤ pos 1) ∷ argument_slices (i +ℤ size) sizes

abbrev format_slice : Text → ℤ × ℤ → Text
format_slice buffer (first, last) =
    concat (buffer ∷ text "[" ∷ decimal_ℤ first ∷ text ":" ∷ decimal_ℤ last ∷ text "]" ∷ [])

-- The block that `_add_function` appends.
unfoldable pub function_code : Text → Text → Text → Text → List ℤ → Text
function_code buffer id event_name name sizes =
    let arguments = join (text ",") (map (format_slice buffer) (argument_slices (pos 1) sizes)) in
    block (
      (text "onevent " ++ event_name)
      ∷ concat (text "if " ∷ id ∷ text " == " ∷ buffer ∷ text "[0] then" ∷ [])
      ∷ concat (text "call " ∷ name ∷ text "(" ∷ arguments ∷ text ")" ∷ [])
      ∷ text "end"
      ∷ [])

-- `"\n".join(s for s in code.splitlines() if s.strip())`
unfoldable pub keep_lines : List Text → List Text
keep_lines [] = []
keep_lines (line ∷ lines) =
    let rest = keep_lines lines in if is_blank line then rest else line ∷ rest

unfoldable pub tidy : Text → Text
unfolding keep_lines
tidy code = join newline (keep_lines (splitlines code))

-- `f"{counter}+=1" if counter else ""`
abbrev pub counter_code : Text → Text
counter_code [] = []
counter_code (c ∷ counter) = c ∷ (counter ++ text "+=1")

-- The code of an event that is emitted each time.
unfoldable pub plain_code : EventSpec → Text → Text → Text → Text → Text
plain_code spec name event_name event_variables counter = block (
    (text "onevent " ++ name)
    ∷ spec.preamble
    ∷ concat (text "emit " ∷ event_name ∷ text " " ∷ event_variables ∷ [])
    ∷ counter_code counter
    ∷ spec.epilog
    ∷ [])

-- The code of an event that is emitted once in each window, with the averages.
unfoldable pub window_code : EventSpec → Text → Text → Text → Text → ℤ → Text
window_code spec name event_name event_variables counter message_size = block (
    (text "onevent " ++ name)
    ∷ spec.preamble
    ∷ concat (
        text "call math.add("
        ∷ name
        ∷ text "_payload, "
        ∷ event_variables
        ∷ text ", "
        ∷ name
        ∷ text "_payload)"
        ∷ [])
    ∷ counter_code counter
    ∷ (name ++ text "_window++")
    ∷ concat (text "if " ∷ name ∷ text "_window == " ∷ decimal_ℤ spec.window ∷ text " then" ∷ [])
    ∷ concat (text "  for temp in 0:" ∷ decimal_ℤ (message_size -ℤ pos 1) ∷ text " do" ∷ [])
    ∷ concat (text "      " ∷ name ∷ text "_payload[temp] /= " ∷ decimal_ℤ spec.window ∷ [])
    ∷ text "  end"
    ∷ concat (text "  " ∷ name ∷ text "_window = 0" ∷ [])
    ∷ concat (text "  emit " ∷ event_name ∷ text " " ∷ name ∷ text "_payload" ∷ [])
    ∷ concat (text "  call math.fill(" ∷ name ∷ text "_payload, 0)" ∷ [])
    ∷ text "end"
    ∷ spec.epilog
    ∷ [])

-- `self._code += "\n\n" + code`, if there is code.
abbrev pub append_code : Text → Text → Text
append_code all [] = all
append_code all (c ∷ code) = all ++ (10 ∷ 10 ∷ c ∷ code)

-- `"\n".join(x for x in parts if x)`
unfoldable pub non_empty : List Text → List Text
non_empty [] = []
non_empty ([] ∷ parts) = non_empty parts
non_empty ((c ∷ part) ∷ parts) = (c ∷ part) ∷ non_empty parts
