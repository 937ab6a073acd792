-- ===== src/Mirroring.antt =====
-- pyaseba/client/node/mirroring.py: the configuration of mirroring, the script that mirrors local
-- events and native functions, and the reading of event payloads.
pub mod Code
pub mod Payload
pub mod Slices
pub mod Names
pub mod Build
pub mod Answers
pub mod Outcome
pub mod Samples
mod Tests
use pyaseba.Base.{
  ℕ, ◌+◌, Bool, true, false, Option, none, some, List, [], ◌∷◌, ◌++◌, map, Text, text, text_eq,
  int_eq, ◌==◌, if◌then◌else◌, Dict, ℤ, pos, sum, take, drop, ◌=ℕ◌, ◌||◌,
}
use pyaseba.Base.Int.{◌+ℤ◌, leb_ℤ}
use pyaseba.Base.Texts.{decimal, decimal_ℤ, join}
use pyaseba.Base.Lines.{concat}
use pyaseba.Base.Dicts.{lookup, lookup_or, insert, values, has_key}
use pyaseba.Base.Results.{Result, ok, err, key_error, ◌>>=◌}
use pyaseba.Utils.{Finder, matches}
use pyaseba.Description.{Description, Event}
use Code.{EventSpec, newline, function_code, tidy, plain_code, window_code, append_code, non_empty}

-- `EventSpecUpdate`: a key that is not given is `none`.
pub record EventSpecUpdate : Type 0 where
  pub variables : Option (List Text)
  pub use_counter : Option Bool
  pub external_counter : Option Text
  pub window : Option ℤ

abbrev pub given {ℓ} : {A : Type ℓ} → Option A → A → A
given none old = old
given (some new) old = new

-- `dc.replace(spec, **kwargs)`
unfoldable pub replace_spec : EventSpec → EventSpecUpdate → EventSpec
replace_spec spec update = record {
  variables = given update.variables spec.variables;
  use_counter = given update.use_counter spec.use_counter;
  external_counter = given update.external_counter spec.external_counter;
  window = given update.window spec.window;
  preamble = spec.preamble;
  epilog = spec.epilog;
}

-- `MirroringConfig`
pub record MirroringConfig : Type 0 where
  pub events : Dict Text EventSpec
  pub function_include : List Text
  pub function_exclude : List Text
  pub script_inits : List Text

abbrev update_event :
    Text → EventSpecUpdate → Option EventSpec → Dict Text EventSpec → Dict Text EventSpec
update_event name update none events = events
update_event name update (some spec) events = insert name (replace_spec spec update) events

-- `MirroringConfig.configure_events`
unfoldable pub configure_events :
    Dict Text EventSpecUpdate → Dict Text EventSpec → Dict Text EventSpec
unfolding text_eq
configure_events [] events = events
configure_events ((name, update) ∷ updates) events =
    configure_events updates (update_event name update (lookup name events) events)

-- The attributes of a `Mirroring` object, whose `_description` and `_config` are only read while
-- it is constructed.
pub record Mirroring : Type 0 where
  pub code_events : Dict Text ℤ
  pub events : Dict Text Text
  pub user_events : Dict Text Text
  -- by event: variables with their sizes
  pub events_variables : Dict Text (List (Text × ℕ))
  pub counters : List Text
  pub windows : List (Text × ℕ)
  pub functions : Dict Text Text
  pub code : Text
  pub buffer_name : Text
  pub id_name : Text

abbrev pub function_event : Text → Text
function_event name = text "call_" ++ name

abbrev pub local_event : Text → Text
local_event name = text "event_" ++ name

abbrev pub sum_ℤ : List ℤ → ℤ
sum_ℤ [] = pos 0
sum_ℤ (x ∷ xs) = x +ℤ sum_ℤ xs

-- `_add_function`
unfoldable pub add_function : Text → List ℤ → Mirroring → Mirroring
unfolding text_eq
add_function name argument_sizes m =
    let event_name = function_event name in
    record m {
      code = m.code ++ function_code m.buffer_name m.id_name event_name name argument_sizes;
      functions = insert name event_name m.functions;
      code_events = insert event_name (sum_ℤ argument_sizes) m.code_events;
    }

size_or_raise : Option (ℕ × ℕ) → Result ℕ
size_or_raise none = err key_error
size_or_raise (some (index, size)) = ok size

-- `[(n, vs[n][1]) for n in names]`
unfoldable pub sized_variables : Dict Text (ℕ × ℕ) → List Text → Result (List (Text × ℕ))
unfolding text_eq size_or_raise
sized_variables vs [] = ok []
sized_variables vs (n ∷ names) = do
  size ← size_or_raise (lookup n vs)
  rest ← sized_variables vs names
  ok ((n, size) ∷ rest)

-- `message_size`
abbrev pub message_size : EventSpec → List (Text × ℕ) → ℕ
message_size spec variables = sum (values variables) + (if spec.use_counter then 1 else 0)

abbrev pub is_empty {ℓ} : {A : Type ℓ} → List A → Bool
is_empty [] = true
is_empty (x ∷ xs) = false

-- The counter variable that the script declares for the event; empty if there is none.
abbrev pub own_counter : Text → EventSpec → Text
own_counter event_name spec =
    if spec.use_counter then (if is_empty spec.external_counter then event_name else []) else []

-- The counter that is sent behind the variables.
abbrev pub sent_counter : Text → EventSpec → List Text
sent_counter event_name spec =
    if spec.use_counter
    then (if is_empty spec.external_counter then event_name else spec.external_counter) ∷ []
    else []

-- What the event emits: nothing if the specification lists no variables.
abbrev pub emitted_variables : List Text → List Text → List Text
emitted_variables [] counters = []
emitted_variables (n ∷ names) counters = n ∷ (names ++ counters)

abbrev pub event_variables : List Text → Text
event_variables [] = []
event_variables (n ∷ names) = concat (text "[" ∷ join (text ",") (n ∷ names) ∷ text "]" ∷ [])

abbrev pub names_of : List (Text × ℕ) → List Text
names_of [] = []
names_of ((n, _) ∷ variables) = n ∷ names_of variables

abbrev pub is_plain : EventSpec → List Text → Bool
unfolding int_eq
is_plain spec emitted = (spec.window == pos 1) || is_empty emitted

-- `_add_event` behind the look-up of the variables.
unfoldable pub add_sized_event : Text → EventSpec → List (Text × ℕ) → Mirroring → Mirroring
unfolding text_eq int_eq
add_sized_event name spec variables m =
    let event_name = local_event name in
    let size = message_size spec variables in
    let counter = own_counter event_name spec in
    let emitted = emitted_variables (names_of variables) (sent_counter event_name spec) in
    let sent = event_variables emitted in
    let plain = is_plain spec emitted in
    let own_counters = if is_empty counter then [] else counter ∷ [] in
    let window_counters = if plain then [] else (name ++ text "_window") ∷ [] in
    let new_windows = if plain then [] else (name ++ text "_payload", size) ∷ [] in
    let code =
      if plain
      then plain_code spec name event_name sent counter
      else window_code spec name event_name sent counter (pos size) in
    record m {
      counters = m.counters ++ (own_counters ++ window_counters);
      windows = m.windows ++ new_windows;
      code = append_code m.code (tidy code);
      events = insert event_name name m.events;
      user_events = insert name event_name m.user_events;
      events_variables = insert event_name variables m.events_variables;
      code_events = insert event_name (pos size) m.code_events;
    }

-- `_add_event`
unfoldable pub add_event : Dict Text (ℕ × ℕ) → Text → EventSpec → Mirroring → Result Mirroring
add_event vs name spec m = if leb_ℤ spec.window (pos 0) then ok m else (do
  variables ← sized_variables vs spec.variables
  ok (add_sized_event name spec variables m))

unfoldable pub add_events : Dict Text (ℕ × ℕ) → Dict Text EventSpec → Mirroring → Result Mirroring
add_events vs [] m = ok m
add_events vs ((name, spec) ∷ events) m = do m' ← add_event vs name spec m; add_events vs events m'

abbrev sizes_of : List (Text × ℤ) → List ℤ
sizes_of [] = []
sizes_of ((_, size) ∷ arguments) = size ∷ sizes_of arguments

-- The variables at index 0 and 2: the last of each wins.
unfoldable pub reserved_names : Dict Text (ℕ × ℕ) → Mirroring → Mirroring
reserved_names [] m = m
reserved_names ((name, (index, size)) ∷ variables) m = reserved_names variables (record m {
  id_name = if index =ℕ 0 then name else m.id_name;
  buffer_name = if index =ℕ 2 then name else m.buffer_name;
})

abbrev declare_counter : Text → Text
declare_counter v = text "var " ++ v

abbrev declare_window : Text × ℕ → Text
unfolding decimal
declare_window (v, s) = concat (text "var " ∷ v ∷ text "[" ∷ decimal s ∷ text "]" ∷ [])

abbrev init_counter : Text → Text
init_counter v = v ++ text "=0"

abbrev init_window : Text × ℕ → Text
init_window (v, s) = concat (text "call math.fill(" ∷ v ∷ text ", 0)" ∷ [])

-- The definitions and initialisations in front of the code of the events and functions.
unfoldable pub script : List Text → Mirroring → Text
unfolding decimal
script script_inits m = join newline (
    non_empty (
      text "var temp"
      ∷ (map declare_counter m.counters
          ++ (map declare_window m.windows
              ++ (map init_counter m.counters
                  ++ (map init_window m.windows ++ (script_inits ++ (m.code ∷ []))))))))

abbrev pub blank : Mirroring
blank = record {
  code_events = [];
  events = [];
  user_events = [];
  events_variables = [];
  counters = [];
  windows = [];
  functions = [];
  code = [];
  buffer_name = [];
  id_name = [];
}

module _ (finds : Finder) where
  -- One round of the loop over the description's functions.
  unfoldable pub visit_function : MirroringConfig → Text → List ℤ → Mirroring → Mirroring
  visit_function config name argument_sizes m =
      if matches finds name config.function_include config.function_exclude
      then add_function name argument_sizes m
      else m

  unfoldable pub add_functions :
      MirroringConfig → Dict Text (Text × List (Text × ℤ)) → Mirroring → Mirroring
  add_functions config [] m = m
  add_functions config ((name, (_, arguments)) ∷ functions) m =
      add_functions config functions (visit_function config name (sizes_of arguments) m)

  -- `Mirroring.__init__`
  unfoldable pub mirror : Description → MirroringConfig → Result Mirroring
  mirror description config = do
    m ← add_events description.variables config.events (reserved_names description.variables blank)
    let m' = add_functions config description.functions m
    ok (record m' { code = script config.script_inits m' })

-- The segments of a payload, as `read_variables` walks it from word `i` on.
unfoldable pub read_segments : List (Text × ℕ) → List ℤ → Dict Text (List ℤ) → Dict Text (List ℤ)
unfolding text_eq
read_segments [] words rs = rs
read_segments ((name, size) ∷ variables) words rs =
    read_segments variables (drop size words) (insert name (take size words) rs)

-- `read_variables`
unfoldable pub read_variables : Mirroring → Event → Dict Text (List ℤ)
unfolding text_eq
read_variables m event = read_segments (lookup_or event.name [] m.events_variables) event.words []

-- `get_event_name`
unfoldable pub get_event_name : Mirroring → Text → Text
unfolding text_eq
get_event_name m name = lookup_or name [] m.user_events

-- `get_function_name`
unfoldable pub get_function_name : Mirroring → Text → Text
unfolding text_eq
get_function_name m name = lookup_or name [] m.functions
