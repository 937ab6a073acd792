-- ===== src/Mirroring/Samples.antt =====
-- A robot with two variables and one function, a configuration that mirrors it, and what is made of
-- both.
use pyaseba.Base.{
  ◌≡◌, refl, true, List, [], ◌∷◌, Text, text, text_eq, int_eq, ◌==◌, ℤ, pos, negsuc, Dict,
}
use pyaseba.Base.Texts.{join, decimal, decimal_ℤ}
use pyaseba.Base.Lines.{splitlines, is_blank}
use pyaseba.Base.Dicts.{lookup, insert}
use pyaseba.Base.Results.{ok}
use pyaseba.Utils.{Finder, matches, any_finds}
use pyaseba.Description.{Description, Event}
use pyaseba.Mirroring.{
  MirroringConfig, Mirroring, mirror, add_events, add_event, add_sized_event, sized_variables,
  add_functions, visit_function, add_function, reserved_names, script,
}
use pyaseba.Mirroring.Code.{
  EventSpec, function_code, tidy, keep_lines, plain_code, argument_slices, non_empty, newline,
}

abbrev pub robot : Description
robot = record {
  name = text "robot";
  protocol_version = 9;
  variables =
      (text "_id", (0, 1))
      ∷ (text "source", (1, 1))
      ∷ (text "args", (2, 32))
      ∷ (text "prox", (34, 2))
      ∷ (text "acc", (36, 3))
      ∷ [];
  variables_by_index =
      (0, (text "_id", 1))
      ∷ (1, (text "source", 1))
      ∷ (2, (text "args", 32))
      ∷ (34, (text "prox", 2))
      ∷ (36, (text "acc", 3))
      ∷ [];
  variables_size = 39;
  functions = (text "leds", (text "set", (text "rgb", pos 3) ∷ (text "on", pos 1) ∷ [])) ∷ [];
  local_events = (text "prox", []) ∷ [];
  user_events = [];
}

abbrev pub prox_spec : EventSpec
prox_spec = record {
  variables = text "prox" ∷ text "acc" ∷ [];
  use_counter = true;
  external_counter = [];
  window = pos 1;
  preamble = [];
  epilog = [];
}

abbrev pub robot_config : MirroringConfig
robot_config = record {
  events = (text "prox", prox_spec) ∷ [];
  function_include = text "leds" ∷ [];
  function_exclude = [];
  script_inits = [];
}

-- A pattern finds the name that it spells.
abbrev pub finds_name : Finder
unfolding text_eq
finds_name pattern name = pattern == name

abbrev pub prox_values : Dict Text (List ℤ)
prox_values = (text "prox", pos 7 ∷ negsuc 0 ∷ []) ∷ (text "acc", pos 1 ∷ pos 2 ∷ pos 3 ∷ []) ∷ []

abbrev pub prox_event : Event
prox_event = record {
  source = pos 5;
  name = text "event_prox";
  words = pos 7 ∷ negsuc 0 ∷ pos 1 ∷ pos 2 ∷ pos 3 ∷ pos 12 ∷ [];
}

-- What `robot_config` makes of `robot`, but for the code.
abbrev pub robot_tables : Text → Mirroring
robot_tables code = record {
  code_events = (text "event_prox", pos 6) ∷ (text "call_leds", pos 4) ∷ [];
  events = (text "event_prox", text "prox") ∷ [];
  user_events = (text "prox", text "event_prox") ∷ [];
  events_variables = (text "event_prox", (text "prox", 2) ∷ (text "acc", 3) ∷ []) ∷ [];
  counters = text "event_prox" ∷ [];
  windows = [];
  functions = (text "leds", text "call_leds") ∷ [];
  code = code;
  buffer_name = text "args";
  id_name = text "_id";
}

abbrev pub robot_code : Text
unfolding join
robot_code = join newline (
    text "var temp"
    ∷ text "var event_prox"
    ∷ text "event_prox=0"
    ∷ []
    ∷ []
    ∷ text "onevent prox"
    ∷ text "emit event_prox [prox,acc,event_prox]"
    ∷ text "event_prox+=1"
    ∷ text "onevent call_leds"
    ∷ text "if _id == args[0] then"
    ∷ text "call leds(args[1:3],args[4:4])"
    ∷ text "end"
    ∷ []
    ∷ [])

-- The whole construction, run.
pub robot_mirrored : mirror finds_name robot robot_config ≡ ok (robot_tables robot_code)
unfolding mirror add_events add_event add_sized_event sized_variables add_functions visit_function
    add_function reserved_names script function_code tidy keep_lines plain_code argument_slices
    non_empty join decimal decimal_ℤ splitlines is_blank lookup insert matches any_finds text_eq
    int_eq
robot_mirrored = refl
