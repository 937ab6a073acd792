-- ===== src/Mirroring/Tests.antt =====
-- The script and the tables of a mirrored robot, and the theorems at it.
use pyaseba.Base.{◌≡◌, refl, none, some, if◌then◌else◌, [], ◌∷◌, text, text_eq, int_eq, pos}
use pyaseba.Base.Dicts.{lookup}
use pyaseba.Utils.{matches, any_finds}
use pyaseba.Mirroring.{
  get_event_name, get_function_name, local_event, function_event, read_variables, add_function,
  mirror,
}
use pyaseba.Mirroring.Code.{argument_slices}
use pyaseba.Mirroring.Samples.{
  robot, prox_spec, robot_config, finds_name, prox_values, prox_event, robot_tables, robot_code,
  robot_mirrored,
}
use pyaseba.Mirroring.Payload.{read_variables-flatten}
use pyaseba.Mirroring.Outcome.{error_of, events_known, mirror-events_known}
use pyaseba.Base.Results.{key_error}
use pyaseba.Mirroring.Slices.{add_function-code_events, all_positions, span}
use pyaseba.Mirroring.Names.{Registered}
use pyaseba.Mirroring.Build.{mirror-Registered}
use pyaseba.Mirroring.Answers.{mirror-names}

read_variables-flatten_example : read_variables (robot_tables []) prox_event ≡ prox_values
unfolding lookup text_eq
read_variables-flatten_example =
    read_variables-flatten (robot_tables []) prox_event prox_values (pos 12 ∷ []) refl refl
      (refl, (refl, tt))

add_function-code_events_example :
    (lookup
        (function_event (text "leds"))
        (add_function (text "leds") (pos 3 ∷ pos 1 ∷ []) (robot_tables [])).code_events
      ≡ some (pos 4))
    × (all_positions (argument_slices (pos 1) (pos 3 ∷ pos 1 ∷ [])) ≡ span 1 4)
add_function-code_events_example =
    add_function-code_events (text "leds") (3 ∷ 1 ∷ []) (robot_tables [])

mirror-Registered_example :
    Registered robot.variables (text "prox") prox_spec (robot_tables robot_code)
    × (get_event_name (robot_tables robot_code) (text "prox") ≡ local_event (text "prox"))
unfolding lookup text_eq
mirror-Registered_example =
    mirror-Registered finds_name robot_config robot (text "prox") prox_spec
      (robot_tables robot_code) (refl, tt) refl refl robot_mirrored

mirror-names_example :
    (get_event_name (robot_tables robot_code) (text "leds") ≡ [])
    × (get_function_name (robot_tables robot_code) (text "leds") ≡ function_event (text "leds"))
unfolding lookup text_eq matches any_finds
mirror-names_example =
    mirror-names finds_name robot_config robot (text "leds") (robot_tables robot_code) (refl, tt)
      robot_mirrored

mirror-events_known_example :
    error_of (mirror finds_name robot robot_config)
    ≡ (if events_known robot.variables robot_config.events then none else some key_error)
mirror-events_known_example = mirror-events_known finds_name robot robot_config
