-- ===== src/Targets/Tests.antt =====
-- Runs of the target functions, and the theorems about them at concrete targets.
use pyaseba.Base.{◌≡◌, refl, ◌↔◌, true, false, [], ◌∷◌, arith, Text, text, text_eq, Dict}
use pyaseba.Base.Texts.{split}
use pyaseba.Base.Dicts.{lookup, insert}
use pyaseba.Targets.{
  get_target_protocol, get_target_parameters, parameters_of, read_parameters, read_parameter,
  agree_on, are_targets_compatible,
}
use pyaseba.Targets.Split.{format_target, get_target_parameters-format}
use pyaseba.Targets.Compatible.{Overlap, are_targets_compatible_iff}

abbrev local : Text
local = text "tcp:port=33333;host=localhost"

abbrev local_parameters : Dict Text Text
local_parameters = (text "port", text "33333") ∷ (text "host", text "localhost") ∷ []

local_protocol : get_target_protocol local ≡ text "tcp"
unfolding get_target_protocol split
local_protocol = refl

local_read : get_target_parameters local ≡ local_parameters
unfolding get_target_parameters parameters_of read_parameters read_parameter split insert
local_read = refl

-- The test is not transitive: a target without parameters overlaps both of two that differ.
ports_differ :
    (are_targets_compatible (text "tcp:port=1") (text "tcp:") ≡ true)
    × (are_targets_compatible (text "tcp:") (text "tcp:port=2") ≡ true)
    × (are_targets_compatible (text "tcp:port=1") (text "tcp:port=2") ≡ false)
unfolding are_targets_compatible get_target_protocol get_target_parameters parameters_of
    read_parameters read_parameter split insert agree_on lookup
ports_differ = (refl, refl, refl)

get_target_parameters-format_example :
    (get_target_protocol (format_target (text "tcp") local_parameters) ≡ text "tcp")
    × (get_target_parameters (format_target (text "tcp") local_parameters) ≡ local_parameters)
unfolding lookup text_eq
get_target_parameters-format_example =
    get_target_parameters-format (text "tcp") local_parameters (omega arith) (omega arith)
      (refl, (refl, tt))

are_targets_compatible_iff_example :
    (are_targets_compatible local (text "tcp:port=1") ≡ true) ↔ Overlap local (text "tcp:port=1")
are_targets_compatible_iff_example = are_targets_compatible_iff local (text "tcp:port=1")
