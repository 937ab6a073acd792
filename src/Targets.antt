-- ===== src/Targets.antt =====
-- pyaseba/client/targets.py: Dashel targets such as `tcp:host=localhost;port=33333`.
pub mod Split
pub mod Compatible
mod Tests
use pyaseba.Base.{
  ℕ, Bool, true, false, ◌&&◌, Option, none, some, List, [], ◌∷◌, ◌++◌, Text, text, text_eq, ◌==◌,
  if◌then◌else◌, Dict,
}
use pyaseba.Base.Texts.{split, has_substring}
use pyaseba.Base.Dicts.{lookup, insert, has_key, keys}

-- `scan_serial_ports().items()` is the argument: each port's number with its device and
-- description.
unfoldable pub find_serial_targets : Text → List (ℕ × (Text × Text)) → List Text
find_serial_targets name [] = []
find_serial_targets name ((i, (device, desc)) ∷ ports) =
    let rest = find_serial_targets name ports in
    if has_substring name desc then (text "ser:device=" ++ device) ∷ rest else rest

abbrev pub head_or_empty : List Text → Text
head_or_empty [] = []
head_or_empty (piece ∷ _) = piece

-- `target.split(':')[0]`
unfoldable pub get_target_protocol : Text → Text
get_target_protocol target = head_or_empty (split b':' target)

abbrev pub as_pair : List Text → Option (Text × Text)
as_pair (key ∷ value ∷ []) = some (key, value)
as_pair _ = none

-- `_read_parameter`
unfoldable pub read_parameter : Text → Option (Text × Text)
read_parameter s = as_pair (split b'=' s)

abbrev pub insert_pair : Option (Text × Text) → Dict Text Text → Dict Text Text
insert_pair none d = d
insert_pair (some (key, value)) d = insert key value d

-- `dict(pair for pair in (_read_parameter(p) for p in ps) if pair)`, into what is already read.
unfoldable pub read_parameters : List Text → Dict Text Text → Dict Text Text
unfolding text_eq
read_parameters [] d = d
read_parameters (p ∷ ps) d = read_parameters ps (insert_pair (read_parameter p) d)

unfoldable pub parameters_of : List Text → Dict Text Text
parameters_of (protocol ∷ params ∷ []) = read_parameters (split b';' params) []
parameters_of _ = []

-- `get_target_parameters`
unfoldable pub get_target_parameters : Text → Dict Text Text
get_target_parameters target = parameters_of (split b':' target)

abbrev pub agree : Option Text → Option Text → Bool
agree (some v) (some w) = v == w
agree _ _ = true

-- `all(params[key] == other[key] for key in set(params) & set(other))`, over the keys of one side.
unfoldable pub agree_on : List Text → Dict Text Text → Dict Text Text → Bool
unfolding text_eq
agree_on [] params other = true
agree_on (key ∷ rest) params other =
    agree (lookup key params) (lookup key other) && agree_on rest params other

-- `are_targets_compatible`
unfoldable pub are_targets_compatible : Text → Text → Bool
unfolding text_eq
are_targets_compatible target other =
    if get_target_protocol target == get_target_protocol other
    then (let params = get_target_parameters target in
        let other_params = get_target_parameters other in
        agree_on (keys params) params other_params)
    else false
