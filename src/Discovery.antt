-- ===== src/Discovery.antt =====
-- pyaseba/client/thymio/discover.py: the targets of the Thymios that zeroconf finds. What zeroconf
-- answers, and the targets that its thread has found at each time, are parameters.
pub mod Found
mod Tests
use pyaseba.Base.{
  ℕ, zero, suc, Bool, true, false, Option, none, some, List, [], ◌∷◌, ◌++◌, Text, text, text_eq,
  ◌==◌, contains, if◌then◌else◌, length, ltb,
}
use pyaseba.Base.Texts.{decimal}
use pyaseba.Base.Results.{Result, ok, err, index_error}

-- What `get_service_info` answers: the property `type`, the port, and the addresses, each with
-- `is_loopback`.
pub record ServiceInfo : Type 0 where
  pub kind : Option Text
  pub port : ℕ
  pub addresses : List (Bool × Text)

-- `info.properties.get(b'type', b'')`
abbrev pub kind_of : Option Text → Text
kind_of none = []
kind_of (some kind) = kind

abbrev pub loopbacks : List (Bool × Text) → List (Bool × Text)
loopbacks [] = []
loopbacks ((true, a) ∷ addresses) = (true, a) ∷ loopbacks addresses
loopbacks ((false, a) ∷ addresses) = loopbacks addresses

-- `addresses[-1]`
abbrev pub last_of : List (Bool × Text) → Option Text
last_of [] = none
last_of ((_, a) ∷ []) = some a
last_of (_ ∷ next ∷ addresses) = last_of (next ∷ addresses)

-- The last local address, or else the last one.
abbrev pub address_of : List (Bool × Text) → List (Bool × Text) → Option Text
address_of [] addresses = last_of addresses
address_of (a ∷ locals) addresses = last_of (a ∷ locals)

-- `f'tcp:host={address};port={port}'`
unfoldable pub target_of : Text → ℕ → Text
unfolding decimal
target_of address port = text "tcp:host=" ++ (address ++ (text ";port=" ++ decimal port))

-- `self.targets.add(target)`
abbrev pub add_target : Text → List Text → List Text
unfolding text_eq
add_target target targets = if contains targets target then targets else targets ++ target ∷ []

abbrev pub add_at : Option Text → ℕ → List Text → Result (List Text)
add_at none port targets = err index_error
add_at (some address) port targets = ok (add_target (target_of address port) targets)

-- `ThymioListener.add_service`
unfoldable pub add_service : Option ServiceInfo → List Text → Result (List Text)
unfolding target_of text_eq
add_service none targets = ok targets
add_service (some info) targets =
    if kind_of info.kind == text "Thymio II"
    then add_at (address_of (loopbacks info.addresses) info.addresses) info.port targets
    else ok targets

module _ (found : ℕ → List Text) (min_number : ℕ) where
  -- The loop of `discover`, with at most `i` further pauses behind `k` of them, the targets found
  -- by then a parameter; the number of all pauses.
  unfoldable pub wait_loop : ℕ → ℕ → ℕ
  wait_loop zero k = k
  wait_loop (suc i) k =
      let rest = wait_loop i (suc k) in if ltb (length (found k)) min_number then rest else k

  -- `discover`, for `int(timeout / step)`.
  unfoldable pub discover : ℕ → List Text
  unfolding wait_loop
  discover steps = found (wait_loop steps 0)
