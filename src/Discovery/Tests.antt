-- ===== src/Discovery/Tests.antt =====
-- A Thymio with a local address, and a listener that finds a target at its third look.
use pyaseba.Base.{
  ℕ, ◌≤◌, ◌≡◌, ◌⊎◌, true, false, some, [], ◌∷◌, List, Text, text, length, ltb, if◌then◌else◌,
}
use pyaseba.Discovery.{ServiceInfo, wait_loop, discover}
use pyaseba.Discovery.Found.{discover-wait_loop}

abbrev thymio : ServiceInfo
thymio = record {
  kind = some (text "Thymio II");
  port = 33333;
  addresses = (true, text "127.0.0.1") ∷ (false, text "192.168.1.7") ∷ [];
}

abbrev looks : ℕ → List Text
looks k = if ltb k 2 then [] else text "tcp:" ∷ []

discover-wait_loop_example :
    let n = wait_loop looks 1 100 0 in
    (discover looks 1 100 ≡ looks n) × (n ≤ 100) × ((n ≡ 100) ⊎ (1 ≤ length (discover looks 1 100)))
discover-wait_loop_example = discover-wait_loop looks 1 100
