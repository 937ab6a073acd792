-- ===== src/SimpleNode/Tests.antt =====
-- A node whose variables are a dict, and which has one event.
use pyaseba.Base.{
  ℕ, suc, ◌≡◌, refl, none, some, Option, Bool, List, [], ◌∷◌, Text, text, text_eq, ℤ, pos, Dict,
  arith, ap, ◌==◌, if◌then◌else◌,
}
use pyaseba.Base.Dicts.{lookup, insert, lookup-insert_self, lookup-insert_ne}
use pyaseba.SimpleNode.{NetworkNode, counter, init, spin}
use pyaseba.SimpleNode.Ticks.{IsNetworkNode, counter-spin}

abbrev words_or_none : Option (List ℤ) → List ℤ
words_or_none none = []
words_or_none (some words) = words

abbrev Simulated : Type 0
Simulated = Dict Text (List ℤ) × ℕ

abbrev has_event : Text → Simulated → Bool
has_event event s = event == text "event"

abbrev has_word : Text → Simulated → Bool
has_word name s = name == text "counter"

-- Another event is not emitted.
abbrev simulated : NetworkNode Simulated
simulated = record {
  get = λ name s. words_or_none (lookup name s.0);
  set = λ name words s. (insert name words s.0, s.1);
  emit = λ event s. if has_event event s then (s.0, suc s.1) else s;
}

abbrev events_of : Simulated → ℕ
events_of s = s.1

simulated-IsNetworkNode : IsNetworkNode simulated has_word has_event events_of
simulated-IsNetworkNode = record {
  get-set = λ name n s d h. ap words_or_none (lookup-insert_self name (pos n ∷ []) s.0);
  get-set_ne = λ name other x s h. ap words_or_none (lookup-insert_ne name other (x ∷ []) s.0 h);
  get-emit = λ name event s h. rw h refl;
  emitted-set = λ name x s. refl;
  emitted-emit = λ event s h. rw h refl;
  declared-set = λ name other x s. refl;
  declared-emit = λ name event s. refl;
  raises-set = λ event name x s. refl;
  raises-emit = λ event s h. h;
}

counter-spin_example :
    (counter simulated (spin simulated 100 (init simulated ([], 7))) ≡ pos 100)
    × (events_of (spin simulated 100 (init simulated ([], 7))) ≡ 107)
unfolding text_eq
counter-spin_example =
    counter-spin simulated has_word has_event events_of simulated-IsNetworkNode 100 ([], 7) refl
      refl (omega arith)
