-- ===== src/Examples/Behavior.antt =====
-- examples/thymio/node/behavior.py: runs behaviors of the package `thymio_behaviors` on a Thymio.
-- The chain of the selected behaviors, and what happens until the user interrupts the program, are
-- parameters.
use pyaseba.Base.{
  ℕ, ◌≡◌, refl, ◌∙◌, ap, Bool, true, false, Option, none, some, List, [], ◌∷◌, ◌++◌, Text, text,
  text_eq, ◌==◌, Dict, ℤ, pos, negsuc, if◌then◌else◌, arith,
}
use pyaseba.Base.Heap.{Heap}
use pyaseba.Base.Dicts.{insert}
use pyaseba.Base.Results.{Result, ok, err, value_error, assertion_error}
use pyaseba.Base.Results
use pyaseba.Utils.{Finder}
use pyaseba.Mirroring.{EventSpecUpdate, configure_events}
use pyaseba.Client.{Client}
use pyaseba.Node.State.{World, Action, the_client, bind-ok, ◌>>=◌, ◌>>◌}
use pyaseba.Node.Events.{call}
use pyaseba.Node.Connect.{connect, close, set_controller, when}
use pyaseba.Node.Refused.{connect-refused}
use pyaseba.Node.Construct.{new_node}
use pyaseba.Thymio.{thymio_overrides}
use pyaseba.Thymio.Construct.{thymio_config, thymio_functions, thymio_class}

-- The behaviors that the program can select, each a class of `thymio_behaviors`.
pub data Behavior : Type 0 where
  explorer follower line_following led_prox acc led_acc led_prox_comm led_buttons sound_buttons :
      Behavior

-- What the loop over the names collects.
pub record Selection : Type 0 where
  pub enable_prox_comm : Bool
  pub events : Dict Text EventSpecUpdate
  pub behaviors : List Behavior

-- `{'window': 1}`
abbrev pub window_update : EventSpecUpdate
window_update = record {
  variables = none;
  use_counter = none;
  external_counter = none;
  window = some (pos 1);
}

abbrev pub add : Behavior → Selection → Selection
add b s = record s { behaviors = s.behaviors ++ b ∷ [] }

abbrev pub with_prox_comm : Selection → Selection
with_prox_comm s = record s { enable_prox_comm = true }

unfoldable pub with_acc : Selection → Selection
unfolding insert text_eq
with_acc s = record s { events = insert (text "acc") window_update s.events }

-- A round of the loop over the names.
unfoldable pub select : Text → Selection → Result Selection
unfolding text_eq
select name s =
    if name == text "explorer"
    then ok (add explorer s)
    else if name == text "follower"
    then ok (with_prox_comm (add follower s))
    else if name == text "line"
    then ok (add line_following s)
    else if name == text "prox"
    then ok (add led_prox s)
    else if name == text "acc"
    then ok (with_acc (add acc s))
    else if name == text "led_acc"
    then ok (with_acc (add led_acc s))
    else if name == text "prox_comm"
    then ok (with_prox_comm (add led_prox_comm s))
    else if name == text "led_buttons"
    then ok (add led_buttons s)
    else if name == text "sound_buttons"
    then ok (add sound_buttons s)
    else err value_error

unfoldable pub select_all : List Text → Selection → Result Selection
select_all [] s = ok s
select_all (name ∷ names) s = Results.◌>>=◌ (select name s) (select_all names)

abbrev pub nothing_selected : Selection
nothing_selected = record { enable_prox_comm = false; events = []; behaviors = [] }

-- `if not behaviors: raise ValueError`
abbrev pub some_behavior : Selection → List Behavior → Result Selection
some_behavior s [] = err value_error
some_behavior s (b ∷ bs) = ok s

unfoldable pub chosen : List Text → Result Selection
chosen names = Results.◌>>=◌ (select_all names nothing_selected) (λ s. some_behavior s s.behaviors)

abbrev pub enabled : Bool → ℤ
enabled true = pos 1
enabled false = pos 0

module _ (client : Client) (finds : Finder) (chain : List Behavior → ℕ)
    (until_interrupted : Action (Unit {0})) where
  -- `Thymio(record_prox_comm=...)`, and the configured events.
  unfoldable pub make_thymio : Selection → Heap ℤ → World
  unfolding configure_events
  make_thymio s heap =
      let w = new_node thymio_config thymio_functions false heap [] in
      record w {
        prox_comm = record w.prox_comm { should_record = s.enable_prox_comm };
        mirroring_config = record w.mirroring_config {
          events = configure_events s.events w.mirroring_config.events;
        };
      }

  -- The branch for a Thymio that is connected.
  unfoldable pub behave : Selection → Action (Unit {0})
  behave s = do
    call (text "prox.comm.enable") (enabled s.enable_prox_comm ∷ [])
    set_controller (thymio_overrides client) thymio_class (chain s.behaviors) (pos 100000) []
    until_interrupted
    call (text "leds.buttons") (pos 0 ∷ pos 0 ∷ pos 0 ∷ pos 0 ∷ [])

  unfoldable pub drive : Text → Selection → Action (Unit {0})
  drive target s = do
    connected ←
        connect client finds thymio_class (thymio_overrides client) none target [] 5000 3 (negsuc 0)
          true
    when connected (behave s)
    close (thymio_overrides client) true

  abbrev pub main_of : Text → Heap ℤ → Result Selection → Result (Unit {0}) × Option World
  main_of target heap (err e) = (err e, none)
  main_of target heap (ok s) = let (r, w) = drive target s (make_thymio s heap) in (r, some w)

  -- `main`, with the Thymio that it has made, if it has come to that.
  unfoldable pub main : Text → List Text → Heap ℤ → Result (Unit {0}) × Option World
  main target names heap = main_of target heap (chosen names)

  -- If no Thymio can be connected, the program ends with an `AssertionError`: the client, which
  -- `close` asserts, has been dropped.
  pub main-refused :
      (target : Text) (names : List Text) (heap : Heap ℤ) (s : Selection)
      → chosen names ≡ ok s
      → (connect client finds thymio_class
          (thymio_overrides client)
          none
          target
          []
          5000
          3
          (negsuc 0)
          true
          (make_thymio s heap)).0
        ≡ ok false
      → (main target names heap).0 ≡ err assertion_error
  unfolding main drive close the_client make_thymio new_node
  main-refused target names heap s e refused =
      let w = make_thymio s heap in
      let (calls, e') =
        connect-refused client finds thymio_class (thymio_overrides client) target [] 5000 3
          (negsuc 0) true w refl refl refused in
      let stops =
        bind-ok
          (connect client finds thymio_class (thymio_overrides client) none target [] 5000 3
            (negsuc 0) true)
          (λ connected. when connected (behave s) >> close (thymio_overrides client) true) w false
          (record w { calls = calls }) e' in
      ap (λ r. (main_of target heap r).0) e ∙ ap (λ (out : Result (Unit {0}) × World). out.0) stops

-- The texts of one character each, which Python iterates over in a text.
abbrev pub characters : Text → List Text
characters [] = []
characters (c ∷ t) = (c ∷ []) ∷ characters t

select_character : (c : ℕ) (s : Selection) → select (c ∷ []) s ≡ err value_error
unfolding select
select_character c s = ground arith

-- A text in the place of the list of names, as the default `"explorer"` of the option is, raises
-- a `ValueError`: its characters are no names of behaviors.
chosen-characters : (t : Text) → chosen (characters t) ≡ err value_error
unfolding chosen select_all
chosen-characters [] = refl
chosen-characters (c ∷ t) = rw (select_character c nothing_selected) refl
