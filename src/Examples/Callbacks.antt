-- ===== src/Examples/Callbacks.antt =====
-- examples/thymio/node/callbacks_sync.py: two callbacks of a Thymio, and the program that waits for
-- one of them. The attribute of each callback object is a list object of the heap that holds 0 or
-- 1. What arrives while the program waits is a list of the events of each second.
pub mod Unheard
use pyaseba.Base.{
  ℕ, ◌≡◌, ◌≢◌, ◌<◌, ◌≤◌, refl, sym, ◌∙◌, ap, Bool, true, false, not, ◌||◌, Option, none, some, List,
  [], ◌∷◌, ◌++◌, Text, text, text_eq, int_eq, ◌==◌, Dict, ℤ, pos, negsuc, if◌then◌else◌, ◌=ℕ◌,
  arith,
}
use pyaseba.Base.Int.{ltb_ℤ}
use pyaseba.Base.Heap.{Ref, Heap, read, write, next, alloc}
use pyaseba.Base.Dicts.{lookup, insert}
use pyaseba.Base.Results.{Result, ok, err, type_error}
use pyaseba.Utils.{Finder}
use pyaseba.Description.{Event}
use pyaseba.Mirroring.{is_empty}
use pyaseba.Client.{Client, History}
use pyaseba.Node.State.{World, Action, Callback, pure, raise, new_list, words_at, skip, ◌>>=◌, ◌>>◌}
use pyaseba.Node.Cache.{Got, word, list_at, sync}
use pyaseba.Node.Events.{UserCode, call, set_callback, event_cb}
use pyaseba.Node.Connect.{connect, close, when}
use pyaseba.Node.Construct.{new_node}
use pyaseba.Node.Exposed.{integer, list_object, get_property, set_property}
use pyaseba.Thymio.{thymio_overrides, extra_event_cb}
use pyaseba.Thymio.Construct.{thymio_config, thymio_functions, thymio_class}

-- `any(v < 100 for v in ...)`
abbrev pub any_below : List ℤ → Bool
any_below [] = false
any_below (v ∷ vs) = ltb_ℤ v (pos 100) || any_below vs

-- The words that are iterated over; an integer cannot be.
abbrev pub iterated : Got → Action (List ℤ)
iterated (word x) = raise type_error
iterated (list_at r) = words_at r

-- Whether a value counts as true.
abbrev pub truth : Got → Action Bool
unfolding int_eq
truth (word x) = pure (not (x == pos 0))
truth (list_at r) = words_at r >>= λ words. pure (not (is_empty words))

abbrev is_set : List ℤ → Bool
unfolding int_eq
is_set [] = false
is_set (x ∷ xs) = x == pos 1

-- The attribute of a callback object.
unfoldable pub flag : Ref → Action Bool
unfolding words_at int_eq
flag r = words_at r >>= λ words. pure (is_set words)

abbrev pub flag_word : Bool → List ℤ
flag_word true = pos 1 ∷ []
flag_word false = pos 0 ∷ []

unfoldable pub put_flag : Ref → Bool → Action (Unit {0})
unfolding write
put_flag r b w = (ok tt, record w { heap = write w.heap r (flag_word b) })

-- The targets of the two motors, and the color of the top, as properties.
unfoldable pub drive_with : ℤ → List ℤ → Action (Unit {0})
unfolding new_list set_property
drive_with speed color = do
  set_property (text "motor.left.target") (integer speed)
  set_property (text "motor.right.target") (integer speed)
  leds ← new_list color
  set_property (text "leds.top") (list_object leds)

abbrev pub leds_buttons : ℤ → Action (Unit {0})
leds_buttons x = call (text "leds.buttons") (x ∷ pos 0 ∷ pos 0 ∷ pos 0 ∷ [])

-- `Control.__call__`
unfoldable pub control : Ref → Action (Unit {0})
unfolding get_property sync put_flag
control done = do
  delta ← get_property (text "prox.ground.delta")
  words ← iterated delta
  when (any_below words)
      (drive_with (pos 0) (pos 32 ∷ pos 0 ∷ pos 0 ∷ []) >> sync >> put_flag done true)

-- The two branches of `Switch.__call__`, by its attribute.
unfoldable pub switched : Bool → Action (Unit {0})
switched true = drive_with (pos 0) (pos 0 ∷ pos 0 ∷ pos 0 ∷ []) >> leds_buttons (pos 0)
switched false = drive_with (pos 100) (pos 32 ∷ pos 32 ∷ pos 0 ∷ []) >> leds_buttons (pos 32)

-- `Switch.__call__`
unfoldable pub switch : Ref → Action (Unit {0})
unfolding get_property sync put_flag flag
switch moving = do
  button ← get_property (text "button.forward")
  pressed ← truth button
  when pressed (do b ← flag moving; switched b; put_flag moving (not b); sync)

-- The code that the node runs for events: 0 is the control, and any other number the switch.
abbrev pub code_of : Ref → Ref → UserCode
code_of done moving = record {
  extra_event_cb = extra_event_cb;
  on_event = λ f. if f =ℕ 0 then control done else switch moving;
  on_control = λ f time_step. skip;
}

-- The test of the loop, and what follows if it goes on.
abbrev pub or_later : Result Bool × World → Result Bool × World → Result Bool × World
or_later (ok true, w) later = (ok true, w)
or_later (ok false, w) later = later
or_later (err e, w) later = (err e, w)

module _ (done moving : Ref) where
  -- The events of a second; an exception of a callback does not end the program.
  unfoldable pub arrive : List Event → World → World
  arrive [] w = w
  arrive (e ∷ events) w = arrive events (event_cb (code_of done moving) sync e w).1

  -- `while not control.done: time.sleep(1)`, and whether the loop has ended within these seconds.
  unfoldable pub wait_done : List (List Event) → Action Bool
  unfolding flag
  wait_done [] w = flag done w
  wait_done (second ∷ seconds) w =
      let later = wait_done seconds (arrive second w) in or_later (flag done w) later

-- The callbacks that `main` sets.
unfoldable pub register : Action (Unit {0})
unfolding set_callback
register = do
  set_callback (text "prox") (some (Callback.user 0))
  set_callback (text "button.forward") (some (Callback.user 1))

module _ (client : Client) (finds : Finder) where
  -- What is done once the loop has ended.
  abbrev pub finish : Action (Unit {0})
  finish = leds_buttons (pos 0)

  -- `main`, and whether it has ended within the given seconds of waiting.
  unfoldable pub main : Text → List (List Event) → Action Bool
  unfolding new_list register
  main target seconds = do
    done ← new_list (flag_word false)
    moving ← new_list (flag_word false)
    register
    connected ←
        connect client finds thymio_class (thymio_overrides client) none target [] 5000 3 (negsuc 0)
          true
    ended ←
        if connected
        then (do ended ← wait_done done moving seconds; when ended finish; pure ended)
        else pure true
    when ended (close (thymio_overrides client) true)
    pure ended
