-- ===== src/Thymio/Async.antt =====
-- pyaseba/client/thymio/thymio.py: the class `ThymioAsync`, whose `get` is the coroutine of
-- `NodeAsync`, and the construction of a Thymio.
use pyaseba.Base.{
  ℕ, zero, ◌≡◌, refl, List, if◌then◌else◌, ap, true, false, ◌&&◌, none, some, [], ◌∷◌, Text, text,
  text_eq, contains, ℤ, pos, arith, Bool-cases, inl, inr,
}
use pyaseba.Base.Int.{leb_ℤ, ltb_ℤ}
use pyaseba.Base.Results.{Error, Result, ok, err, type_error}
use pyaseba.Mirroring.{is_empty}
use pyaseba.Node.State.{
  World, Action, Callback, NodeClass, pure, raise, skip, new_list, words_at, ◌>>=◌, ◌>>◌,
}
use pyaseba.Node.Cache.{Got, word, list_at, sequence, set}
use pyaseba.Node.Events.{or_name, set_callback}
use pyaseba.Node.Connect.{Overrides, when, set_controller}
use pyaseba.Thymio.{stop, milliseconds, timer_index, write_period}

-- What a call `self.get(...)` is for the code of `Thymio`: an integer or a list, or the coroutine
-- object that a call of a coroutine function makes.
pub data Gotten : Type 0 where
  value : Got → Gotten
  coroutine : Gotten

-- `NodeAsync.get`, called but not awaited: nothing of its body runs.
abbrev pub get_object : Text → Action Gotten
get_object name = pure coroutine

-- `x or [0, 0]`: an object without a length counts as true.
unfoldable pub or_zeros : Gotten → Action Gotten
unfolding new_list words_at
or_zeros coroutine = pure coroutine
or_zeros (value (word (pos zero))) = new_list (pos 0 ∷ pos 0 ∷ []) >>= λ r. pure (value (list_at r))
or_zeros (value (word x)) = pure (value (word x))
or_zeros (value (list_at r)) = do
  words ← words_at r
  if is_empty words
      then (new_list (pos 0 ∷ pos 0 ∷ []) >>= λ r'. pure (value (list_at r')))
      else pure (value (list_at r))

-- `x[i] = steps`: neither an integer nor a coroutine object has items.
unfoldable pub set_item : Gotten → ℕ → ℤ → Action (Unit {0})
unfolding write_period
set_item coroutine i steps = raise type_error
set_item (value (word x)) i steps = raise type_error
set_item (value (list_at r)) i steps = write_period i steps r

-- The words that `set` takes from its argument, which it would iterate over.
unfoldable pub iterated_words : Gotten → Action (List ℤ)
unfolding words_at
iterated_words coroutine = raise type_error
iterated_words (value (word x)) = pure (x ∷ [])
iterated_words (value (list_at r)) = words_at r

-- The body of `Thymio.set_control_period`, with the `get` of a `ThymioAsync`.
unfoldable pub set_timer_period_async : ℤ → Text → Action (Unit {0})
unfolding or_zeros set_item iterated_words
set_timer_period_async time_step event = do
  let steps = milliseconds time_step
  found ← get_object (text "timer.period")
  periods ← or_zeros found
  set_item periods (timer_index event) steps
  words ← iterated_words periods
  set (text "timer.period") (sequence words) (some false)

-- `Thymio.set_control_period` of a `ThymioAsync`.
unfoldable pub set_control_period_async : ℤ → Text → Action (Unit {0})
unfolding text_eq set_timer_period_async
set_control_period_async time_step event =
    when (leb_ℤ (pos 0) time_step && contains (text "timer0" ∷ text "timer1" ∷ []) event)
      (set_timer_period_async time_step event)

-- The methods of a `ThymioAsync` in place of the ones of a `NodeAsync`.
abbrev pub thymio_async_overrides : Overrides
thymio_async_overrides = record {
  setup = skip;
  stop = stop;
  set_control_period = set_control_period_async;
}

timer_is_empty :
    (name : Text)
    → contains (text "timer0" ∷ text "timer1" ∷ []) name ≡ true
    → is_empty name ≡ false
unfolding text_eq
timer_is_empty [] h = cc
timer_is_empty (c ∷ name) h = refl

-- What raises ends a sequence.
bind-err :
    {A B : Type 0} (m : Action A) (f : A → Action B) (w : World) (e : Error)
    → m w ≡ (err e, w)
    → (m >>= f) w ≡ (err e, w)
bind-err {A} {B} m f w e h =
    ap
      (λ (p : Result A × World).
        let x : Result B × World = elim p.0 [ ok b ↦ f b p.1 | err e' ↦ raise e' p.1 ] in x)
      h

timer_fails :
    (t : ℤ) (event : Text) (w : World)
    → leb_ℤ (pos 0) t ≡ true
    → contains (text "timer0" ∷ text "timer1" ∷ []) event ≡ true
    → set_control_period_async t event w ≡ (err type_error, w)
unfolding set_control_period_async set_timer_period_async or_zeros set_item
timer_fails t event w h k = rw (h, k) refl

-- On a `ThymioAsync`, `set_controller` with any time step and one of the two timers as its event,
-- given or by default, raises a `TypeError`: no controller is registered or removed, and nothing is
-- sent.
pub set_controller-thymio_async_overrides :
    (class : NodeClass) (callback : ℕ) (time_step : ℤ) (event : Text) (w : World)
    → contains (text "timer0" ∷ text "timer1" ∷ []) (or_name event class.control_event) ≡ true
    → set_controller thymio_async_overrides class callback time_step event w ≡ (err type_error, w)
unfolding set_controller
set_controller-thymio_async_overrides class callback time_step event w timer =
    let name = or_name event class.control_event in
    elim (Bool-cases (ltb_ℤ (pos 0) time_step)) [
      | inl positive ↦
          rw (timer_is_empty name timer, positive)
            (bind-err (set_control_period_async time_step name)
              (λ _. set_callback name (some (Callback.control callback time_step))) w type_error
              (timer_fails time_step name w (ground arith) timer))
      | inr other ↦
          rw (timer_is_empty name timer, other)
            (bind-err (set_control_period_async (pos 0) name) (λ _. set_callback name none) w
              type_error (timer_fails (pos 0) name w refl timer))
    ]
