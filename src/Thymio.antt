-- ===== src/Thymio.antt =====
-- pyaseba/client/thymio/thymio.py: what a `Thymio` adds to a `Node`. It keeps the `prox.comm`
-- messages that arrive between two `prox` events, stops its motors, and sets the period of the
-- timer that triggers a controller.
pub mod Counter
pub mod Messages
pub mod Motors
pub mod Async
pub mod Construct
mod Tests
use pyaseba.Base.{
  ℕ, zero, suc, Bool, true, false, ◌&&◌, Option, none, some, List, [], ◌∷◌, ◌++◌, Text, text,
  text_eq, int_eq, ◌==◌, contains, if◌then◌else◌, ℤ, pos, negsuc,
}
use pyaseba.Base.Int.{◌+ℤ◌, ◌-ℤ◌, leb_ℤ, mod_ℤ}
use pyaseba.Base
use pyaseba.Base.Dicts.{lookup, lookup_or, insert}
use pyaseba.Base.Doubles.{nearest, times, truncated}
use pyaseba.Base.Heap.{Ref, read, write}
use pyaseba.Base.Results.{key_error, index_error, type_error, ok}
use pyaseba.Description.{Event}
use pyaseba.Mirroring.{is_empty}
use pyaseba.Client.{Client}
use pyaseba.Node.State.{
  Action, NodeClass, ProxComm, pure, raise, gets, or_raise, modify, skip, new_list, words_at, ◌>>=◌,
  ◌>>◌,
}
use pyaseba.Node.Cache.{Got, word, list_at, scalar, sequence, set, sync, get}
use pyaseba.Node.Connect.{Overrides, when, set_controller}
use pyaseba.Node.Connect

-- The setter of `record_prox_comm`.
unfoldable pub set_record_prox_comm : Bool → ProxComm → ProxComm
set_record_prox_comm true p = record p { should_record = true }
set_record_prox_comm false p = record p { should_record = false; buffer = []; next_buffers = [] }

-- `_update_prox_counter`, which returns the new counter.
unfoldable pub update_prox_counter : ℤ → ProxComm → ProxComm
update_prox_counter counter p = record p {
  counter = p.counter +ℤ pos (mod_ℤ (counter -ℤ p.counter) 65535);
}

-- `_append_to_prox_comm_buffer` behind the update of the counter.
unfoldable pub append_at : ℤ → ℤ × Ref → Option (List (ℤ × Ref)) → ProxComm → ProxComm
unfolding int_eq
append_at counter message none p = record p {
  buffer = lookup_or (counter -ℤ pos 1) p.buffer p.next_buffers;
  next_buffers = (counter, message ∷ []) ∷ [];
}
append_at counter message (some messages) p = record p {
  next_buffers = insert counter (messages ++ message ∷ []) p.next_buffers;
}

-- `_append_to_prox_comm_buffer`
unfoldable pub append_to_prox_comm_buffer : ℤ → ℤ × Ref → ProxComm → ProxComm
unfolding int_eq
append_to_prox_comm_buffer counter message p =
    let p' = update_prox_counter counter p in
    append_at p'.counter message (lookup p'.counter p'.next_buffers) p'

-- `_update_prox_comm_buffer`
unfoldable pub update_prox_comm_buffer : ℤ → ProxComm → ProxComm
unfolding int_eq
update_prox_comm_buffer counter p =
    let p' = update_prox_counter counter p in
    record p' { buffer = lookup_or p'.counter [] p'.next_buffers; next_buffers = [] }

-- `xs[-1]`
abbrev pub last : List ℤ → Option ℤ
last [] = none
last (x ∷ []) = some x
last (_ ∷ y ∷ xs) = last (y ∷ xs)

-- `xs[0]`
abbrev pub first : List ℤ → Option ℤ
first [] = none
first (x ∷ xs) = some x

abbrev pub on_prox_comm : (ProxComm → ProxComm) → Action (Unit {0})
on_prox_comm f = modify (λ w. record w { prox_comm = f w.prox_comm })

-- The branch of `_extra_event_cb` for `event_prox.comm`.
unfoldable pub record_message : Event → Action (Unit {0})
unfolding text_eq words_at
record_message event = do
  held ← gets (λ w. lookup (text "prox.comm.rx") w.variable_values)
  rx ← or_raise held key_error
  found ← gets (λ w. lookup (text "prox.comm.rx._intensities") w.variable_values)
  intensities ← or_raise found key_error
  counter ← or_raise (last event.words) index_error
  words ← words_at rx
  value ← or_raise (first words) index_error
  on_prox_comm (append_to_prox_comm_buffer counter (value, intensities))

-- The branch of `_extra_event_cb` for `event_prox`.
unfoldable pub close_round : Event → Action (Unit {0})
close_round event = do
  counter ← or_raise (last event.words) index_error
  on_prox_comm (update_prox_comm_buffer counter)

-- `_extra_event_cb`
unfoldable pub extra_event_cb : Event → Action (Unit {0})
unfolding text_eq
extra_event_cb event w =
    (if w.prox_comm.should_record
        then (when (event.name == text "event_prox.comm") (record_message event)
            >> when (event.name == text "event_prox") (close_round event))
        else skip)
      w

-- `Thymio.stop`
unfoldable pub stop : Action (Unit {0})
stop = do
  Connect.stop
  set (text "motor.left.target") (scalar (pos 0)) (some false)
  set (text "motor.right.target") (scalar (pos 0)) (some false)

-- `self.get("timer.period") or [0, 0]`, as the list object to write into; an integer other than 0
-- is none.
unfoldable pub periods_list : Got → Action Ref
unfolding new_list words_at
periods_list (word (pos zero)) = new_list (pos 0 ∷ pos 0 ∷ [])
periods_list (word _) = raise type_error
periods_list (list_at r) = do
  words ← words_at r
  if is_empty words then new_list (pos 0 ∷ pos 0 ∷ []) else pure r

-- `periods[i] = steps`, in place.
unfoldable pub write_period : ℕ → ℤ → Ref → Action (Unit {0})
unfolding read write
write_period i steps r w =
    (ok tt, record w { heap = write w.heap r (Base.set (read w.heap r) i steps) })

-- `int(time_step * 1000)`, for the floating-point number next to a number of microseconds. The code
-- asks for no product of a negative one.
abbrev pub milliseconds : ℤ → ℤ
milliseconds (pos n) = pos (truncated (times 1000 (nearest n 1000000)))
milliseconds (negsuc n) = negsuc n

-- The index of the timer that triggers the event.
abbrev pub timer_index : Text → ℕ
unfolding text_eq
timer_index event = if event == text "timer0" then 0 else 1

module _ (client : Client) where
  unfoldable pub set_timer_period : ℤ → Text → Action (Unit {0})
  unfolding words_at text_eq
  set_timer_period time_step event = do
    found ← get client (text "timer.period") 1000 none
    r ← periods_list found
    write_period (timer_index event) (milliseconds time_step) r
    words ← words_at r
    set (text "timer.period") (sequence words) (some false)

  -- `Thymio.set_control_period`
  unfoldable pub set_control_period : ℤ → Text → Action (Unit {0})
  unfolding text_eq
  set_control_period time_step event =
      when (leb_ℤ (pos 0) time_step && contains (text "timer0" ∷ text "timer1" ∷ []) event)
        (set_timer_period time_step event)

  -- The methods of `Thymio` in place of the ones of `Node`.
  abbrev pub thymio_overrides : Overrides
  thymio_overrides = record { setup = skip; stop = stop; set_control_period = set_control_period }

  -- `Thymio.set_behavior`
  unfoldable pub set_behavior : NodeClass → ℕ → ℤ → Text → Action (Unit {0})
  set_behavior class behavior time_step event =
      set_controller thymio_overrides class behavior time_step event

-- `Thymio.apply`, for a callback with its arguments.
unfoldable pub apply : Action (Unit {0}) → Action (Unit {0})
apply callback = callback >> sync
