-- ===== src/Thymio/Tests.antt =====
-- Runs of a Thymio's methods, and the theorems about them at sample states.
use pyaseba.Base.{
  ◌≡◌, refl, none, true, false, List, [], ◌∷◌, arith, text, text_eq, int_eq, ℤ, pos, negsuc,
  contains, ◌||◌,
}
use pyaseba.Base.Dicts.{lookup}
use pyaseba.Base.Heap.{Ref, read, next}
use pyaseba.Base.Results.{ok, err, type_error}
use pyaseba.Client.{Call}
use pyaseba.Node.State.{ProxComm, World, the_client, words_at}
use pyaseba.Node.Cache.{get}
use pyaseba.Node.Connect.{close, set_controller}
use pyaseba.Utils.{Finder, matches}
use pyaseba.Base.Texts.{has_substring}
use pyaseba.Thymio.Async.{thymio_async_overrides, set_controller-thymio_async_overrides}
use pyaseba.Thymio.Construct.{
  SharedLists, construct, construct_all, enable_line, thymio_class, construct_all-matches,
}
use pyaseba.Node.Samples.{steady_client, node, quiet}
use pyaseba.Thymio.{
  update_prox_counter, update_prox_comm_buffer, thymio_overrides, set_control_period,
}
use pyaseba.Thymio.Messages.{append_all, kept, update_prox_comm_buffer-append_all}
use pyaseba.Base.Doubles.{nearest, times, scale_up}
use pyaseba.Thymio.Motors.{close_calls, close-stop, set_control_period_timer}

-- Behind the `prox` event 40.
abbrev counting : ProxComm
counting = record quiet { should_record = true; counter = pos 40 }

abbrev full : ProxComm
full = record quiet { counter = pos 32767 }

-- The word after 32767 is -32768: the counter stays, although a `prox` event has passed.
counter_wrap : (update_prox_counter (negsuc 32767) full).counter ≡ pos 32767
unfolding update_prox_counter
counter_wrap = refl

abbrev messages : List (ℤ × Ref)
messages = (pos 7, 0) ∷ (pos 9, 1) ∷ (pos 7, 2) ∷ []

update_prox_comm_buffer-append_all_example :
    ((update_prox_comm_buffer (pos 41) (append_all (pos 41) messages counting)).buffer ≡ messages)
    × ((update_prox_comm_buffer (pos 41) (append_all (pos 41) messages counting)).next_buffers ≡ [])
unfolding kept lookup update_prox_counter
update_prox_comm_buffer-append_all_example =
    update_prox_comm_buffer-append_all (pos 41) messages counting refl

close-stop_example :
    let out = close (thymio_overrides steady_client) false node in
    (out.0 ≡ ok tt)
    × (out.1.calls ≡ close_calls 1 node)
    × (out.1.mirroring ≡ none)
    × (out.1.client ≡ none)
    × (out.1.connection ≡ 0)
close-stop_example = close-stop steady_client 1 node refl

abbrev timed : World
timed = record node { variable_values = (text "timer.period", 0) ∷ [] }

set_control_period_timer_example :
    let out = set_control_period steady_client (pos 100000) (text "timer1") timed in
    (out.0 ≡ ok tt)
    × (out.1.calls
        ≡ (1, Call.set_variable (pos 5) (text "timer.period") (pos 7 ∷ pos 100 ∷ []) (2 ∷ [])) ∷ [])
unfolding get the_client words_at lookup read next text_eq nearest times scale_up
set_control_period_timer_example =
    set_control_period_timer steady_client 1 100000 (text "timer1") timed timed 0 (pos 7) (pos 8) []
      refl refl refl (omega arith) refl

set_controller-thymio_async_overrides_example :
    set_controller thymio_async_overrides thymio_class 3 (pos 100000) [] node
    ≡ (err type_error, node)
unfolding text_eq
set_controller-thymio_async_overrides_example =
    set_controller-thymio_async_overrides thymio_class 3 (pos 100000) [] node refl

abbrev finds_leds : Finder
unfolding has_substring
finds_leds pattern name = has_substring pattern name

abbrev no_lists : SharedLists
no_lists = record { function_include = []; script_inits = [] }

construct_all-matches_example :
    let first = construct (text "leds.top" ∷ []) false no_lists in
    let all = construct_all (text "leds.top" ∷ []) (false ∷ true ∷ []) first in
    (matches finds_leds (text "leds.top") all.function_include []
      ≡ matches finds_leds (text "leds.top") first.function_include [])
    × (contains all.script_inits enable_line ≡ (contains first.script_inits enable_line || true))
construct_all-matches_example =
    construct_all-matches finds_leds (text "leds.top" ∷ []) false (false ∷ true ∷ []) no_lists
      (text "leds.top") []
