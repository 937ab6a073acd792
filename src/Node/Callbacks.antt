-- ===== src/Node/Callbacks.antt =====
-- Callbacks by name, and the events that `call` emits.
use pyaseba.Base.{
  ℕ, ◌≡◌, Bool, true, false, ◌&&◌, Option, none, some, List, [], ◌∷◌, ◌++◌, arith, Text, text_eq,
  ◌==◌, if◌then◌else◌, ℤ, pos, Bool-cases, inl, inr, refl, ap, ◌∙◌, map, length,
}
use mathlib.Core.List.{append-nil}
use pyaseba.Base.Dicts.{lookup, lookup-insert, lookup-erase, has_key, NodupKeys}
use pyaseba.Base.Results.{Result, ok}
use pyaseba.Utils.{Finder, matches}
use pyaseba.Description.{Description}
use pyaseba.Mirroring.{Mirroring, MirroringConfig, mirror, function_event}
use pyaseba.Mirroring.Code.{argument_slices}
use pyaseba.Mirroring.Slices.{cut, flat, cut-argument_slices}
use pyaseba.Mirroring.Answers.{mirror-names}
use pyaseba.Client.{Call, History}
use pyaseba.Node.State.{World, Callback, here, the_client, perform}
use pyaseba.Node.Events.{event_name, set_callback, get_callback, call, call_event}

-- After `set_callback`, every name of the same event, the local or the user one, leads to the new
-- callback, or to none if it was removed; all other names keep theirs.
get_callback-set_callback :
    (j name : Text) (cb : Option Callback) (w : World)
    → get_callback j (set_callback name cb w).1
      ≡ (if event_name w.mirroring j == event_name w.mirroring name then cb else get_callback j w)
unfolding get_callback set_callback
get_callback-set_callback j name none w =
    lookup-erase (event_name w.mirroring j) (event_name w.mirroring name) w.event_callbacks
get_callback-set_callback j name (some cb) w =
    lookup-insert (event_name w.mirroring j) (event_name w.mirroring name) cb w.event_callbacks

-- The calls that a call of a native function makes.
abbrev pub call_calls : ℕ → World → Text → List ℤ → Bool → History
call_calls c w name args true =
    (c, Call.emit_event w.node_id (function_event name) (w.node_id_int16 ∷ args) (here w)) ∷ []
call_calls c w name args false = []

module _ (finds : Finder) (config : MirroringConfig) where
  -- On a node that mirrors with a constructed `Mirroring`, `call` returns and emits exactly one
  -- event, `call_<name>` with the node's identifier in front of the arguments, if the description
  -- has the function and the configured patterns select it; otherwise it emits nothing. Nothing
  -- else changes.
  pub call-mirrored :
      (description : Description) (m : Mirroring) (c : ℕ) (w : World) (name : Text) (args : List ℤ)
      → NodupKeys config.events
      → mirror finds description config ≡ ok m
      → w.mirroring ≡ some m
      → w.client ≡ some c
      → call name args w ≡ (
        ok tt,
        record w {
          calls =
              w.calls
              ++ call_calls c w name args (
                  has_key name description.functions
                  && matches finds name config.function_include config.function_exclude);
        },
      )
  unfolding call the_client call_event perform
  call-mirrored description m c w name args distinct built mirrored h =
      let e = (mirror-names finds config description name m distinct built).1 in
      let selected =
        has_key name description.functions
        && matches finds name config.function_include config.function_exclude in
      elim (Bool-cases selected) [
        | inl s ↦ ground (arith, e)
        | inr s ↦ ground (arith, e, append-nil w.calls)
      ]

  pub call-cut :
      (description : Description) (m : Mirroring) (c : ℕ) (w : World) (name doc : Text)
      (vs : List (Text × ℤ)) (arguments : List (List ℤ))
      → NodupKeys config.events
      → mirror finds description config ≡ ok m
      → w.mirroring ≡ some m
      → w.client ≡ some c
      → lookup name description.functions ≡ some (doc, vs)
      → map (λ (v : Text × ℤ). v.1) vs ≡ map pos (map length arguments)
      → matches finds name config.function_include config.function_exclude ≡ true
      → let payload = w.node_id_int16 ∷ flat arguments in
        ((call name (flat arguments) w).1.calls
          ≡ w.calls ++ (c, Call.emit_event w.node_id (function_event name) payload (here w)) ∷ [])
        × (map (cut payload) (argument_slices (pos 1) (map (λ (v : Text × ℤ). v.1) vs)) ≡ arguments)
  call-cut description m c w name doc vs arguments distinct built mirrored h found sized selected =
      let run = call-mirrored description m c w name (flat arguments) distinct built mirrored h in
      (
        ap (λ (out : Result (Unit {0}) × World). out.1.calls) run ∙ rw (found, selected) refl,
        rw sized (cut-argument_slices (w.node_id_int16 ∷ []) arguments (omega arith)),
      )
