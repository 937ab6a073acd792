-- ===== src/Node/Delivery.antt =====
-- The callback for an event of a mirrored node: what the user's code sees.
use pyaseba.Base.{
  ◌≡◌, refl, ◌∙◌, ap, true, some, List, [], ◌∷◌, ◌++◌, Text, text_eq, int_eq, ◌==◌, ==_refl,
  if◌then◌else◌, Dict, ℤ,
}
use pyaseba.Base.Dicts.{lookup, has_key, insert, NodupKeys}
use pyaseba.Base.Results.{ok}
use pyaseba.Description.{Event}
use pyaseba.Mirroring.{Mirroring}
use pyaseba.Mirroring.Payload.{flatten, sizes, read_variables-flatten}
use pyaseba.Node.State.{World, Action, bind-ok, skip, gets, ◌>>=◌, ◌>>◌}
use pyaseba.Node.Events.{UserCode, store_values, store_event, run_callback, accept_event, event_cb}
use pyaseba.Node.Mirrored.{Holds, store_values-cons, stored, store_values-Holds}

store_values-returns : (values : Dict Text (List ℤ)) (w : World) → (store_values values w).0 ≡ ok tt
store_values-returns [] w = unfold store_values in refl
store_values-returns ((name, words) ∷ values) w = rw (store_values-cons name words values w) (
    store_values-returns values (if has_key name w.variable_values then stored name words w else w))

-- The state in which the values of an event have been stored.
abbrev pub after_values : Event → Dict Text (List ℤ) → World → World
after_values event rs w =
    (store_values rs (record w { last_payloads = insert event.name event.words w.last_payloads })).1

-- What follows: `_extra_event_cb`, and the callback that is registered then.
abbrev pub user_part : UserCode → Action (Unit {0}) → Event → Action (Unit {0})
user_part code sync event =
    code.extra_event_cb event
    >> (gets (λ w. lookup event.name w.event_callbacks) >>= λ cb. run_callback code sync cb)

-- An event of the node itself, mirrored with some variables at their sizes and carrying their
-- values one behind the other, is handled by running the user's code in the state in which the
-- payload is stored and every carried variable that the node knows, such as `name`, holds its new
-- value, also as the last one known to be on the node.
pub event_cb-mirrored :
    (code : UserCode) (sync : Action (Unit {0})) (event : Event) (w : World) (m : Mirroring)
    (rs : Dict Text (List ℤ)) (extra : List ℤ) (name : Text) (words : List ℤ)
    → event.source ≡ w.node_id
    → w.mirroring ≡ some m
    → lookup event.name m.events_variables ≡ some (sizes rs)
    → event.words ≡ flatten rs ++ extra
    → NodupKeys rs
    → lookup name rs ≡ some words
    → has_key name w.variable_values ≡ true
    → (event_cb code sync event w ≡ user_part code sync event (after_values event rs w))
      × Holds name words (after_values event rs w)
unfolding event_cb accept_event store_event
event_cb-mirrored code sync event w m rs extra name words own mirrored known sent distinct found
      there =
    let w0 : World = record w { last_payloads = insert event.name event.words w.last_payloads } in
    let e = read_variables-flatten m event rs extra known sent distinct in
    let stores : store_event (some m) event w0 ≡ (ok tt, after_values event rs w) =
      ap (λ values. store_values values w0) e
      ∙ ap (λ r. (r, after_values event rs w)) (store_values-returns rs w0) in
    let mine : (event.source == w.node_id) ≡ true =
      ap (λ s. s == w.node_id) own ∙ ==_refl w.node_id in
    (
      ap (λ b. (if b then accept_event code sync event else skip) w) mine
          ∙ (ap (λ o. (store_event o event >> user_part code sync event) w0) mirrored
              ∙ bind-ok (store_event (some m) event) (λ _. user_part code sync event) w0 tt
                  (after_values event rs w) stores),
      store_values-Holds name words rs w0 distinct found there,
    )
