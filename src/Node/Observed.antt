-- ===== src/Node/Observed.antt =====
-- The events of a mirrored node from its configuration to the user's callback.
use pyaseba.Base.{
  ℕ, [], ◌∷◌, ◌≡◌, refl, sym, ◌∙◌, ap, true, false, some, List, ◌++◌, Text, text_eq, int_eq, Dict,
  ℤ, pos, arith, if◌then◌else◌,
}
use pyaseba.Base.Int.{leb_ℤ}
use pyaseba.Base.Heap.{Ref}
use pyaseba.Base.Dicts.{lookup, insert, lookup-insert_self, has_key, NodupKeys}
use pyaseba.Base.Results.{ok}
use pyaseba.Utils.{Finder}
use pyaseba.Description.{Description, Event}
use pyaseba.Mirroring.{MirroringConfig, Mirroring, local_event, sized_variables, mirror}
use pyaseba.Mirroring.Code.{EventSpec}
use pyaseba.Mirroring.Build.{mirror-Registered}
use pyaseba.Mirroring.Payload.{flatten, sizes}
use pyaseba.Client.{Client}
use pyaseba.Node.State.{World, Action, Callback, skip, gets, ◌>>=◌, ◌>>◌}
use pyaseba.Node.Cache.{get, got}
use pyaseba.Node.Events.{UserCode, store_values, set_callback, event_name, run_callback, event_cb}
use pyaseba.Node.Access.{get_cached}
use pyaseba.Node.Mirrored.{stored, store_values-cons}
use pyaseba.Node.Delivery.{after_values, event_cb-mirrored}

-- What the values that an event stores leave alone.
same_user :
    (values : Dict Text (List ℤ)) (w : World)
    → let w' = (store_values values w).1 in
      (w'.client ≡ w.client) × (w'.event_callbacks ≡ w.event_callbacks)
same_user [] w = (unfold store_values in refl, unfold store_values in refl)
same_user ((name, words) ∷ values) w =
    let b = has_key name w.variable_values in
    let w1 = if b then stored name words w else w in
    let (e, e') = same_user values w1 in
    rw (store_values-cons name words values w) (e ∙ ground arith, e' ∙ ground arith)

module _ (finds : Finder) (config : MirroringConfig) (description : Description) (m : Mirroring)
    (local : Text) (spec : EventSpec) (distinct : NodupKeys config.events)
    (built : mirror finds description config ≡ ok m)
    (configured : lookup local config.events ≡ some spec)
    (positive : leb_ℤ spec.window (pos 0) ≡ false) where
  -- The variables of the specification at their sizes are those of the event.
  known_variables :
      (variables : List (Text × ℕ))
      → sized_variables description.variables spec.variables ≡ ok variables
      → lookup (local_event local) m.events_variables ≡ some variables
  known_variables variables sized =
      let ((variables', sized', _, _, known, _), _) =
        mirror-Registered finds config description local spec m distinct configured positive
          built in
      let same : ok variables' ≡ ok variables = sym sized' ∙ sized in cc (known, same)

  user_name : event_name (some m) local ≡ local_event local
  unfolding event_name
  user_name =
      let (_, e) =
        mirror-Registered finds config description local spec m distinct configured positive
          built in
      rw e refl

  -- A node mirrors with a constructed `Mirroring` in which an event with a positive window is
  -- configured, and a callback has been set for the event by its local name. When the event
  -- arrives from the node, carrying values of the configured variables, at the sizes that
  -- the description says, one behind the other, then what happens is exactly that this callback
  -- runs; and it runs in a state in which `get` from the cache answers, without a call or a change,
  -- with the value that the event has carried, for every carried variable that the node knows, such
  -- as `name`. `code` is the user's code of a node that handles no event by itself.
  pub event_cb-set_callback :
      (client : Client) (c : ℕ) (code : UserCode) (sync : Action (Unit {0})) (cb : Callback)
      (event : Event) (w : World) (rs : Dict Text (List ℤ)) (extra : List ℤ) (name : Text)
      (words : List ℤ) (wait_ms : ℕ)
      → w.client ≡ some c
      → w.mirroring ≡ some m
      → event.source ≡ w.node_id
      → event.name ≡ local_event local
      → sized_variables description.variables spec.variables ≡ ok (sizes rs)
      → event.words ≡ flatten rs ++ extra
      → NodupKeys rs
      → lookup name rs ≡ some words
      → has_key name w.variable_values ≡ true
      → code.extra_event_cb event ≡ skip
      → let w1 = after_values event rs (set_callback local (some cb) w).1 in
        (event_cb code sync event (set_callback local (some cb) w).1
          ≡ run_callback code sync (some cb) w1)
        × ((r : Ref) × (get client name wait_ms (some true) w1 ≡ (ok (got r words), w1)))
  unfolding set_callback
  event_cb-set_callback client c code sync cb event w rs extra name words wait_ms h mirrored own
        named sized sent distinct' found there quiet =
      let w0 = (set_callback local (some cb) w).1 in
      let w1 = after_values event rs w0 in
      let known : lookup event.name m.events_variables ≡ some (sizes rs) =
        rw named (known_variables (sizes rs) sized) in
      let (run, (r, at, _, _, e)) =
        event_cb-mirrored code sync event w0 m rs extra name words own mirrored known sent distinct'
          found there in
      let (client_eq, callbacks_eq) =
        same_user rs
          (record w0 { last_payloads = insert event.name event.words w0.last_payloads }) in
      let key : event_name w.mirroring local ≡ event.name =
        ap (λ o. event_name o local) mirrored ∙ (user_name ∙ sym named) in
      let heard : lookup event.name w1.event_callbacks ≡ some cb =
        ap (lookup event.name) callbacks_eq
        ∙ rw key (lookup-insert_self event.name cb w.event_callbacks) in
      (
        run
            ∙ (ap
                  (λ (extra : Action (Unit {0})).
                    (extra
                        >> (gets (λ w. lookup event.name w.event_callbacks) >>= λ cb'.
                            run_callback code sync cb'))
                      w1)
                  quiet
                ∙ ap (λ o. run_callback code sync o w1) heard),
        (
          r,
          get_cached client c w1 name r wait_ms (client_eq ∙ h) at
              ∙ ap (λ xs. (ok (got r xs), w1)) e,
        ),
      )
