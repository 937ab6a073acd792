-- ===== src/Examples/Callbacks/Unheard.antt =====
-- Events without a callback leave the callbacks and an attribute of a callback object alone.
use pyaseba.Base.{
  ◌≡◌, ◌≢◌, ◌<◌, contains, refl, ◌∙◌, ap, Bool, true, false, Option, none, some, List, [], ◌∷◌,
  Text, text, text_eq, int_eq, ◌==◌, Dict, ℤ, if◌then◌else◌, arith,
}
use pyaseba.Base.Heap.{Ref, read, next, next-alloc, read-alloc_lt}
use pyaseba.Base.Dicts.{lookup, lookup-nil, lookup-insert_ne, has_key}
use pyaseba.Base.Results.{Error, Result, ok, err, key_error, index_error}
use pyaseba.Description.{Event}
use pyaseba.Mirroring.{Mirroring, read_variables}
use pyaseba.Node.State.{
  World, Action, Callback, ProxComm, gets, or_raise, skip, new_list, words_at, ◌>>=◌,
}
use pyaseba.Node.Cache.{put_value, put_prev, sync}
use pyaseba.Node.Events.{
  event_name, set_callback, store_values, store_event, run_callback, accept_event, event_cb,
}
use pyaseba.Node.Connect.{when}
use pyaseba.Thymio.{
  first, last, on_prox_comm, append_to_prox_comm_buffer, update_prox_comm_buffer, record_message,
  close_round, extra_event_cb,
}
use pyaseba.Examples.Callbacks.{flag, flag_word, register, code_of, arrive, or_later, wait_done}

module _ (callbacks : Dict Text Callback) (r : Ref) (words : List ℤ) where
  -- The callbacks, and the words of the list object at `r`.
  abbrev Untouched : World → Type 0
  Untouched w = (w.event_callbacks ≡ callbacks) × (r < next w.heap) × (read w.heap r ≡ words)

  -- An action that leaves them alone, whether it returns or raises.
  record LeavesAlone {A : Type 0} (m : Action A) : Type 0 where
    pub run : (w : World) → Untouched w → Untouched (m w).1

  leaves_bind :
      {A B : Type 0} {m : Action A} (f : A → Action B)
      → LeavesAlone m
      → ((a : A) → LeavesAlone (f a))
      → LeavesAlone (m >>= f)
  leaves_bind {A} {B} {m} f km kf = record { run = λ w u. rest (m w) (km.run w u) }
    where
      rest :
          (p : Result A × World)
          → Untouched p.1
          → Untouched
              (let x : Result B × World = elim p.0 [ ok a ↦ f a p.1 | err e ↦ (err e, p.1) ] in x.1)
      rest (ok a, w') u = (kf a).run w' u
      rest (err e, w') u = u

  leaves_if :
      {A : Type 0} (b : Bool) {m n : Action A}
      → LeavesAlone m
      → LeavesAlone n
      → LeavesAlone (if b then m else n)
  leaves_if true km kn = km
  leaves_if false km kn = kn

  leaves_when : (b : Bool) {m : Action (Unit {0})} → LeavesAlone m → LeavesAlone (when b m)
  leaves_when true km = km
  leaves_when false km = record { run = λ w u. u }

  leaves_skip : LeavesAlone skip
  leaves_skip = record { run = λ w u. u }

  leaves_gets : {A : Type 0} (f : World → A) → LeavesAlone (gets f)
  leaves_gets f = record { run = λ w u. u }

  leaves_or_raise : {A : Type 0} (o : Option A) (e : Error) → LeavesAlone (or_raise o e)
  leaves_or_raise none e = record { run = λ w u. u }
  leaves_or_raise (some a) e = record { run = λ w u. u }

  leaves_words_at : (q : Ref) → LeavesAlone (words_at q)
  unfolding words_at
  leaves_words_at q = record { run = λ w u. u }

  leaves_new_list : (v : List ℤ) → LeavesAlone (new_list v)
  unfolding new_list
  leaves_new_list v = record {
    run = λ w u. (u.0, omega (arith, u.1, next-alloc w.heap v), read-alloc_lt w.heap v r u.1 ∙ u.2);
  }

  leaves_put_value : (name : Text) (q : Ref) → LeavesAlone (put_value name q)
  unfolding put_value
  leaves_put_value name q = record { run = λ w u. u }

  leaves_put_prev : (name : Text) (q : Ref) → LeavesAlone (put_prev name q)
  unfolding put_prev
  leaves_put_prev name q = record { run = λ w u. u }

  leaves_prox_comm : (f : ProxComm → ProxComm) → LeavesAlone (on_prox_comm f)
  leaves_prox_comm f = record { run = λ w u. u }

  leaves_store_values : (values : Dict Text (List ℤ)) → LeavesAlone (store_values values)
  unfolding store_values
  leaves_store_values [] = record { run = λ w u. u }
  leaves_store_values ((name, v) ∷ values) = record {
    run = λ w.
        (leaves_bind (λ _. store_values values)
            (leaves_if (has_key name w.variable_values)
              (leaves_bind _ (leaves_new_list v)
                (λ q. leaves_bind _ (leaves_put_value name q) (λ _. leaves_put_prev name q)))
              leaves_skip)
            (λ _. leaves_store_values values)).run
          w;
  }

  leaves_store_event : (m : Option Mirroring) (e : Event) → LeavesAlone (store_event m e)
  unfolding store_event
  leaves_store_event none e = leaves_skip
  leaves_store_event (some m) e = leaves_store_values (read_variables m e)

  leaves_record_message : (e : Event) → LeavesAlone (record_message e)
  unfolding record_message
  leaves_record_message e =
      leaves_bind _ (leaves_gets (λ w. lookup (text "prox.comm.rx") w.variable_values)) (λ held.
        leaves_bind _ (leaves_or_raise held key_error) (λ rx.
          leaves_bind _
            (leaves_gets (λ w. lookup (text "prox.comm.rx._intensities") w.variable_values))
            (λ found. leaves_bind _ (leaves_or_raise found key_error) (λ intensities.
              leaves_bind _ (leaves_or_raise (last e.words) index_error) (λ counter.
                leaves_bind _ (leaves_words_at rx) (λ ws.
                  leaves_bind _ (leaves_or_raise (first ws) index_error) (λ value.
                    leaves_prox_comm
                      (append_to_prox_comm_buffer counter (value, intensities)))))))))

  leaves_close_round : (e : Event) → LeavesAlone (close_round e)
  unfolding close_round
  leaves_close_round e =
      leaves_bind _ (leaves_or_raise (last e.words) index_error)
        (λ counter. leaves_prox_comm (update_prox_comm_buffer counter))

  leaves_extra : (e : Event) → LeavesAlone (extra_event_cb e)
  unfolding extra_event_cb
  leaves_extra e = record {
    run = λ w.
        (leaves_if w.prox_comm.should_record
            (leaves_bind _
              (leaves_when (e.name == text "event_prox.comm") (leaves_record_message e))
              (λ _. leaves_when (e.name == text "event_prox") (leaves_close_round e)))
            leaves_skip).run
          w;
  }

  -- An event for which no callback is registered.
  module _ (done moving : Ref) (e : Event) (unheard : lookup e.name callbacks ≡ none) where
    leaves_unheard :
        LeavesAlone
          (gets (λ w. lookup e.name w.event_callbacks) >>= run_callback (code_of done moving) sync)
    unfolding run_callback
    leaves_unheard = record {
      run = λ w u.
          let absent : lookup e.name w.event_callbacks ≡ none = rw u.0 unheard in rw absent u;
    }

    leaves_accept : LeavesAlone (accept_event (code_of done moving) sync e)
    unfolding accept_event
    leaves_accept = record {
      run = λ w u.
          (leaves_bind _ (leaves_gets (λ w'. w'.mirroring)) (λ m.
              leaves_bind _ (leaves_store_event m e)
                (λ _. leaves_bind _ (leaves_extra e) (λ _. leaves_unheard)))).run
            _ u;
    }

    leaves_event : LeavesAlone (event_cb (code_of done moving) sync e)
    unfolding event_cb
    leaves_event = record {
      run = λ w. (leaves_if (e.source == w.node_id) leaves_accept leaves_skip).run w;
    }

  -- None of the events has a callback.
  abbrev Unheard : List Event → Type 0
  Unheard [] = Unit
  Unheard (e ∷ events) = (lookup e.name callbacks ≡ none) × Unheard events

  abbrev AllUnheard : List (List Event) → Type 0
  AllUnheard [] = Unit
  AllUnheard (second ∷ seconds) = Unheard second × AllUnheard seconds

  arrive-Untouched :
      (done moving : Ref) (events : List Event) (w : World)
      → Unheard events
      → Untouched w
      → Untouched (arrive done moving events w)
  unfolding arrive
  arrive-Untouched done moving [] w h u = u
  arrive-Untouched done moving (e ∷ events) w h u =
      arrive-Untouched done moving events (event_cb (code_of done moving) sync e w).1 h.1
        ((leaves_event done moving e h.0).run w u)

flag_lem : (r : Ref) (w : World) → read w.heap r ≡ flag_word false → flag r w ≡ (ok false, w)
unfolding flag words_at
flag_lem r w e = rw e refl

waiting :
    (callbacks : Dict Text Callback) (done moving : Ref) (seconds : List (List Event)) (w : World)
    → Untouched callbacks done (flag_word false) w
    → AllUnheard callbacks done (flag_word false) seconds
    → (wait_done done moving seconds w).0 ≡ ok false
unfolding wait_done
waiting callbacks done moving [] w u h = ap (λ (p : Result Bool × World). p.0) (flag_lem done w u.2)
waiting callbacks done moving (second ∷ seconds) w u h =
    let w' = arrive done moving second w in
    ap (λ (p : Result Bool × World). (or_later p (wait_done done moving seconds w')).0)
      (flag_lem done w u.2)
    ∙ waiting callbacks done moving seconds w'
        (arrive-Untouched callbacks done (flag_word false) done moving second w h.0 u) h.1

-- The names that the program gives to its callbacks.
abbrev pub callback_names : List Text
callback_names = text "prox" ∷ text "button.forward" ∷ []

-- No event has one of these names.
abbrev pub OtherNames : List Event → Type 0
OtherNames [] = Unit
OtherNames (e ∷ events) = (contains callback_names e.name ≡ false) × OtherNames events

abbrev pub AllOtherNames : List (List Event) → Type 0
AllOtherNames [] = Unit
AllOtherNames (second ∷ seconds) = OtherNames second × AllOtherNames seconds

registered-other :
    (w : World) (name : Text)
    → w.mirroring ≡ none
    → w.event_callbacks ≡ []
    → contains callback_names name ≡ false
    → lookup name (register w).1.event_callbacks ≡ none
unfolding register set_callback event_name
registered-other w name m c h =
    let other : name ≢ text "prox" = λ e. ground (arith, e) in
    let other' : name ≢ text "button.forward" = λ e. ground (arith, e) in
    rw (m, c)
      (lookup-insert_ne name (text "button.forward") (Callback.user 1) _ other'
        ∙ (lookup-insert_ne name (text "prox") (Callback.user 0) [] other
            ∙ lookup-nil {V = Callback} name))

module _ (w0 : World) (unmirrored : w0.mirroring ≡ none) (unused : w0.event_callbacks ≡ [])
    (done : Ref) where
  abbrev callbacks : Dict Text Callback
  callbacks = (register w0).1.event_callbacks

  other-Unheard :
      (events : List Event) → OtherNames events → Unheard callbacks done (flag_word false) events
  other-Unheard [] h = tt
  other-Unheard (e ∷ events) h =
      (registered-other w0 e.name unmirrored unused h.0, other-Unheard events h.1)

  others-Unheard :
      (seconds : List (List Event))
      → AllOtherNames seconds
      → AllUnheard callbacks done (flag_word false) seconds
  others-Unheard [] h = tt
  others-Unheard (second ∷ seconds) h = (other-Unheard second h.0, others-Unheard seconds h.1)

  -- The program sets its callbacks before anything is mirrored, so that they stand under the names
  -- `prox` and `button.forward`: with these callbacks, also on a node that mirrors, no sequence of
  -- events with other names, such as the mirrored `event_prox`, ends the wait for `done`.
  pub wait_done-register :
      (moving : Ref) (seconds : List (List Event)) (w : World)
      → w.event_callbacks ≡ (register w0).1.event_callbacks
      → done < next w.heap
      → read w.heap done ≡ flag_word false
      → AllOtherNames seconds
      → (wait_done done moving seconds w).0 ≡ ok false
  wait_done-register moving seconds w same below e h =
      waiting callbacks done moving seconds w (same, below, e) (others-Unheard seconds h)
