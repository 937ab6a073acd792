-- ===== src/Node/Sync/Again.antt =====
-- A second `sync` with the same pending values.
use pyaseba.Base.{
  ℕ, ◌<◌, ◌≡◌, refl, ◌∙◌, ap, Bool, true, false, ◌==◌, Option, none, some, List, [], ◌∷◌, arith,
  Text, text_eq, int_eq, list_eq, contains, if◌then◌else◌, ℤ, Dict, inl, inr, Bool-cases,
  Option-cases, ==_refl,
}
use mathlib.Core.List.{append-nil}
use pyaseba.Base.Dicts.{lookup}
use pyaseba.Base.Heap.{Ref, read, next}
use pyaseba.Node.State.{World}
use pyaseba.Node.Cache.{sync}
use pyaseba.Node.Invariant.{IsWellFormed, AllBelow, AllBelow-mono, lookup-AllBelow}
use pyaseba.Node.Sync.{differs, to_send, owed, Distinct, sync-Synced}
use pyaseba.Node.Sync.Settled.{words_at_ref, look, settle, pending, Settled, sync-Settled}

differs_words : List ℤ → Option (List ℤ) → Bool
differs_words words none = true
differs_words words (some known) = if words == known then false else true

-- The words to send, by the pending words and the last known ones.
due : Option (List ℤ) → Option (List ℤ) → Option (List ℤ)
due none known = none
due (some words) known = if differs_words words known then some words else none

differs-differs_words :
    (w : World) (r : Ref) (o : Option Ref)
    → differs w r o ≡ differs_words (read w.heap r) (words_at_ref w.heap o)
unfolding differs differs_words words_at_ref
differs-differs_words w r none = refl
differs-differs_words w r (some p) = refl

to_send-due :
    (w : World) (name : Text) (n : Option Ref)
    → to_send w name n ≡ due (words_at_ref w.heap n) (look w.heap w.prev_variables_values name)
unfolding to_send due words_at_ref look
to_send-due w name none = refl
to_send-due w name (some r) =
    rw (differs-differs_words w r (lookup name w.prev_variables_values)) refl

-- Once what is due has been sent, nothing is.
due-settle : (n known : Option (List ℤ)) → due n (settle true (due n known) known) ≡ none
unfolding due settle
due-settle none known = refl
due-settle (some words) known = elim (Bool-cases (differs_words words known)) [
  | inl new ↦ rw new (unfold differs_words in rw (==_refl words) refl)
  | inr old ↦ rw (old, old) refl
]

owed-nil :
    (c : ℕ) (w : World) (names : List Text)
    → ((name : Text) → contains names name ≡ true → pending w name ≡ none)
    → owed c w names ≡ []
unfolding owed
owed-nil c w [] h = refl
owed-nil c w (name ∷ names) h =
    rw (h name (ground (arith, ==_refl name))) (owed-nil c w names (λ j e. h j (ground (arith, e))))

-- The words that a dict of old lists has do not change.
look-old :
    (w w' : World) (d : Dict Text Ref) (name : Text)
    → ((r : Ref) → r < next w.heap → read w'.heap r ≡ read w.heap r)
    → AllBelow (next w.heap) d
    → look w'.heap d name ≡ look w.heap d name
unfolding look words_at_ref
look-old w w' d name old below = elim (Option-cases (lookup name d)) [
  | inl absent ↦ rw absent refl
  | inr (r, found) ↦ rw found (ap some (old r (lookup-AllBelow (next w.heap) name r d below found)))
]

module _ (c : ℕ) (w : World) (connected : w.client ≡ some c) (wf : IsWellFormed w)
    (distinct : Distinct w.sync_variables) where
  -- The state behind a `sync`, once the values that were pending before it are pending again.
  abbrev pub put_again : World
  put_again = record (sync w).1 { next_variables_values = w.next_variables_values }

  settled : (name : Text) → Settled w w.sync_variables name (sync w).1
  settled name = sync-Settled c w name connected wf distinct

  put_again-IsWellFormed : IsWellFormed put_again
  put_again-IsWellFormed =
      let done = (sync-Synced c w connected wf distinct).0.well_formed in
      record {
        of_values = done.of_values;
        of_next =
            AllBelow-mono (next w.heap) (next (sync w).1.heap) w.next_variables_values
              (settled []).grown wf.of_next;
        of_prev = done.of_prev;
      }

  nothing_due :
      (name : Text) → contains w.sync_variables name ≡ true → pending put_again name ≡ none
  nothing_due name e =
      let s = settled name in
      let n = look w.heap w.next_variables_values name in
      let known = look w.heap w.prev_variables_values name in
      let before : pending w name ≡ due n known =
        unfold look in to_send-due w name (lookup name w.next_variables_values) in
      let same = look-old w (sync w).1 w.next_variables_values name s.old wf.of_next in
      let after : pending put_again name
          ≡ due (look (sync w).1.heap w.next_variables_values name)
              (look (sync w).1.heap (sync w).1.prev_variables_values name) =
        unfold look in to_send-due put_again name (lookup name w.next_variables_values) in
      after ∙ rw (same, s.prev, e, before) (due-settle n known)

  -- On a node with a client, well-formed caches and distinct variables to synchronise, a `sync`
  -- behind a `sync`, with the values pending again that were pending before, makes no call.
  pub sync_again : (sync put_again).1.calls ≡ (sync w).1.calls
  sync_again =
      let s = settled [] in
      let d : Distinct put_again.sync_variables = rw s.names_eq distinct in
      let again = sync-Synced c put_again (s.client_eq ∙ connected) put_again-IsWellFormed d in
      let none_owed : owed c put_again put_again.sync_variables ≡ [] =
        ap (owed c put_again) s.names_eq ∙ owed-nil c put_again w.sync_variables nothing_due in
      again.0.calls ∙ rw none_owed (append-nil (sync w).1.calls)
