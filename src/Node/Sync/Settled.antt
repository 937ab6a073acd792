-- ===== src/Node/Sync/Settled.antt =====
-- What `Node.sync` leaves in the caches, variable by variable.
use pyaseba.Base.{
  ℕ, ◌<◌, ◌≤◌, ◌≡◌, refl, ◌∙◌, ap, ◌≢◌, Bool, true, false, Option, none, some, List, [], ◌∷◌, arith,
  Text, text_eq, int_eq, list_eq, contains, ℤ, Dict, inl, inr, Bool-cases, Option-cases, ==_ne,
  ==_refl,
}
use pyaseba.Base.Dicts.{lookup, insert, lookup-insert_ne, lookup-insert_self}
use pyaseba.Base.Heap.{Ref, Heap, read, next, read-alloc, read-alloc_lt, next-alloc}
use pyaseba.Node.State.{World}
use pyaseba.Node.Cache.{sync_all, sync}
use pyaseba.Node.Invariant.{IsWellFormed, lookup-AllBelow}
use pyaseba.Node.Sync.{
  to_send, sent, Distinct, to_send-sent, sent-IsWellFormed, sync_variable-cases, sync_all-cons,
  sync_all-Synced, sync_lem,
}

unfoldable pub words_at_ref : Heap ℤ → Option Ref → Option (List ℤ)
words_at_ref h none = none
words_at_ref h (some r) = some (read h r)

-- The words that a cache has for a variable.
unfoldable pub look : Heap ℤ → Dict Text Ref → Text → Option (List ℤ)
unfolding words_at_ref
look h d name = words_at_ref h (lookup name d)

-- What a cache has behind a loop over some variables: the words sent, if any are.
unfoldable pub settle : Bool → Option (List ℤ) → Option (List ℤ) → Option (List ℤ)
settle false words old = old
settle true none old = old
settle true (some words) old = some words

abbrev pub pending : World → Text → Option (List ℤ)
pending w name = to_send w name (lookup name w.next_variables_values)

-- What the loop over `names` leaves of the variable `name`.
pub record Settled (w : World) (names : List Text) (name : Text) (w' : World) : Type 0 where
  pub value :
      look w'.heap w'.variable_values name
      ≡ settle (contains names name) (pending w name) (look w.heap w.variable_values name)
  pub prev :
      look w'.heap w'.prev_variables_values name
      ≡ settle (contains names name) (pending w name) (look w.heap w.prev_variables_values name)
  pub old : (r : Ref) → r < next w.heap → read w'.heap r ≡ read w.heap r
  pub grown : next w.heap ≤ next w'.heap
  pub client_eq : w'.client ≡ w.client
  pub names_eq : w'.sync_variables ≡ w.sync_variables

module _ (c : ℕ) (w : World) (name : Text) (r : Ref) (wf : IsWellFormed w)
    (inside : r < next w.heap) where
  look-sent_ne :
      (j : Text) (q : Ref) (d : Dict Text Ref)
      → j ≢ name
      → ((p : Ref) → lookup j d ≡ some p → p < next w.heap)
      → look (sent c w name r).heap (insert name q d) j ≡ look w.heap d j
  unfolding look words_at_ref
  look-sent_ne j q d ne below = elim (Option-cases (lookup j d)) [
    | inl absent ↦ rw (lookup-insert_ne j name q d ne, absent) refl
    | inr (p, found) ↦
        rw (lookup-insert_ne j name q d ne, found)
          (ap some (read-alloc_lt w.heap (read w.heap r) p (below p found)))
  ]

  look-sent_value :
      look (sent c w name r).heap (sent c w name r).variable_values name ≡ some (read w.heap r)
  unfolding look words_at_ref
  look-sent_value =
      rw (lookup-insert_self name (next w.heap) w.variable_values)
        (ap some (read-alloc w.heap (read w.heap r)))

  look-sent_prev :
      look (sent c w name r).heap (sent c w name r).prev_variables_values name
      ≡ some (read w.heap r)
  unfolding look words_at_ref
  look-sent_prev =
      rw (lookup-insert_self name r w.prev_variables_values)
        (ap some (read-alloc_lt w.heap (read w.heap r) r inside))

module _ (names : List Text) (name j : Text) (old : Option (List ℤ)) where
  -- A round that owes nothing.
  settle_idle :
      (words : Option (List ℤ))
      → (j ≡ name → words ≡ none)
      → settle (contains names j) words old ≡ settle (contains (name ∷ names) j) words old
  unfolding settle
  settle_idle none h = elim (Bool-cases (contains names j)) [
    | inl e ↦ ground (arith, e)
    | inr e ↦ ground (arith, e)
  ]
  settle_idle (some words) h = elim (text_eq.dec j name) [
    | yes same ↦ cc (h same)
    | no other ↦ rw (==_ne j name other) refl
  ]

  -- A round that sends `words`.
  settle_sent :
      (words : List ℤ) (before after new : Option (List ℤ))
      → (j ≡ name → (contains names j ≡ false) × (before ≡ some words) × (new ≡ some words))
      → (j ≢ name → (after ≡ before) × (new ≡ old))
      → settle (contains names j) after new ≡ settle (contains (name ∷ names) j) before old
  unfolding settle
  settle_sent words before after new here there = elim (text_eq.dec j name) [
    | yes same ↦
        let (absent, e, e') = here same in rw (absent, e, e') (rw (same, ==_refl name) refl)
    | no other ↦ let (e, e') = there other in rw (e, e', ==_ne j name other) refl
  ]

sync_all-Settled :
    (c : ℕ) (names : List Text) (w : World) (j : Text)
    → w.client ≡ some c
    → IsWellFormed w
    → Distinct names
    → Settled w names j (sync_all names w).1
sync_all-Settled c [] w j h wf d =
    unfold sync_all settle in
    record {
      value = refl;
      prev = refl;
      old = λ r p. refl;
      grown = omega arith;
      client_eq = refl;
      names_eq = refl;
    }
sync_all-Settled c (name ∷ names) w j h wf d = elim (sync_variable-cases c w name h) [
  | inl (nothing, e) ↦
      let ih = sync_all-Settled c names w j h wf d.1 in
      let idle : j ≡ name → pending w j ≡ none = λ same. rw same nothing in
      rw (sync_all-cons name names w w e) (record {
        value =
            ih.value
            ∙ settle_idle names name j (look w.heap w.variable_values j) (pending w j) idle;
        prev =
            ih.prev
            ∙ settle_idle names name j (look w.heap w.prev_variables_values j) (pending w j) idle;
        old = ih.old;
        grown = ih.grown;
        client_eq = ih.client_eq;
        names_eq = ih.names_eq;
      })
  | inr (r, words, found, e) ↦
      let inside = lookup-AllBelow (next w.heap) name r w.next_variables_values wf.of_next found in
      let w' = sent c w name r in
      let ih = sync_all-Settled c names w' j h (sent-IsWellFormed c w name r wf inside) d.1 in
      rw (sync_all-cons name names w w' e) (record {
        value =
            ih.value
            ∙ settle_sent names name j (look w.heap w.variable_values j) (read w.heap r)
                (pending w j) (pending w' j) (look w'.heap w'.variable_values j)
                (λ same.
                  (rw same d.0, rw same words, rw same (look-sent_value c w name r wf inside)))
                (λ ne. (
                  to_send-sent c w name r wf j ne,
                  look-sent_ne c w name r wf inside j (next w.heap) w.variable_values ne
                      (λ p q. lookup-AllBelow (next w.heap) j p w.variable_values wf.of_values q),
                ));
        prev =
            ih.prev
            ∙ settle_sent names name j (look w.heap w.prev_variables_values j) (read w.heap r)
                (pending w j) (pending w' j) (look w'.heap w'.prev_variables_values j)
                (λ same.
                  (rw same d.0, rw same words, rw same (look-sent_prev c w name r wf inside)))
                (λ ne. (
                  to_send-sent c w name r wf j ne,
                  look-sent_ne c w name r wf inside j r w.prev_variables_values ne (λ p q.
                      lookup-AllBelow (next w.heap) j p w.prev_variables_values wf.of_prev q),
                ));
        old = λ q p.
            ih.old q (omega (arith, next-alloc w.heap (read w.heap r)))
            ∙ read-alloc_lt w.heap (read w.heap r) q p;
        grown = omega (arith, ih.grown, next-alloc w.heap (read w.heap r));
        client_eq = ih.client_eq;
        names_eq = ih.names_eq;
      })
]

-- What `sync` leaves of a variable.
pub sync-Settled :
    (c : ℕ) (w : World) (j : Text)
    → w.client ≡ some c
    → IsWellFormed w
    → Distinct w.sync_variables
    → Settled w w.sync_variables j (sync w).1
sync-Settled c w j h wf d =
    let s = sync_all-Settled c w.sync_variables w j h wf d in
    rw (sync_lem c w h (sync_all-Synced c w.sync_variables w h wf d).returns) (record {
      value = s.value;
      prev = s.prev;
      old = s.old;
      grown = s.grown;
      client_eq = s.client_eq;
      names_eq = s.names_eq;
    })
