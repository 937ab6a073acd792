-- ===== src/Node/Sync/Unordered.antt =====
-- The order in which `Node.sync` goes through the set of variables.
use pyaseba.Base.{
  ℕ, ◌≡◌, refl, sym, ◌∙◌, Option, some, List, [], ◌∷◌, arith, Text, text_eq, int_eq, list_eq,
  contains, Dict, inl, inr, Option-cases,
}
use mathlib.Core.List.{append-nil}
use pyaseba.Base.Heap.{Ref}
use pyaseba.Node.State.{World, here}
use pyaseba.Node.Cache.{sync}
use pyaseba.Node.Invariant.{IsWellFormed}
use pyaseba.Node.Sync.{differs, to_send, owed, Distinct, sync-Synced}
use pyaseba.Node.Sync.Settled.{look, pending, sync-Settled}
use mathlib.Core.List
use mathlib.Core.List.{Perm, Permᴰ}
use mathlib.Core.Logic.{∥∥₁_elim}
use mathlib.Core.Option
use pyaseba.Client.{Call}

-- The call that a variable is owed.
call_for : ℕ → World → Text → Option (ℕ × Call)
call_for c w name =
    Option.map (λ words. (c, Call.set_variable w.node_id name words (here w))) (pending w name)

owed-filter_map :
    (c : ℕ) (w : World) (names : List Text) → owed c w names ≡ List.filter_map (call_for c w) names
unfolding owed call_for List.filter_map
owed-filter_map c w [] = refl
owed-filter_map c w (name ∷ names) = elim (Option-cases (pending w name)) [
  | inl nothing ↦ rw (nothing, owed-filter_map c w names) refl
  | inr (words, e) ↦ rw (e, owed-filter_map c w names) refl
]

contains-Permᴰ :
    (names names' : List Text) (j : Text)
    → Permᴰ names names'
    → contains names j ≡ contains names' j
contains-Permᴰ _ _ j Permᴰ.nil = refl
contains-Permᴰ (a ∷ names) (b ∷ names') j (Permᴰ.cons e p) =
    rw (e, contains-Permᴰ names names' j p) refl
contains-Permᴰ (a ∷ b ∷ names) (a' ∷ b' ∷ _) j (Permᴰ.swap e e') = rw (e, e') (ground arith)
contains-Permᴰ _ _ j (Permᴰ.trans p q) = contains-Permᴰ _ _ j p ∙ contains-Permᴰ _ _ j q

contains-Perm :
    (names names' : List Text) (j : Text) → Perm names names' → contains names j ≡ contains names' j
contains-Perm names names' j p = ∥∥₁_elim p (hlevel) (contains-Permᴰ names names' j)

module _ (c : ℕ) (w : World) (connected : w.client ≡ some c) (wf : IsWellFormed w)
    (distinct : Distinct w.sync_variables) (names : List Text) (distinct' : Distinct names)
    (same : Perm w.sync_variables names) where
  -- The node with another order of the set.
  abbrev pub reordered : World
  reordered = record w { sync_variables = names }

  abbrev Alike : Dict Text Ref → Dict Text Ref → Text → Type 0
  Alike d d' j = look (sync w).1.heap d j ≡ look (sync reordered).1.heap d' j

  reordered-IsWellFormed : IsWellFormed reordered
  reordered-IsWellFormed = record {
    of_values = wf.of_values;
    of_next = wf.of_next;
    of_prev = wf.of_prev;
  }

  pending-reordered : (j : Text) → pending reordered j ≡ pending w j
  unfolding to_send differs
  pending-reordered j = refl

  calls_for : List.filter_map (call_for c reordered) names ≡ List.filter_map (call_for c w) names
  unfolding call_for to_send differs
  calls_for = refl

  -- The order of the set does not matter: on a node with a client, well-formed caches and distinct
  -- variables to synchronise, `sync` makes the same calls in either order of these, up to their
  -- order, and leaves the same values and the same last known values.
  pub sync-perm :
      Perm (sync w).1.calls (sync reordered).1.calls
      × ((j : Text) → Alike (sync w).1.variable_values (sync reordered).1.variable_values j)
      × ((j : Text)
          → Alike (sync w).1.prev_variables_values (sync reordered).1.prev_variables_values j)
  sync-perm =
      let once = (sync-Synced c w connected wf distinct).0.calls in
      let other = (sync-Synced c reordered connected reordered-IsWellFormed distinct').0.calls in
      let one = λ (j : Text). sync-Settled c w j connected wf distinct in
      let two =
        λ (j : Text). sync-Settled c reordered j connected reordered-IsWellFormed distinct' in
      (
        rw
            (
              once,
              other,
              owed-filter_map c w w.sync_variables,
              owed-filter_map c reordered names,
              calls_for,
            )
            (List.Perm.append_left w.calls (List.Perm.filter_map (call_for c w) same)),
        (λ j.
            (one j).value
            ∙ sym (
                (two j).value
                ∙ rw (pending-reordered j, ← contains-Perm w.sync_variables names j same) refl)),
        (λ j.
            (one j).prev
            ∙ sym (
                (two j).prev
                ∙ rw (pending-reordered j, ← contains-Perm w.sync_variables names j same) refl)),
      )
