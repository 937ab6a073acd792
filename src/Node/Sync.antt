-- ===== src/Node/Sync.antt =====
-- `Node.sync` against a specification of the calls that it owes.
mod Settled
pub mod Again
pub mod Unordered
mod Tests
use pyaseba.Base.{
  ℕ, ◌<◌, ◌≤◌, ◌≡◌, refl, sym, ◌∙◌, ◌≢◌, Bool, ◌==◌, true, false, Option, none, some, List, [], ◌∷◌,
  ◌++◌, arith, Text, text_eq, int_eq, list_eq, contains, if◌then◌else◌, ℤ, inl, inr, Bool-cases,
  Option-cases, ◌⊎◌,
}
use mathlib.Core.List.{append-nil, append_assoc}
use pyaseba.Base.Dicts.{lookup, insert, lookup-insert_ne}
use pyaseba.Base.Heap.{Ref, read, alloc, next, read-alloc_lt, next-alloc}
use pyaseba.Base.Results.{Result, ok}
use pyaseba.Client.{Call, History}
use pyaseba.Node.State.{bind-ok, World, here, the_client, new_list, words_at, perform}
use pyaseba.Node.Cache.{
  set, forward, put_value, put_prev, is_new, sync_variable, sync_all, sync, forward_pending,
}
use pyaseba.Node.Invariant.{IsWellFormed, AllBelow-mono, AllBelow-insert, lookup-AllBelow}

-- Whether a pending list differs from the last known one, if there is one.
pub differs : World → Ref → Option Ref → Bool
differs w r none = true
differs w r (some p) = if read w.heap r == read w.heap p then false else true

is_new-differs : (w : World) (r : Ref) (o : Option Ref) → is_new w r o ≡ differs w r o
unfolding is_new differs
is_new-differs w r none = refl
is_new-differs w r (some p) = ground arith

-- The value to send for a variable whose pending list is given.
pub to_send : World → Text → Option Ref → Option (List ℤ)
to_send w name none = none
to_send w name (some r) =
    if differs w r (lookup name w.prev_variables_values) then some (read w.heap r) else none

abbrev pub add_call : ℕ → World → Text → Option (List ℤ) → History → History
add_call c w name none rest = rest
add_call c w name (some words) rest = (c, Call.set_variable w.node_id name words (here w)) ∷ rest

-- The calls that a `sync` over these variables owes, as the state before it determines them.
pub owed : ℕ → World → List Text → History
owed c w [] = []
owed c w (name ∷ names) =
    add_call c w name (to_send w name (lookup name w.next_variables_values)) (owed c w names)

-- The state after the value at `r` is sent for a variable.
abbrev sent : ℕ → World → Text → Ref → World
sent c w name r = record w {
  calls = w.calls ++ (c, Call.set_variable w.node_id name (read w.heap r) (here w)) ∷ [];
  heap = alloc w.heap (read w.heap r);
  variable_values = insert name (next w.heap) w.variable_values;
  prev_variables_values = insert name r w.prev_variables_values;
}

sync_variable-sent :
    (c : ℕ) (w : World) (name : Text) (r : Ref)
    → w.client ≡ some c
    → lookup name w.next_variables_values ≡ some r
    → is_new w r (lookup name w.prev_variables_values) ≡ true
    → sync_variable name w ≡ (ok tt, sent c w name r)
unfolding sync_variable forward_pending set the_client new_list forward put_value put_prev words_at
    perform
sync_variable-sent c w name r h found new = ground arith

sync_variable-idle :
    (w : World) (name : Text)
    → to_send w name (lookup name w.next_variables_values) ≡ none
    → sync_variable name w ≡ (ok tt, w)
unfolding sync_variable forward_pending to_send
sync_variable-idle w name h = elim (Option-cases (lookup name w.next_variables_values)) [
  | inl absent ↦ rw (absent, forward_pending) refl
  | inr (r, found) ↦ ground (arith, is_new-differs w r (lookup name w.prev_variables_values))
]

-- Each name stands once in the list.
abbrev pub Distinct : List Text → Type 0
Distinct [] = Unit
Distinct (name ∷ names) = (contains names name ≡ false) × Distinct names

module _ (c : ℕ) (w : World) (name : Text) (r : Ref) (wf : IsWellFormed w) where
  differs-sent :
      (q p : Ref)
      → q < next w.heap
      → p < next w.heap
      → differs (sent c w name r) q (some p) ≡ differs w q (some p)
  unfolding differs
  differs-sent q p hq hp =
      let words = read w.heap r in
      rw (read-alloc_lt w.heap words q hq, read-alloc_lt w.heap words p hp) refl

  to_send-sent :
      (j : Text)
      → j ≢ name
      → to_send (sent c w name r) j (lookup j w.next_variables_values)
        ≡ to_send w j (lookup j w.next_variables_values)
  unfolding to_send
  to_send-sent j n = elim (Option-cases (lookup j w.next_variables_values)) [
    | inl absent ↦ rw absent refl
    | inr (q, found) ↦
        let hq = lookup-AllBelow (next w.heap) j q w.next_variables_values wf.of_next found in
        let same = read-alloc_lt w.heap (read w.heap r) q hq in
        let other = lookup-insert_ne j name r w.prev_variables_values n in
        elim (Option-cases (lookup j w.prev_variables_values)) [
          | inl unknown ↦ rw (found, other, unknown, same) (unfold differs in refl)
          | inr (p, known) ↦
              let hp = lookup-AllBelow (next w.heap) j p w.prev_variables_values wf.of_prev known in
              rw (found, other, known, same, differs-sent q p hq hp) refl
        ]
  ]

  owed-sent :
      (names : List Text)
      → contains names name ≡ false
      → owed c (sent c w name r) names ≡ owed c w names
  unfolding owed
  owed-sent [] h = refl
  owed-sent (j ∷ names) h =
      let e = to_send-sent j (λ p. ground arith) in
      let ih = owed-sent names (ground arith) in rw (e, ih) refl

  sent-IsWellFormed : r < next w.heap → IsWellFormed (sent c w name r)
  sent-IsWellFormed h =
      let n = next w.heap in
      let words = read w.heap r in
      let grown : n ≤ next (alloc w.heap words) = omega (arith, next-alloc w.heap words) in
      let new : n < next (alloc w.heap words) = omega (arith, next-alloc w.heap words) in
      let old : r < next (alloc w.heap words) = omega arith in
      let n' = next (alloc w.heap words) in
      record {
        of_values =
            AllBelow-insert n' name n w.variable_values new
              (AllBelow-mono n n' w.variable_values grown wf.of_values);
        of_next = AllBelow-mono n n' w.next_variables_values grown wf.of_next;
        of_prev =
            AllBelow-insert n' name r w.prev_variables_values old
              (AllBelow-mono n n' w.prev_variables_values grown wf.of_prev);
      }

-- What one round of the loop does, by what it owes.
sync_variable-cases :
    (c : ℕ) (w : World) (name : Text)
    → w.client ≡ some c
    → ((to_send w name (lookup name w.next_variables_values) ≡ none)
        × (sync_variable name w ≡ (ok tt, w)))
      ⊎ ((r : Ref) × (to_send w name (lookup name w.next_variables_values) ≡ some (read w.heap r))
          × (lookup name w.next_variables_values ≡ some r)
          × (sync_variable name w ≡ (ok tt, sent c w name r)))
unfolding to_send
sync_variable-cases c w name h = elim (Option-cases (lookup name w.next_variables_values)) [
  | inl absent ↦
      let e : to_send w name (lookup name w.next_variables_values) ≡ none = rw absent refl in
      inl (e, sync_variable-idle w name e)
  | inr (r, found) ↦ elim (Bool-cases (differs w r (lookup name w.prev_variables_values))) [
    | inl new ↦ inr (
      r,
      rw (found, new) refl,
      found,
      sync_variable-sent c w name r h found
          (is_new-differs w r (lookup name w.prev_variables_values) ∙ new),
    )
    | inr old ↦
        let e : to_send w name (lookup name w.next_variables_values) ≡ none =
          rw (found, old) refl in
        inl (e, sync_variable-idle w name e)
  ]
]

-- What the loop leaves: it returns, the calls are those owed, and the rest of the state that later
-- calls read is as before.
pub record Synced (c : ℕ) (w : World) (names : List Text) (out : Result (Unit {0}) × World)
    : Type 0 where
  pub returns : out.0 ≡ ok tt
  pub calls : out.1.calls ≡ w.calls ++ owed c w names
  pub well_formed : IsWellFormed out.1

sync_all-cons :
    (name : Text) (names : List Text) (w w' : World)
    → sync_variable name w ≡ (ok tt, w')
    → sync_all (name ∷ names) w ≡ sync_all names w'
unfolding sync_all
sync_all-cons name names w w' h = bind-ok (sync_variable name) (λ _. sync_all names) w tt w' h

sync_all-Synced :
    (c : ℕ) (names : List Text) (w : World)
    → w.client ≡ some c
    → IsWellFormed w
    → Distinct names
    → Synced c w names (sync_all names w)
unfolding sync_all owed
sync_all-Synced c [] w h wf d = record {
  returns = refl;
  calls = sym (append-nil w.calls);
  well_formed = wf;
}
sync_all-Synced c (name ∷ names) w h wf d = elim (sync_variable-cases c w name h) [
  | inl (nothing, e) ↦
      let ih = sync_all-Synced c names w h wf d.1 in
      rw (sync_all-cons name names w w e) (record {
        returns = ih.returns;
        calls = ih.calls ∙ rw nothing refl;
        well_formed = ih.well_formed;
      })
  | inr (r, words, found, e) ↦
      let inside = lookup-AllBelow (next w.heap) name r w.next_variables_values wf.of_next found in
      let w' = sent c w name r in
      let ih = sync_all-Synced c names w' h (sent-IsWellFormed c w name r wf inside) d.1 in
      let rest = owed-sent c w name r wf names d.0 in
      let call : ℕ × Call = (c, Call.set_variable w.node_id name (read w.heap r) (here w)) in
      rw (sync_all-cons name names w w' e) (
        let out : Synced c w (name ∷ names) (sync_all names w') = record {
          returns = ih.returns;
          calls = ih.calls ∙ (rw (rest, words) (append_assoc w.calls (call ∷ []) (owed c w names)));
          well_formed = ih.well_formed;
        } in
        out)
]

sync_lem :
    (c : ℕ) (w : World)
    → w.client ≡ some c
    → (sync_all w.sync_variables w).0 ≡ ok tt
    → sync w ≡ (ok tt, record (sync_all w.sync_variables w).1 { next_variables_values = [] })
unfolding sync the_client
sync_lem c w h r = ground arith

-- On a node with a client and well-formed caches, `sync` returns, and the calls that it makes are
-- exactly these, in the order of the variables to synchronise: one `set_variable` for each of them
-- whose pending value differs from the last one known to be on the node, with that pending value.
-- Afterwards nothing is pending, and the caches are well-formed.
pub sync-Synced :
    (c : ℕ) (w : World)
    → w.client ≡ some c
    → IsWellFormed w
    → Distinct w.sync_variables
    → Synced c w w.sync_variables (sync w) × ((sync w).1.next_variables_values ≡ [])
sync-Synced c w h wf d =
    let all = sync_all-Synced c w.sync_variables w h wf d in
    let w' = (sync_all w.sync_variables w).1 in
    let e = sync_lem c w h all.returns in
    rw e (
      record {
        returns = refl;
        calls = all.calls;
        well_formed = record {
          of_values = all.well_formed.of_values;
          of_next = tt;
          of_prev = all.well_formed.of_prev;
        };
      },
      refl,
    )
