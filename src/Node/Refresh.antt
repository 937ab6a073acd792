-- ===== src/Node/Refresh.antt =====
-- The well-formedness of the caches through `update`, `get_all` and `_set_changes`.
use pyaseba.Base.{
  ℕ, zero, suc, ◌+◌, ◌*◌, ◌<◌, ◌≤◌, ◌≡◌, refl, Bool, true, false, ◌&&◌, Option, some, none, List,
  [], ◌∷◌, ◌++◌, arith, Text, text_eq, ℤ, Dict, length, ltb, if◌then◌else◌,
}
use pyaseba.Base
use pyaseba.Base.Int.{◌-ℤ◌}
use pyaseba.Base.Dicts.{lookup, insert}
use pyaseba.Base.Heap.{Ref, next, read, next-alloc, next-write}
use pyaseba.Base.Results.{key_error, assertion_error, out_of_fuel}
use pyaseba.Description.{Description}
use pyaseba.Mirroring.{given}
use pyaseba.Client.{Call, Client}
use pyaseba.Node.State.{Action, here, pure, modify, new_list}
use pyaseba.Node.Update.{
  set_slice, write_slice, write_change, take_ℤ, drop_ℤ, change_part, change_round, change_loop,
  stop_behind, change_all, changes_of, set_changes, update_changed, new_lists, store_all,
  update_all, update, select, update_unless, get_all, locate, min_ℤ, is_zero,
}
use pyaseba.Node.Invariant.{AllBelow}
use pyaseba.Node.Keeps.{
  Keeps, Any, AnyValue, keeps_bind, keeps_pure, keeps_raise, keeps_gets, keeps_or_raise, keeps_if,
  keeps_weaken, keeps_skip, keeps_client, keeps_perform, keeps_ask, keeps_new_list,
}

keeps_write_slice :
    (o : Option Ref) (j : ℕ) (l : ℤ) (words : List ℤ) → Keeps Any (write_slice o j l words) AnyValue
unfolding write_slice
keeps_write_slice none j l words = record { run = λ w wf p. (wf, tt) }
keeps_write_slice (some r) j l words = record {
  run = λ w wf p.
      let same = next-write w.heap r (set_slice (read w.heap r) j l words) in
      (
        record {
          of_values = rw same wf.of_values;
          of_next = rw same wf.of_next;
          of_prev = rw same wf.of_prev;
        },
        tt,
      );
}

keeps_write_change :
    (name : Text) (j : ℕ) (l : ℤ) (words : List ℤ)
    → Keeps Any (write_change name j l words) AnyValue
unfolding write_change
keeps_write_change name j l words =
    keeps_bind (keeps_gets Any (λ w. lookup name w.variable_values)) (λ value.
      keeps_bind (keeps_write_slice value j l words) (λ _.
        keeps_bind (keeps_gets Any (λ w. lookup name w.prev_variables_values))
          (λ prev. keeps_write_slice prev j l words)))

module _ (again : ℕ → List ℤ → List Text → Action (List Text))
    (k : (i : ℕ) (vs : List ℤ) (names : List Text) → Keeps Any (again i vs names) AnyValue) where
  keeps_change_part :
      (b : Bool) (start j : ℕ) (name : Text) (size : ℕ) (l : ℤ) (vs : List ℤ) (names : List Text)
      → Keeps Any (change_part b start j name size l vs names again) AnyValue
  keeps_change_part true start j name size l vs names = keeps_pure Any names
  keeps_change_part false start j name size l vs names =
      keeps_bind (keeps_write_change name j l (take_ℤ l vs))
        (λ _. k (start + size) (drop_ℤ l vs) (names ++ name ∷ []))

  keeps_change_round :
      (found : Option (ℕ × ℕ × Text × ℕ)) (vs : List ℤ) (names : List Text)
      → Keeps Any (change_round found vs names again) AnyValue
  keeps_change_round none vs names = keeps_raise Any assertion_error AnyValue
  keeps_change_round (some (start, j, name, size)) vs names =
      let l = min_ℤ (Base.pos size -ℤ Base.pos j) (length vs) in
      keeps_change_part (is_zero l) start j name size l vs names

keeps_change_loop :
    (fuel : ℕ) (vi : Dict ℕ (Text × ℕ)) (i : ℕ) (vs : List ℤ) (names : List Text)
    → Keeps Any (change_loop fuel vi i vs names) AnyValue
unfolding change_loop
keeps_change_loop zero vi i vs names = keeps_raise Any out_of_fuel AnyValue
keeps_change_loop (suc fuel) vi i [] names = keeps_pure Any names
keeps_change_loop (suc fuel) vi i (v ∷ vs) names =
    keeps_change_round (change_loop fuel vi) (keeps_change_loop fuel vi) (locate vi i 0) (v ∷ vs)
      names

keeps_stop_behind :
    (b : Bool) (names : List Text) {rest : Action (List Text)}
    → Keeps Any rest AnyValue
    → Keeps Any (stop_behind b names rest) AnyValue
keeps_stop_behind true names k = keeps_pure Any names
keeps_stop_behind false names k = k

keeps_change_all :
    (desc : Description) (changes : List (ℕ × List ℤ)) (names : List Text)
    → Keeps Any (change_all desc changes names) AnyValue
unfolding change_all
keeps_change_all desc [] names = keeps_pure Any names
keeps_change_all desc ((i, vs) ∷ changes) names =
    keeps_stop_behind (ltb desc.variables_size i) names (
      keeps_bind (keeps_change_loop (2 * length vs + 2) desc.variables_by_index i vs names)
        (λ names'. keeps_change_all desc changes names'))

keeps_changes_of :
    (desc : Option Description) (changes : List (ℕ × List ℤ))
    → Keeps Any (changes_of desc changes) AnyValue
keeps_changes_of none changes = keeps_pure Any []
keeps_changes_of (some desc) changes = keeps_change_all desc changes []

pub keeps_set_changes : (changes : List (ℕ × List ℤ)) → Keeps Any (set_changes changes) AnyValue
unfolding set_changes
keeps_set_changes changes = record { run = λ w. (keeps_changes_of w.description changes).run w }

-- A new list object, whose address is at least the size that the heap had.
pub keeps_new_list_from :
    (n : ℕ) (v : List ℤ)
    → Keeps (λ w. n ≤ next w.heap) (new_list v) (λ r w. (n ≤ r) × (suc r ≤ next w.heap))
unfolding new_list
keeps_new_list_from n v = record {
  run = λ w wf p. (((keeps_new_list v).run w wf tt).0, (p, omega (arith, next-alloc w.heap v)));
}

-- Both caches of values are replaced by one dict.
keeps_replace :
    (d : Dict Text Ref)
    → Keeps
        (λ w. AllBelow (next w.heap) d)
        (modify (λ w. record w { variable_values = d; prev_variables_values = d }))
        AnyValue
keeps_replace d = record {
  run = λ w wf p. (record { of_values = p; of_next = wf.of_next; of_prev = p }, tt);
}

module _ (client : Client) where
  pub keeps_new_lists :
      (vs : Dict Text (List ℤ)) (n : ℕ)
      → Keeps
          (λ w. n ≤ next w.heap)
          (new_lists client vs)
          (λ d w. AllBelow (next w.heap) d × (n ≤ next w.heap))
  unfolding new_lists
  keeps_new_lists [] n = record { run = λ w wf p. (wf, (tt, p)) }
  keeps_new_lists ((name, words) ∷ vs) n = keeps_bind (keeps_new_list_from n words) (λ r. record {
    run = λ w wf p.
        (keeps_bind {B = Dict Text Ref} {f = λ rest. pure ((name, r) ∷ rest)}
            {R = λ d w'. AllBelow (next w'.heap) d × (n ≤ next w'.heap)}
            (keeps_new_lists vs (suc r))
            (λ rest. record { run = λ w' wf' q. (wf', ((q.1, q.0), omega (arith, q.1, p.0))) })).run
          w wf p.1;
  })

  keeps_store_all : (c : ℕ) (vs : Dict Text (List ℤ)) → Keeps Any (store_all client c vs) AnyValue
  unfolding store_all
  keeps_store_all c [] = keeps_perform (λ _. Unit) c Call.warn
  keeps_store_all c (v ∷ vs) =
      keeps_bind (keeps_weaken (keeps_new_lists (v ∷ vs) 0) (λ w p. omega arith) (λ d w q. q.0))
        (λ d. keeps_replace d)

  -- The branch of `update` that asks for all variables.
  keeps_update_all : (wait_ms : ℕ) → Keeps Any (update_all client wait_ms) AnyValue
  unfolding update_all
  keeps_update_all wait_ms = keeps_bind (keeps_client (λ _. Unit)) (λ c.
      keeps_bind (keeps_gets Any (λ w. w.node_id)) (λ node_id.
        keeps_bind (keeps_gets Any here) (λ include.
          keeps_bind
            (keeps_ask (λ _. Unit) client.get_all_variables c
              (Call.get_all_variables node_id wait_ms include))
            (λ vs. keeps_store_all c vs))))

  pub keeps_update_changed : (wait_ms : ℕ) → Keeps Any (update_changed client wait_ms) AnyValue
  unfolding update_changed
  keeps_update_changed wait_ms = keeps_bind (keeps_client (λ _. Unit)) (λ c.
      keeps_bind (keeps_gets Any (λ w. w.node_id)) (λ node_id.
        keeps_bind (keeps_gets Any here) (λ include.
          keeps_bind
            (keeps_ask (λ _. Unit) client.get_changed_variables c
              (Call.get_changed_variables node_id wait_ms include))
            (λ changes. keeps_set_changes changes))))

  pub keeps_update :
      (wait_ms : ℕ) (changed : Bool) → Keeps Any (update client wait_ms changed) AnyValue
  unfolding update
  keeps_update wait_ms changed =
      keeps_if Any (changed && client.uses_mobsya_aseba)
        (keeps_bind (keeps_update_changed wait_ms) (λ _. keeps_skip Any)) (keeps_update_all wait_ms)

  keeps_select :
      (names : List Text) (d : Dict Text Ref) → Keeps Any (select client names d) AnyValue
  unfolding select
  keeps_select [] d = keeps_pure Any d
  keeps_select (n ∷ names) d =
      keeps_bind (keeps_gets Any (λ w. lookup n w.variable_values)) (λ found.
        keeps_bind (keeps_or_raise Any found key_error) (λ r. keeps_select names (insert n r d)))

  keeps_update_unless :
      (b : Bool) (wait_ms : ℕ) → Keeps Any (update_unless client b wait_ms) AnyValue
  keeps_update_unless true wait_ms = keeps_skip Any
  keeps_update_unless false wait_ms = keeps_update wait_ms false

  pub keeps_get_all :
      (wait_ms : ℕ) (mode : Option Bool) (changed : Bool)
      → Keeps Any (get_all client wait_ms mode changed) AnyValue
  unfolding get_all
  keeps_get_all wait_ms mode changed = keeps_bind (keeps_client (λ _. Unit)) (λ c.
      keeps_bind (keeps_gets Any (λ w. w.cached)) (λ default.
        keeps_if Any (changed && client.uses_mobsya_aseba)
          (keeps_bind (keeps_update_changed wait_ms) (λ names. keeps_select names []))
          (keeps_bind (keeps_update_unless (given mode default) wait_ms)
            (λ _. keeps_gets Any (λ w. w.variable_values)))))
