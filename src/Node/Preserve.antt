-- ===== src/Node/Preserve.antt =====
-- The well-formedness of the caches through `set`, `sync` and `get`.
use pyaseba.Base.{
  ℕ, ◌<◌, ◌≤◌, ◌≡◌, refl, Bool, true, false, Option, some, none, List, [], ◌∷◌, arith, Text,
  text_eq, ℤ, not, ◌||◌,
}
use pyaseba.Base.Dicts.{lookup, has_key}
use pyaseba.Base.Heap.{Ref, next, next-alloc}
use pyaseba.Base.Results.{Result, ok, err, key_error}
use pyaseba.Mirroring.{given}
use pyaseba.Client.{Call, Client}
use pyaseba.Node.State.{World, Action, here, modify, the_client, new_list, perform, ◌>>=◌, ◌>>◌}
use pyaseba.Node.Cache.{
  Value, sequence, words_of, put_next, put_prev, put_value, forward, set, is_new, forward_pending,
  sync_variable, sync_all, sync, fetch, get, got,
}
use pyaseba.Node.Invariant.{AllBelow-insert, lookup-AllBelow, IsWellFormed}
use pyaseba.Node.Keeps.{
  Keeps, Any, AnyValue, Returned, Below, keeps_bind, keeps_pure, keeps_gets, keeps_or_raise,
  keeps_if, keeps_when, keeps_weaken, keeps_skip, keeps_client, keeps_perform, keeps_ask,
  keeps_new_list, keeps_words_at,
}

pub keeps_put_value : (name : Text) (r : Ref) → Keeps (Below r) (put_value name r) (λ _. Below r)
unfolding put_value
keeps_put_value name r = record {
  run = λ w wf p. (
    record {
      of_values = AllBelow-insert (next w.heap) name r w.variable_values p wf.of_values;
      of_next = wf.of_next;
      of_prev = wf.of_prev;
    },
    p,
  );
}

pub keeps_put_prev : (name : Text) (r : Ref) → Keeps (Below r) (put_prev name r) (λ _. Below r)
unfolding put_prev
keeps_put_prev name r = record {
  run = λ w wf p. (
    record {
      of_values = wf.of_values;
      of_next = wf.of_next;
      of_prev = AllBelow-insert (next w.heap) name r w.prev_variables_values p wf.of_prev;
    },
    p,
  );
}

keeps_put_next : (name : Text) (r : Ref) → Keeps (Below r) (put_next name r) (λ _. Below r)
unfolding put_next
keeps_put_next name r = record {
  run = λ w wf p. (
    record {
      of_values = wf.of_values;
      of_next = AllBelow-insert (next w.heap) name r w.next_variables_values p wf.of_next;
      of_prev = wf.of_prev;
    },
    p,
  );
}

keeps_forward :
    (c : ℕ) (name : Text) (r : Ref) (words : List ℤ) (cached : Bool)
    → Keeps (Below r) (forward c name r words cached) (λ _. Below r)
unfolding forward
keeps_forward c name r words true = record { run = (keeps_put_next name r).run }
keeps_forward c name r words false = record {
  run =
      λ w. (keeps_perform (λ s. r < s.0) c (Call.set_variable w.node_id name words (here w))).run w;
}

pub keeps_set :
    (name : Text) (value : Value) (mode : Option Bool) → Keeps Any (set name value mode) AnyValue
unfolding set
keeps_set name value mode = keeps_bind (keeps_client (λ _. Unit)) (λ c.
    keeps_bind (keeps_gets Any (λ w. w.cached)) (λ default.
      keeps_bind (keeps_weaken (keeps_new_list (words_of value)) (λ w p. tt) (λ r w q. q)) (λ r.
        keeps_bind (keeps_forward c name r (words_of value) (given mode default))
          (λ _. keeps_weaken (keeps_put_value name r) (λ w p. p) (λ a w q. tt)))))

-- A reference that a dict of pending values holds.
abbrev Held : Option Ref → World → Type 0
Held none w = Unit
Held (some r) w = Below r w

module _ {A : Type 0} where
  -- An action that removes no list object keeps the ones that are there.
  keeps_inside :
      {m : Action A} (q : Ref)
      → Keeps Any m AnyValue
      → ((w : World) → next w.heap ≤ next (m w).1.heap)
      → Keeps (Below q) m (λ _. Below q)
  keeps_inside {m} q k grows = record {
    run = λ w wf p.
        let inside : q < next (m w).1.heap = omega (arith, grows w) in
        ((k.run w wf tt).0, inside_returned (m w) inside);
  }
    where
      inside_returned : (out : Result A × World) → q < next out.1.heap → Returned (λ _. Below q) out
      inside_returned (ok a, w) h = h
      inside_returned (err e, w) h = tt

set_grows :
    (name : Text) (value : Value) (mode : Option Bool) (w : World)
    → next w.heap ≤ next (set name value mode w).1.heap
unfolding set the_client new_list put_value forward put_next perform
set_grows name value mode w = ground (arith, next-alloc w.heap (words_of value))

keeps_forward_pending :
    (name : Text) (o : Option Ref) → Keeps (Held o) (forward_pending name o) AnyValue
unfolding forward_pending
keeps_forward_pending name none = record { run = λ w wf p. (wf, tt) }
keeps_forward_pending name (some r) = record {
  run = λ w. keeps_when (is_new w r (lookup name w.prev_variables_values)) w (
      keeps_bind (keeps_words_at (Below r) r) (λ words.
        keeps_bind
          (keeps_inside r (keeps_set name (sequence words) (some false))
            (set_grows name (sequence words) (some false)))
          (λ _. keeps_weaken (keeps_put_prev name r) (λ w' p. p) (λ a w' q. tt))));
}

pending_inside :
    (name : Text) (w : World) (o : Option Ref)
    → IsWellFormed w
    → lookup name w.next_variables_values ≡ o
    → Held o w
pending_inside name w none wf h = tt
pending_inside name w (some r) wf h =
    lookup-AllBelow (next w.heap) name r w.next_variables_values wf.of_next h

keeps_sync_all : (names : List Text) → Keeps Any (sync_all names) AnyValue
unfolding sync_all sync_variable
keeps_sync_all [] = keeps_skip Any
keeps_sync_all (name ∷ names) = record {
  run = λ w wf p.
      let o = lookup name w.next_variables_values in
      (keeps_bind (keeps_forward_pending name o) (λ _. keeps_sync_all names)).run w wf
        (pending_inside name w o wf refl);
}

keeps_clear : Keeps Any (modify (λ w. record w { next_variables_values = [] })) AnyValue
keeps_clear = record {
  run = λ w wf p. (record { of_values = wf.of_values; of_next = tt; of_prev = wf.of_prev }, tt);
}

pub keeps_sync : Keeps Any sync AnyValue
unfolding sync
keeps_sync = keeps_bind (keeps_client (λ _. Unit)) (λ _.
    keeps_bind (keeps_gets Any (λ w. w.sync_variables))
      (λ names. keeps_bind (keeps_sync_all names) (λ _. keeps_clear)))

-- The query of `get`, and the state that a query leaves behind.
pub keeps_store :
    (name : Text) (v : List ℤ)
    → Keeps Any (new_list v >>= λ r. put_value name r >> put_prev name r) AnyValue
keeps_store name v = keeps_bind (keeps_new_list v) (λ r.
    keeps_bind (keeps_put_value name r)
      (λ _. keeps_weaken (keeps_put_prev name r) (λ w p. p) (λ a w q. tt)))

keeps_fetch :
    (client : Client) (c : ℕ) (name : Text) (wait_ms : ℕ)
    → Keeps Any (fetch client c name wait_ms) AnyValue
unfolding fetch
keeps_fetch client c name wait_ms = record {
  run = λ w.
      (keeps_bind
          (keeps_ask (λ _. Unit) client.get_variable c
            (Call.get_variable w.node_id name wait_ms (here w)))
          (λ v. keeps_store name v)).run
        w;
}

pub keeps_get :
    (client : Client) (name : Text) (wait_ms : ℕ) (mode : Option Bool)
    → Keeps Any (get client name wait_ms mode) AnyValue
unfolding get
keeps_get client name wait_ms mode = keeps_bind (keeps_client (λ _. Unit)) (λ c.
    keeps_bind (keeps_gets Any (λ w. w.cached)) (λ default.
      keeps_bind (keeps_gets (λ w. Unit) (λ w. has_key name w.variable_values)) (λ known.
        keeps_bind
          (keeps_if Any (not (given mode default) || not known) (keeps_fetch client c name wait_ms)
            (keeps_skip Any))
          (λ _. keeps_bind (keeps_gets Any (λ w. lookup name w.variable_values)) (λ found.
            keeps_bind (keeps_or_raise Any found key_error)
              (λ r. keeps_bind (keeps_words_at Any r) (λ words. keeps_pure Any (got r words))))))))
