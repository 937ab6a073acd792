-- ===== src/Node/Access.antt =====
-- `get` after `set`, and what each of them sends.
use pyaseba.Base.{
  ◌≡◌, refl, sym, Bool, true, false, Option, some, List, [], ◌∷◌, ◌++◌, arith, Text, ℕ, ℤ, ◌∙◌, ap,
  text_eq,
}
use mathlib.Core.List.{append-nil}
use pyaseba.Base.Dicts.{lookup, insert, lookup-insert_self}
use pyaseba.Base.Heap.{Ref, read, alloc, next, read-alloc}
use pyaseba.Base.Results.{ok}
use pyaseba.Mirroring.{given}
use pyaseba.Client.{Call, Client, History}
use pyaseba.Node.State.{
  World, here, the_client, the_client_lem, bind-ok, gets, ◌>>=◌, ◌>>◌, new_list, words_at, perform,
}
use pyaseba.Node.Cache.{Value, words_of, set, forward, put_value, put_next, got, get}

-- The calls of a `set`: one `set_variable`, or none if the value is kept for `sync`.
abbrev pub set_calls : ℕ → World → Text → Value → Bool → History
set_calls c w name value true = []
set_calls c w name value false =
    (c, Call.set_variable w.node_id name (words_of value) (here w)) ∷ []

-- The state behind the choice between sending a value and keeping it.
abbrev pub forwarded : ℕ → Text → Ref → List ℤ → Bool → World → World
forwarded c name r words true w = record w {
  next_variables_values = insert name r w.next_variables_values;
}
forwarded c name r words false w = record w {
  calls = w.calls ++ (c, Call.set_variable w.node_id name words (here w)) ∷ [];
}

forward_lem :
    (c : ℕ) (name : Text) (r : Ref) (words : List ℤ) (cached : Bool) (w : World)
    → forward c name r words cached w ≡ (ok tt, forwarded c name r words cached w)
unfolding forward put_next perform
forward_lem c name r words true w = refl
forward_lem c name r words false w = refl

-- The state behind a `set`.
abbrev pub after_set : ℕ → Text → Value → Bool → World → World
after_set c name value cached w =
    let r = next w.heap in
    let w1 : World = record w { heap = alloc w.heap (words_of value) } in
    let w2 = forwarded c name r (words_of value) cached w1 in
    record w2 { variable_values = insert name r w2.variable_values }

pub set_lem :
    (c : ℕ) (w : World) (name : Text) (value : Value) (mode : Option Bool)
    → w.client ≡ some c
    → set name value mode w ≡ (ok tt, after_set c name value (given mode w.cached) w)
unfolding set new_list put_value
set_lem c w name value mode h =
    let r = next w.heap in
    let cached = given mode w.cached in
    let w1 : World = record w { heap = alloc w.heap (words_of value) } in
    let w2 = forwarded c name r (words_of value) cached w1 in
    bind-ok the_client
      (λ c'. gets (λ w'. w'.cached) >>= λ default. new_list (words_of value) >>= λ r'.
        forward c' name r' (words_of value) (given mode default) >> put_value name r')
      w c w (the_client_lem w c h)
    ∙ bind-ok (forward c name r (words_of value) cached) (λ _. put_value name r) w1 tt w2
        (forward_lem c name r (words_of value) cached w1)

pub get_cached :
    (client : Client) (c : ℕ) (w : World) (name : Text) (r : Ref) (wait_ms : ℕ)
    → w.client ≡ some c
    → lookup name w.variable_values ≡ some r
    → get client name wait_ms (some true) w ≡ (ok (got r (read w.heap r)), w)
unfolding get the_client words_at
get_cached client c w name r wait_ms h found = ground arith

pub after_set_lem :
    (c : ℕ) (name : Text) (value : Value) (cached : Bool) (w : World)
    → let w' = after_set c name value cached w in
      (w'.client ≡ w.client)
      × (w'.calls ≡ w.calls ++ set_calls c w name value cached)
      × (lookup name w'.variable_values ≡ some (next w.heap))
      × (read w'.heap (next w.heap) ≡ words_of value)
after_set_lem c name value true w = (
  refl,
  sym (append-nil w.calls),
  lookup-insert_self name (next w.heap) w.variable_values,
  read-alloc w.heap (words_of value),
)
after_set_lem c name value false w = (
  refl,
  refl,
  lookup-insert_self name (next w.heap) w.variable_values,
  read-alloc w.heap (words_of value),
)

pub get-set :
    (client : Client) (c : ℕ) (w : World) (name : Text) (value : Value) (mode : Option Bool)
    (wait_ms : ℕ)
    → w.client ≡ some c
    → let w' = (set name value mode w).1 in
      ((set name value mode w).0 ≡ ok tt)
      × (w'.calls ≡ w.calls ++ set_calls c w name value (given mode w.cached))
      × (get client name wait_ms (some true) w' ≡ (ok (got (next w.heap) (words_of value)), w'))
      × (read w'.heap (next w.heap) ≡ words_of value)
get-set client c w name value mode wait_ms h =
    let r = next w.heap in
    let w' = after_set c name value (given mode w.cached) w in
    let (same, calls, found, words) = after_set_lem c name value (given mode w.cached) w in
    let e = get_cached client c w' name r wait_ms (same ∙ h) found in
    rw (set_lem c w name value mode h)
      (refl, calls, e ∙ ap (λ xs. (ok (got r xs), w')) words, words)
