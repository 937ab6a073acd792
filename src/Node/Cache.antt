-- ===== src/Node/Cache.antt =====
-- The variables of a node: `set`, `sync` and `get`.
use pyaseba.Base.{
  ℕ, Bool, true, false, not, ◌||◌, Option, none, some, List, [], ◌∷◌, Text, text_eq, int_eq,
  list_eq, option_eq, ◌==◌, if◌then◌else◌, ℤ,
}
use pyaseba.Base.Dicts.{lookup, insert, has_key}
use pyaseba.Base.Heap.{Ref, read}
use pyaseba.Base.Results.{ok, key_error}
use pyaseba.Mirroring.{given}
use pyaseba.Client.{Call, Client}
use pyaseba.Node.State.{
  World, Action, pure, gets, or_raise, modify, skip, the_client, perform, ask, new_list, words_at,
  here, ◌>>=◌, ◌>>◌,
}

-- A value that a caller passes: an integer, or a sequence of integers.
pub data Value : Type 0 where
  scalar : ℤ → Value
  sequence : List ℤ → Value

-- `[value]` or `list(value)`
abbrev pub words_of : Value → List ℤ
words_of (scalar x) = x ∷ []
words_of (sequence xs) = xs

unfoldable pub put_next : Text → Ref → Action (Unit {0})
unfolding insert text_eq
put_next name r w =
    (ok tt, record w { next_variables_values = insert name r w.next_variables_values })

unfoldable pub put_prev : Text → Ref → Action (Unit {0})
unfolding insert text_eq
put_prev name r w =
    (ok tt, record w { prev_variables_values = insert name r w.prev_variables_values })

unfoldable pub put_value : Text → Ref → Action (Unit {0})
unfolding insert text_eq
put_value name r w = (ok tt, record w { variable_values = insert name r w.variable_values })

-- What `set` does with the new list: keeps it for `sync`, or sends it.
unfoldable pub forward : ℕ → Text → Ref → List ℤ → Bool → Action (Unit {0})
unfolding put_next perform
forward c name r words cached w =
    if cached
    then put_next name r w
    else perform c (Call.set_variable w.node_id name words (here w)) w

-- `Node.set`
unfoldable pub set : Text → Value → Option Bool → Action (Unit {0})
unfolding the_client new_list forward put_value
set name value cached = do
  c ← the_client
  default ← gets (λ w. w.cached)
  r ← new_list (words_of value)
  forward c name r (words_of value) (given cached default)
  put_value name r

-- `value != prev`, for the contents of the lists.
unfoldable pub is_new : World → Ref → Option Ref → Bool
unfolding read
is_new w r none = true
is_new w r (some p) = not (read w.heap r == read w.heap p)

unfoldable pub forward_pending : Text → Option Ref → Action (Unit {0})
unfolding words_at text_eq
forward_pending name none w = (ok tt, w)
forward_pending name (some r) w =
    if is_new w r (lookup name w.prev_variables_values)
    then (do words ← words_at r; set name (sequence words) (some false); put_prev name r) w
    else (ok tt, w)

-- One round of the loop in `sync`.
unfoldable pub sync_variable : Text → Action (Unit {0})
unfolding forward_pending text_eq
sync_variable name w = forward_pending name (lookup name w.next_variables_values) w

unfoldable pub sync_all : List Text → Action (Unit {0})
sync_all [] w = (ok tt, w)
sync_all (name ∷ names) w = (sync_variable name >> sync_all names) w

-- `Node.sync`
unfoldable pub sync : Action (Unit {0})
unfolding the_client
sync = do
  the_client
  names ← gets (λ w. w.sync_variables)
  sync_all names
  modify (λ w. record w { next_variables_values = [] })

-- What `get` returns: the only word of a list, or the list object.
pub data Got : Type 0 where
  word : ℤ → Got
  list_at : Ref → Got

abbrev pub got : Ref → List ℤ → Got
got r (x ∷ []) = word x
got r _ = list_at r

-- The query in `get`.
unfoldable pub fetch : Client → ℕ → Text → ℕ → Action (Unit {0})
unfolding ask new_list put_value put_prev
fetch client c name wait_ms w =
    (do
      v ← ask client.get_variable c (Call.get_variable w.node_id name wait_ms (here w))
      r ← new_list v
      put_value name r
      put_prev name r)
      w

-- `Node.get`
unfoldable pub get : Client → Text → ℕ → Option Bool → Action Got
unfolding the_client fetch lookup text_eq words_at
get client name wait_ms cached = do
  c ← the_client
  default ← gets (λ w. w.cached)
  known ← gets (λ w. has_key name w.variable_values)
  if not (given cached default) || not known then fetch client c name wait_ms else skip
  found ← gets (λ w. lookup name w.variable_values)
  r ← or_raise found key_error
  words ← words_at r
  pure (got r words)
