-- ===== src/Node/Update.antt =====
-- Refreshing the caches: `update`, `get_all`, and the notifications of changes that
-- `_set_changes` writes into the cached lists in place.
use pyaseba.Base.{
  ℕ, zero, suc, ◌+◌, ◌*◌, ◌-◌, Bool, true, false, ◌&&◌, Option, none, some, List, [], ◌∷◌, ◌++◌,
  Text, text_eq, nat_eq, if◌then◌else◌, Dict, ℤ, pos, negsuc, length, take, drop, ltb, min,
}
use pyaseba.Base.Int.{◌+ℤ◌, ◌-ℤ◌, leb_ℤ}
use pyaseba.Base.Dicts.{lookup, insert}
use pyaseba.Base.Heap.{Ref, read, write}
use pyaseba.Base.Results.{ok, err, key_error, assertion_error, out_of_fuel}
use pyaseba.Description.{Description}
use pyaseba.Mirroring.{given}
use pyaseba.Client.{Call, Client}
use pyaseba.Node.State.{
  Action, pure, raise, gets, or_raise, modify, skip, the_client, perform, ask, new_list, here,
  ◌>>=◌, ◌>>◌,
}

-- The position that a slice's end `k` stands for in a list of length `n`.
abbrev pub slice_end : ℕ → ℤ → ℕ
slice_end n (pos k) = min k n
slice_end n (negsuc k) = n - suc k

-- `xs[j:j + l] = ys`
unfoldable pub set_slice : List ℤ → ℕ → ℤ → List ℤ → List ℤ
set_slice xs j l ys =
    let start = slice_end (length xs) (pos j) in
    let stop = slice_end (length xs) (pos j +ℤ l) in
    take start xs ++ (ys ++ drop (if ltb stop start then start else stop) xs)

-- `xs[:l]`
abbrev pub take_ℤ : ℤ → List ℤ → List ℤ
take_ℤ l xs = take (slice_end (length xs) l) xs

-- `xs[l:]`
abbrev pub drop_ℤ : ℤ → List ℤ → List ℤ
drop_ℤ l xs = drop (slice_end (length xs) l) xs

-- `min(a, b)` for a length `b`
abbrev pub min_ℤ : ℤ → ℕ → ℤ
min_ℤ a b = if leb_ℤ a (pos b) then a else pos b

-- `while i not in vi and i >= 0: i -= 1; j += 1`, and the entry at `i`; none if `i` falls below 0.
unfoldable pub locate : Dict ℕ (Text × ℕ) → ℕ → ℕ → Option (ℕ × ℕ × Text × ℕ)
unfolding nat_eq
locate vi zero j = elim (lookup zero vi) [
  | none ↦ none
  | some (name, size) ↦ some (zero, j, name, size)
]
locate vi (suc i) j =
    let below = locate vi i (suc j) in
    elim (lookup (suc i) vi) [ none ↦ below | some (name, size) ↦ some (suc i, j, name, size) ]

-- `d[name][j:j + l] = words`, in place in the list that the dict names.
unfoldable pub write_slice : Option Ref → ℕ → ℤ → List ℤ → Action (Unit {0})
unfolding set_slice read write
write_slice none j l words w = (err key_error, w)
write_slice (some r) j l words w =
    (ok tt, record w { heap = write w.heap r (set_slice (read w.heap r) j l words) })

abbrev pub is_zero : ℤ → Bool
is_zero (pos zero) = true
is_zero _ = false

-- The two writes of `_set_changes` for one variable.
unfoldable pub write_change : Text → ℕ → ℤ → List ℤ → Action (Unit {0})
unfolding text_eq
write_change name j l words = do
  value ← gets (λ w. lookup name w.variable_values)
  write_slice value j l words
  prev ← gets (λ w. lookup name w.prev_variables_values)
  write_slice prev j l words

-- What a round does with the variable `name` that begins at `start`, `j` below the index, for the
-- part of `l` words: `if l:` and its two branches.
abbrev pub change_part :
    Bool
    → ℕ
    → ℕ
    → Text
    → ℕ
    → ℤ
    → List ℤ
    → List Text
    → (ℕ → List ℤ → List Text → Action (List Text))
    → Action (List Text)
change_part true start j name size l vs names again = pure names
change_part false start j name size l vs names again =
    write_change name j l (take_ℤ l vs) >> again (start + size) (drop_ℤ l vs) (names ++ name ∷ [])

-- `assert i in vi`, and the rest of a round of `while vs`; `again` is what follows the round.
abbrev pub change_round :
    Option (ℕ × ℕ × Text × ℕ)
    → List ℤ
    → List Text
    → (ℕ → List ℤ → List Text → Action (List Text))
    → Action (List Text)
change_round none vs names again = raise assertion_error
change_round (some (start, j, name, size)) vs names again =
    let l = min_ℤ (pos size -ℤ pos j) (length vs) in
    change_part (is_zero l) start j name size l vs names again

-- The loop `while vs` for one change; it returns the names that it has appended. The fuel
-- is `2 * len(vs) + 2`: a round ends the loop, or takes words off, or is followed by a round that
-- ends the loop.
unfoldable pub change_loop : ℕ → Dict ℕ (Text × ℕ) → ℕ → List ℤ → List Text → Action (List Text)
change_loop zero vi i vs names = raise out_of_fuel
change_loop (suc fuel) vi i [] names = pure names
change_loop (suc fuel) vi i (v ∷ vs) names =
    change_round (locate vi i 0) (v ∷ vs) names (change_loop fuel vi)

-- `if i > m: break`, and the rest of the loop.
abbrev pub stop_behind : Bool → List Text → Action (List Text) → Action (List Text)
stop_behind true names rest = pure names
stop_behind false names rest = rest

-- The loop over the changes, up to the first whose index lies behind the variables.
unfoldable pub change_all : Description → List (ℕ × List ℤ) → List Text → Action (List Text)
change_all desc [] names = pure names
change_all desc ((i, vs) ∷ changes) names = stop_behind (ltb desc.variables_size i) names (
    change_loop (2 * length vs + 2) desc.variables_by_index i vs names >>= λ names'.
    change_all desc changes names')

abbrev pub changes_of : Option Description → List (ℕ × List ℤ) → Action (List Text)
changes_of none changes = pure []
changes_of (some desc) changes = change_all desc changes []

-- `_set_changes`
unfoldable pub set_changes : List (ℕ × List ℤ) → Action (List Text)
set_changes changes w = changes_of w.description changes w

module _ (client : Client) where
  -- `_update_changed`
  unfoldable pub update_changed : ℕ → Action (List Text)
  unfolding the_client ask
  update_changed wait_ms = do
    c ← the_client
    node_id ← gets (λ w. w.node_id)
    include ← gets here
    changes ←
        ask client.get_changed_variables c (Call.get_changed_variables node_id wait_ms include)
    set_changes changes

  -- The list objects that a call returns, and a dict that names them.
  unfoldable pub new_lists : Dict Text (List ℤ) → Action (Dict Text Ref)
  unfolding new_list
  new_lists [] = pure []
  new_lists ((name, words) ∷ vs) = do
    r ← new_list words
    rest ← new_lists vs
    pure ((name, r) ∷ rest)

  -- `if vs:` and its two branches in `update`.
  unfoldable pub store_all : ℕ → Dict Text (List ℤ) → Action (Unit {0})
  unfolding perform
  store_all c [] = perform c Call.warn
  store_all c (v ∷ vs) = do
    d ← new_lists (v ∷ vs)
    modify (λ w. record w { variable_values = d; prev_variables_values = d })

  -- The branch of `update` that asks for all variables.
  unfoldable pub update_all : ℕ → Action (Unit {0})
  unfolding the_client ask
  update_all wait_ms = do
    c ← the_client
    node_id ← gets (λ w. w.node_id)
    include ← gets here
    vs ← ask client.get_all_variables c (Call.get_all_variables node_id wait_ms include)
    store_all c vs

  -- `Node.update`
  unfoldable pub update : ℕ → Bool → Action (Unit {0})
  update wait_ms changed =
      if changed && client.uses_mobsya_aseba
      then (do update_changed wait_ms; skip)
      else update_all wait_ms

  -- `{n: d[n] for n in names}`, into the entries already there.
  unfoldable pub select : List Text → Dict Text Ref → Action (Dict Text Ref)
  unfolding text_eq insert
  select [] d = pure d
  select (n ∷ names) d = do
    found ← gets (λ w. lookup n w.variable_values)
    r ← or_raise found key_error
    select names (insert n r d)

  -- `if not cached: self.update(wait_ms)`
  abbrev pub update_unless : Bool → ℕ → Action (Unit {0})
  update_unless true wait_ms = skip
  update_unless false wait_ms = update wait_ms false

  -- `Node.get_all`
  unfoldable pub get_all : ℕ → Option Bool → Bool → Action (Dict Text Ref)
  unfolding the_client
  get_all wait_ms cached changed = do
    the_client
    default ← gets (λ w. w.cached)
    if changed && client.uses_mobsya_aseba
        then (do names ← update_changed wait_ms; select names [])
        else (do update_unless (given cached default) wait_ms; gets (λ w. w.variable_values))
