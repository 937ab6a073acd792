-- ===== src/Node/Mirrored.antt =====
-- The values of an event in the caches.
use pyaseba.Base.{
  ◌<◌, ◌≡◌, refl, sym, ◌∙◌, ap, ◌≢◌, Bool, true, false, none, some, List, [], ◌∷◌, arith, Text,
  text_eq, is_some, if◌then◌else◌, Dict, ℤ, inl, inr,
}
use mathlib.Core.Path.{subst, subst₂}
use mathlib.Core.Option.{none-ne-some}
use pyaseba.Base.Dicts.{
  lookup, lookup-nil, lookup-cases, has_key, lookup-insert_self, lookup-insert_ne, insert,
  NodupKeys,
}
use pyaseba.Base.Heap.{Ref, read, alloc, next, read-alloc, read-alloc_lt, next-alloc}
use pyaseba.Node.State.{World, new_list}
use pyaseba.Node.Cache.{put_value, put_prev}
use pyaseba.Node.Events.{store_values}

-- The cache holds these words for the variable, as the value and as the last known value of the
-- node.
abbrev pub Holds : Text → List ℤ → World → Type 0
Holds name words w =
    (r : Ref) × (lookup name w.variable_values ≡ some r)
    × (lookup name w.prev_variables_values ≡ some r)
    × (r < next w.heap)
    × (read w.heap r ≡ words)

-- The state behind one stored value.
abbrev pub stored : Text → List ℤ → World → World
stored name words w = record w {
  heap = alloc w.heap words;
  variable_values = insert name (next w.heap) w.variable_values;
  prev_variables_values = insert name (next w.heap) w.prev_variables_values;
}

pub store_values-cons :
    (name : Text) (words : List ℤ) (values : Dict Text (List ℤ)) (w : World)
    → store_values ((name, words) ∷ values) w
      ≡ store_values values (if has_key name w.variable_values then stored name words w else w)
unfolding store_values put_value put_prev new_list
store_values-cons name words values w = ground arith

stored-Holds : (name : Text) (words : List ℤ) (w : World) → Holds name words (stored name words w)
stored-Holds name words w = (
  next w.heap,
  lookup-insert_self name (next w.heap) w.variable_values,
  lookup-insert_self name (next w.heap) w.prev_variables_values,
  omega (arith, next-alloc w.heap words),
  read-alloc w.heap words,
)

stored-keeps :
    (j name : Text) (old words : List ℤ) (w : World)
    → j ≢ name
    → Holds j old w
    → Holds j old (stored name words w)
stored-keeps j name old words w n (r, a, b, below, e) = (
  r,
  lookup-insert_ne j name (next w.heap) w.variable_values n ∙ a,
  lookup-insert_ne j name (next w.heap) w.prev_variables_values n ∙ b,
  omega (arith, next-alloc w.heap words),
  read-alloc_lt w.heap words r below ∙ e,
)

-- One round of the loop, for a state that the round leaves alone or stores in.
round-keeps :
    (j name : Text) (old words : List ℤ) (w : World) (b : Bool)
    → j ≢ name
    → Holds j old w
    → Holds j old (if b then stored name words w else w)
round-keeps j name old words w true n h = stored-keeps j name old words w n h
round-keeps j name old words w false n h = h

round-known :
    (j name : Text) (words : List ℤ) (w : World) (b : Bool)
    → j ≢ name
    → lookup j (if b then stored name words w else w).variable_values ≡ lookup j w.variable_values
round-known j name words w true n = lookup-insert_ne j name (next w.heap) w.variable_values n
round-known j name words w false n = refl

ne_of_absent :
    (j name : Text) (words : List ℤ) (values : Dict Text (List ℤ))
    → lookup j ((name, words) ∷ values) ≡ none
    → (j ≢ name) × (lookup j values ≡ none)
unfolding lookup
ne_of_absent j name words values h = (ground arith, ground arith)

store_values-keeps :
    (j : Text) (old : List ℤ) (values : Dict Text (List ℤ)) (w : World)
    → lookup j values ≡ none
    → Holds j old w
    → Holds j old (store_values values w).1
store_values-keeps j old [] w absent h = unfold store_values in h
store_values-keeps j old ((name, words) ∷ values) w absent h =
    let (n, rest) = ne_of_absent j name words values absent in
    let b = has_key name w.variable_values in
    rw (store_values-cons name words values w) (
      store_values-keeps j old values (if b then stored name words w else w) rest
        (round-keeps j name old words w b n h))

-- The values of distinct variables that are stored: every variable that the node knows holds its
-- value afterwards.
pub store_values-Holds :
    (name : Text) (words : List ℤ) (values : Dict Text (List ℤ)) (w : World)
    → NodupKeys values
    → lookup name values ≡ some words
    → has_key name w.variable_values ≡ true
    → Holds name words (store_values values w).1
store_values-Holds name words [] w distinct found known = cc (lookup-nil {V = List ℤ} name)
store_values-Holds name words ((j, v) ∷ values) w distinct found known =
    let b = has_key j w.variable_values in
    rw (store_values-cons j v values w) (elim (lookup-cases name words j v values found) [
      | inl (here, same) ↦
          let bt : has_key j w.variable_values ≡ true =
            ap (λ k. has_key k w.variable_values) (sym here) ∙ known in
          let kept : Holds j v (store_values values (stored j v w)).1 =
            store_values-keeps j v values (stored j v w) distinct.0 (stored-Holds j v w) in
          subst (λ b'. Holds name words (store_values values (if b' then stored j v w else w)).1)
            (sym bt)
            (subst₂ (λ k u. Holds k u (store_values values (stored j v w)).1) (sym here) (sym same)
              kept)
      | inr later ↦
          let n : name ≢ j = λ p.
            none-ne-some words (sym distinct.0 ∙ (ap (λ k. lookup k values) (sym p) ∙ later)) in
          store_values-Holds name words values (if b then stored j v w else w) distinct.1 later
            (ap (λ o. is_some o) (round-known name j v w b n) ∙ known)
    ])
