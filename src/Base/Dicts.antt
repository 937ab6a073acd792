-- ===== src/Base/Dicts.antt =====
-- Python's dict in insertion order, over keys with decidable equality.
use mathlib.Core.Path.{◌≡◌, refl, sym, subst, ◌∙◌}
use mathlib.Core.Logic.{◌⊎◌, ◌≢◌}
use mathlib.Core.Bool.{Bool}
use mathlib.Core.Option.{Option, none, some}
use mathlib.Core.List.{List, [], ◌∷◌, ◌++◌, append-nil, append_assoc}
use native.Mathlib.Omega.{arith}
use pyaseba.Base.Tests.{Eq, ◌==◌, contains, is_some, if◌then◌else◌}

abbrev pub Dict {ℓ κ} : Type ℓ → Type κ → Type (ℓ ⊔ κ)
Dict K V = List (K × V)

-- `list(d)`
abbrev pub keys {ℓ κ} : {K : Type ℓ} {V : Type κ} → Dict K V → List K
keys [] = []
keys ((k, _) ∷ d) = k ∷ keys d

-- `list(d.values())`
abbrev pub values {ℓ κ} : {K : Type ℓ} {V : Type κ} → Dict K V → List V
values [] = []
values ((_, v) ∷ d) = v ∷ values d

-- The first of two options that is there.
abbrev pub or_else {ℓ} : {A : Type ℓ} → Option A → Option A → Option A
or_else none o = o
or_else (some v) o = some v

module _ {ℓ κ} {K : Type ℓ} {V : Type κ} ⦃e : Eq K⦄ where
  -- `d.get(k)`
  unfoldable pub lookup : K → Dict K V → Option V
  lookup k [] = none
  lookup k ((j, v) ∷ d) = if k == j then some v else lookup k d

  -- `d.get(k, v)`
  unfoldable pub lookup_or : K → V → Dict K V → V
  unfolding lookup
  lookup_or k v d = elim (lookup k d) [ none ↦ v | some w ↦ w ]

  -- `k in d`
  abbrev pub has_key : K → Dict K V → Bool
  has_key k d = is_some (lookup k d)

  -- `d[k] = v`
  unfoldable pub insert : K → V → Dict K V → Dict K V
  insert k v [] = (k, v) ∷ []
  insert k v ((j, w) ∷ d) = if k == j then (k, v) ∷ d else (j, w) ∷ insert k v d

  -- `del d[k]`
  unfoldable pub erase : K → Dict K V → Dict K V
  erase k [] = []
  erase k ((j, w) ∷ d) = let rest = erase k d in if k == j then rest else (j, w) ∷ rest

  -- No key is listed twice.
  abbrev pub NodupKeys : Dict K V → Type κ
  NodupKeys [] = Unit
  NodupKeys ((k, _) ∷ d) = (lookup k d ≡ none) × NodupKeys d

  pub lookup-nil : (k : K) → lookup k [] ≡ none
  unfolding lookup
  lookup-nil k = refl

  pub lookup_or-some : (k : K) (w v : V) (d : Dict K V) → lookup k d ≡ some v → lookup_or k w d ≡ v
  unfolding lookup_or
  lookup_or-some k w v d h = ground arith

  pub lookup_or-none : (k : K) (w : V) (d : Dict K V) → lookup k d ≡ none → lookup_or k w d ≡ w
  unfolding lookup_or
  lookup_or-none k w d h = ground arith

  pub lookup-insert :
      (j k : K) (v : V) (d : Dict K V)
      → lookup j (insert k v d) ≡ (if j == k then some v else lookup j d)
  unfolding insert lookup
  lookup-insert j k v [] = ground arith
  lookup-insert j k v (_ ∷ d) = ground (arith, lookup-insert j k v d)

  pub lookup-erase :
      (j k : K) (d : Dict K V) → lookup j (erase k d) ≡ (if j == k then none else lookup j d)
  unfolding erase lookup
  lookup-erase j k [] = ground arith
  lookup-erase j k (_ ∷ d) = ground (arith, lookup-erase j k d)

  pub lookup-insert_self : (k : K) (v : V) (d : Dict K V) → lookup k (insert k v d) ≡ some v
  lookup-insert_self k v d = ground (arith, lookup-insert k k v d)

  pub lookup-insert_ne :
      (j k : K) (v : V) (d : Dict K V) → j ≢ k → lookup j (insert k v d) ≡ lookup j d
  lookup-insert_ne j k v d h = ground (arith, lookup-insert j k v d)

  pub contains-keys : (k : K) (d : Dict K V) → contains (keys d) k ≡ has_key k d
  unfolding lookup
  contains-keys k [] = refl
  contains-keys k (_ ∷ d) = ground (arith, contains-keys k d)

  pub insert-NodupKeys : (k : K) (v : V) (d : Dict K V) → NodupKeys d → NodupKeys (insert k v d)
  unfolding insert
  insert-NodupKeys k v [] _ = (lookup-nil k, tt)
  insert-NodupKeys k v ((j, _) ∷ d) (fresh, u) =
      ground (arith, insert-NodupKeys k v d u, lookup-insert j k v d)

  pub lookup-append :
      (k : K) (d e : Dict K V) → lookup k (d ++ e) ≡ or_else (lookup k d) (lookup k e)
  unfolding lookup
  lookup-append k [] e = refl
  lookup-append k (_ ∷ d) e = ground (arith, lookup-append k d e)

  -- A new key goes to the end.
  pub insert-append :
      (k : K) (v : V) (d : Dict K V) → lookup k d ≡ none → insert k v d ≡ d ++ (k, v) ∷ []
  unfolding lookup insert
  insert-append k v [] h = refl
  insert-append k v (_ ∷ d) h = ground (arith, insert-append k v d)

  -- `dict(pairs)` into the entries already there.
  unfoldable pub insert_all : Dict K V → Dict K V → Dict K V
  unfolding insert
  insert_all [] d = d
  insert_all ((k, v) ∷ pairs) d = insert_all pairs (insert k v d)

  NodupKeys-middle :
      (d : Dict K V) (k : K) (v : V) (e : Dict K V)
      → NodupKeys (d ++ (k, v) ∷ e)
      → lookup k d ≡ none
  unfolding lookup
  NodupKeys-middle [] k v e h = refl
  NodupKeys-middle ((j, w) ∷ d) k v e h =
      ground (arith, NodupKeys-middle d k v e h.1, lookup-append j d ((k, v) ∷ e))

  pub insert_all-append :
      (pairs d : Dict K V) → NodupKeys (d ++ pairs) → insert_all pairs d ≡ d ++ pairs
  unfolding insert_all
  insert_all-append [] d h = sym (append-nil d)
  insert_all-append ((k, v) ∷ pairs) d h =
      let e = append_assoc d ((k, v) ∷ []) pairs in
      rw (insert-append k v d (NodupKeys-middle d k v pairs h))
        (insert_all-append pairs (d ++ (k, v) ∷ []) (subst NodupKeys (sym e) h) ∙ e)

  pub lookup-cases :
      (k : K) (v : V) (j : K) (w : V) (d : Dict K V)
      → lookup k ((j, w) ∷ d) ≡ some v
      → ((k ≡ j) × (v ≡ w)) ⊎ (lookup k d ≡ some v)
  unfolding lookup
  lookup-cases k v j w d h = ground arith
