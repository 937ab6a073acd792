-- ===== src/Node/Memory/Answers.antt =====
-- The caches behind `update`: new lists, one for each variable of the client's answer.
use pyaseba.Base.{
  ℕ, suc, ◌≤◌, ◌<◌, ◌≡◌, refl, sym, ◌∙◌, ap, Option, none, some, List, [], ◌∷◌, ◌++◌, arith, Text,
  text_eq, nat_eq, Dict, ℤ, length, inl, inr, Bool-cases, ◌==◌,
}
use mathlib.Core.List.{append-nil, append_assoc}
use mathlib.Core.Option.{some-injective}
use pyaseba.Base.Dicts.{values, lookup, lookup-nil, lookup-cases}
use pyaseba.Base.Heap.{
  Ref, Heap, read, next, alloc, next-alloc, read-alloc, read-append, next-append,
}
use pyaseba.Base.Results.{ok}
use pyaseba.Client.{Call, Client}
use pyaseba.Node.State.{World, pure, bind-ok, here}
use pyaseba.Node.Update.{new_lists}
use pyaseba.Node.Memory.Write.{Mapped, Names}
use pyaseba.Node.Memory.Round.{with_heap}
use pyaseba.Node.Memory.Changed.{memory}

-- New addresses from `n` on, one for each entry.
pub new_addresses : Ref → Dict Text (List ℤ) → Dict Text Ref
new_addresses n [] = []
new_addresses n ((name, _) ∷ vs) = (name, n) ∷ new_addresses (suc n) vs

abbrev pub stored_heap : Heap ℤ → Dict Text (List ℤ) → Heap ℤ
stored_heap h vs = h ++ values vs

stored_heap-cons :
    (h : Heap ℤ) (name : Text) (words : List ℤ) (vs : Dict Text (List ℤ))
    → stored_heap (alloc h words) vs ≡ stored_heap h ((name, words) ∷ vs)
unfolding alloc
stored_heap-cons h name words vs = append_assoc h (words ∷ []) (values vs)

module _ (client : Client) where
  pub new_lists_lem :
      (vs : Dict Text (List ℤ)) (w : World)
      → new_lists client vs w
        ≡ (ok (new_addresses (next w.heap) vs), with_heap w (stored_heap w.heap vs))
  unfolding new_lists new_addresses
  new_lists_lem [] w = rw (append-nil w.heap) refl
  new_lists_lem ((name, words) ∷ vs) w =
      let w1 = with_heap w (alloc w.heap words) in
      let run : new_lists client vs w1 ≡ (
        ok (new_addresses (suc (next w.heap)) vs),
        with_heap w (stored_heap w.heap ((name, words) ∷ vs)),
      ) =
        new_lists_lem vs w1
        ∙ rw (next-alloc w.heap words, stored_heap-cons w.heap name words vs) refl in
      bind-ok (new_lists client vs) (λ rest. pure ((name, next w.heap) ∷ rest)) w1 _ _ run

addresses_le :
    (n : Ref) (vs : Dict Text (List ℤ)) (name : Text) (r : Ref)
    → lookup name (new_addresses n vs) ≡ some r
    → n ≤ r
unfolding new_addresses
addresses_le n [] name r h = cc (lookup-nil {V = Ref} name)
addresses_le n ((j, words) ∷ vs) name r h =
    elim (lookup-cases name r j n (new_addresses (suc n) vs) h) [
      | inl (_, e) ↦ omega arith
      | inr rest ↦ omega (arith, addresses_le (suc n) vs name r rest)
    ]

-- No address is given to two names.
addresses_apart :
    (n : Ref) (vs : Dict Text (List ℤ)) (a b : Text) (r : Ref)
    → lookup a (new_addresses n vs) ≡ some r
    → lookup b (new_addresses n vs) ≡ some r
    → a ≡ b
unfolding new_addresses
addresses_apart n [] a b r h k = cc (lookup-nil {V = Ref} a)
addresses_apart n ((j, words) ∷ vs) a b r h k =
    elim (lookup-cases a r j n (new_addresses (suc n) vs) h) [
      | inl (e, at) ↦ elim (lookup-cases b r j n (new_addresses (suc n) vs) k) [
        | inl (e', _) ↦ e ∙ sym e'
        | inr rest ↦ absurd (omega (arith, addresses_le (suc n) vs b r rest))
      ]
      | inr rest ↦ elim (lookup-cases b r j n (new_addresses (suc n) vs) k) [
        | inl (_, at) ↦ absurd (omega (arith, addresses_le (suc n) vs a r rest))
        | inr rest' ↦ addresses_apart (suc n) vs a b r rest rest'
      ]
    ]

next-cons : (words : List ℤ) (vs : Dict Text (List ℤ)) → 0 < next (words ∷ values vs)
unfolding next
next-cons words vs = omega arith

-- The list at the address of a name is the one that the answer has for it.
addresses_read :
    (h : Heap ℤ) (vs : Dict Text (List ℤ)) (name : Text) (words : List ℤ)
    → lookup name vs ≡ some words
    → (r : Ref) × (lookup name (new_addresses (next h) vs) ≡ some r)
      × (r < next (stored_heap h vs))
      × (read (stored_heap h vs) r ≡ words)
unfolding new_addresses lookup
addresses_read h [] name words e = cc
addresses_read h ((j, old) ∷ vs) name words e = elim (Bool-cases (name == j)) [
  | inl here ↦
      let same : old ≡ words = ground arith in
      let in_heap : next h < next (alloc h old) = omega (arith, next-alloc h old) in
      (
        next h,
        rw here refl,
        omega (arith, next-append h (old ∷ values vs), next-cons old vs),
        rw (← stored_heap-cons h j old vs)
            (read-append (alloc h old) (values vs) (next h) in_heap ∙ (read-alloc h old ∙ same)),
      )
  | inr there ↦
      let (r, found, below, at) = addresses_read (alloc h old) vs name words (ground arith) in
      (
        r,
        rw there (rw (← next-alloc h old) found),
        rw (← stored_heap-cons h j old vs) below,
        rw (← stored_heap-cons h j old vs) at,
      )
]

-- The words that an answer has for all variables, in the order of their addresses.
unfoldable pub answered_words : Option (List ℤ) → List ℤ
answered_words none = []
answered_words (some words) = words

unfoldable pub answered : Dict Text (List ℤ) → Dict ℕ (Text × ℕ) → List ℤ
answered vs [] = []
answered vs ((_, (name, _)) ∷ vi) = answered_words (lookup name vs) ++ answered vs vi

-- The answer has every variable at its size.
abbrev pub Answers : Dict Text (List ℤ) → Dict ℕ (Text × ℕ) → Type 0
Answers vs [] = Unit
Answers vs ((_, (name, size)) ∷ vi) =
    ((words : List ℤ) × (lookup name vs ≡ some words) × (length words ≡ size)) × Answers vs vi

Answers-lookup :
    (vs : Dict Text (List ℤ)) (vi : Dict ℕ (Text × ℕ)) (s : ℕ) (name : Text) (size : ℕ)
    → Answers vs vi
    → lookup s vi ≡ some (name, size)
    → (words : List ℤ) × (lookup name vs ≡ some words) × (length words ≡ size)
Answers-lookup vs [] s name size a h = cc (lookup-nil {V = Text × ℕ} s)
Answers-lookup vs ((s', (name', size')) ∷ vi) s name size a h =
    elim (lookup-cases s (name, size) s' (name', size') vi h) [
      | inl (_, same) ↦
          let n-eq = ap (λ (e : Text × ℕ). e.0) same in
          let z-eq = ap (λ (e : Text × ℕ). e.1) same in rw (n-eq, z-eq) a.0
      | inr rest ↦ Answers-lookup vs vi s name size a.1 rest
    ]

-- The state behind an `update` that is answered by `vs`.
abbrev pub refreshed : ℕ → Call → World → Dict Text (List ℤ) → World
refreshed c call w vs = record w {
  calls = w.calls ++ (c, call) ∷ [];
  heap = stored_heap w.heap vs;
  variable_values = new_addresses (next w.heap) vs;
  prev_variables_values = new_addresses (next w.heap) vs;
}

pub refreshed-Mapped :
    (c : ℕ) (call : Call) (w : World) (vs : Dict Text (List ℤ)) (vi : Dict ℕ (Text × ℕ))
    → Answers vs vi
    → Mapped vi (refreshed c call w vs)
refreshed-Mapped c call w vs vi a =
    let cell : (s : ℕ) (name : Text) (size : ℕ)
        → lookup s vi ≡ some (name, size)
        → (r : Ref) × (lookup name (new_addresses (next w.heap) vs) ≡ some r)
          × (r < next (stored_heap w.heap vs))
          × (length (read (stored_heap w.heap vs) r) ≡ size) =
      λ s name size found.
        let (words, e, z) = Answers-lookup vs vi s name size a found in
        let (r, at, below, same) = addresses_read w.heap vs name words e in
        (r, at, below, ap length same ∙ z) in
    record {
      values =
          λ s name size found. let (r, at, below, _) = cell s name size found in (r, at, below);
      prevs = λ s name size found. let (r, at, below, _) = cell s name size found in (r, at, below);
      sized = λ s name size q found named.
          let (r, at, below, z) = cell s name size found in
          let same : r ≡ q = elim named [
            | inl e ↦ some-injective r q (sym at ∙ e)
            | inr e ↦ some-injective r q (sym at ∙ e)
          ] in
          rw (← same) z;
      apart = λ n m r q ne a b e.
          ne (addresses_apart (next w.heap) vs n m r (one n r a) (rw e (one m q b)));
    }
  where
    one :
        (n : Text) (r : Ref)
        → Names (refreshed c call w vs) n r
        → lookup n (new_addresses (next w.heap) vs) ≡ some r
    one n r (inl e) = e
    one n r (inr e) = e

pub memory-refreshed :
    (h : Heap ℤ) (vs : Dict Text (List ℤ)) (vi : Dict ℕ (Text × ℕ))
    → Answers vs vi
    → memory (stored_heap h vs) (new_addresses (next h) vs) vi ≡ answered vs vi
unfolding memory answered answered_words
memory-refreshed h vs [] a = refl
memory-refreshed h vs ((s, (name, size)) ∷ vi) a =
    let (words, e, z) = a.0 in
    let (r, at, below, same) = addresses_read h vs name words e in
    rw (at, e, same, memory-refreshed h vs vi a.1) refl
