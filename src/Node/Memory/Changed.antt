-- ===== src/Node/Memory/Changed.antt =====
-- `_set_changes` against writes to a memory of words.
use pyaseba.Base.{
  ℕ, ◌+◌, ◌*◌, ◌<◌, ◌≡◌, refl, ◌∙◌, ap, true, false, Option, none, some, List, [], ◌∷◌, ◌++◌, arith,
  Text, text_eq, nat_eq, Dict, ℤ, length, inl, inr, ltb, if◌then◌else◌, Bool-cases,
}
use mathlib.Core.List.{append-nil, append_assoc}
use pyaseba.Base.Dicts.{lookup}
use pyaseba.Base.Heap.{Ref, Heap, read}
use pyaseba.Base.Results.{ok}
use pyaseba.Description.{Description}
use pyaseba.Node.State.{World, bind-ok}
use pyaseba.Node.Update.{change_loop, change_all, changes_of, set_changes}
use pyaseba.Node.Memory.Overlay.{overlay, overlay-append}
use pyaseba.Node.Memory.Layout.{Tiles, end_of, lookup_head, lookup_first, lookup-le}
use pyaseba.Node.Memory.Touched.{touched}
use pyaseba.Node.Memory.Write.{Mapped}
use pyaseba.Node.Memory.Round.{Overlaid, with_heap, Mapped-Overlaid}
use pyaseba.Node.Memory.Loop.{change_loop-Overlaid}

words_of_ref : Heap ℤ → Option Ref → List ℤ
words_of_ref h none = []
words_of_ref h (some r) = read h r

-- The words of all variables in the order of their addresses, as the dict `d` of a cache has them.
unfoldable pub memory : Heap ℤ → Dict Text Ref → Dict ℕ (Text × ℕ) → List ℤ
unfolding words_of_ref
memory h d [] = []
memory h d ((_, (name, _)) ∷ vi) = words_of_ref h (lookup name d) ++ memory h d vi

-- The words of a memory after changes, each of which writes words at an address. The first change
-- behind the end drops all that follow.
unfoldable pub written : ℕ → List ℤ → List (ℕ × List ℤ) → List ℤ
written end words [] = words
written end words ((i, vs) ∷ changes) =
    let rest = written end (overlay 0 words i vs) changes in if ltb end i then words else rest

-- The names of the variables that the changes overlap, for one change after the other.
unfoldable pub changed_names : ℕ → Dict ℕ (Text × ℕ) → List (ℕ × List ℤ) → List Text
changed_names end vi [] = []
changed_names end vi ((i, vs) ∷ changes) =
    let rest = touched vi i (length vs) ++ changed_names end vi changes in
    if ltb end i then [] else rest

-- A description whose variables tile the memory.
pub record IsTiled (desc : Description) : Type 0 where
  pub tiles : Tiles 0 desc.variables_by_index
  pub some_words : 0 < desc.variables_size
  pub whole : end_of 0 desc.variables_by_index ≡ desc.variables_size

module _ (h h' : Heap ℤ) (d : Dict Text Ref) (i : ℕ) (vs : List ℤ) where
  abbrev Overlays : Dict ℕ (Text × ℕ) → Type 0
  Overlays vi =
      (s : ℕ) (name : Text) (size : ℕ)
      → lookup s vi ≡ some (name, size)
      → (r : Ref) × (lookup name d ≡ some r)
        × (length (read h r) ≡ size)
        × (read h' r ≡ overlay s (read h r) i vs)

  memory-overlay :
      (a : ℕ) (vi : Dict ℕ (Text × ℕ))
      → Tiles a vi
      → Overlays vi
      → memory h' d vi ≡ overlay a (memory h d vi) i vs
  unfolding memory
  memory-overlay a [] t each = unfold overlay in refl
  memory-overlay a ((s, (name, size)) ∷ vi) t each =
      let (r, e, z, o) = each s name size (lookup_first s (name, size) vi) in
      let rest = memory-overlay (a + size) vi t.3 (λ s' name' size' found.
        let above = lookup-le (a + size) vi s' (name', size') t.3 found in
        each s' name' size' (lookup_head s (name, size) vi s' (λ q. omega (arith, t.0)) ∙ found)) in
      rw (e, o, t.0, rest, overlay-append a (read h r) (memory h d vi) i vs, z) refl

-- What a list of changes leaves, in both caches.
pub record Refreshed (desc : Description) (w : World) (changes : List (ℕ × List ℤ)) (h' : Heap ℤ)
    : Type 0 where
  pub values :
      memory h' w.variable_values desc.variables_by_index
      ≡ written desc.variables_size
          (memory w.heap w.variable_values desc.variables_by_index)
          changes
  pub prevs :
      memory h' w.prev_variables_values desc.variables_by_index
      ≡ written desc.variables_size
          (memory w.heap w.prev_variables_values desc.variables_by_index)
          changes
  pub mapped : Mapped desc.variables_by_index (with_heap w h')

module _ (desc : Description) (tiled : IsTiled desc) where
  abbrev vi : Dict ℕ (Text × ℕ)
  vi = desc.variables_by_index

  abbrev end : ℕ
  end = desc.variables_size

  Overlaid-values :
      (w : World) (i : ℕ) (vs : List ℤ) (h' : Heap ℤ)
      → Mapped vi w
      → Overlaid vi w i vs h'
      → memory h' w.variable_values vi ≡ overlay 0 (memory w.heap w.variable_values vi) i vs
  Overlaid-values w i vs h' m o =
      memory-overlay w.heap h' w.variable_values i vs 0 vi tiled.tiles (λ s name size found.
        let (r, e, _) = m.values s name size found in
        (r, e, m.sized s name size r found (inl e), o.words s name size r found (inl e)))

  Overlaid-prevs :
      (w : World) (i : ℕ) (vs : List ℤ) (h' : Heap ℤ)
      → Mapped vi w
      → Overlaid vi w i vs h'
      → memory h' w.prev_variables_values vi
        ≡ overlay 0 (memory w.heap w.prev_variables_values vi) i vs
  Overlaid-prevs w i vs h' m o =
      memory-overlay w.heap h' w.prev_variables_values i vs 0 vi tiled.tiles (λ s name size found.
        let (r, e, _) = m.prevs s name size found in
        (r, e, m.sized s name size r found (inr e), o.words s name size r found (inr e)))

  module _ (i : ℕ) (vs : List ℤ) (changes : List (ℕ × List ℤ)) (names : List Text) (w : World)
      (m : Mapped vi w) where
    abbrev Rest : Type 0
    Rest =
        (h' : Heap ℤ) × (change_all desc ((i, vs) ∷ changes) names w
          ≡ (ok (names ++ changed_names end vi ((i, vs) ∷ changes)), with_heap w h'))
        × Refreshed desc w ((i, vs) ∷ changes) h'

    stopped : ltb end i ≡ true → Rest
    unfolding change_all written changed_names
    stopped e =
        (w.heap, rw (e, append-nil names) refl, record { values = rw e; prevs = rw e; mapped = m })

    gone_on :
        (h1 h2 : Heap ℤ)
        → ltb end i ≡ false
        → change_loop (2 * length vs + 2) vi i vs names w
          ≡ (ok (names ++ touched vi i (length vs)), with_heap w h1)
        → Overlaid vi w i vs h1
        → change_all desc changes (names ++ touched vi i (length vs)) (with_heap w h1) ≡ (
          ok ((names ++ touched vi i (length vs)) ++ changed_names end vi changes),
          with_heap w h2,
        )
        → Refreshed desc (with_heap w h1) changes h2
        → Rest
    unfolding change_all written changed_names
    gone_on h1 h2 e loop o run r = (
      h2,
      rw e (
          bind-ok (change_loop (2 * length vs + 2) vi i vs names)
            (λ names'. change_all desc changes names') w (names ++ touched vi i (length vs))
            (with_heap w h1) loop
          ∙ (run
              ∙ ap (λ ns. (ok ns, with_heap w h2))
                  (append_assoc names (touched vi i (length vs)) (changed_names end vi changes)))),
      record {
        values =
            rw e
              (r.values ∙ ap (λ words. written end words changes) (Overlaid-values w i vs h1 m o));
        prevs =
            rw e (r.prevs ∙ ap (λ words. written end words changes) (Overlaid-prevs w i vs h1 m o));
        mapped = r.mapped;
      },
    )

  change_all-Refreshed :
      (changes : List (ℕ × List ℤ)) (names : List Text) (w : World)
      → Mapped vi w
      → (h' : Heap ℤ) × (change_all desc changes names w
          ≡ (ok (names ++ changed_names end vi changes), with_heap w h'))
        × Refreshed desc w changes h'
  change_all-Refreshed [] names w m = (
    w.heap,
    unfold change_all changed_names in rw (append-nil names) refl,
    record { values = unfold written in refl; prevs = unfold written in refl; mapped = m },
  )
  change_all-Refreshed ((i, vs) ∷ changes) names w m = elim (Bool-cases (ltb end i)) [
    | inl behind ↦ stopped i vs changes names w m behind
    | inr inside ↦
        let (h1, loop, o) =
          change_loop-Overlaid (2 * length vs + 2) 0 vi i vs names w tiled.tiles (omega arith)
            (ground (arith, tiled.whole)) (omega (arith, tiled.whole, tiled.some_words))
            (omega arith) m in
        let (h2, run, r) =
          change_all-Refreshed changes (names ++ touched vi i (length vs)) (with_heap w h1)
            (Mapped-Overlaid vi w i vs h1 m o) in
        gone_on i vs changes names w m h1 h2 inside loop o run r
  ]

  -- On a node whose description has its variables one behind the other and whose caches have them
  -- at their sizes, no list shared by two of them, `_set_changes` returns the names of the
  -- variables that the changes overlap, and in both caches the words of all variables are those
  -- before with each change written at its address, up to the first change that lies behind the
  -- end. Nothing but the cached lists changes, and the caches are again such caches.
  pub set_changes-Refreshed :
      (changes : List (ℕ × List ℤ)) (w : World)
      → w.description ≡ some desc
      → Mapped vi w
      → (h' : Heap ℤ) × (set_changes changes w
          ≡ (ok (changed_names end vi changes), with_heap w h'))
        × Refreshed desc w changes h'
  unfolding set_changes
  set_changes-Refreshed changes w e m =
      let (h', run, r) = change_all-Refreshed changes [] w m in
      (h', ap (λ d. changes_of d changes w) e ∙ run, r)
