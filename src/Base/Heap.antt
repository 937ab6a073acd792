-- ===== src/Base/Heap.antt =====
-- Mutable objects shared by reference: an allocation takes the next address, and a reference is
-- an address.
use Prim.Native.Nat.{ℕ, suc, ◌+◌, ◌<◌}
use mathlib.Core.Path.{◌≡◌}
use mathlib.Core.Logic.{◌≢◌}
use mathlib.Core.List.{List, [], ◌∷◌, ◌++◌}
use native.Mathlib.Omega.{arith}
use pyaseba.Base.Lists.{
  length, get_or, set, length-append, length-set, get_or-append, get_or-append_lt, get_or-set_self,
  get_or-set_ne,
}

abbrev pub Ref : Type 0
Ref = ℕ

-- A heap of list objects.
abbrev pub Heap : Type 0 → Type 0
Heap A = List (List A)

module _ {A : Type 0} where
  -- The object at `r`; no address outside the heap is ever handed out.
  unfoldable pub read : Heap A → Ref → List A
  read h r = get_or h r []

  -- An in-place update of the object at `r`.
  unfoldable pub write : Heap A → Ref → List A → Heap A
  write h r v = set h r v

  -- The address of the next new object.
  unfoldable pub next : Heap A → Ref
  next h = length h

  -- A new object.
  unfoldable pub alloc : Heap A → List A → Heap A
  alloc h v = h ++ v ∷ []

  pub read-alloc : (h : Heap A) (v : List A) → read (alloc h v) (next h) ≡ v
  unfolding read alloc next
  read-alloc h v = get_or-append h v []

  pub read-alloc_lt :
      (h : Heap A) (v : List A) (r : Ref) → r < next h → read (alloc h v) r ≡ read h r
  unfolding read alloc next
  read-alloc_lt h v r p = get_or-append_lt h (v ∷ []) r [] p

  pub next-alloc : (h : Heap A) (v : List A) → next (alloc h v) ≡ suc (next h)
  unfolding alloc next
  next-alloc h v = omega (arith, length-append h (v ∷ []))

  pub read-write : (h : Heap A) (r : Ref) (v : List A) → r < next h → read (write h r v) r ≡ v
  unfolding read write next
  read-write h r v p = get_or-set_self h r v [] p

  pub read-write_ne :
      (h : Heap A) (r q : Ref) (v : List A) → r ≢ q → read (write h r v) q ≡ read h q
  unfolding read write
  read-write_ne h r q v p = get_or-set_ne h r q v [] p

  pub next-write : (h : Heap A) (r : Ref) (v : List A) → next (write h r v) ≡ next h
  unfolding write next
  next-write h r v = length-set h r v

  -- Further objects behind the ones that are there.
  pub read-append : (h k : Heap A) (r : Ref) → r < next h → read (h ++ k) r ≡ read h r
  unfolding read next
  read-append h k r p = get_or-append_lt h k r [] p

  pub next-append : (h k : Heap A) → next (h ++ k) ≡ next h + next k
  unfolding next
  next-append h k = length-append h k
