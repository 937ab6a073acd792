-- ===== src/Node/Memory/Overlay.antt =====
-- What a run of words written at an address does to the words of a list at another.
use pyaseba.Base.{
  ℕ, zero, suc, ◌+◌, ◌-◌, ◌≤◌, ◌<◌, ◌≡◌, refl, sym, ap, Option, none, some, List, [], ◌∷◌, ◌++◌,
  arith, ℤ, pos, length, length-take, get_elem?, take, drop, ltb, if◌then◌else◌, min, false,
}
use pyaseba.Base.Int.{◌+ℤ◌, ◌-ℤ◌}
use pyaseba.Node.Update.{set_slice, take_ℤ, min_ℤ}

abbrev or_old : Option ℤ → ℤ → ℤ
or_old none old = old
or_old (some new) old = new

-- The word at the address `a` after `vs` is written at the address `i`.
abbrev pub overlaid : ℕ → ℤ → ℕ → List ℤ → ℤ
overlaid a old i vs = if ltb a i then old else or_old (get_elem? vs (a - i)) old

-- The words at the addresses from `a` on after `vs` is written at the address `i`.
unfoldable pub overlay : ℕ → List ℤ → ℕ → List ℤ → List ℤ
overlay a [] i vs = []
overlay a (x ∷ xs) i vs = overlaid a x i vs ∷ overlay (suc a) xs i vs

get_elem?-length : (vs : List ℤ) (k : ℕ) → length vs ≤ k → get_elem? vs k ≡ none
get_elem?-length [] k h = refl
get_elem?-length (v ∷ vs) zero h = absurd (omega arith)
get_elem?-length (v ∷ vs) (suc k) h = get_elem?-length vs k (omega arith)

get_elem?-drop : (vs : List ℤ) (l k : ℕ) → get_elem? (drop l vs) k ≡ get_elem? vs (l + k)
get_elem?-drop vs zero k = let e : 0 + k ≡ k = omega arith in rw e
get_elem?-drop [] (suc l) k = refl
get_elem?-drop (v ∷ vs) (suc l) k =
    let e : suc l + k ≡ suc (l + k) = omega arith in rw e (get_elem?-drop vs l k)

pub length-overlay :
    (a : ℕ) (xs : List ℤ) (i : ℕ) (vs : List ℤ) → length (overlay a xs i vs) ≡ length xs
unfolding overlay
length-overlay a [] i vs = refl
length-overlay a (x ∷ xs) i vs = ap suc (length-overlay (suc a) xs i vs)

pub overlay-nil : (a : ℕ) (xs : List ℤ) (i : ℕ) → overlay a xs i [] ≡ xs
unfolding overlay
overlay-nil a [] i = refl
overlay-nil a (x ∷ xs) i = ground (arith, overlay-nil (suc a) xs i)

pub take-length : (l : ℕ) (vs : List ℤ) → length vs ≤ l → take l vs ≡ vs
take-length zero [] h = refl
take-length zero (v ∷ vs) h = absurd (omega arith)
take-length (suc l) [] h = refl
take-length (suc l) (v ∷ vs) h = ap (λ r. v ∷ r) (take-length l vs (omega arith))

pub drop-length : (l : ℕ) (vs : List ℤ) → length vs ≤ l → drop l vs ≡ []
drop-length zero [] h = refl
drop-length zero (v ∷ vs) h = absurd (omega arith)
drop-length (suc l) [] h = refl
drop-length (suc l) (v ∷ vs) h = drop-length l vs (omega arith)

pub overlay-append :
    (a : ℕ) (xs ys : List ℤ) (i : ℕ) (vs : List ℤ)
    → overlay a (xs ++ ys) i vs ≡ overlay a xs i vs ++ overlay (a + length xs) ys i vs
unfolding overlay
overlay-append a [] ys i vs = let e : a + 0 ≡ a = omega arith in rw e
overlay-append a (x ∷ xs) ys i vs =
    let e : a + suc (length xs) ≡ suc a + length xs = omega arith in
    rw (e, overlay-append (suc a) xs ys i vs)

-- Words in front of the ones that are written stay.
pub overlay_before :
    (a : ℕ) (xs : List ℤ) (i : ℕ) (vs : List ℤ) → a + length xs ≤ i → overlay a xs i vs ≡ xs
unfolding overlay
overlay_before a [] i vs h = refl
overlay_before a (x ∷ xs) i vs h = ground (arith, overlay_before (suc a) xs i vs)

-- Words behind the ones that are written stay.
pub overlay_behind :
    (a : ℕ) (xs : List ℤ) (i : ℕ) (vs : List ℤ) → i + length vs ≤ a → overlay a xs i vs ≡ xs
unfolding overlay
overlay_behind a [] i vs h = refl
overlay_behind a (x ∷ xs) i vs h =
    ground (arith, get_elem?-length vs (a - i), overlay_behind (suc a) xs i vs)

-- Behind the first `l` words, writing all of them is writing the others.
pub overlay-drop :
    (a : ℕ) (xs : List ℤ) (i : ℕ) (vs : List ℤ) (l : ℕ)
    → i + l ≤ a
    → overlay a xs (i + l) (drop l vs) ≡ overlay a xs i vs
unfolding overlay
overlay-drop a [] i vs l h = refl
overlay-drop a (x ∷ xs) i vs l h =
    let e : l + (a - (i + l)) ≡ a - i = omega arith in
    ground (
      arith,
      get_elem?-drop vs l (a - (i + l)),
      ap (get_elem? vs) e,
      overlay-drop (suc a) xs i vs l,
    )

-- Writing twice is writing once.
pub overlay_twice :
    (a : ℕ) (xs : List ℤ) (i : ℕ) (vs : List ℤ)
    → overlay a (overlay a xs i vs) i vs ≡ overlay a xs i vs
unfolding overlay
overlay_twice a [] i vs = refl
overlay_twice a (x ∷ xs) i vs = ground (arith, overlay_twice (suc a) xs i vs)

overlay-cons :
    (a : ℕ) (xs : List ℤ) (v : ℤ) (vs : List ℤ)
    → overlay (suc a) xs a (v ∷ vs) ≡ overlay (suc a) xs (suc a) vs
overlay-cons a xs v vs =
    let e : a + 1 ≡ suc a = omega arith in
    sym (rw (← e) (overlay-drop (a + 1) xs a (v ∷ vs) 1 (omega arith)))

get_elem?-take : (vs : List ℤ) (l k : ℕ) → k < l → get_elem? (take l vs) k ≡ get_elem? vs k
get_elem?-take vs zero k h = absurd (omega arith)
get_elem?-take [] (suc l) k h = refl
get_elem?-take (v ∷ vs) (suc l) zero h = refl
get_elem?-take (v ∷ vs) (suc l) (suc k) h = get_elem?-take vs l k (omega arith)

-- The first `l` words suffice for a list that ends within them.
pub overlay-take :
    (a : ℕ) (xs : List ℤ) (i : ℕ) (vs : List ℤ) (l : ℕ)
    → a + length xs ≤ i + l
    → overlay a xs i (take l vs) ≡ overlay a xs i vs
unfolding overlay
overlay-take a [] i vs l h = refl
overlay-take a (x ∷ xs) i vs l h =
    ground (arith, get_elem?-take vs l (a - i), overlay-take (suc a) xs i vs l)

-- Writing the first `l` words and then the others is writing all.
pub overlay-take-drop :
    (a : ℕ) (xs : List ℤ) (i : ℕ) (vs : List ℤ) (l : ℕ)
    → overlay a (overlay a xs i (take l vs)) (i + l) (drop l vs) ≡ overlay a xs i vs
unfolding overlay
overlay-take-drop a [] i vs l = refl
overlay-take-drop a (x ∷ xs) i vs l =
    let e : ltb a (i + l) ≡ false → l + (a - (i + l)) ≡ a - i = λ h. ground arith in
    ground (
      arith,
      get_elem?-take vs l (a - i),
      get_elem?-length (take l vs) (a - i),
      length-take l vs,
      get_elem?-drop vs l (a - (i + l)),
      e,
      overlay-take-drop (suc a) xs i vs l,
    )

-- Replacing the `m` words that the list and the words have in common.
overlay_here :
    (a m : ℕ) (xs vs : List ℤ)
    → m ≡ min (length xs) (length vs)
    → take m vs ++ drop m xs ≡ overlay a xs a vs
unfolding overlay
overlay_here a zero [] vs h = refl
overlay_here a (suc m) [] vs h = absurd (omega arith)
overlay_here a zero (x ∷ xs) [] h = sym (overlay_behind a (x ∷ xs) a [] (omega arith))
overlay_here a (suc m) (x ∷ xs) [] h = absurd (omega arith)
overlay_here a zero (x ∷ xs) (v ∷ vs) h = absurd (omega arith)
overlay_here a (suc m) (x ∷ xs) (v ∷ vs) h =
    let e : a - a ≡ 0 = omega arith in
    let at : get_elem? (v ∷ vs) (a - a) ≡ some v = ap (get_elem? (v ∷ vs)) e in
    ground (arith, overlay_here (suc a) m xs vs, overlay-cons a xs v vs, at)

overlay_inside :
    (a j m : ℕ) (xs vs : List ℤ)
    → j ≤ length xs
    → m ≡ min (length xs - j) (length vs)
    → take j xs ++ (take m vs ++ drop (j + m) xs) ≡ overlay a xs (a + j) vs
unfolding overlay
overlay_inside a zero m xs vs h e =
    let e0 : a + 0 ≡ a = omega arith in
    let e1 : 0 + m ≡ m = omega arith in rw (e0, e1) (overlay_here a m xs vs (omega arith))
overlay_inside a (suc j) m [] vs h e = absurd (omega arith)
overlay_inside a (suc j) m (x ∷ xs) vs h e =
    let e0 : a + suc j ≡ suc a + j = omega arith in
    let e1 : suc j + m ≡ suc (j + m) = omega arith in
    let rest = overlay_inside (suc a) j m xs vs (omega arith) (omega arith) in
    rw (e0, e1) (ground (arith, rest))

-- The words of a part that are left of `vs`, and the ones that it takes.
unfoldable pub part_length : ℕ → ℕ → ℕ → ℕ
part_length size j n = min (size - j) n

pub min_ℤ-part_length :
    (size j n : ℕ) → j < size → min_ℤ (pos size -ℤ pos j) n ≡ pos (part_length size j n)
unfolding part_length
min_ℤ-part_length size j n h = ground arith

-- What `_set_changes` assigns to a slice of a list at the address `a`.
pub set_slice-overlay :
    (a j : ℕ) (xs vs : List ℤ)
    → j < length xs
    → let l = pos (part_length (length xs) j (length vs)) in
      set_slice xs j l (take_ℤ l vs) ≡ overlay a xs (a + j) vs
unfolding set_slice part_length
set_slice-overlay a j xs vs h =
    let n = length xs in
    let k = length vs in
    let m = min (n - j) k in
    let e0 : min j n ≡ j = omega arith in
    let e : pos j +ℤ pos m ≡ pos (j + m) = ground arith in
    let e1 : min (j + m) n ≡ j + m = omega arith in
    let e2 : min m k ≡ m = omega arith in
    let e3 : ltb (j + m) j ≡ false = ground arith in
    rw (e, e0, e1, e2, e3) (overlay_inside a j m xs vs (omega arith) refl)
