-- ===== src/Shells/Typed.antt =====
-- What happens for a line that spells a name and integers.
use pyaseba.Base.{
  ℕ, zero, suc, ◌+◌, ◌/◌, ◌%◌, ◌≡◌, ◌≢◌, refl, ◌∙◌, ap, false, Bool-cases, inl, inr, Option, none,
  some, List, [], ◌∷◌, ◌++◌, map, Text, ℤ, pos, negsuc, arith, ◌=ℕ◌,
}
use pyaseba.Base.Texts.{join, decimal, decimal_ℤ, decimal_loop}
use pyaseba.Base.Lines.{is_space}
use pyaseba.Base.Numerals.{int_of, int_of-decimal_ℤ}
use pyaseba.Targets.Split.{Lacks, AllLack, split-join}
use pyaseba.Client.{Call}
use pyaseba.Shells.Words.{split_spaces, split_words, drop_empty, ints_of, both}
use pyaseba.Shells.ClientShell.{Session, log, send_value, send_pieces, do_set_variable}

-- No white space stands in the text.
abbrev pub Solid : Text → Type 0
Solid [] = Unit
Solid (c ∷ s) = (is_space c ≡ false) × Solid s

abbrev pub AllSolid : List Text → Type 0
AllSolid [] = Unit
AllSolid (w ∷ ws) = Solid w × AllSolid ws

abbrev pub NoneEmpty : List Text → Type 0
NoneEmpty [] = Unit
NoneEmpty (w ∷ ws) = (w ≢ []) × NoneEmpty ws

pub Solid-Lacks : (s : Text) → Solid s → Lacks b' ' s
Solid-Lacks [] h = tt
Solid-Lacks (c ∷ s) h = ((λ e. ground (arith, e, h.0)), Solid-Lacks s h.1)

decimal_loop-Solid : (fuel n : ℕ) (rest : Text) → Solid rest → Solid (decimal_loop fuel n rest)
unfolding decimal_loop
decimal_loop-Solid zero n rest h = h
decimal_loop-Solid (suc fuel) n rest h =
    let digit : is_space (b'0' + n % 10) ≡ false = ground arith in
    let ih = decimal_loop-Solid fuel (n / 10) ((b'0' + n % 10) ∷ rest) (digit, h) in
    elim (Bool-cases (n / 10 =ℕ 0)) [ inl single ↦ rw single (digit, h) | inr more ↦ rw more ih ]

pub decimal_ℤ-Solid : (z : ℤ) → Solid (decimal_ℤ z)
unfolding decimal_ℤ decimal
decimal_ℤ-Solid (pos n) = decimal_loop-Solid (suc n) n [] tt
decimal_ℤ-Solid (negsuc n) = (refl, decimal_loop-Solid (suc (suc n)) (suc n) [] tt)

pub map_decimal-AllSolid : (vs : List ℤ) → AllSolid (map decimal_ℤ vs)
map_decimal-AllSolid [] = tt
map_decimal-AllSolid (v ∷ vs) = (decimal_ℤ-Solid v, map_decimal-AllSolid vs)

AllSolid-AllLack : (ws : List Text) → AllSolid ws → AllLack b' ' ws
AllSolid-AllLack [] h = tt
AllSolid-AllLack (w ∷ ws) h = (Solid-Lacks w h.0, AllSolid-AllLack ws h.1)

pub ints_of-map : (vs : List ℤ) → ints_of (map decimal_ℤ vs) ≡ some vs
unfolding ints_of
ints_of-map [] = refl
ints_of-map (v ∷ vs) =
    ap (λ o. both o (ints_of (map decimal_ℤ vs))) (int_of-decimal_ℤ v)
    ∙ ap (both (some v)) (ints_of-map vs)

both-none : (o : Option ℤ) → both o none ≡ none
both-none none = refl
both-none (some n) = refl

ints_of-none : (xs ys : List Text) (x : Text) → int_of x ≡ none → ints_of (xs ++ x ∷ ys) ≡ none
unfolding ints_of
ints_of-none [] ys x h = ap (λ o. both o (ints_of ys)) h
ints_of-none (w ∷ xs) ys x h = ap (both (int_of w)) (ints_of-none xs ys x h) ∙ both-none (int_of w)

-- Typing the number of a node, a name without white space and integers, with single blanks between
-- them, behind `set_variable` makes exactly one call, which sets this variable of this node to
-- these integers; an empty list of integers is sent too.
pub do_set_variable-join :
    (node_id : ℤ) (name : Text) (vs : List ℤ) (s : Session)
    → Solid name
    → do_set_variable (join (b' ' ∷ []) (decimal_ℤ node_id ∷ name ∷ map decimal_ℤ vs)) s
      ≡ log (Call.set_variable node_id name vs []) s
unfolding do_set_variable
do_set_variable-join node_id name vs s h =
    let words : AllSolid (decimal_ℤ node_id ∷ name ∷ map decimal_ℤ vs) =
      (decimal_ℤ-Solid node_id, (h, map_decimal-AllSolid vs)) in
    let pieces =
      split-join b' ' (decimal_ℤ node_id) (name ∷ map decimal_ℤ vs)
        (AllSolid-AllLack (decimal_ℤ node_id ∷ name ∷ map decimal_ℤ vs) words) in
    ap (λ ps. send_pieces ps s) pieces
    ∙ (ap (λ o. send_value o name (ints_of (map decimal_ℤ vs)) s) (int_of-decimal_ℤ node_id)
        ∙ ap (λ o. send_value (some node_id) name o s) (ints_of-map vs))

-- If one of the words behind the name is no numeral, nothing is sent and nothing is printed.
pub do_set_variable-none :
    (v name : Text) (xs ys : List Text) (x : Text) (s : Session)
    → AllSolid (v ∷ name ∷ (xs ++ x ∷ ys))
    → int_of x ≡ none
    → do_set_variable (join (b' ' ∷ []) (v ∷ name ∷ (xs ++ x ∷ ys))) s ≡ s
unfolding do_set_variable
do_set_variable-none v name xs ys x s h bad =
    let pieces =
      split-join b' ' v (name ∷ (xs ++ x ∷ ys)) (AllSolid-AllLack (v ∷ name ∷ (xs ++ x ∷ ys)) h) in
    ap (λ ps. send_pieces ps s) pieces
    ∙ (ap (λ o. send_value (int_of v) name o s) (ints_of-none xs ys x bad) ∙ send_none (int_of v))
  where
    send_none : (o : Option ℤ) → send_value o name none s ≡ s
    send_none none = refl
    send_none (some n) = refl

split_spaces-append :
    (s rest : Text) → Solid s → split_spaces (s ++ b' ' ∷ rest) ≡ s ∷ split_spaces rest
unfolding split_spaces
split_spaces-append [] rest h = refl
split_spaces-append (c ∷ s) rest h = rw (h.0, split_spaces-append s rest h.1) refl

split_spaces-Solid : (s : Text) → Solid s → split_spaces s ≡ s ∷ []
unfolding split_spaces
split_spaces-Solid [] h = refl
split_spaces-Solid (c ∷ s) h = rw (h.0, split_spaces-Solid s h.1) refl

split_spaces-join :
    (w : Text) (ws : List Text)
    → AllSolid (w ∷ ws)
    → split_spaces (join (b' ' ∷ []) (w ∷ ws)) ≡ w ∷ ws
unfolding join
split_spaces-join w [] h = split_spaces-Solid w h.0
split_spaces-join w (v ∷ ws) h =
    split_spaces-append w (join (b' ' ∷ []) (v ∷ ws)) h.0
    ∙ ap (λ ps. w ∷ ps) (split_spaces-join v ws h.1)

drop_empty-NoneEmpty : (ws : List Text) → NoneEmpty ws → drop_empty ws ≡ ws
drop_empty-NoneEmpty [] h = refl
drop_empty-NoneEmpty ([] ∷ ws) h = absurd (h.0 refl)
drop_empty-NoneEmpty ((c ∷ w) ∷ ws) h = ap (λ ps. (c ∷ w) ∷ ps) (drop_empty-NoneEmpty ws h.1)

-- Words that are joined by single blanks are the words that `split` finds.
pub split_words-join :
    (w : Text) (ws : List Text)
    → AllSolid (w ∷ ws)
    → NoneEmpty (w ∷ ws)
    → split_words (join (b' ' ∷ []) (w ∷ ws)) ≡ w ∷ ws
unfolding split_words
split_words-join w ws h k =
    ap drop_empty (split_spaces-join w ws h) ∙ drop_empty-NoneEmpty (w ∷ ws) k
