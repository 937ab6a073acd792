-- ===== src/Shells/Completion.antt =====
-- What the completion of a node's number offers, and the events that the shell of a node adds.
use pyaseba.Base.{
  ℕ, ◌≡◌, refl, ◌∙◌, ap, Bool, true, false, ◌&&◌, ◌||◌, Bool-cases, inl, inr, some, List, [], ◌∷◌,
  ◌++◌, map, Text, text_eq, int_eq, contains, if◌then◌else◌, ℤ, Dict, arith,
}
use pyaseba.Base.Texts.{join, decimal_ℤ, has_substring}
use pyaseba.Base.Lines.{is_blank}
use pyaseba.Base.Dicts.{keys, has_key}
use pyaseba.Base.Results.{Result, ok, err, value_error}
use pyaseba.Description.{Description}
use pyaseba.Client.{Client, Call}
use pyaseba.Node.State.{World}
use pyaseba.Shells.Words.{split_spaces, split_words, matching}
use pyaseba.Shells.ClientShell.{union_of, add_all, complete_node_ids, log}
use pyaseba.Shells.ClientShell
use pyaseba.Shells.NodeShell.{
  Session, do_add_mirrored_event, add_event, add_known, if_described, unpack, first_and_rest,
  known_variables, plain_spec, put_spec, ◌>>=◌,
}
use pyaseba.Shells.Typed.{AllSolid, NoneEmpty, split_words-join}

contains-matching :
    (part : Text) (options : List Text) (t : Text)
    → contains (matching part options) t ≡ (contains options t && has_substring part t)
unfolding matching
contains-matching part [] t = refl
contains-matching part (o ∷ options) t = ground (arith, contains-matching part options t)

contains-map :
    (i : ℤ) (ids : List ℤ)
    → contains ids i ≡ true
    → contains (map decimal_ℤ ids) (decimal_ℤ i) ≡ true
contains-map i [] h = cc
contains-map i (j ∷ ids) h = ground (arith, contains-map i ids)

-- The numerals of the nodes on all connections.
abbrev pub all_ids : Dict ℕ (List ℤ) → List ℤ
all_ids [] = []
all_ids ((conn, ids) ∷ rest) = ids ++ all_ids rest

contains-map_append :
    (xs ys : List ℤ) (t : Text)
    → contains (map decimal_ℤ (xs ++ ys)) t
      ≡ (contains (map decimal_ℤ xs) t || contains (map decimal_ℤ ys) t)
contains-map_append [] ys t = refl
contains-map_append (x ∷ xs) ys t = ground (arith, contains-map_append xs ys t)

contains-add_all :
    (ids known : List ℤ) (t : Text)
    → contains (map decimal_ℤ (add_all ids known)) t
      ≡ (contains (map decimal_ℤ ids) t || contains (map decimal_ℤ known) t)
unfolding add_all
contains-add_all [] known t = refl
contains-add_all (i ∷ ids) known t =
    let more = add_all ids known in
    let ih = contains-add_all ids known t in
    elim (Bool-cases (contains more i)) [
      | inl present ↦ ground (arith, present, ih, contains-map i more present)
      | inr absent ↦ ground (arith, absent, ih)
    ]

contains-union_of :
    (nodes : Dict ℕ (List ℤ)) (t : Text)
    → contains (map decimal_ℤ (union_of nodes)) t ≡ contains (map decimal_ℤ (all_ids nodes)) t
unfolding union_of
contains-union_of [] t = refl
contains-union_of ((conn, ids) ∷ nodes) t =
    let split_ids = contains-map_append ids (all_ids nodes) t in
    let ih = contains-union_of nodes t in let added = contains-add_all ids (union_of nodes) t in cc

-- The completion of a node's number asks for the nodes once and offers exactly those numerals of
-- the nodes on all connections that contain what is typed.
contains-complete_node_ids :
    (client : Client) (part t : Text) (s : ClientShell.Session)
    → let asked = log Call.get_node_ids s in
      let out = complete_node_ids client part s in
      (out.1 ≡ asked)
      × (contains out.0 t ≡ (
          contains (map decimal_ℤ (all_ids (client.get_node_ids asked.calls))) t
          && has_substring part t))
unfolding complete_node_ids
contains-complete_node_ids client part t s =
    let nodes = client.get_node_ids (log Call.get_node_ids s).calls in
    (
      refl,
      contains-matching part (map decimal_ℤ (union_of nodes)) t
          ∙ ap (λ b. b && has_substring part t) (contains-union_of nodes t),
    )

is_blank_words : (s : Text) → is_blank s ≡ true → split_words s ≡ []
unfolding split_words split_spaces is_blank
is_blank_words [] h = refl
is_blank_words (c ∷ s) h = ground (arith, is_blank_words s)

-- A line without a word makes `add_mirrored_event` raise the `ValueError` of the unpacking, which
-- ends the shell; nothing has changed.
do_add_mirrored_event-is_blank :
    (arg : Text) (s : Session)
    → is_blank arg ≡ true
    → do_add_mirrored_event arg s ≡ (err value_error, s)
unfolding do_add_mirrored_event unpack
do_add_mirrored_event-is_blank arg s h =
    ap (λ ws. (first_and_rest ws >>= add_event) s) (is_blank_words arg h)

contains-known_variables :
    (known : Dict Text (ℕ × ℕ)) (vs : List Text) (v : Text)
    → contains (known_variables known vs) v ≡ (contains vs v && has_key v known)
unfolding known_variables
contains-known_variables known [] v = refl
contains-known_variables known (u ∷ vs) v = ground (arith, contains-known_variables known vs v)

add_if :
    (w : World) (s : Session) (b : Bool)
    → ◌≡◌ {A = Result (Unit {0}) × Session}
        (if b then (ok tt, record s { node = w }) else (ok tt, s))
        (ok tt, if b then record s { node = w } else s)
add_if w s true = refl
add_if w s false = refl

-- On a node with a description, `add_mirrored_event` with a name and variables, without white space
-- and with single blanks between them, replaces the configuration of this event, if the description
-- has it, by one with those of the variables that the description has and changes nothing else; for
-- any other name it changes nothing.
pub do_add_mirrored_event-join :
    (name : Text) (vs : List Text) (v : Text) (desc : Description) (s : Session)
    → s.node.description ≡ some desc
    → AllSolid (name ∷ vs)
    → NoneEmpty (name ∷ vs)
    → let kept = known_variables desc.variables vs in
      (do_add_mirrored_event (join (b' ' ∷ []) (name ∷ vs)) s ≡ (
        ok tt,
        (if contains (keys desc.local_events) name
            then record s { node = put_spec name (plain_spec kept) s.node }
            else s),
      ))
      × (contains kept v ≡ (contains vs v && has_key v desc.variables))
unfolding do_add_mirrored_event unpack
do_add_mirrored_event-join name vs v desc s h solid full =
    let kept = known_variables desc.variables vs in
    let added =
      ap (λ ws. (first_and_rest ws >>= add_event) s) (split_words-join name vs solid full) in
    (
      added
          ∙ (ap (λ o. if_described o (add_known name vs) s) h
              ∙ add_if (put_spec name (plain_spec kept) s.node) s
                  (contains (keys desc.local_events) name)),
      contains-known_variables desc.variables vs v,
    )
