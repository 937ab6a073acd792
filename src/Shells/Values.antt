-- ===== src/Shells/Values.antt =====
-- `set` and `get` in the shell of a node.
use pyaseba.Base.{
  ℕ, ◌≡◌, ◌≢◌, refl, ◌∙◌, ap, true, false, none, some, List, [], ◌∷◌, ◌++◌, map, Text, text_eq, ℤ,
  arith,
}
use pyaseba.Base.Texts.{join, decimal_ℤ}
use pyaseba.Base.Numerals.{int_of, int_of-decimal_ℤ}
use pyaseba.Base.Dicts.{lookup}
use pyaseba.Base.Heap.{Ref, read, next}
use pyaseba.Base.Results.{Result, ok}
use pyaseba.Client.{Call, Client}
use pyaseba.Node.State.{World, here, the_client, words_at, gets}
use pyaseba.Node.Cache.{Got, sequence, set, get, got}
use pyaseba.Node.Access.{set_lem, after_set, after_set_lem}
use pyaseba.Shells.Words.{split_words}
use pyaseba.Shells.NodeShell.{
  Session, Shown, Command, number, words, unpack, first_and_rest, integers, or_value_error, guarded,
  on_node, print, content, do_set, do_get, ◌>>=◌,
}
use pyaseba.Shells.Typed.{Solid, NoneEmpty, split_words-join, map_decimal-AllSolid, ints_of-map}

int_of_nil : int_of [] ≡ none
unfolding int_of
int_of_nil = refl

map_decimal-NoneEmpty : (vs : List ℤ) → NoneEmpty (map decimal_ℤ vs)
map_decimal-NoneEmpty [] = tt
map_decimal-NoneEmpty (v ∷ vs) = (
  (λ e. let a = ap int_of e in let b = int_of-decimal_ℤ v in let n = int_of_nil in cc),
  map_decimal-NoneEmpty vs,
)

-- What is printed for a list of integers.
abbrev pub shown_ints : List ℤ → Shown
shown_ints (x ∷ []) = number x
shown_ints vs = words vs

unpack_lem :
    (arg w : Text) (ws : List Text)
    → split_words arg ≡ w ∷ ws
    → unpack arg ≡ first_and_rest (w ∷ ws)
unfolding unpack
unpack_lem arg w ws h = ap first_and_rest h

integers_lem : (vs : List ℤ) → integers (map decimal_ℤ vs) ≡ or_value_error (some vs)
unfolding integers
integers_lem vs = ap or_value_error (ints_of-map vs)

-- What `set` leaves behind in a session.
abbrev pub with_set : ℕ → Text → List ℤ → Session → Session
with_set c name vs s = record s { node = after_set c name (sequence vs) false s.node }

do_set_lem :
    (c : ℕ) (name : Text) (vs : List ℤ) (s : Session)
    → s.node.client ≡ some c
    → Solid name
    → name ≢ []
    → do_set (join (b' ' ∷ []) (name ∷ map decimal_ℤ vs)) s ≡ (ok tt, with_set c name vs s)
unfolding do_set
do_set_lem c name vs s h solid full =
    let arg = join (b' ' ∷ []) (name ∷ map decimal_ℤ vs) in
    let pieces =
      split_words-join name (map decimal_ℤ vs) (solid, map_decimal-AllSolid vs)
        (full, map_decimal-NoneEmpty vs) in
    let rest = λ (p : Text × List Text).
      integers p.1 >>= λ ints. on_node (set p.0 (sequence ints) (some false)) in
    let sent = λ (ints : List ℤ). on_node (set name (sequence ints) (some false)) in
    ap (λ (m : Command (Text × List Text)). guarded (m >>= rest) s)
      (unpack_lem arg name (map decimal_ℤ vs) pieces)
    ∙ (ap (λ (m : Command (List ℤ)). guarded (m >>= sent) s) (integers_lem vs)
        ∙ ap (λ (out : Result Unit × World). (ok tt, record s { node = out.1 }))
            (set_lem c s.node name (sequence vs) (some false) h))

get_known :
    (client : Client) (c : ℕ) (w : World) (name : Text) (r : Ref) (wait_ms : ℕ)
    → w.client ≡ some c
    → w.cached ≡ true
    → lookup name w.variable_values ≡ some r
    → get client name wait_ms none w ≡ (ok (got r (read w.heap r)), w)
unfolding get the_client words_at
get_known client c w name r wait_ms h k found = ground arith

content-got :
    (r : Ref) (vs : List ℤ) (w : World) → read w.heap r ≡ vs → content (got r vs) w ≡ shown_ints vs
content-got r [] w h = ap words h
content-got r (x ∷ []) w h = refl
content-got r (x ∷ y ∷ vs) w h = ap words h

content_lem :
    (r : Ref) (vs : List ℤ) (w : World)
    → read w.heap r ≡ vs
    → content (got r (read w.heap r)) w ≡ shown_ints vs
content_lem r vs w h = ap (λ ws. content (got r ws) w) h ∙ content-got r vs w h

-- A value that is in the cache is shown without a call.
do_get_lem :
    (client : Client) (c : ℕ) (name : Text) (r : Ref) (vs : List ℤ) (s : Session)
    → s.node.client ≡ some c
    → s.node.cached ≡ true
    → lookup name s.node.variable_values ≡ some r
    → read s.node.heap r ≡ vs
    → Solid name
    → name ≢ []
    → do_get client name s ≡ (ok tt, record s { shown = s.shown ++ shown_ints vs ∷ [] })
unfolding do_get join
do_get_lem client c [] r vs s h cached found read_r solid full = absurd (full refl)
do_get_lem client c (ch ∷ arg) r vs s h cached found read_r solid full =
    let name = ch ∷ arg in
    let pieces = split_words-join name [] (solid, tt) (full, tt) in
    let shows = λ (found : Got). on_node (gets (content found)) >>= λ now. print now in
    let asks = λ (p : Text × List Text). on_node (get client p.0 1000 none) >>= shows in
    ap (λ (m : Command (Text × List Text)). (m >>= asks) s) (unpack_lem name name [] pieces)
    ∙ (ap
          (λ (out : Result Got × World).
            let m : Command Got = λ _. (out.0, record s { node = out.1 }) in (m >>= shows) s)
          (get_known client c s.node name r 1000 h cached found)
        ∙ ap (λ v. (ok tt, record s { shown = s.shown ++ v ∷ [] }))
            (content_lem r vs s.node read_r))

pub do_get-do_set :
    (client : Client) (c : ℕ) (name : Text) (vs : List ℤ) (s : Session)
    → s.node.client ≡ some c
    → s.node.cached ≡ true
    → Solid name
    → name ≢ []
    → let s1 = (do_set (join (b' ' ∷ []) (name ∷ map decimal_ℤ vs)) s).1 in
      let out = do_get client name s1 in
      (out.0 ≡ ok tt)
      × (out.1.shown ≡ s.shown ++ shown_ints vs ∷ [])
      × (out.1.node.calls
          ≡ s.node.calls ++ (c, Call.set_variable s.node.node_id name vs (here s.node)) ∷ [])
do_get-do_set client c name vs s h cached solid full =
    let w = after_set c name (sequence vs) false s.node in
    let (same, calls, found, held) = after_set_lem c name (sequence vs) false s.node in
    let typed = do_set_lem c name vs s h solid full in
    let asked =
      do_get_lem client c name (next s.node.heap) vs (with_set c name vs s) (same ∙ h) cached found
        held solid full in
    rw (typed, asked) (refl, refl, calls)
