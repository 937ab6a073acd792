-- ===== src/Shells/NodeShell.antt =====
-- pyaseba/client/node/shell.py: the commands of `NodeShell`. An exception that a command does not
-- catch ends it.
use pyaseba.Base.{
  ℕ, Bool, true, false, Option, none, some, List, [], ◌∷◌, ◌++◌, Text, text_eq, Dict, ℤ, pos,
  contains, if◌then◌else◌,
}
use pyaseba.Base.Dicts.{keys, has_key, insert}
use pyaseba.Base.Heap.{Ref, read}
use pyaseba.Base.Results.{Error, Result, ok, err, value_error}
use pyaseba.Utils.{Finder}
use pyaseba.Description.{Description}
use pyaseba.Mirroring.Code.{EventSpec}
use pyaseba.Client.{Call, Client}
use pyaseba.Node.State.{World, Action, NodeClass, gets, the_client, ask, here}
use pyaseba.Node.State
use pyaseba.Node.Cache.{Got, word, list_at, sequence, set, get}
use pyaseba.Node.Update.{get_all}
use pyaseba.Node.Events.{call, wait, mirrored_events, mirrored_functions}
use pyaseba.Node.Connect.{Overrides, start_mirroring, close}
use pyaseba.Printing.{print_description}
use pyaseba.Shells.Words.{split_words, ints_of, matching}

-- What is printed.
pub data Shown : Type 0 where
  names : List Text → Shown
  number : ℤ → Shown
  words : List ℤ → Shown
  variables : Dict Text (List ℤ) → Shown
  written : Text → Shown

-- The shell's node, with the rest of the program, and what was printed.
pub record Session : Type 0 where
  pub node : World
  pub shown : List Shown

abbrev pub Command {ℓ} : Type ℓ → Type ℓ
Command A = Session → Result A × Session

infixl 5 ◌>>=◌ ◌>>◌
abbrev pub ◌>>=◌ {ℓ κ} : {A : Type ℓ} {B : Type κ} → Command A → (A → Command B) → Command B
◌>>=◌ m f s = let (r, s') = m s in elim r [ ok a ↦ f a s' | err e ↦ (err e, s') ]

abbrev pub ◌>>◌ {ℓ κ} : {A : Type ℓ} {B : Type κ} → Command A → Command B → Command B
m >> k = m >>= λ _. k

abbrev pub pure {ℓ} : {A : Type ℓ} → A → Command A
pure a s = (ok a, s)

abbrev pub raise {ℓ} : {A : Type ℓ} → Error → Command A
raise e s = (err e, s)

-- A method of the node.
abbrev pub on_node {ℓ} : {A : Type ℓ} → Action A → Command A
on_node m s = let (r, w) = m s.node in (r, record s { node = w })

abbrev pub print : Shown → Command (Unit {0})
print v s = (ok tt, record s { shown = s.shown ++ v ∷ [] })

-- `except Exception: pass`, which leaves what was done before.
abbrev pub guarded : Command (Unit {0}) → Command (Unit {0})
guarded m s = (ok tt, (m s).1)

abbrev pub if_described :
    Option Description → (Description → Command (Unit {0})) → Command (Unit {0})
if_described none f = pure tt
if_described (some desc) f = f desc

-- `if desc:` and what follows.
abbrev pub with_description : (Description → Command (Unit {0})) → Command (Unit {0})
with_description f s = if_described s.node.description f s

abbrev pub first_and_rest : List Text → Command (Text × List Text)
first_and_rest [] = raise value_error
first_and_rest (name ∷ rest) = pure (name, rest)

-- `name, *rest = arg.split()`
unfoldable pub unpack : Text → Command (Text × List Text)
unfolding split_words
unpack arg = first_and_rest (split_words arg)

abbrev pub or_value_error : Option (List ℤ) → Command (List ℤ)
or_value_error none = raise value_error
or_value_error (some ns) = pure ns

-- `[int(x) for x in xs]`
unfoldable pub integers : List Text → Command (List ℤ)
unfolding ints_of
integers xs = or_value_error (ints_of xs)

unfoldable pub do_description : Text → Command (Unit {0})
unfolding print_description
do_description arg =
    with_description (λ desc s. print (written (print_description s.node.node_id desc [])) s)

unfoldable pub do_variables : Text → Command (Unit {0})
do_variables arg = with_description (λ desc. print (names (keys desc.variables)))

unfoldable pub do_events : Text → Command (Unit {0})
do_events arg = with_description (λ desc. print (names (keys desc.local_events)))

unfoldable pub do_functions : Text → Command (Unit {0})
do_functions arg = with_description (λ desc. print (names (keys desc.functions)))

unfoldable pub do_stop_mirroring : Overrides → Text → Command (Unit {0})
do_stop_mirroring overrides arg = on_node overrides.stop

abbrev pub in_description : (Description → List Text) → World → List Text
in_description options w = elim w.description [ none ↦ [] | some desc ↦ options desc ]

unfoldable pub complete_add_mirrored_event : Text → Session → List Text
unfolding matching
complete_add_mirrored_event part s =
    matching part (in_description (λ desc. keys desc.local_events) s.node)

-- `[v for v in variables if v in desc.variables]`
unfoldable pub known_variables : Dict Text (ℕ × ℕ) → List Text → List Text
known_variables known [] = []
known_variables known (v ∷ vs) =
    let rest = known_variables known vs in if has_key v known then v ∷ rest else rest

-- `EventSpec(variables=variables)`
abbrev pub plain_spec : List Text → EventSpec
plain_spec vs = record {
  variables = vs;
  use_counter = false;
  external_counter = [];
  window = pos 1;
  preamble = [];
  epilog = [];
}

-- `self.node.mirroring_config.events[name] = spec`
abbrev pub put_spec : Text → EventSpec → World → World
put_spec name spec w = record w {
  mirroring_config = record w.mirroring_config {
    events = insert name spec w.mirroring_config.events;
  };
}

-- The rest of `do_add_mirrored_event`, for a node with a description.
abbrev pub add_known : Text → List Text → Description → Command (Unit {0})
add_known name chosen desc s =
    if contains (keys desc.local_events) name
    then (
      ok tt,
      record s { node = put_spec name (plain_spec (known_variables desc.variables chosen)) s.node },
    )
    else (ok tt, s)

-- `do_add_mirrored_event` behind the unpacking.
abbrev pub add_event : Text × List Text → Command (Unit {0})
add_event (name, chosen) = with_description (add_known name chosen)

unfoldable pub do_add_mirrored_event : Text → Command (Unit {0})
unfolding unpack known_variables text_eq insert
do_add_mirrored_event arg = unpack arg >>= add_event

unfoldable pub complete_add_mirrored_function : Text → Session → List Text
unfolding matching
complete_add_mirrored_function part s =
    matching part (in_description (λ desc. keys desc.functions) s.node)

-- `self.node.mirroring_config.function_include.append(arg)`
abbrev pub include_function : Text → World → World
include_function name w = record w {
  mirroring_config = record w.mirroring_config {
    function_include = w.mirroring_config.function_include ++ name ∷ [];
  };
}

unfoldable pub do_add_mirrored_function : Text → Command (Unit {0})
unfolding text_eq
do_add_mirrored_function arg = with_description (λ desc s.
    (if contains (keys desc.functions) arg
      then (ok tt, record s { node = include_function arg s.node })
      else (ok tt, s)))

unfoldable pub do_mirrored_events : Text → Command (Unit {0})
unfolding mirrored_events
do_mirrored_events arg s = print (names (mirrored_events s.node)) s

unfoldable pub do_mirrored_functions : Text → Command (Unit {0})
unfolding mirrored_functions
do_mirrored_functions arg s = print (names (mirrored_functions s.node)) s

unfoldable pub complete_get : Text → Session → List Text
unfolding matching
complete_get part s = matching part (in_description (λ desc. keys desc.variables) s.node)

unfoldable pub complete_set : Text → Session → List Text
unfolding complete_get
complete_set part s = complete_get part s

unfoldable pub complete_call : Text → Session → List Text
unfolding matching mirrored_functions
complete_call part s = matching part (mirrored_functions s.node)

unfoldable pub complete_wait : Text → Session → List Text
unfolding matching mirrored_events
complete_wait part s = matching part (mirrored_events s.node)

unfoldable pub do_set : Text → Command (Unit {0})
unfolding unpack integers set
do_set arg = guarded (do
  (name, xs) ← unpack arg
  ints ← integers xs
  on_node (set name (sequence ints) (some false)))

unfoldable pub do_call : Text → Command (Unit {0})
unfolding unpack integers call
do_call arg = guarded (do (name, xs) ← unpack arg; ints ← integers xs; on_node (call name ints))

-- What a value that `get` returns shows.
abbrev pub content : Got → World → Shown
content (word z) w = number z
content (list_at r) w = words (read w.heap r)

-- What the dict that `get_all` returns shows.
unfoldable pub contents : Dict Text Ref → World → Dict Text (List ℤ)
unfolding read
contents [] w = []
contents ((name, r) ∷ d) w = (name, read w.heap r) ∷ contents d w

module _ (client : Client) where
  -- `Node.script`
  unfoldable pub script : Action Text
  unfolding the_client ask
  script = State.◌>>=◌ the_client (λ c. State.◌>>=◌ (gets (λ w. w.node_id)) (λ node_id.
      State.◌>>=◌ (gets here)
        (λ include. ask client.get_script c (Call.get_script node_id include))))

  unfoldable pub do_get : Text → Command (Unit {0})
  unfolding unpack get get_all contents read
  do_get [] = do
    all ← on_node (get_all client 1000 none false)
    now ← on_node (gets (contents all))
    print (variables now)
  do_get (c ∷ arg) = do
    (name, rest) ← unpack (c ∷ arg)
    found ← on_node (get client name 1000 none)
    now ← on_node (gets (content found))
    print now

  unfoldable pub do_script : Text → Command (Unit {0})
  unfolding script
  do_script arg = do loaded ← on_node script; print (written loaded)

  unfoldable pub do_wait : Text → Command (Unit {0})
  unfolding unpack wait
  do_wait arg = guarded (do (name, rest) ← unpack arg; on_node (wait client name 10000); pure tt)

  unfoldable pub do_start_mirroring : Finder → NodeClass → Text → Command (Unit {0})
  unfolding start_mirroring
  do_start_mirroring finds class arg = on_node (start_mirroring client finds class)

-- `NodeShell.close`
unfoldable pub close_node : Overrides → Command (Unit {0})
unfolding close
close_node overrides = on_node (close overrides false)

-- The command loop ends.
unfoldable pub do_quit : Overrides → Text → Command Bool
unfolding close_node
do_quit overrides arg = do close_node overrides; pure true

unfoldable pub do_exit : Overrides → Text → Command Bool
unfolding close_node
do_exit overrides arg = do close_node overrides; pure true
