-- ===== src/Shells/ClientShell.antt =====
-- pyaseba/client/__main__.py: the commands of `ClientShell`. The exceptions that a command swallows
-- are the ones of unpacking and of `int`.
use pyaseba.Base.{
  ℕ, Bool, true, Option, none, some, List, [], ◌∷◌, ◌++◌, map, Text, text, if◌then◌else◌, Dict, ℤ,
  pos, length, ltb, contains, int_eq, ◌=ℕ◌,
}
use pyaseba.Base.Dicts.{keys}
use pyaseba.Base.Texts.{decimal, decimal_ℤ, join, split}
use pyaseba.Base.Lines.{concat}
use pyaseba.Base.Numerals.{int_of}
use pyaseba.Description.{Description}
use pyaseba.Client.{Call, Client, History}
use pyaseba.Node.Events.{or_name}
use pyaseba.Printing.{line, print_description}
use pyaseba.Shells.Words.{split_words, ints_of, matching}

-- What is printed.
pub data Shown : Type 0 where
  number : ℕ → Shown
  connections : Dict ℕ Text → Shown
  node_ids : Dict ℕ (List ℤ) → Shown
  names : List Text → Shown
  words : List ℤ → Shown
  variables : Dict Text (List ℤ) → Shown
  message : Option ℕ × ℕ → Shown
  written : Text → Shown

-- The shell's client, the calls on it, and what was printed.
pub record Session : Type 0 where
  pub client : ℕ
  pub calls : History
  pub shown : List Shown

abbrev pub show : Shown → Session → Session
show v s = record s { shown = s.shown ++ v ∷ [] }

abbrev pub log : Call → Session → Session
log call s = record s { calls = s.calls ++ (s.client, call) ∷ [] }

-- `v, *_ = arg.split(' ')`
abbrev pub first_piece : Text → Text
unfolding split
first_piece arg = elim (split b' ' arg) [ [] ↦ [] | piece ∷ pieces ↦ piece ]

-- A set with further elements.
unfoldable pub add_all : List ℤ → List ℤ → List ℤ
unfolding int_eq
add_all [] known = known
add_all (i ∷ ids) known = let more = add_all ids known in if contains more i then more else i ∷ more

-- The union of the sets of nodes, in the order of iteration.
unfoldable pub union_of : Dict ℕ (List ℤ) → List ℤ
unfolding add_all
union_of [] = []
union_of ((conn, ids) ∷ rest) = add_all ids (union_of rest)

-- `', '.join(str(i) for i in nids)`
abbrev pub id_list : List ℤ → Text
unfolding join decimal_ℤ
id_list ids = join (text ", ") (map decimal_ℤ ids)

-- The lines of `wait_nodes`.
unfoldable pub discovered : Dict ℕ (List ℤ) → List Shown
unfolding decimal
discovered [] = []
discovered ((conn, []) ∷ nodes) = discovered nodes
discovered ((conn, i ∷ ids) ∷ nodes) =
    let plural = if ltb 1 (length (i ∷ ids)) then text "s" else [] in
    written (
      line (
        concat (
          text "Discovered node"
          ∷ plural
          ∷ text " "
          ∷ id_list (i ∷ ids)
          ∷ text " on connection #"
          ∷ decimal conn
          ∷ [])))
    ∷ discovered nodes

module _ (client : Client) where
  -- A call with its answer.
  abbrev pub request {ℓ} : {A : Type ℓ} → (History → A) → Call → Session → A × Session
  request answer call s = let s' = log call s in (answer s'.calls, s')

  -- `ClientShell.__init__`, behind the calls of the program so far.
  unfoldable pub new_shell : History → Session
  new_shell calls =
      let calls' = calls ++ (0, Call.new_client) ∷ [] in
      record { client = client.new_client calls'; calls = calls'; shown = [] }

  unfoldable pub do_connect : Text → Session → Session
  do_connect arg s =
      let (conn, s') =
        request client.connect (Call.connect (or_name arg (text "tcp:port=33333")) 1000 3) s in
      show (number conn) s'

  unfoldable pub do_connections : Text → Session → Session
  do_connections arg s =
      let (known, s') = request client.connections Call.connections s in show (connections known) s'

  unfoldable pub do_node_ids : Text → Session → Session
  do_node_ids arg s =
      let (ids, s') = request client.get_node_ids Call.get_node_ids s in show (node_ids ids) s'

  -- `ClientShell.node_ids`, which completes the number of a node.
  unfoldable pub complete_node_ids : Text → Session → List Text × Session
  unfolding union_of matching decimal_ℤ
  complete_node_ids part s =
      let (ids, s') = request client.get_node_ids Call.get_node_ids s in
      (matching part (map decimal_ℤ (union_of ids)), s')

  -- The completions of the commands on one node.
  unfoldable pub complete_description : Text → Session → List Text × Session
  unfolding complete_node_ids
  complete_description part s = complete_node_ids part s

  unfoldable pub complete_variables : Text → Session → List Text × Session
  unfolding complete_node_ids
  complete_variables part s = complete_node_ids part s

  unfoldable pub complete_events : Text → Session → List Text × Session
  unfolding complete_node_ids
  complete_events part s = complete_node_ids part s

  unfoldable pub complete_functions : Text → Session → List Text × Session
  unfolding complete_node_ids
  complete_functions part s = complete_node_ids part s

  unfoldable pub complete_get_all_variables : Text → Session → List Text × Session
  unfolding complete_node_ids
  complete_get_all_variables part s = complete_node_ids part s

  -- What the commands on one node share: the description of the node that the first word names, and
  -- what is printed of it.
  abbrev pub describe : (ℤ → Description → Shown) → Text → Session → Session
  describe view arg s = elim (int_of (first_piece arg)) [
    | none ↦ s
    | some node_id ↦
        let (found, s') = request client.get_description (Call.get_description node_id []) s in
        elim found [ none ↦ s' | some desc ↦ show (view node_id desc) s' ]
  ]

  unfoldable pub do_description : Text → Session → Session
  unfolding print_description int_of
  do_description arg s =
      describe (λ node_id desc. written (print_description node_id desc [])) arg s

  unfoldable pub do_variables : Text → Session → Session
  unfolding int_of
  do_variables arg s = describe (λ node_id desc. names (keys desc.variables)) arg s

  unfoldable pub do_events : Text → Session → Session
  unfolding int_of
  do_events arg s = describe (λ node_id desc. names (keys desc.local_events)) arg s

  unfoldable pub do_functions : Text → Session → Session
  unfolding int_of
  do_functions arg s = describe (λ node_id desc. names (keys desc.functions)) arg s

  unfoldable pub do_wait_nodes : Text → Session → Session
  unfolding int_of discovered
  do_wait_nodes arg s =
      let number : ℤ = elim (int_of (first_piece arg)) [ none ↦ pos 1 | some n ↦ n ] in
      let (nodes, s') = request client.wait_nodes (Call.wait_nodes number) s in
      record s' { shown = s'.shown ++ discovered nodes }

  -- The names of the variables of a node, for the second word of a line.
  abbrev pub variable_options : Option ℤ → Session → List Text × Session
  variable_options none s = ([], s)
  variable_options (some node_id) s =
      let (found, s') = request client.get_description (Call.get_description node_id []) s in
      (elim found [ none ↦ [] | some desc ↦ keys desc.variables ], s')

  -- `_, v, *_ = line.split()` and `int(v)`
  abbrev pub node_of_line : List Text → Option ℤ
  node_of_line [] = none
  node_of_line (command ∷ []) = none
  node_of_line (command ∷ v ∷ rest) = int_of v

  unfoldable pub complete_get_variable : Text → Text → ℕ → Session → List Text × Session
  unfolding complete_node_ids split_words int_of matching
  complete_get_variable part typed begidx s =
      if begidx =ℕ 13
      then complete_node_ids part s
      else (let (options, s') = variable_options (node_of_line (split_words typed)) s in
          (matching part options, s'))

  unfoldable pub complete_set_variable : Text → Text → ℕ → Session → List Text × Session
  unfolding complete_get_variable
  complete_set_variable part typed begidx s = complete_get_variable part typed begidx s

  unfoldable pub do_get_variable : Text → Session → Session
  unfolding split int_of
  do_get_variable arg s = elim (split b' ' arg) [
    | [] ↦ s
    | v ∷ [] ↦ s
    | v ∷ name ∷ rest ↦ elim (int_of v) [
      | none ↦ s
      | some node_id ↦
          let (value, s') =
            request client.get_variable (Call.get_variable node_id name 1000 []) s in
          show (words value) s'
    ]
  ]

  unfoldable pub do_get_all_variables : Text → Session → Session
  unfolding int_of
  do_get_all_variables arg s = elim (int_of (first_piece arg)) [
    | none ↦ s
    | some node_id ↦
        let (values, s') =
          request client.get_all_variables (Call.get_all_variables node_id 1000 []) s in
        show (variables values) s'
  ]

  unfoldable pub do_get_message : Text → Session → Session
  do_get_message arg s =
      let (msg, s') = request client.get_message Call.get_message s in show (message msg) s'

-- What `do_set_variable` does with the integers that it finds.
abbrev pub send_value : Option ℤ → Text → Option (List ℤ) → Session → Session
send_value none name value s = s
send_value (some node_id) name none s = s
send_value (some node_id) name (some value) s = log (Call.set_variable node_id name value []) s

-- `v, name, *vs = arg.split(' ')`, and the rest.
abbrev pub send_pieces : List Text → Session → Session
unfolding int_of ints_of
send_pieces [] s = s
send_pieces (v ∷ []) s = s
send_pieces (v ∷ name ∷ vs) s = send_value (int_of v) name (ints_of vs) s

unfoldable pub do_set_variable : Text → Session → Session
unfolding split int_of ints_of
do_set_variable arg s = send_pieces (split b' ' arg) s

-- `ClientShell.close`
unfoldable pub close : Session → Session
close s = log Call.close s

-- `do_quit`: the command loop ends.
unfoldable pub do_quit : Text → Session → Bool × Session
unfolding close
do_quit arg s = (true, close s)

unfoldable pub do_exit : Text → Session → Bool × Session
unfolding close
do_exit arg s = (true, close s)
