-- ===== src/Node/Exposed.antt =====
-- What `Node` exposes as Python attributes: the properties for variables, the methods for functions
-- and the properties for events that `__init_subclass__` adds, the virtual methods, and `__repr__`.
use pyaseba.Base.{
  Option, ◌≡◌, refl, ◌∙◌, ap, some, List, [], ◌∷◌, ◌++◌, Text, text, text_eq, if◌then◌else◌, Dict,
  ℤ, ◌=ℕ◌, ◌<◌, arith,
}
use pyaseba.Base.Dicts.{lookup, insert_all, lookup-insert_self}
use pyaseba.Base.Heap.{Ref, read, write, next, read-write}
use pyaseba.Base.Lines.{concat}
use pyaseba.Base.Texts.{decimal_ℤ}
use pyaseba.Base.Results.{ok, assertion_error}
use pyaseba.Node.State.{
  World, Action, Callback, pure, gets, or_raise, skip, new_list, words_at, ◌>>=◌, ◌>>◌,
}
use pyaseba.Node.Cache.{Got, got, put_next, put_value}
use pyaseba.Node.Events.{call, get_callback, set_callback}
use pyaseba.Node.Connect.{Overrides, stop}

-- The methods that a subclass may override, as they are in `Node`.
abbrev pub node_overrides : Overrides
node_overrides = record { setup = skip; stop = stop; set_control_period = λ time_step event. skip }

-- `Node.__repr__`
unfoldable pub repr : World → Text
unfolding decimal_ℤ
repr w =
    if w.connection =ℕ 0
    then text "<Node unconnected>"
    else concat (text "<Node " ∷ decimal_ℤ w.node_id ∷ text " on " ∷ w.target ∷ text ">" ∷ [])

-- An attribute that is made for a variable, a function or an event.
pub data Attribute : Type 0 where
  variable function event : Text → Attribute

-- `name.replace('.', '_')`
abbrev pub underscored : Text → Text
underscored [] = []
underscored (c ∷ name) = (if c =ℕ b'.' then b'_' else c) ∷ underscored name

abbrev pub of_variables : List Text → Dict Text Attribute
of_variables [] = []
of_variables (v ∷ vs) = (underscored v, Attribute.variable v) ∷ of_variables vs

abbrev pub of_functions : List Text → Dict Text Attribute
of_functions [] = []
of_functions (f ∷ fs) = (text "call_" ++ underscored f, Attribute.function f) ∷ of_functions fs

abbrev pub of_events : List Text → Dict Text Attribute
of_events [] = []
of_events (e ∷ es) = (text "on_" ++ underscored e, Attribute.event e) ∷ of_events es

-- `Node.__init_subclass__`: the attributes of the class, where a later one replaces an earlier one
-- of the same name.
unfoldable pub init_subclass : List Text → List Text → List Text → Dict Text Attribute
unfolding insert_all text_eq
init_subclass properties functions events =
    insert_all (of_events events)
      (insert_all (of_functions functions) (insert_all (of_variables properties) []))

-- The getter of a property for a variable.
unfoldable pub get_property : Text → Action Got
unfolding lookup text_eq words_at
get_property name = do
  found ← gets (λ w. lookup name w.variable_values)
  r ← or_raise found assertion_error
  words ← words_at r
  pure (got r words)

-- What is assigned: an integer, or the list object of the caller, which is not copied.
pub data Assigned : Type 0 where
  integer : ℤ → Assigned
  list_object : Ref → Assigned

abbrev pub as_list : Assigned → Action Ref
as_list (integer x) = new_list (x ∷ [])
as_list (list_object r) = pure r

-- The setter of a property for a variable.
unfoldable pub set_property : Text → Assigned → Action (Unit {0})
unfolding new_list put_next put_value
set_property name assigned = do r ← as_list assigned; put_next name r; put_value name r

-- The method that is made for a function.
unfoldable pub call_function : Text → List ℤ → Action (Unit {0})
unfolding call
call_function name args = call name args

-- The getter and the setter of a property for an event.
unfoldable pub get_event_property : Text → World → Option Callback
unfolding get_callback
get_event_property name w = get_callback name w

unfoldable pub set_event_property : Text → Option Callback → Action (Unit {0})
unfolding set_callback
set_event_property name callback = set_callback name callback

get_property_lem :
    (name : Text) (r : Ref) (w : World)
    → lookup name w.variable_values ≡ some r
    → get_property name w ≡ (ok (got r (read w.heap r)), w)
unfolding get_property words_at
get_property_lem name r w found = ground arith

-- A list that is assigned to a property is shared with the caller, and is pending and cached at
-- once: whatever the caller writes into it afterwards is what the property returns and what is
-- pending for `sync`. The assignment makes no call.
pub get_property-set_property :
    (name : Text) (r : Ref) (after : List ℤ) (w : World)
    → r < next w.heap
    → let w1 = (set_property name (list_object r) w).1 in
      let w2 : World = record w1 { heap = write w1.heap r after } in
      (get_property name w1 ≡ (ok (got r (read w.heap r)), w1))
      × (get_property name w2 ≡ (ok (got r after), w2))
      × (lookup name w2.next_variables_values ≡ some r)
      × (read w2.heap r ≡ after)
      × (w2.calls ≡ w.calls)
unfolding set_property put_next put_value
get_property-set_property name r after w inside =
    let w1 = (set_property name (list_object r) w).1 in
    let w2 : World = record w1 { heap = write w1.heap r after } in
    let found = lookup-insert_self name r w.variable_values in
    let written = read-write w.heap r after inside in
    (
      get_property_lem name r w1 found,
      get_property_lem name r w2 found ∙ ap (λ ws. (ok (got r ws), w2)) written,
      lookup-insert_self name r w.next_variables_values,
      written,
      refl,
    )
