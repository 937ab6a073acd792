-- ===== src/Mirroring/Build.antt =====
-- What a constructed `Mirroring` answers about the events and functions of its configuration.
use pyaseba.Base.{ℕ, ◌≡◌, Bool, false, some, List, [], ◌∷◌, arith, Text, text_eq, Dict, ℤ, pos}
use pyaseba.Base.Int.{leb_ℤ}
use pyaseba.Base.Dicts.{lookup, lookup_or-some, lookup-insert_ne, NodupKeys}
use pyaseba.Base.Results.{ok, >>=-eq-ok}
use pyaseba.Utils.{Finder, matches}
use pyaseba.Description.{Description}
use pyaseba.Mirroring.{
  MirroringConfig, Mirroring, blank, function_event, local_event, sum_ℤ, sizes_of, add_events,
  add_function, visit_function, add_functions, reserved_names, script, mirror, get_event_name,
}
use pyaseba.Mirroring.Code.{EventSpec}
use pyaseba.Mirroring.Names.{Registered, local_event-ne-function_event, add_events-Registered}

module _ (finds : Finder) (config : MirroringConfig) where
  abbrev is_selected : Text → Bool
  is_selected name = matches finds name config.function_include config.function_exclude

  visit_function-Registered :
      (vs : Dict Text (ℕ × ℕ)) (name : Text) (spec : EventSpec) (f : Text) (arguments : List ℤ)
      (m : Mirroring)
      → Registered vs name spec m
      → Registered vs name spec (visit_function finds config f arguments m)
  unfolding visit_function add_function
  visit_function-Registered vs name spec f arguments m (known, h, a, b, c, d) = (
    known,
    h,
    ground arith,
    ground arith,
    ground arith,
    ground (
      arith,
      lookup-insert_ne (local_event name) (function_event f) (sum_ℤ arguments) m.code_events
          (local_event-ne-function_event name f),
    ),
  )

  add_functions-Registered :
      (vs : Dict Text (ℕ × ℕ)) (name : Text) (spec : EventSpec)
      (functions : Dict Text (Text × List (Text × ℤ))) (m : Mirroring)
      → Registered vs name spec m
      → Registered vs name spec (add_functions finds config functions m)
  unfolding add_functions
  add_functions-Registered vs name spec [] m r = r
  add_functions-Registered vs name spec ((f, (_, arguments)) ∷ functions) m r =
      add_functions-Registered vs name spec functions
        (visit_function finds config f (sizes_of arguments) m)
        (visit_function-Registered vs name spec f (sizes_of arguments) m r)

  -- In a `Mirroring` constructed without an exception, every configured event with a positive
  -- window is registered: its user event is `event_<name>`, which leads back to the name, its
  -- variables are those of the specification at the sizes of the description, and its declared size
  -- is the sum of these and of one word for the counter, if it uses one. `get_event_name` answers
  -- that user event.
  pub mirror-Registered :
      (description : Description) (name : Text) (spec : EventSpec) (m : Mirroring)
      → NodupKeys config.events
      → lookup name config.events ≡ some spec
      → leb_ℤ spec.window (pos 0) ≡ false
      → mirror finds description config ≡ ok m
      → Registered description.variables name spec m × (get_event_name m name ≡ local_event name)
  unfolding mirror get_event_name
  mirror-Registered description name spec m distinct found positive h =
      let vs = description.variables in
      let m0 = reserved_names vs blank in
      let (m1, built, e) =
        >>=-eq-ok (add_events vs config.events m0)
          (λ m'.
            let m'' = add_functions finds config description.functions m' in
            ok (record m'' { code = script config.script_inits m'' }))
          {b = m} h in
      let r =
        add_functions-Registered vs name spec description.functions m1
          (add_events-Registered vs name spec config.events m0 m1 distinct found positive built) in
      let m2 = add_functions finds config description.functions m1 in
      let e' : record m2 { code = script config.script_inits m2 } ≡ m = cc e in
      rw (← e') (r, lookup_or-some name [] (local_event name) m2.user_events r.2)
