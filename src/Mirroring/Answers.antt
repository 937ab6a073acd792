-- ===== src/Mirroring/Answers.antt =====
-- `get_event_name` and `get_function_name` of a constructed `Mirroring`, for every name.
use pyaseba.Base.{
  ℕ, ◌≡◌, refl, sym, ◌∙◌, ◌≢◌, Bool, true, false, not, ◌&&◌, Option, none, some, List, [], ◌∷◌,
  arith, Text, text_eq, Dict, ℤ, pos, inl, inr, ◌⊎◌, Bool-cases, Option-cases, ap, if◌then◌else◌,
}
use pyaseba.Base.Int.{leb_ℤ}
use pyaseba.Base.Dicts.{
  lookup, lookup-nil, lookup_or, lookup_or-none, lookup-insert, lookup-insert_ne, NodupKeys,
  has_key,
}
use pyaseba.Base.Results.{ok, >>=-eq-ok}
use pyaseba.Utils.{Finder, matches}
use pyaseba.Description.{Description}
use pyaseba.Mirroring.{
  MirroringConfig, Mirroring, blank, function_event, local_event, sizes_of, add_event, add_events,
  add_sized_event, add_function, visit_function, add_functions, reserved_names, script, mirror,
  get_event_name, get_function_name,
}
use pyaseba.Mirroring.Code.{EventSpec}
use pyaseba.Mirroring.Names.{add_event-cases}
use pyaseba.Mirroring.Build.{mirror-Registered}

-- The event is configured, with a positive window.
abbrev pub is_wanted : Option EventSpec → Bool
is_wanted none = false
is_wanted (some spec) = not (leb_ℤ spec.window (pos 0))

module _ (vs : Dict Text (ℕ × ℕ)) (name : Text) where
  add_event-unwanted :
      (j : Text) (spec : EventSpec) (m m' : Mirroring)
      → add_event vs j spec m ≡ ok m'
      → (name ≢ j) ⊎ (leb_ℤ spec.window (pos 0) ≡ true)
      → (lookup name m'.user_events ≡ lookup name m.user_events) × (m'.functions ≡ m.functions)
  unfolding add_sized_event
  add_event-unwanted j spec m m' h away = elim (add_event-cases vs j spec m m' h) [
    | inl (_, e) ↦ rw e (refl, refl)
    | inr (variables, mirrored, _, e) ↦ elim away [
      | inl n ↦ rw e (lookup-insert_ne name j (local_event j) m.user_events n, refl)
      | inr skipped ↦ cc
    ]
  ]

  add_event-functions :
      (j : Text) (spec : EventSpec) (m m' : Mirroring)
      → add_event vs j spec m ≡ ok m'
      → m'.functions ≡ m.functions
  unfolding add_sized_event
  add_event-functions j spec m m' h = elim (add_event-cases vs j spec m m' h) [
    | inl (_, e) ↦ rw e refl
    | inr (variables, mirrored, _, e) ↦ rw e refl
  ]

  add_events-functions :
      (events : Dict Text EventSpec) (m m' : Mirroring)
      → add_events vs events m ≡ ok m'
      → m'.functions ≡ m.functions
  unfolding add_events
  add_events-functions [] m m' h = let e : m ≡ m' = cc in rw e refl
  add_events-functions ((j, spec) ∷ events) m m' h =
      let (m1, first, more) = >>=-eq-ok (add_event vs j spec m) (add_events vs events) h in
      add_events-functions events m1 m' more ∙ add_event-functions j spec m m1 first

  away_of_unwanted :
      (j : Text) (spec : EventSpec) (events : Dict Text EventSpec)
      → lookup j events ≡ none
      → is_wanted (lookup name ((j, spec) ∷ events)) ≡ false
      → ((name ≢ j) ⊎ (leb_ℤ spec.window (pos 0) ≡ true)) × (is_wanted (lookup name events) ≡ false)
  unfolding lookup
  away_of_unwanted j spec events distinct h = (ground arith, ground arith)

  add_events-unwanted :
      (events : Dict Text EventSpec) (m m' : Mirroring)
      → NodupKeys events
      → is_wanted (lookup name events) ≡ false
      → add_events vs events m ≡ ok m'
      → lookup name m'.user_events ≡ lookup name m.user_events
  unfolding add_events
  add_events-unwanted [] m m' distinct h e = let e' : m ≡ m' = cc in rw e' refl
  add_events-unwanted ((j, spec) ∷ events) m m' distinct h e =
      let (m1, first, more) = >>=-eq-ok (add_event vs j spec m) (add_events vs events) e in
      let (away, rest) = away_of_unwanted j spec events distinct.0 h in
      add_events-unwanted events m1 m' distinct.1 rest more
      ∙ (add_event-unwanted j spec m m1 first away).0

module _ (finds : Finder) (config : MirroringConfig) where
  abbrev is_selected : Text → Bool
  is_selected name = matches finds name config.function_include config.function_exclude

  add_functions-functions :
      (f : Text) (functions : Dict Text (Text × List (Text × ℤ))) (m : Mirroring)
      → (lookup f (add_functions finds config functions m).functions ≡ (
          if has_key f functions && is_selected f
          then some (function_event f)
          else lookup f m.functions))
        × ((add_functions finds config functions m).user_events ≡ m.user_events)
  unfolding add_functions visit_function add_function lookup
  add_functions-functions f [] m = (refl, refl)
  add_functions-functions f ((g, (doc, arguments)) ∷ functions) m =
      let m' = visit_function finds config g (sizes_of arguments) m in
      let ih = add_functions-functions f functions m' in
      (ih.0 ∙ ground (arith, lookup-insert f g (function_event g) m.functions), ih.1 ∙ ground arith)

  reserved_names-tables :
      (vs : Dict Text (ℕ × ℕ)) (m : Mirroring)
      → ((reserved_names vs m).functions ≡ m.functions)
        × ((reserved_names vs m).user_events ≡ m.user_events)
  unfolding reserved_names
  reserved_names-tables [] m = (refl, refl)
  reserved_names-tables ((name, (index, size)) ∷ vs) m = reserved_names-tables vs _

  mirror-eq-ok :
      (description : Description) (m : Mirroring)
      → mirror finds description config ≡ ok m
      → (m1 : Mirroring) × (add_events description.variables config.events
            (reserved_names description.variables blank)
          ≡ ok m1)
        × (m.functions ≡ (add_functions finds config description.functions m1).functions)
        × (m.user_events ≡ m1.user_events)
  unfolding mirror
  mirror-eq-ok description m h =
      let vs = description.variables in
      let (m1, built, e) =
        >>=-eq-ok (add_events vs config.events (reserved_names vs blank))
          (λ m'.
            let m'' = add_functions finds config description.functions m' in
            ok (record m'' { code = script config.script_inits m'' }))
          {b = m} h in
      let m2 = add_functions finds config description.functions m1 in
      let e' : record m2 { code = script config.script_inits m2 } ≡ m = cc e in
      let users = (add_functions-functions [] description.functions m1).1 in
      (
        m1,
        built,
        ap (λ (r : Mirroring). r.functions) (sym e'),
        ap (λ (r : Mirroring). r.user_events) (sym e') ∙ users,
      )

  mirror-function :
      (description : Description) (name : Text) (m : Mirroring)
      → mirror finds description config ≡ ok m
      → get_function_name m name ≡ (
          if has_key name description.functions && is_selected name
          then function_event name
          else [])
  unfolding get_function_name lookup_or
  mirror-function description name m h =
      let vs = description.variables in
      let m0 = reserved_names vs blank in
      let (m1, built, e, _) = mirror-eq-ok description m h in
      let start : m1.functions ≡ [] =
        add_events-functions vs name config.events m0 m1 built
        ∙ (reserved_names-tables vs blank).0 in
      let absent : lookup name m1.functions ≡ none =
        ap (λ d. lookup name d) start ∙ lookup-nil name in
      let found = (add_functions-functions name description.functions m1).0 in
      let moved : lookup name m.functions
          ≡ lookup name (add_functions finds config description.functions m1).functions =
        ap (λ d. lookup name d) e in
      ground (arith, absent, found, moved)

  mirror-unwanted :
      (description : Description) (name : Text) (m : Mirroring)
      → NodupKeys config.events
      → is_wanted (lookup name config.events) ≡ false
      → mirror finds description config ≡ ok m
      → get_event_name m name ≡ []
  unfolding get_event_name
  mirror-unwanted description name m distinct h e =
      let vs = description.variables in
      let m0 = reserved_names vs blank in
      let (m1, built, _, users) = mirror-eq-ok description m e in
      let start : lookup name m0.user_events ≡ none =
        ap (λ d. lookup name d) (reserved_names-tables vs blank).1 ∙ lookup-nil name in
      lookup_or-none name [] m.user_events (
        ap (λ d. lookup name d) users
        ∙ (add_events-unwanted vs name config.events m0 m1 distinct h built ∙ start))

  mirror-event :
      (description : Description) (name : Text) (m : Mirroring)
      → NodupKeys config.events
      → mirror finds description config ≡ ok m
      → get_event_name m name
        ≡ (if is_wanted (lookup name config.events) then local_event name else [])
  mirror-event description name m distinct h = elim (Option-cases (lookup name config.events)) [
    | inl absent ↦
        let unwanted : is_wanted (lookup name config.events) ≡ false = rw absent refl in
        rw unwanted (mirror-unwanted description name m distinct unwanted h)
    | inr (spec, found) ↦ elim (Bool-cases (leb_ℤ spec.window (pos 0))) [
      | inl skipped ↦
          let unwanted : is_wanted (lookup name config.events) ≡ false = rw found (ground arith) in
          rw unwanted (mirror-unwanted description name m distinct unwanted h)
      | inr positive ↦
          let wanted : is_wanted (lookup name config.events) ≡ true = rw found (ground arith) in
          rw wanted
            ((mirror-Registered finds config description name spec m distinct found positive h).1)
    ]
  ]

  -- A `Mirroring` constructed without an exception answers, for every name, `event_<name>` if the
  -- event is configured with a positive window and the empty text if not, and `call_<name>` if the
  -- description has the function and the configured patterns select it, and else the empty text.
  pub mirror-names :
      (description : Description) (name : Text) (m : Mirroring)
      → NodupKeys config.events
      → mirror finds description config ≡ ok m
      → (get_event_name m name
          ≡ (if is_wanted (lookup name config.events) then local_event name else []))
        × (get_function_name m name ≡ (
            if has_key name description.functions && is_selected name
            then function_event name
            else []))
  mirror-names description name m distinct h =
      (mirror-event description name m distinct h, mirror-function description name m h)
