-- ===== src/Mirroring/Names.antt =====
-- The tables of a `Mirroring`: the user event of each mirrored local event, its variables and its
-- declared size.
use pyaseba.Base.{
  ℕ, ◌+◌, ◌≡◌, ◌∙◌, ◌≢◌, true, false, sum, if◌then◌else◌, none, some, List, [], ◌∷◌, arith, Text,
  text_eq, Dict, pos, ◌⊎◌, inl, inr, Bool-cases,
}
use pyaseba.Base.Int.{leb_ℤ}
use pyaseba.Base.Dicts.{
  lookup, lookup-nil, lookup-cases, lookup-insert_self, lookup-insert_ne, NodupKeys, values,
}
use pyaseba.Base.Results.{ok, >>=-eq-ok}
use pyaseba.Mirroring.{
  Mirroring, function_event, local_event, message_size, sized_variables, add_sized_event, add_event,
  add_events,
}
use pyaseba.Mirroring.Code.{EventSpec}

-- Everything that is stored for the mirrored event `name`.
abbrev pub Registered : Dict Text (ℕ × ℕ) → Text → EventSpec → Mirroring → Type 0
Registered vs name spec m =
    (variables : List (Text × ℕ)) × (sized_variables vs spec.variables ≡ ok variables)
    × (lookup name m.user_events ≡ some (local_event name))
    × (lookup (local_event name) m.events ≡ some name)
    × (lookup (local_event name) m.events_variables ≡ some variables)
    × (lookup (local_event name) m.code_events
        ≡ some (pos (sum (values variables) + (if spec.use_counter then 1 else 0))))

local_event-injective : (j k : Text) → local_event j ≡ local_event k → j ≡ k
local_event-injective j k h = ground arith

pub local_event-ne-function_event : (j k : Text) → local_event j ≢ function_event k
local_event-ne-function_event j k h = ground arith

add_sized_event-Registered :
    (vs : Dict Text (ℕ × ℕ)) (name : Text) (spec : EventSpec) (variables : List (Text × ℕ))
    (m : Mirroring)
    → sized_variables vs spec.variables ≡ ok variables
    → Registered vs name spec (add_sized_event name spec variables m)
unfolding add_sized_event
add_sized_event-Registered vs name spec variables m h = (
  variables,
  h,
  lookup-insert_self name (local_event name) m.user_events,
  lookup-insert_self (local_event name) name m.events,
  lookup-insert_self (local_event name) variables m.events_variables,
  lookup-insert_self (local_event name) (pos (message_size spec variables)) m.code_events,
)

add_sized_event-keeps :
    (vs : Dict Text (ℕ × ℕ)) (j name : Text) (spec spec' : EventSpec) (variables : List (Text × ℕ))
    (m : Mirroring)
    → j ≢ name
    → Registered vs j spec m
    → Registered vs j spec (add_sized_event name spec' variables m)
unfolding add_sized_event
add_sized_event-keeps vs j name spec spec' variables m n (known, h, a, b, c, d) =
    let e : local_event j ≢ local_event name = λ p. n (local_event-injective j name p) in
    let size = pos (message_size spec' variables) in
    (
      known,
      h,
      lookup-insert_ne j name (local_event name) m.user_events n ∙ a,
      lookup-insert_ne (local_event j) (local_event name) name m.events e ∙ b,
      lookup-insert_ne (local_event j) (local_event name) variables m.events_variables e ∙ c,
      lookup-insert_ne (local_event j) (local_event name) size m.code_events e ∙ d,
    )

-- A call of `add_event` that returns has left out the event or added it with sizes that are known.
pub add_event-cases :
    (vs : Dict Text (ℕ × ℕ)) (name : Text) (spec : EventSpec) (m m' : Mirroring)
    → add_event vs name spec m ≡ ok m'
    → ((leb_ℤ spec.window (pos 0) ≡ true) × (m' ≡ m))
      ⊎ ((variables : List (Text × ℕ)) × (leb_ℤ spec.window (pos 0) ≡ false)
          × (sized_variables vs spec.variables ≡ ok variables)
          × (m' ≡ add_sized_event name spec variables m))
unfolding add_event
add_event-cases vs name spec m m' h = elim (Bool-cases (leb_ℤ spec.window (pos 0))) [
  | inl skipped ↦ inl (skipped, ground arith)
  | inr mirrored ↦
      let inv =
        >>=-eq-ok (sized_variables vs spec.variables)
          (λ variables. ok (add_sized_event name spec variables m)) {b = m'} (rw mirrored at h) in
      inr (inv.0, mirrored, inv.1, ground (arith, inv.2))
]

module _ (vs : Dict Text (ℕ × ℕ)) where
  add_event-Registered :
      (name : Text) (spec : EventSpec) (m m' : Mirroring)
      → leb_ℤ spec.window (pos 0) ≡ false
      → add_event vs name spec m ≡ ok m'
      → Registered vs name spec m'
  add_event-Registered name spec m m' w h = elim (add_event-cases vs name spec m m' h) [
    | inl (skipped, _) ↦ cc
    | inr (variables, _, sized, e) ↦
        rw e (add_sized_event-Registered vs name spec variables m sized)
  ]

  add_event-keeps :
      (j name : Text) (spec spec' : EventSpec) (m m' : Mirroring)
      → j ≢ name
      → add_event vs name spec' m ≡ ok m'
      → Registered vs j spec m
      → Registered vs j spec m'
  add_event-keeps j name spec spec' m m' n h r = elim (add_event-cases vs name spec' m m' h) [
    | inl (_, e) ↦ rw e r
    | inr (variables, _, _, e) ↦ rw e (add_sized_event-keeps vs j name spec spec' variables m n r)
  ]

  ne_of_lookup :
      (j name : Text) (spec : EventSpec) (events : Dict Text EventSpec)
      → lookup j ((name, spec) ∷ events) ≡ none
      → (j ≢ name) × (lookup j events ≡ none)
  unfolding lookup
  ne_of_lookup j name spec events h = (ground arith, ground arith)

  add_events-keeps :
      (j : Text) (spec : EventSpec) (events : Dict Text EventSpec) (m m' : Mirroring)
      → lookup j events ≡ none
      → add_events vs events m ≡ ok m'
      → Registered vs j spec m
      → Registered vs j spec m'
  unfolding add_events
  add_events-keeps j spec [] m m' absent h r = let e : m ≡ m' = cc in rw (← e) r
  add_events-keeps j spec ((name, spec') ∷ events) m m' absent h r =
      let (n, rest) = ne_of_lookup j name spec' events absent in
      let (m1, first, more) = >>=-eq-ok (add_event vs name spec' m) (add_events vs events) h in
      add_events-keeps j spec events m1 m' rest more
        (add_event-keeps j name spec spec' m m1 n first r)

  pub add_events-Registered :
      (name : Text) (spec : EventSpec) (events : Dict Text EventSpec) (m m' : Mirroring)
      → NodupKeys events
      → lookup name events ≡ some spec
      → leb_ℤ spec.window (pos 0) ≡ false
      → add_events vs events m ≡ ok m'
      → Registered vs name spec m'
  unfolding add_events
  add_events-Registered name spec [] m m' distinct found w h = cc (lookup-nil {V = EventSpec} name)
  add_events-Registered name spec ((j, spec') ∷ events) m m' distinct found w h =
      let (m1, first, more) = >>=-eq-ok (add_event vs j spec' m) (add_events vs events) h in
      elim (lookup-cases name spec j spec' events found) [
        | inl (here, same) ↦
            add_events-keeps name spec events m1 m' (rw here distinct.0) more
              (add_event-Registered name spec m m1 w (rw (here, same) first))
        | inr later ↦ add_events-Registered name spec events m1 m' distinct.1 later w more
      ]
