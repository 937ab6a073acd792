-- ===== src/Mirroring/Outcome.antt =====
-- When the construction of a `Mirroring` raises.
use pyaseba.Base.{
  ℕ, ◌≡◌, refl, ◌∙◌, Bool, true, false, Bool-cases, inl, inr, ◌&&◌, ◌||◌, Option, none, some, List,
  [], ◌∷◌, Text, text_eq, Dict, if◌then◌else◌, pos, is_some,
}
use pyaseba.Base.Int.{leb_ℤ}
use pyaseba.Base.Dicts.{lookup, has_key}
use pyaseba.Base.Results.{Error, Result, ok, err, key_error, ◌>>=◌}
use pyaseba.Utils.{Finder}
use pyaseba.Description.{Description}
use pyaseba.Mirroring.{
  MirroringConfig, Mirroring, blank, sized_variables, size_or_raise, add_sized_event, add_event,
  add_events, reserved_names, add_functions, script, mirror,
}
use pyaseba.Mirroring.Code.{EventSpec}

abbrev pub error_of {ℓ} : {A : Type ℓ} → Result A → Option Error
error_of (ok a) = none
error_of (err e) = some e

abbrev pub all_known : Dict Text (ℕ × ℕ) → List Text → Bool
all_known vs [] = true
all_known vs (n ∷ names) = has_key n vs && all_known vs names

-- Every configured event with a positive window has variables of the description only.
abbrev pub events_known : Dict Text (ℕ × ℕ) → Dict Text EventSpec → Bool
events_known vs [] = true
events_known vs ((name, spec) ∷ events) =
    (leb_ℤ spec.window (pos 0) || all_known vs spec.variables) && events_known vs events

abbrev outcome : Bool → Option Error
outcome b = if b then none else some key_error

module _ {ℓ κ} {A : Type ℓ} {B : Type κ} where
  -- A sequence whose second part returns for every value raises as its first part does.
  error_of_bind :
      (r : Result A) (f : A → Result B)
      → ((a : A) → error_of (f a) ≡ none)
      → error_of (r >>= f) ≡ error_of r
  error_of_bind (ok a) f h = h a
  error_of_bind (err e) f h = refl

  -- A sequence whose second part raises, or not, for every value in the same way.
  error_of_then :
      (r : Result A) (f : A → Result B) (b c : Bool)
      → error_of r ≡ outcome b
      → ((a : A) → error_of (f a) ≡ outcome c)
      → error_of (r >>= f) ≡ outcome (b && c)
  error_of_then (ok a) f true c h k = k a
  error_of_then (ok a) f false c h k = cc
  error_of_then (err e) f true c h k = cc
  error_of_then (err e) f false c h k = h

size_or_raise_error : (o : Option (ℕ × ℕ)) → error_of (size_or_raise o) ≡ outcome (is_some o)
unfolding size_or_raise
size_or_raise_error none = refl
size_or_raise_error (some (index, size)) = refl

sized_variables_error :
    (vs : Dict Text (ℕ × ℕ)) (names : List Text)
    → error_of (sized_variables vs names) ≡ outcome (all_known vs names)
unfolding sized_variables
sized_variables_error vs [] = refl
sized_variables_error vs (n ∷ names) =
    error_of_then (size_or_raise (lookup n vs))
      (λ size. sized_variables vs names >>= λ rest. ok ((n, size) ∷ rest)) (has_key n vs)
      (all_known vs names) (size_or_raise_error (lookup n vs))
      (λ size.
        error_of_bind (sized_variables vs names) (λ rest. ok ((n, size) ∷ rest)) (λ rest. refl)
        ∙ sized_variables_error vs names)

add_event_error :
    (vs : Dict Text (ℕ × ℕ)) (name : Text) (spec : EventSpec) (m : Mirroring)
    → error_of (add_event vs name spec m)
      ≡ outcome (leb_ℤ spec.window (pos 0) || all_known vs spec.variables)
unfolding add_event
add_event_error vs name spec m = elim (Bool-cases (leb_ℤ spec.window (pos 0))) [
  | inl ignored ↦ rw ignored refl
  | inr used ↦ rw used (
      error_of_bind (sized_variables vs spec.variables)
        (λ variables. ok (add_sized_event name spec variables m)) (λ variables. refl)
      ∙ sized_variables_error vs spec.variables)
]

add_events_error :
    (vs : Dict Text (ℕ × ℕ)) (events : Dict Text EventSpec) (m : Mirroring)
    → error_of (add_events vs events m) ≡ outcome (events_known vs events)
unfolding add_events
add_events_error vs [] m = refl
add_events_error vs ((name, spec) ∷ events) m =
    error_of_then (add_event vs name spec m) (λ m'. add_events vs events m')
      (leb_ℤ spec.window (pos 0) || all_known vs spec.variables) (events_known vs events)
      (add_event_error vs name spec m) (λ m'. add_events_error vs events m')

-- The construction of a `Mirroring` returns exactly if every configured event with a positive
-- window has variables of the description only; else it raises a `KeyError`.
pub mirror-events_known :
    (finds : Finder) (description : Description) (config : MirroringConfig)
    → error_of (mirror finds description config)
      ≡ (if events_known description.variables config.events then none else some key_error)
unfolding mirror
mirror-events_known finds description config =
    let start = reserved_names description.variables blank in
    error_of_bind (add_events description.variables config.events start)
      (λ m.
        let m' = add_functions finds config description.functions m in
        ok (record m' { code = script config.script_inits m' }))
      (λ m. refl)
    ∙ add_events_error description.variables config.events start
