-- ===== src/Mirroring/Payload.antt =====
-- How `read_variables` cuts an event's payload into the values of the mirrored variables.
use pyaseba.Base.{
  ℕ, ◌≤◌, ◌≡◌, refl, ap, ◌∙◌, none, some, List, [], ◌∷◌, ◌++◌, arith, Text, text_eq, ℤ, Dict, sum,
  take, drop, length, length-drop, length-take,
}
use mathlib.Core.List.{append_assoc}
use pyaseba.Base.Dicts.{
  lookup, lookup_or-some, insert_all, insert_all-append, NodupKeys, keys, values,
}
use pyaseba.Description.{Event}
use pyaseba.Mirroring.{Mirroring, read_segments, read_variables}

-- The words of all values, one value behind the other.
abbrev pub flatten : Dict Text (List ℤ) → List ℤ
flatten [] = []
flatten ((_, v) ∷ rs) = v ++ flatten rs

-- The variables of some values, with their sizes.
abbrev pub sizes : Dict Text (List ℤ) → List (Text × ℕ)
sizes [] = []
sizes ((name, v) ∷ rs) = (name, length v) ∷ sizes rs

-- The consecutive segments of a payload.
segments : List (Text × ℕ) → List ℤ → Dict Text (List ℤ)
segments [] words = []
segments ((name, size) ∷ variables) words =
    (name, take size words) ∷ segments variables (drop size words)

read_segments-insert_all :
    (variables : List (Text × ℕ)) (words : List ℤ) (rs : Dict Text (List ℤ))
    → read_segments variables words rs ≡ insert_all (segments variables words) rs
unfolding read_segments segments insert_all
read_segments-insert_all [] words rs = refl
read_segments-insert_all ((name, size) ∷ variables) words rs =
    read_segments-insert_all variables (drop size words) _

lookup-segments :
    (k : Text) (variables : List (Text × ℕ)) (words : List ℤ)
    → lookup k variables ≡ none
    → lookup k (segments variables words) ≡ none
unfolding lookup segments
lookup-segments k [] words h = refl
lookup-segments k ((name, size) ∷ variables) words h =
    ground (arith, lookup-segments k variables (drop size words))

segments-NodupKeys :
    (variables : List (Text × ℕ)) (words : List ℤ)
    → NodupKeys variables
    → NodupKeys (segments variables words)
unfolding segments
segments-NodupKeys [] words h = tt
segments-NodupKeys ((name, size) ∷ variables) words h = (
  lookup-segments name variables (drop size words) h.0,
  segments-NodupKeys variables (drop size words) h.1,
)

read_segments_lem :
    (variables : List (Text × ℕ)) (words : List ℤ)
    → NodupKeys variables
    → read_segments variables words [] ≡ segments variables words
read_segments_lem variables words h =
    read_segments-insert_all variables words []
    ∙ insert_all-append (segments variables words) [] (segments-NodupKeys variables words h)

take-append : (v rest : List ℤ) → take (length v) (v ++ rest) ≡ v
take-append [] rest = refl
take-append (x ∷ v) rest = ap (λ r. x ∷ r) (take-append v rest)

drop-append : (v rest : List ℤ) → drop (length v) (v ++ rest) ≡ rest
drop-append [] rest = refl
drop-append (x ∷ v) rest = drop-append v rest

segments-flatten :
    (rs : Dict Text (List ℤ)) (extra : List ℤ) → segments (sizes rs) (flatten rs ++ extra) ≡ rs
unfolding segments
segments-flatten [] extra = refl
segments-flatten ((name, v) ∷ rs) extra = rw (append_assoc v (flatten rs) extra) (
    rw (take-append v (flatten rs ++ extra), drop-append v (flatten rs ++ extra))
      (ap (λ r. (name, v) ∷ r) (segments-flatten rs extra)))

lookup-sizes :
    (k : Text) (rs : Dict Text (List ℤ)) → lookup k rs ≡ none → lookup k (sizes rs) ≡ none
unfolding lookup
lookup-sizes k [] h = refl
lookup-sizes k ((name, v) ∷ rs) h = ground (arith, lookup-sizes k rs)

sizes-NodupKeys : (rs : Dict Text (List ℤ)) → NodupKeys rs → NodupKeys (sizes rs)
sizes-NodupKeys [] h = tt
sizes-NodupKeys ((name, v) ∷ rs) h = (lookup-sizes name rs h.0, sizes-NodupKeys rs h.1)

-- Values of distinct variables, sent one behind the other with any further words such as a counter
-- behind them, are read back as exactly those values, if the event is mirrored with those variables
-- at those sizes.
pub read_variables-flatten :
    (m : Mirroring) (event : Event) (rs : Dict Text (List ℤ)) (extra : List ℤ)
    → lookup event.name m.events_variables ≡ some (sizes rs)
    → event.words ≡ flatten rs ++ extra
    → NodupKeys rs
    → read_variables m event ≡ rs
unfolding read_variables
read_variables-flatten m event rs extra known sent distinct =
    rw (lookup_or-some event.name [] (sizes rs) m.events_variables known, sent)
      (read_segments_lem (sizes rs) (flatten rs ++ extra) (sizes-NodupKeys rs distinct)
        ∙ segments-flatten rs extra)

keys-segments :
    (variables : List (Text × ℕ)) (words : List ℤ)
    → keys (segments variables words) ≡ keys variables
unfolding segments
keys-segments [] words = refl
keys-segments ((name, size) ∷ variables) words =
    ap (λ r. name ∷ r) (keys-segments variables (drop size words))

sizes-segments :
    (variables : List (Text × ℕ)) (words : List ℤ)
    → sum (values variables) ≤ length words
    → sizes (segments variables words) ≡ variables
unfolding segments
sizes-segments [] words h = refl
sizes-segments ((name, size) ∷ variables) words h =
    let e : length (take size words) ≡ size = omega (arith, length-take size words) in
    let ih = sizes-segments variables (drop size words) (omega (arith, length-drop size words)) in
    cc (e, ih)

-- A payload with at least as many words as the mirrored variables have together gives each
-- variable a value of its size, in the order of the variables.
pub read_variables-sizes :
    (m : Mirroring) (event : Event) (variables : List (Text × ℕ))
    → lookup event.name m.events_variables ≡ some variables
    → NodupKeys variables
    → sum (values variables) ≤ length event.words
    → sizes (read_variables m event) ≡ variables
unfolding read_variables
read_variables-sizes m event variables known distinct long =
    rw (lookup_or-some event.name [] variables m.events_variables known) (
      ap sizes (read_segments_lem variables event.words distinct)
      ∙ sizes-segments variables event.words long)
