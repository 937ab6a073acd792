-- ===== src/Targets/Split.antt =====
-- Laws of `str.split` and `str.join`, and the round trip of a formatted Dashel target.
use pyaseba.Base.{
  ℕ, ◌≡◌, refl, ◌∙◌, ap, ◌≢◌, some, List, [], ◌∷◌, ◌++◌, map, arith, Text, text_eq, ◌=ℕ◌, Dict,
  Bool-cases, inl, inr,
}
use pyaseba.Base.Texts.{split, join, push_head}
use pyaseba.Base.Dicts.{insert, insert_all, insert_all-append, NodupKeys}
use pyaseba.Targets.{
  get_target_protocol, get_target_parameters, read_parameter, read_parameters, parameters_of,
  insert_pair,
}

-- The character `sep` does not stand in the text.
abbrev pub Lacks : ℕ → Text → Type 0
Lacks sep [] = Unit
Lacks sep (c ∷ s) = (c ≢ sep) × Lacks sep s

abbrev pub AllLack : ℕ → List Text → Type 0
AllLack sep [] = Unit
AllLack sep (p ∷ ps) = Lacks sep p × AllLack sep ps

pub split-append :
    (sep : ℕ) (s rest : Text) → Lacks sep s → split sep (s ++ sep ∷ rest) ≡ s ∷ split sep rest
unfolding split
split-append sep [] rest h = ground arith
split-append sep (c ∷ s) rest h = ground (arith, split-append sep s rest h.1)

pub split-Lacks : (sep : ℕ) (s : Text) → Lacks sep s → split sep s ≡ s ∷ []
unfolding split
split-Lacks sep [] h = refl
split-Lacks sep (c ∷ s) h = ground (arith, split-Lacks sep s h.1)

join-push_head : (sep : Text) (c : ℕ) (ps : List Text) → join sep (push_head c ps) ≡ c ∷ join sep ps
unfolding join
join-push_head sep c [] = refl
join-push_head sep c (p ∷ []) = refl
join-push_head sep c (p ∷ q ∷ ps) = refl

join-nil_cons :
    (sep : ℕ) (ps : List Text) → ps ≢ [] → join (sep ∷ []) ([] ∷ ps) ≡ sep ∷ join (sep ∷ []) ps
unfolding join
join-nil_cons sep [] h = absurd (h refl)
join-nil_cons sep (p ∷ ps) h = refl

push_head-ne-nil : (c : ℕ) (ps : List Text) → push_head c ps ≢ []
push_head-ne-nil c [] = ground arith
push_head-ne-nil c (p ∷ ps) = ground arith

split-ne-nil : (sep : ℕ) (s : Text) → split sep s ≢ []
unfolding split
split-ne-nil sep [] = ground arith
split-ne-nil sep (c ∷ s) = elim (Bool-cases (c =ℕ sep)) [
  | inl e ↦ rw e (ground arith)
  | inr e ↦ rw e (push_head-ne-nil c (split sep s))
]

-- Splitting a text and joining the pieces by the separator gives the text back.
pub join-split : (sep : ℕ) (s : Text) → join (sep ∷ []) (split sep s) ≡ s
unfolding split join
join-split sep [] = refl
join-split sep (c ∷ s) = ground (
  arith,
  join-nil_cons sep (split sep s),
  split-ne-nil sep s,
  join-push_head (sep ∷ []) c (split sep s),
  join-split sep s,
)

-- Joining at least one piece, none of which holds the separator, and splitting the text gives the
-- pieces back.
pub split-join :
    (sep : ℕ) (p : Text) (ps : List Text)
    → AllLack sep (p ∷ ps)
    → split sep (join (sep ∷ []) (p ∷ ps)) ≡ p ∷ ps
unfolding join
split-join sep p [] h = split-Lacks sep p h.0
split-join sep p (q ∷ ps) h =
    split-append sep p (join (sep ∷ []) (q ∷ ps)) h.0 ∙ ap (λ r. p ∷ r) (split-join sep q ps h.1)

abbrev format_parameter : Text × Text → Text
format_parameter (key, value) = key ++ b'=' ∷ value

-- A target as `complete_target` writes it: `protocol:key=value;key=value`.
abbrev pub format_target : Text → Dict Text Text → Text
format_target protocol params = protocol ++ b':' ∷ join (b';' ∷ []) (map format_parameter params)

-- What the fields of a target must avoid for the format to be read back.
abbrev pub ParameterIsPlain : Text × Text → Type 0
ParameterIsPlain (key, value) =
    Lacks b'=' key
    × Lacks b'=' value
    × Lacks b';' key
    × Lacks b';' value
    × Lacks b':' key
    × Lacks b':' value

abbrev pub ParametersArePlain : Dict Text Text → Type 0
ParametersArePlain [] = Unit
ParametersArePlain (p ∷ ps) = ParameterIsPlain p × ParametersArePlain ps

Lacks-append : (sep : ℕ) (s t : Text) → Lacks sep s → Lacks sep t → Lacks sep (s ++ t)
Lacks-append sep [] t h k = k
Lacks-append sep (c ∷ s) t h k = (h.0, Lacks-append sep s t h.1 k)

Lacks-join : (sep c : ℕ) (ps : List Text) → c ≢ sep → AllLack sep ps → Lacks sep (join (c ∷ []) ps)
unfolding join
Lacks-join sep c [] n h = tt
Lacks-join sep c (p ∷ []) n h = h.0
Lacks-join sep c (p ∷ q ∷ ps) n h =
    Lacks-append sep p (c ∷ join (c ∷ []) (q ∷ ps)) h.0 (n, Lacks-join sep c (q ∷ ps) n h.1)

parameters_lack_colon :
    (params : Dict Text Text)
    → ParametersArePlain params
    → AllLack b':' (map format_parameter params)
parameters_lack_colon [] h = tt
parameters_lack_colon ((key, value) ∷ params) h = (
  Lacks-append b':' key (b'=' ∷ value) h.0.4 (omega arith, h.0.5),
  parameters_lack_colon params h.1,
)

parameters_lack_semicolon :
    (params : Dict Text Text)
    → ParametersArePlain params
    → AllLack b';' (map format_parameter params)
parameters_lack_semicolon [] h = tt
parameters_lack_semicolon ((key, value) ∷ params) h = (
  Lacks-append b';' key (b'=' ∷ value) h.0.2 (omega arith, h.0.3),
  parameters_lack_semicolon params h.1,
)

-- A formatted parameter is read back as its key and its value.
pub read_parameter-format :
    (key value : Text)
    → ParameterIsPlain (key, value)
    → read_parameter (format_parameter (key, value)) ≡ some (key, value)
unfolding read_parameter
read_parameter-format key value h = rw (split-append b'=' key value h.0, split-Lacks b'=' value h.1)

read_parameters-format :
    (params d : Dict Text Text)
    → ParametersArePlain params
    → read_parameters (map format_parameter params) d ≡ insert_all params d
unfolding read_parameters insert_all
read_parameters-format [] d h = refl
read_parameters-format ((key, value) ∷ params) d h =
    ap (λ r. read_parameters (map format_parameter params) (insert_pair r d))
      (read_parameter-format key value h.0)
    ∙ read_parameters-format params (insert key value d) h.1

-- Reading back the joined parameters, for any number of them.
read_parameters-join :
    (params : Dict Text Text)
    → ParametersArePlain params
    → read_parameters (split b';' (join (b';' ∷ []) (map format_parameter params))) []
      ≡ insert_all params []
unfolding read_parameters read_parameter split join insert_all
read_parameters-join [] h = refl
read_parameters-join (p ∷ params) h =
    rw
      (split-join b';' (format_parameter p) (map format_parameter params)
        (parameters_lack_semicolon (p ∷ params) h))
      (read_parameters-format (p ∷ params) [] h)

-- A target written from a protocol without a colon and from parameters with distinct keys, whose
-- keys and values hold none of `=`, `;` and `:`, is read back as that protocol and exactly those
-- parameters.
pub get_target_parameters-format :
    (protocol : Text) (params : Dict Text Text)
    → Lacks b':' protocol
    → ParametersArePlain params
    → NodupKeys params
    → (get_target_protocol (format_target protocol params) ≡ protocol)
      × (get_target_parameters (format_target protocol params) ≡ params)
unfolding get_target_protocol get_target_parameters parameters_of
get_target_parameters-format protocol params h plain distinct =
    let body = join (b';' ∷ []) (map format_parameter params) in
    let e : split b':' (format_target protocol params) ≡ protocol ∷ body ∷ [] =
      split-append b':' protocol body h
      ∙ ap (λ r. protocol ∷ r)
          (split-Lacks b':' body (
            Lacks-join b':' b';' (map format_parameter params) (omega arith)
              (parameters_lack_colon params plain))) in
    (rw e refl, rw e (read_parameters-join params plain ∙ insert_all-append params [] distinct))
