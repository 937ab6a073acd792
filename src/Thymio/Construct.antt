-- ===== src/Thymio/Construct.antt =====
-- pyaseba/client/thymio/thymio.py: the class attributes of `Thymio`, and `Thymio.__init__` with the
-- lists that all instances share: `dc.replace` copies the configuration of the class, but not its
-- lists.
use pyaseba.Base.{
  ◌≡◌, refl, ◌∙◌, ap, Bool, true, false, ◌&&◌, ◌||◌, not, List, [], ◌∷◌, ◌++◌, Text, text, text_eq,
  contains, if◌then◌else◌, pos, arith,
}
use pyaseba.Utils.{Finder, matches, any_finds}
use pyaseba.Mirroring.{MirroringConfig}
use pyaseba.Mirroring.Code.{EventSpec}
use pyaseba.Node.State.{NodeClass}

-- `EventSpec(variables)`
abbrev pub spec_of : List Text → EventSpec
spec_of names = record {
  variables = names;
  use_counter = false;
  external_counter = [];
  window = pos 1;
  preamble = [];
  epilog = [];
}

-- `Thymio.mirroring_config`
abbrev pub thymio_config : MirroringConfig
thymio_config = record {
  events =
      (text "acc", spec_of (text "acc" ∷ []))
      ∷ (text "motor", spec_of (text "motor.left.speed" ∷ text "motor.right.speed" ∷ []))
      ∷ (
        text "prox",
        record (spec_of (text "prox.horizontal" ∷ text "prox.ground.delta" ∷ [])) {
          use_counter = true;
        },
      )
      ∷ (
        text "prox.comm",
        record (spec_of (text "prox.comm.rx" ∷ text "prox.comm.rx._intensities" ∷ [])) {
          use_counter = true;
          epilog = text "call math.fill(prox.comm.rx._intensities, 0)";
          external_counter = text "event_prox";
        },
      )
      ∷ (text "button.backward", spec_of (text "button.backward" ∷ []))
      ∷ (text "button.left", spec_of (text "button.left" ∷ []))
      ∷ (text "button.center", spec_of (text "button.center" ∷ []))
      ∷ (text "button.forward", spec_of (text "button.forward" ∷ []))
      ∷ (text "button.right", spec_of (text "button.right" ∷ []))
      ∷ (text "tap", spec_of (text "acc._tap" ∷ []))
      ∷ (text "mic", spec_of (text "mic.intensity" ∷ []))
      ∷ (text "rc5", spec_of (text "rc5.address" ∷ text "rc5.command" ∷ []))
      ∷ (text "timer0", spec_of [])
      ∷ (text "timer1", spec_of [])
      ∷ [];
  function_include = text "leds" ∷ text "_leds" ∷ text "sound" ∷ text "prox" ∷ [];
  function_exclude = text "wave" ∷ [];
  script_inits = [];
}

-- `default_target`, `control_event`, `sync_include` and the inherited `sync_exclude`.
abbrev pub thymio_class : NodeClass
thymio_class = record {
  default_target = text "ser:name=Thymio";
  control_event = text "timer0";
  sync_include =
      text "leds"
      ∷ text "mic\\.threshold"
      ∷ text "target"
      ∷ text "prox\\.comm\\.tx"
      ∷ text "timer\\.period"
      ∷ [];
  sync_exclude = [];
}

-- `Thymio.properties`
abbrev pub thymio_properties : List Text
thymio_properties =
    text "_fwversion"
    ∷ text "_id"
    ∷ text "_imot"
    ∷ text "_integrator"
    ∷ text "_productId"
    ∷ text "_vbat"
    ∷ text "acc"
    ∷ text "acc._tap"
    ∷ text "button.backward"
    ∷ text "button.center"
    ∷ text "button.forward"
    ∷ text "button.left"
    ∷ text "button.right"
    ∷ text "buttons._mean"
    ∷ text "buttons._noise"
    ∷ text "buttons._raw"
    ∷ text "event.args"
    ∷ text "event.source"
    ∷ text "leds.bottom.left"
    ∷ text "leds.bottom.right"
    ∷ text "leds.circle"
    ∷ text "leds.top"
    ∷ text "mic._mean"
    ∷ text "mic.intensity"
    ∷ text "mic.threshold"
    ∷ text "motor.left.pwm"
    ∷ text "motor.left.speed"
    ∷ text "motor.left.target"
    ∷ text "motor.right.pwm"
    ∷ text "motor.right.speed"
    ∷ text "motor.right.target"
    ∷ text "prox.comm.rx"
    ∷ text "prox.comm.rx._align_tol"
    ∷ text "prox.comm.rx._intensities"
    ∷ text "prox.comm.rx._lead"
    ∷ text "prox.comm.rx._payloads"
    ∷ text "prox.comm.rx._tol"
    ∷ text "prox.comm.rx._trail"
    ∷ text "prox.comm.tx"
    ∷ text "prox.ground.ambiant"
    ∷ text "prox.ground.delta"
    ∷ text "prox.ground.reflected"
    ∷ text "prox.horizontal"
    ∷ text "rc5.address"
    ∷ text "rc5.command"
    ∷ text "sd.present"
    ∷ text "temperature"
    ∷ text "timer.period"
    ∷ []

-- `Thymio.functions`
abbrev pub thymio_functions : List Text
thymio_functions =
    text "_leds.set"
    ∷ text "sound.record"
    ∷ text "sound.play"
    ∷ text "sound.replay"
    ∷ text "sound.system"
    ∷ text "leds.circle"
    ∷ text "leds.top"
    ∷ text "leds.bottom.left"
    ∷ text "leds.bottom.right"
    ∷ text "sound.freq"
    ∷ text "leds.buttons"
    ∷ text "leds.prox.h"
    ∷ text "leds.prox.v"
    ∷ text "leds.rc"
    ∷ text "leds.sound"
    ∷ text "leds.temperature"
    ∷ text "prox.comm.enable"
    ∷ text "sound.duration"
    ∷ []

-- The lists of the configuration that a class and all its instances share.
pub record SharedLists : Type 0 where
  pub function_include : List Text
  pub script_inits : List Text

abbrev pub enable_line : Text
enable_line = text "call prox.comm.enable(1)"

-- What `Node.__init__` and `Thymio.__init__` do to the shared lists.
unfoldable pub construct : List Text → Bool → SharedLists → SharedLists
construct functions enable_prox_comm lists = record {
  function_include = lists.function_include ++ functions;
  script_inits =
      if enable_prox_comm then lists.script_inits ++ enable_line ∷ [] else lists.script_inits;
}

-- The constructions of a program, by their argument `enable_prox_comm`.
unfoldable pub construct_all : List Text → List Bool → SharedLists → SharedLists
unfolding construct
construct_all functions [] lists = lists
construct_all functions (enable ∷ enables) lists =
    construct_all functions enables (construct functions enable lists)

abbrev pub any_true : List Bool → Bool
any_true [] = false
any_true (b ∷ bs) = b || any_true bs

any_finds-append :
    (finds : Finder) (xs ys : List Text) (name : Text)
    → any_finds finds (xs ++ ys) name ≡ (any_finds finds xs name || any_finds finds ys name)
unfolding any_finds
any_finds-append finds [] ys name = refl
any_finds-append finds (x ∷ xs) ys name = ground (arith, any_finds-append finds xs ys name)

-- Nodes constructed in a row find at most what the functions of the class find, beside what was
-- there.
any_finds-construct_all :
    (finds : Finder) (functions : List Text) (enables : List Bool) (lists : SharedLists)
    (name : Text)
    → (any_finds finds lists.function_include name || any_finds finds functions name)
      ≡ any_finds finds lists.function_include name
    → any_finds finds (construct_all functions enables lists).function_include name
      ≡ any_finds finds lists.function_include name
unfolding construct_all
any_finds-construct_all finds functions [] lists name h = refl
any_finds-construct_all finds functions (enable ∷ enables) lists name h =
    let lists' = construct functions enable lists in
    let grown = any_finds-append finds lists.function_include functions name in
    let ih = any_finds-construct_all finds functions enables lists' name in
    ground (arith, grown, ih, h)

contains-append :
    (xs ys : List Text) (t : Text) → contains (xs ++ ys) t ≡ (contains xs t || contains ys t)
contains-append [] ys t = refl
contains-append (x ∷ xs) ys t = ground (arith, contains-append xs ys t)

contains_self : (t : Text) → contains (t ∷ []) t ≡ true
contains_self t = ground arith

or_true : (b c : Bool) → ((b || true) || c) ≡ (b || true)
or_true true c = refl
or_true false c = refl

contains-construct_all :
    (functions : List Text) (enables : List Bool) (lists : SharedLists)
    → contains (construct_all functions enables lists).script_inits enable_line
      ≡ (contains lists.script_inits enable_line || any_true enables)
unfolding construct_all
contains-construct_all functions [] lists = ground arith
contains-construct_all functions (true ∷ enables) lists =
    let ih = contains-construct_all functions enables (construct functions true lists) in
    let added = contains-append lists.script_inits (enable_line ∷ []) enable_line in
    let self = contains_self enable_line in
    ih
    ∙ (ap (λ b. b || any_true enables)
          (added ∙ ap (λ b. contains lists.script_inits enable_line || b) self)
        ∙ or_true (contains lists.script_inits enable_line) (any_true enables))
contains-construct_all functions (false ∷ enables) lists =
    contains-construct_all functions enables (construct functions false lists)

-- Constructing further instances of a class, in any number and with any options, does not change
-- which functions the configuration selects that they share with the instances there; but the line
-- that enables `prox.comm` is in the script of all of them as soon as one of them was constructed
-- with this option.
pub construct_all-matches :
    (finds : Finder) (functions : List Text) (enable : Bool) (enables : List Bool)
    (lists : SharedLists) (name : Text) (exclude : List Text)
    → let first = construct functions enable lists in
      let all = construct_all functions enables first in
      (matches finds name all.function_include exclude
        ≡ matches finds name first.function_include exclude)
      × (contains all.script_inits enable_line
          ≡ (contains first.script_inits enable_line || any_true enables))
unfolding matches construct
construct_all-matches finds functions enable enables lists name exclude =
    let first = construct functions enable lists in
    let grown = any_finds-append finds lists.function_include functions name in
    let known : (any_finds finds first.function_include name || any_finds finds functions name)
        ≡ any_finds finds first.function_include name =
      ground (arith, grown) in
    (
      ap (λ b. b && not (any_finds finds exclude name))
          (any_finds-construct_all finds functions enables first name known),
      contains-construct_all functions enables first,
    )
