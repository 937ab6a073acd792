-- ===== src/Node/State.antt =====
-- The state of a `Node` object with the heap of the integer lists that it shares, and its methods
-- as actions: what is written before an exception stays written.
use pyaseba.Base.{
  arith, ◌≡◌, ap, ℕ, Bool, Option, none, some, List, [], ◌∷◌, ◌++◌, Text, text_eq, ℤ, Dict,
}
use pyaseba.Base.Heap.{Ref, Heap, read, alloc, next}
use pyaseba.Base.Results.{Error, Result, ok, err, assertion_error}
use pyaseba.Description.{Description}
use pyaseba.Mirroring.{Mirroring, MirroringConfig}
use pyaseba.Client.{Call, History}

-- What is called for an event: a function of the user, the closure that `set_controller` makes
-- of one and of a time step in microseconds, or the one that `wrap_callback` makes of a coroutine.
pub data Callback : Type 0 where
  user : ℕ → Callback
  control : ℕ → ℤ → Callback
  scheduled : ℕ → Callback

-- The class attributes.
pub record NodeClass : Type 0 where
  pub default_target : Text
  pub control_event : Text
  pub sync_include : List Text
  pub sync_exclude : List Text

-- The attributes of `Thymio` objects beside those of a `Node`.
pub record ProxComm : Type 0 where
  pub should_record : Bool
  pub buffer : List (ℤ × Ref)
  pub next_buffers : Dict ℤ (List (ℤ × Ref))
  pub counter : ℤ

-- The attributes of a `Node`, the heap, and the calls made so far.
pub record World : Type 0 where
  pub mirroring_config : MirroringConfig
  pub mirroring : Option Mirroring
  pub connection : ℕ
  pub description : Option Description
  pub target : Text
  pub cached : Bool
  pub client : Option ℕ
  pub node_id : ℤ
  pub node_id_int16 : ℤ
  pub shared_client : Bool
  pub variable_values : Dict Text Ref
  pub variable_sizes : Dict Text ℕ
  pub event_callbacks : Dict Text Callback
  pub next_variables_values : Dict Text Ref
  pub prev_variables_values : Dict Text Ref
  pub sync_variables : List Text
  pub last_payloads : Dict Text (List ℤ)
  pub prox_comm : ProxComm
  pub heap : Heap ℤ
  pub calls : History

abbrev pub Action {ℓ} : Type ℓ → Type ℓ
Action A = World → Result A × World

module _ {ℓ} {A : Type ℓ} where
  abbrev pub pure : A → Action A
  pure a w = (ok a, w)

  abbrev pub raise : Error → Action A
  raise e w = (err e, w)

  abbrev pub gets : (World → A) → Action A
  gets f w = (ok (f w), w)

  abbrev pub or_raise : Option A → Error → Action A
  or_raise none e = raise e
  or_raise (some a) e = pure a

infixl 5 ◌>>=◌ ◌>>◌
abbrev pub ◌>>=◌ {ℓ κ} : {A : Type ℓ} {B : Type κ} → Action A → (A → Action B) → Action B
◌>>=◌ m f w = let (r, w') = m w in elim r [ ok a ↦ f a w' | err e ↦ raise e w' ]

abbrev pub ◌>>◌ {ℓ κ} : {A : Type ℓ} {B : Type κ} → Action A → Action B → Action B
m >> k = m >>= λ _. k

-- A first part that returns hands its value and its state to the second.
pub bind-ok {ℓ κ} :
    {A : Type ℓ} {B : Type κ} (m : Action A) (f : A → Action B) (w : World) (a : A) (w' : World)
    → m w ≡ (ok a, w')
    → (m >>= f) w ≡ f a w'
bind-ok {A} {B} m f w a w' h =
    ap
      (λ (p : Result A × World).
        let x : Result B × World = elim p.0 [ ok b ↦ f b p.1 | err e ↦ raise e p.1 ] in x)
      h

abbrev pub modify : (World → World) → Action (Unit {0})
modify f w = (ok tt, f w)

abbrev pub skip : Action (Unit {0})
skip w = (ok tt, w)

-- `assert self._client`, and the client.
unfoldable pub the_client : Action ℕ
the_client w = or_raise w.client assertion_error w

-- A call on a client, without its answer.
unfoldable pub perform : ℕ → Call → Action (Unit {0})
perform c call w = (ok tt, record w { calls = w.calls ++ (c, call) ∷ [] })

-- A call on a client and its answer.
unfoldable pub ask {ℓ} : {A : Type ℓ} → (History → A) → ℕ → Call → Action A
ask answer c call w =
    let calls = w.calls ++ (c, call) ∷ [] in (ok (answer calls), record w { calls = calls })

-- A new list object.
unfoldable pub new_list : List ℤ → Action Ref
unfolding alloc next
new_list v w = (ok (next w.heap), record w { heap = alloc w.heap v })

-- The words of the list object at `r`.
unfoldable pub words_at : Ref → Action (List ℤ)
unfolding read
words_at r w = (ok (read w.heap r), w)

-- `{self.connection}`
abbrev pub here : World → List ℕ
here w = w.connection ∷ []

pub the_client_lem : (w : World) (c : ℕ) → w.client ≡ some c → the_client w ≡ (ok c, w)
unfolding the_client
the_client_lem w c h = ground arith
