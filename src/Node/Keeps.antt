-- ===== src/Node/Keeps.antt =====
-- What it means that an action keeps a node's caches well-formed, with what it needs of the state
-- and what it promises of the value that it returns, and how this composes.
use pyaseba.Base.{
  ℕ, ◌<◌, ◌≡◌, refl, Option, some, none, List, arith, Text, ℤ, Dict, Bool, true, false,
  if◌then◌else◌,
}
use mathlib.Core.Path.{subst}
use pyaseba.Base.Heap.{Ref, next, alloc, next-alloc}
use pyaseba.Base.Results.{Error, Result, ok, err, assertion_error}
use pyaseba.Client.{Call, History}
use pyaseba.Node.State.{
  World, Action, pure, raise, gets, or_raise, modify, skip, the_client, perform, ask, new_list,
  words_at, ◌>>=◌,
}
use pyaseba.Node.Invariant.{AllBelow, AllBelow-mono, IsWellFormed}

-- What an action that has returned promises.
abbrev pub Returned : {A : Type 0} → (A → World → Type 0) → Result A × World → Type 0
Returned Q (ok a, w) = Q a w
Returned Q (err e, w) = Unit

pub record Keeps {A : Type 0} (P : World → Type 0) (m : Action A) (Q : A → World → Type 0)
    : Type 0 where
  pub run : (w : World) → IsWellFormed w → P w → IsWellFormed (m w).1 × Returned Q (m w)

-- No condition, on a state and on a value with a state.
abbrev pub Any : World → Type 0
Any w = Unit

abbrev pub AnyValue : {A : Type 0} → A → World → Type 0
AnyValue a w = Unit

-- The list object at `r` exists.
abbrev pub Below : Ref → World → Type 0
Below r w = r < next w.heap

-- The parts of the state that well-formedness is about.
abbrev pub caches : World → ℕ × Dict Text Ref × Dict Text Ref × Dict Text Ref
caches w = (next w.heap, w.variable_values, w.next_variables_values, w.prev_variables_values)

abbrev AllIn : ℕ × Dict Text Ref × Dict Text Ref × Dict Text Ref → Type 0
AllIn (n, values, pending, previous) = AllBelow n values × AllBelow n pending × AllBelow n previous

pub caches-IsWellFormed : (w w' : World) → caches w ≡ caches w' → IsWellFormed w → IsWellFormed w'
caches-IsWellFormed w w' e wf =
    let all = subst AllIn e (wf.of_values, wf.of_next, wf.of_prev) in
    record { of_values = all.0; of_next = all.1; of_prev = all.2 }

module _ {A B : Type 0} where
  pub keeps_bind :
      {P : World → Type 0} {m : Action A} {Q : A → World → Type 0} {f : A → Action B}
      {R : B → World → Type 0}
      → Keeps P m Q
      → ((a : A) → Keeps (Q a) (f a) R)
      → Keeps P (m >>= f) R
  keeps_bind {m} {Q} {f} {R} km kf = record { run = λ w wf p. keeps_rest (m w) (km.run w wf p) }
    where
      keeps_rest :
          (out : Result A × World)
          → IsWellFormed out.1 × Returned Q out
          → let next_out : Result B × World = elim out.0 [
            | ok a ↦ f a out.1
            | err e ↦ raise e out.1
          ] in
            IsWellFormed next_out.1 × Returned R next_out
      keeps_rest (ok a, w') h = (kf a).run w' h.0 h.1
      keeps_rest (err e, w') h = (h.0, tt)

module _ {A : Type 0} (P : World → Type 0) where
  pub keeps_pure : (a : A) → Keeps P (pure a) (λ _. P)
  keeps_pure a = record { run = λ w wf p. (wf, p) }

  pub keeps_raise : (e : Error) (Q : A → World → Type 0) → Keeps P (raise e) Q
  keeps_raise e Q = record { run = λ w wf p. (wf, tt) }

  pub keeps_gets : (f : World → A) → Keeps P (gets f) (λ _. P)
  keeps_gets f = record { run = λ w wf p. (wf, p) }

  pub keeps_or_raise : (o : Option A) (e : Error) → Keeps P (or_raise o e) (λ _. P)
  keeps_or_raise none e = record { run = λ w wf p. (wf, tt) }
  keeps_or_raise (some a) e = record { run = λ w wf p. (wf, p) }

  pub keeps_if :
      (b : Bool) {m n : Action A} {Q : A → World → Type 0}
      → Keeps P m Q
      → Keeps P n Q
      → Keeps P (if b then m else n) Q
  keeps_if true km kn = km
  keeps_if false km kn = kn

module _ {A : Type 0} where
  -- A condition that holds already, and a promise that suffices.
  pub keeps_weaken :
      {P P' : World → Type 0} {m : Action A} {Q Q' : A → World → Type 0}
      → Keeps P m Q
      → ((w : World) → P' w → P w)
      → ((a : A) (w : World) → Q a w → Q' a w)
      → Keeps P' m Q'
  keeps_weaken {m} {Q} {Q'} k before after = record {
    run = λ w wf p. keeps_after (m w) (k.run w wf (before w p));
  }
    where
      keeps_after :
          (out : Result A × World)
          → IsWellFormed out.1 × Returned Q out
          → IsWellFormed out.1 × Returned Q' out
      keeps_after (ok a, w') h = (h.0, after a w' h.1)
      keeps_after (err e, w') h = (h.0, tt)

-- A part that is run under a condition on the state.
pub keeps_when :
    {P : World → Type 0} {m : Action (Unit {0})} (b : Bool) (w : World)
    → Keeps P m AnyValue
    → IsWellFormed w
    → P w
    → let out = (if b then m w else (ok tt, w)) in
      IsWellFormed out.1 × Returned {A = Unit {0}} AnyValue out
keeps_when true w k wf p = k.run w wf p
keeps_when false w k wf p = (wf, tt)

-- A change of the state beside the caches.
pub keeps_modify :
    (f : World → World) → ((w : World) → caches w ≡ caches (f w)) → Keeps Any (modify f) AnyValue
keeps_modify f e = record { run = λ w wf p. (caches-IsWellFormed w (f w) (e w) wf, tt) }

pub keeps_skip : (P : World → Type 0) → Keeps P skip (λ _. P)
keeps_skip P = record { run = λ w wf p. (wf, p) }

-- The calls on the client leave the caches alone, and what holds of them.
module _ (S : ℕ × Dict Text Ref × Dict Text Ref × Dict Text Ref → Type 0) where
  pub keeps_client : Keeps (λ w. S (caches w)) the_client (λ c w. S (caches w))
  unfolding the_client
  keeps_client = record {
    run = λ w wf p. (keeps_or_raise (λ w'. S (caches w')) w.client assertion_error).run w wf p;
  }

  pub keeps_perform :
      (c : ℕ) (call : Call) → Keeps (λ w. S (caches w)) (perform c call) (λ _ w. S (caches w))
  unfolding perform
  keeps_perform c call = record {
    run = λ w wf p. (caches-IsWellFormed w (perform c call w).1 refl wf, p);
  }

  pub keeps_ask :
      {A : Type 0} (answer : History → A) (c : ℕ) (call : Call)
      → Keeps (λ w. S (caches w)) (ask answer c call) (λ _ w. S (caches w))
  unfolding ask
  keeps_ask answer c call = record {
    run = λ w wf p. (caches-IsWellFormed w (ask answer c call w).1 refl wf, p);
  }

pub keeps_new_list : (v : List ℤ) → Keeps Any (new_list v) Below
unfolding new_list
keeps_new_list v = record {
  run = λ w wf p.
      let grown = next-alloc w.heap v in
      (
        record {
          of_values =
              AllBelow-mono (next w.heap) (next (alloc w.heap v)) w.variable_values
                (omega (arith, grown)) wf.of_values;
          of_next =
              AllBelow-mono (next w.heap) (next (alloc w.heap v)) w.next_variables_values
                (omega (arith, grown)) wf.of_next;
          of_prev =
              AllBelow-mono (next w.heap) (next (alloc w.heap v)) w.prev_variables_values
                (omega (arith, grown)) wf.of_prev;
        },
        omega (arith, grown),
      );
}

pub keeps_words_at : (P : World → Type 0) (r : Ref) → Keeps P (words_at r) (λ _. P)
unfolding words_at
keeps_words_at P r = record { run = λ w wf p. (wf, p) }
