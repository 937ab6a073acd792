-- ===== src/Thymio/Messages.antt =====
-- The `prox.comm` messages between two `prox` events.
use pyaseba.Base.{◌≡◌, refl, sym, ◌∙◌, ap, Option, none, some, List, [], ◌∷◌, ◌++◌, ℤ, int_eq}
use mathlib.Core.List.{append-nil, append_assoc}
use pyaseba.Base.Dicts.{lookup, insert, lookup-insert_self, lookup_or-some, lookup_or-none}
use pyaseba.Base.Heap.{Ref}
use pyaseba.Node.State.{ProxComm}
use pyaseba.Thymio.{
  update_prox_counter, append_at, append_to_prox_comm_buffer, update_prox_comm_buffer,
}
use pyaseba.Thymio.Counter.{
  update_prox_counter_again, update_prox_counter_counter, update_prox_counter_next,
}

-- Messages that arrive one behind the other, all with the same counter.
unfoldable pub append_all : ℤ → List (ℤ × Ref) → ProxComm → ProxComm
append_all counter [] p = p
append_all counter (message ∷ messages) p =
    append_all counter messages (append_to_prox_comm_buffer counter message p)

-- The messages kept for the round that a counter belongs to.
unfoldable pub kept : ℤ → ProxComm → Option (List (ℤ × Ref))
unfolding int_eq
kept counter p = let p' = update_prox_counter counter p in lookup p'.counter p'.next_buffers

kept_again :
    (counter : ℤ) (p q : ProxComm)
    → q.counter ≡ (update_prox_counter counter p).counter
    → kept counter q ≡ lookup (update_prox_counter counter p).counter q.next_buffers
unfolding kept
kept_again counter p q e =
    let p' = update_prox_counter counter p in
    ap (λ k. lookup k (update_prox_counter counter q).next_buffers)
      (update_prox_counter_counter counter p' q e ∙ update_prox_counter_again counter p)
    ∙ ap (lookup p'.counter) (update_prox_counter_next counter q)

append-kept :
    (counter : ℤ) (message : ℤ × Ref) (p : ProxComm) (before : List (ℤ × Ref))
    → kept counter p ≡ some before
    → kept counter (append_to_prox_comm_buffer counter message p) ≡ some (before ++ message ∷ [])
unfolding append_to_prox_comm_buffer append_at kept
append-kept counter message p before h =
    let p' = update_prox_counter counter p in
    ap (λ o. kept counter (append_at p'.counter message o p')) h
    ∙ kept_again counter p (append_at p'.counter message (some before) p') refl
    ∙ lookup-insert_self p'.counter (before ++ message ∷ []) p'.next_buffers

append-first :
    (counter : ℤ) (message : ℤ × Ref) (p : ProxComm)
    → kept counter p ≡ none
    → kept counter (append_to_prox_comm_buffer counter message p) ≡ some (message ∷ [])
unfolding append_to_prox_comm_buffer append_at insert kept
append-first counter message p h =
    let p' = update_prox_counter counter p in
    ap (λ o. kept counter (append_at p'.counter message o p')) h
    ∙ kept_again counter p (append_at p'.counter message none p') refl
    ∙ lookup-insert_self p'.counter (message ∷ []) []

append_all-kept :
    (counter : ℤ) (messages before : List (ℤ × Ref)) (p : ProxComm)
    → kept counter p ≡ some before
    → kept counter (append_all counter messages p) ≡ some (before ++ messages)
unfolding append_all
append_all-kept counter [] before p h = h ∙ ap some (sym (append-nil before))
append_all-kept counter (message ∷ messages) before p h =
    append_all-kept counter messages (before ++ message ∷ [])
      (append_to_prox_comm_buffer counter message p) (append-kept counter message p before h)
    ∙ ap some (append_assoc before (message ∷ []) messages)

update-kept :
    (counter : ℤ) (p : ProxComm) (messages : List (ℤ × Ref))
    → kept counter p ≡ some messages
    → (update_prox_comm_buffer counter p).buffer ≡ messages
unfolding update_prox_comm_buffer kept
update-kept counter p messages h =
    let p' = update_prox_counter counter p in
    lookup_or-some p'.counter [] messages p'.next_buffers h

update-none :
    (counter : ℤ) (p : ProxComm)
    → kept counter p ≡ none
    → (update_prox_comm_buffer counter p).buffer ≡ []
unfolding update_prox_comm_buffer kept
update-none counter p h =
    let p' = update_prox_counter counter p in lookup_or-none p'.counter [] p'.next_buffers h

-- If no message of its round is kept yet, any messages that arrive with a counter are exactly the
-- ones in the buffer after the `prox` event with that counter, in their order, and none is kept.
pub update_prox_comm_buffer-append_all :
    (counter : ℤ) (messages : List (ℤ × Ref)) (p : ProxComm)
    → kept counter p ≡ none
    → ((update_prox_comm_buffer counter (append_all counter messages p)).buffer ≡ messages)
      × ((update_prox_comm_buffer counter (append_all counter messages p)).next_buffers ≡ [])
unfolding append_all update_prox_comm_buffer
update_prox_comm_buffer-append_all counter [] p h = (update-none counter p h, refl)
update_prox_comm_buffer-append_all counter (message ∷ messages) p h = (
  update-kept counter (append_all counter messages (append_to_prox_comm_buffer counter message p))
      (message ∷ messages)
      (append_all-kept counter messages (message ∷ [])
        (append_to_prox_comm_buffer counter message p) (append-first counter message p h)),
  refl,
)
