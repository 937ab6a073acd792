-- ===== src/Thymio/Counter.antt =====
-- The counter of `prox` events, unwrapped from the words that the node sends.
use pyaseba.Base.{◌≡◌, refl, arith, ℤ, pos, ap}
use pyaseba.Base.Int.{◌+ℤ◌, ◌-ℤ◌, ◌≤ℤ◌, mod_ℤ}
use pyaseba.Node.State.{ProxComm}
use pyaseba.Thymio.{update_prox_counter}

-- The unwrapped counter never decreases, and it is the only number from the old counter on, among
-- 65535 successive ones, that has the residue of the received word modulo 65535.
pub update_prox_counter_least :
    (counter candidate : ℤ) (p : ProxComm)
    → mod_ℤ candidate 65535 ≡ mod_ℤ counter 65535
    → p.counter ≤ℤ candidate
    → candidate ≤ℤ (p.counter +ℤ pos 65534)
    → (update_prox_counter counter p).counter ≡ candidate
unfolding update_prox_counter
update_prox_counter_least counter candidate p same low high = ground arith

-- What a received word does to the counter: it gets the residue of the word modulo 65535, and
-- grows by at most 65534.
update_prox_counter-mod_ℤ :
    (counter : ℤ) (p : ProxComm)
    → (mod_ℤ (update_prox_counter counter p).counter 65535 ≡ mod_ℤ counter 65535)
      × (p.counter ≤ℤ (update_prox_counter counter p).counter)
      × ((update_prox_counter counter p).counter ≤ℤ (p.counter +ℤ pos 65534))
unfolding update_prox_counter
update_prox_counter-mod_ℤ counter p = (ground arith, ground arith, ground arith)

-- The same word again leaves the counter as it is.
pub update_prox_counter_again :
    (counter : ℤ) (p : ProxComm)
    → (update_prox_counter counter (update_prox_counter counter p)).counter
      ≡ (update_prox_counter counter p).counter
update_prox_counter_again counter p =
    let p' = update_prox_counter counter p in
    update_prox_counter_least counter p'.counter p' (update_prox_counter-mod_ℤ counter p).0
      (omega arith) (ground arith)

-- What a word makes of the counter depends on the counter only.
pub update_prox_counter_counter :
    (counter : ℤ) (p q : ProxComm)
    → q.counter ≡ p.counter
    → (update_prox_counter counter q).counter ≡ (update_prox_counter counter p).counter
unfolding update_prox_counter
update_prox_counter_counter counter p q e = ap (λ k. k +ℤ pos (mod_ℤ (counter -ℤ k) 65535)) e

pub update_prox_counter_next :
    (counter : ℤ) (p : ProxComm) → (update_prox_counter counter p).next_buffers ≡ p.next_buffers
unfolding update_prox_counter
update_prox_counter_next counter p = refl
