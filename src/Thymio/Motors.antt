-- ===== src/Thymio/Motors.antt =====
-- What a Thymio sends when it is closed, and when the period of its timers is set.
use pyaseba.Base.{
  ℕ, suc, ◌<◌, ◌≡◌, refl, sym, ◌∙◌, ap, Bool, true, false, none, some, List, [], ◌∷◌, ◌++◌, arith,
  Text, text, text_eq, contains, ◌&&◌, if◌then◌else◌, ℤ, pos,
}
use pyaseba.Base
use pyaseba.Base.Int.{leb_ℤ}
use mathlib.Core.List.{append-nil}
use pyaseba.Base.Heap.{Ref, read, write, next, read-write}
use pyaseba.Base.Results.{ok}
use pyaseba.Client.{Call, Client, History}
use pyaseba.Mirroring.{is_empty}
use pyaseba.Node.State.{
  World, pure, new_list, here, the_client, the_client_lem, perform, bind-ok, ◌>>=◌, ◌>>◌, words_at,
  modify, Action,
}
use pyaseba.Node.Cache.{scalar, sequence, list_at, set, get}
use pyaseba.Node.Access.{after_set, set_lem}
use pyaseba.Node.Connect.{close, drop_client, when}
use pyaseba.Node.Connect
use pyaseba.Thymio.{
  stop, thymio_overrides, set_control_period, set_timer_period, write_period, periods_list,
  timer_index, milliseconds,
}

abbrev stopped : ℕ → World → World
stopped c w = record w {
  mirroring = none;
  calls = w.calls ++ (c, Call.cmd_stop w.node_id (here w)) ∷ [];
}

node_stop_lem : (c : ℕ) (w : World) → w.client ≡ some c → Connect.stop w ≡ (ok tt, stopped c w)
unfolding Connect.stop the_client perform
node_stop_lem c w h = ground arith

-- The state behind the two `set` calls.
abbrev halted : ℕ → World → World
halted c w =
    after_set c (text "motor.right.target") (scalar (pos 0)) false
      (after_set c (text "motor.left.target") (scalar (pos 0)) false (stopped c w))

stop_lem : (c : ℕ) (w : World) → w.client ≡ some c → stop w ≡ (ok tt, halted c w)
unfolding stop
stop_lem c w h =
    let w1 = stopped c w in
    let w2 = after_set c (text "motor.left.target") (scalar (pos 0)) false w1 in
    let right = set (text "motor.right.target") (scalar (pos 0)) (some false) in
    bind-ok Connect.stop
      (λ _. set (text "motor.left.target") (scalar (pos 0)) (some false) >> right) w tt w1
      (node_stop_lem c w h)
    ∙ bind-ok (set (text "motor.left.target") (scalar (pos 0)) (some false)) (λ _. right) w1 tt w2
        (set_lem c w1 (text "motor.left.target") (scalar (pos 0)) (some false) h)
    ∙ set_lem c w2 (text "motor.right.target") (scalar (pos 0)) (some false) h

-- The state behind the rest of `close`.
abbrev closed : ℕ → World → World
closed c w = record w {
  connection = 0;
  target = [];
  client = if w.shared_client then w.client else none;
  calls =
      (w.calls ++ (c, Call.sleep 100) ∷ [])
      ++ (if w.shared_client then [] else (c, Call.close) ∷ []);
}

drop_client_lem :
    (c : ℕ) (w : World)
    → (perform c (Call.sleep 100)
          >> (drop_client c >> modify (λ w'. record w' { connection = 0; target = [] })))
        w
      ≡ (ok tt, closed c w)
unfolding perform drop_client
drop_client_lem c w = ground (arith, append-nil (w.calls ++ (c, Call.sleep 100) ∷ []))

-- Four calls, one behind the other.
append_four :
    (xs : History) (p q r s : ℕ × Call) (ys : History)
    → ((((xs ++ p ∷ []) ++ q ∷ []) ++ r ∷ []) ++ s ∷ []) ++ ys ≡ xs ++ (p ∷ q ∷ r ∷ s ∷ ys)
append_four [] p q r s ys = refl
append_four (x ∷ xs) p q r s ys = ap (λ zs. x ∷ zs) (append_four xs p q r s ys)

-- The calls of `close`: the node is stopped, then its motors, and the client is closed if it is the
-- node's own.
abbrev pub close_calls : ℕ → World → History
close_calls c w =
    (c, Call.cmd_stop w.node_id (here w))
    ∷ (c, Call.set_variable w.node_id (text "motor.left.target") (pos 0 ∷ []) (here w))
    ∷ (c, Call.set_variable w.node_id (text "motor.right.target") (pos 0 ∷ []) (here w))
    ∷ (c, Call.sleep 100)
    ∷ (if w.shared_client then [] else (c, Call.close) ∷ [])

-- A Thymio with a client that is closed without a reset returns unconnected, behind a command that
-- stops the program and two calls that stop the motors. Afterwards mirroring is off, and the client
-- is closed and dropped exactly if it is not shared.
pub close-stop :
    (client : Client) (c : ℕ) (w : World)
    → w.client ≡ some c
    → let out = close (thymio_overrides client) false w in
      (out.0 ≡ ok tt)
      × (out.1.calls ≡ w.calls ++ close_calls c w)
      × (out.1.mirroring ≡ none)
      × (out.1.client ≡ (if w.shared_client then some c else none))
      × (out.1.connection ≡ 0)
unfolding close
close-stop client c w h =
    let rest =
      perform c (Call.sleep 100)
      >> (drop_client c >> modify (λ w'. record w' { connection = 0; target = [] })) in
    let e : close (thymio_overrides client) false w ≡ (ok tt, closed c (halted c w)) =
      bind-ok the_client
        (λ c'.
          stop
          >> (perform c' (Call.sleep 100)
              >> (drop_client c' >> modify (λ w'. record w' { connection = 0; target = [] }))))
        w c w (the_client_lem w c h)
      ∙ bind-ok stop (λ _. rest) w tt (halted c w) (stop_lem c w h)
      ∙ drop_client_lem c (halted c w) in
    rw e (
      refl,
      append_four w.calls (c, Call.cmd_stop w.node_id (here w))
          (c, Call.set_variable w.node_id (text "motor.left.target") (pos 0 ∷ []) (here w))
          (c, Call.set_variable w.node_id (text "motor.right.target") (pos 0 ∷ []) (here w))
          (c, Call.sleep 100) (if w.shared_client then [] else (c, Call.close) ∷ []),
      refl,
      ap (λ o. if w.shared_client then o else none) h,
      refl,
    )

periods_list_lem :
    (r : Ref) (w : World) (a b : ℤ) (others : List ℤ)
    → read w.heap r ≡ a ∷ b ∷ others
    → periods_list (list_at r) w ≡ (ok r, w)
unfolding periods_list words_at
periods_list_lem r w a b others h =
    ap (λ xs. (if is_empty xs then new_list (pos 0 ∷ pos 0 ∷ []) else pure r) w) h

pub set_control_period_timer :
    (client : Client) (c n : ℕ) (event : Text) (w w' : World) (r : Ref) (a b : ℤ) (others : List ℤ)
    → w'.client ≡ some c
    → contains (text "timer0" ∷ text "timer1" ∷ []) event ≡ true
    → get client (text "timer.period") 1000 none w ≡ (ok (list_at r), w')
    → r < next w'.heap
    → read w'.heap r ≡ a ∷ b ∷ others
    → let out = set_control_period client (pos n) event w in
      let periods = Base.set (a ∷ b ∷ others) (timer_index event) (milliseconds (pos n)) in
      (out.0 ≡ ok tt)
      × (out.1.calls
          ≡ w'.calls
            ++ (c, Call.set_variable w'.node_id (text "timer.period") periods (here w')) ∷ [])
unfolding set_control_period set_timer_period periods_list write_period words_at
set_control_period_timer client c n event w w' r a b others h timer got inside periods =
    let steps = milliseconds (pos n) in
    let now = Base.set (a ∷ b ∷ others) (timer_index event) steps in
    let w1 : World = record w' { heap = write w'.heap r now } in
    let later : Ref → Action (Unit {0}) = λ r'.
      write_period (timer_index event) steps r'
      >> (words_at r' >>= λ words. set (text "timer.period") (sequence words) (some false)) in
    let later2 : Action (Unit {0}) =
      words_at r >>= λ words. set (text "timer.period") (sequence words) (some false) in
    let both : leb_ℤ (pos 0) (pos n) && contains (text "timer0" ∷ text "timer1" ∷ []) event ≡ true =
      ground arith in
    let e : set_control_period client (pos n) event w
        ≡ (ok tt, after_set c (text "timer.period") (sequence now) false w1) =
      ap (λ b. when b (set_timer_period client (pos n) event) w) both
      ∙ bind-ok (get client (text "timer.period") 1000 none) (λ found. periods_list found >>= later)
          w (list_at r) w' got
      ∙ bind-ok (periods_list (list_at r)) later w' r w' (periods_list_lem r w' a b others periods)
      ∙ ap
          (λ xs.
            later2 (record w' { heap = write w'.heap r (Base.set xs (timer_index event) steps) }))
          periods
      ∙ ap (λ xs. set (text "timer.period") (sequence xs) (some false) w1)
          (read-write w'.heap r now inside)
      ∙ set_lem c w1 (text "timer.period") (sequence now) (some false) h in
    rw e (refl, refl)
