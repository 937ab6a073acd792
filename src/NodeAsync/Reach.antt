-- ===== src/NodeAsync/Reach.antt =====
-- The states that an asynchronous node can reach. Whenever a coroutine awaits, the node may take
-- any further steps: other coroutines run, and events arrive.
use pyaseba.Base.{ℕ, Bool, Option, Text, ℤ}
use pyaseba.Utils.{Finder}
use pyaseba.Client.{Client}
use pyaseba.Node.State.{World, NodeClass}
use pyaseba.Node.Events.{UserCode}
use pyaseba.Node.Connect.{Overrides}
use pyaseba.Node.Invariant.{IsWellFormed}
use pyaseba.Node.Lives.{KeepsCaches}
use pyaseba.Node.Link.{KeepOverrides}
use pyaseba.Node.Reach.{Step, Step-IsWellFormed}
use pyaseba.NodeAsync.{
  MaybeAsyncCallback, set_callback_async, update_async, get_all_async, get_async, wait_async,
  close_async, connect_async,
}
use pyaseba.NodeAsync.Invariant.{
  keeps_set_callback_async, keeps_update_async, keeps_get_all_async, keeps_get_async,
  keeps_wait_async, keeps_close_async, keeps_connect_async,
}

module _ (client : Client) (finds : Finder) (class : NodeClass) (overrides : Overrides)
    (code : UserCode) where
  -- Steps from one state to another, `meanwhile` what happens whenever the coroutine awaits.
  pub data Lives : World → World → Type 0 where
    rests : (w : World) → Lives w w
    goes_on : (w w' w'' : World) → Lives w w' → Lives w' w'' → Lives w w''
    -- A step of a node: an event arrives, or a method that does not await is called.
    inherits : (w w' : World) → Step client finds class overrides code w w' → Lives w w'
    sets_callback :
        (w : World) (name : Text) (cb : Option MaybeAsyncCallback)
        → Lives w (set_callback_async name cb w).1
    updates :
        (meanwhile : World → World)
        → ((v : World) → Lives v (meanwhile v))
        → (w : World) (wait_ms : ℕ) → Lives w (update_async client meanwhile wait_ms w).1
    gets_all :
        (meanwhile : World → World)
        → ((v : World) → Lives v (meanwhile v))
        → (w : World) (wait_ms : ℕ) (mode : Option Bool)
        → Lives w (get_all_async client meanwhile wait_ms mode w).1
    gets_one :
        (meanwhile : World → World)
        → ((v : World) → Lives v (meanwhile v))
        → (w : World) (name : Text) (wait_ms : ℕ) (mode : Option Bool)
        → Lives w (get_async client meanwhile name wait_ms mode w).1
    waits :
        (meanwhile : World → World)
        → ((v : World) → Lives v (meanwhile v))
        → (w : World) (name : Text) (wait_ms : ℕ)
        → Lives w (wait_async client meanwhile name wait_ms w).1
    closes :
        (meanwhile : World → World)
        → ((v : World) → Lives v (meanwhile v))
        → (w : World) (with_reset : Bool)
        → Lives w (close_async client meanwhile overrides with_reset w).1
    connects :
        (meanwhile : World → World)
        → ((v : World) → Lives v (meanwhile v))
        → (w : World) (given : Option ℕ) (target : Text) (wait_ms max_retries : ℕ) (node_id : ℤ)
          (mirroring : Bool)
        → Lives w
            (connect_async client meanwhile finds class overrides given target wait_ms max_retries
              node_id mirroring w).1

  module _ (gentle : KeepsCaches code) (k : KeepOverrides overrides) where
    Lives-IsWellFormed : (w w' : World) → Lives w w' → IsWellFormed w → IsWellFormed w'
    Lives-IsWellFormed w w' (rests v) wf = wf
    Lives-IsWellFormed w w' (goes_on v v' v'' r s) wf =
        Lives-IsWellFormed v' v'' s (Lives-IsWellFormed v v' r wf)
    Lives-IsWellFormed w w' (inherits v v' s) wf =
        Step-IsWellFormed client finds class overrides code gentle k v v' s wf
    Lives-IsWellFormed w w' (sets_callback v name cb) wf =
        ((keeps_set_callback_async name cb).run v wf tt).0
    Lives-IsWellFormed w w' (updates meanwhile safe v wait_ms) wf =
        ((keeps_update_async client meanwhile (λ u. Lives-IsWellFormed u (meanwhile u) (safe u))
            wait_ms).run
          v wf tt).0
    Lives-IsWellFormed w w' (gets_all meanwhile safe v wait_ms mode) wf =
        ((keeps_get_all_async client meanwhile (λ u. Lives-IsWellFormed u (meanwhile u) (safe u))
            wait_ms mode).run
          v wf tt).0
    Lives-IsWellFormed w w' (gets_one meanwhile safe v name wait_ms mode) wf =
        ((keeps_get_async client meanwhile (λ u. Lives-IsWellFormed u (meanwhile u) (safe u)) name
            wait_ms mode).run
          v wf tt).0
    Lives-IsWellFormed w w' (waits meanwhile safe v name wait_ms) wf =
        ((keeps_wait_async client meanwhile (λ u. Lives-IsWellFormed u (meanwhile u) (safe u)) name
            wait_ms).run
          v wf tt).0
    Lives-IsWellFormed w w' (closes meanwhile safe v with_reset) wf =
        ((keeps_close_async client meanwhile (λ u. Lives-IsWellFormed u (meanwhile u) (safe u))
            overrides with_reset k).run
          v wf tt).0
    Lives-IsWellFormed w w'
          (connects meanwhile safe v given target wait_ms max_retries node_id mirroring) wf =
        ((keeps_connect_async client meanwhile (λ u. Lives-IsWellFormed u (meanwhile u) (safe u))
            finds class overrides k given target wait_ms max_retries node_id mirroring).run
          v wf tt).0
