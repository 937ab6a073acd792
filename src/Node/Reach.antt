-- ===== src/Node/Reach.antt =====
-- The states that a node can reach: its methods and the arriving events as steps of a relation, and
-- what holds in all of them.
use pyaseba.Base.{ℕ, Bool, Option, List, Text, ℤ, Dict}
use pyaseba.Utils.{Finder}
use pyaseba.Description.{Event}
use pyaseba.Base.Heap.{Heap}
use pyaseba.Mirroring.{MirroringConfig}
use pyaseba.Client.{Client, History}
use pyaseba.Node.State.{World, Action, Callback, NodeClass}
use pyaseba.Node.Cache.{Value, set, get, sync}
use pyaseba.Node.Update.{update, get_all}
use pyaseba.Node.Events.{UserCode, event_cb, call, emit, wait, set_callback}
use pyaseba.Node.Connect.{
  Overrides, run, pause, reset, close, load_script, start_mirroring, connect,
}
use pyaseba.Node.Construct.{new_node}
use pyaseba.Node.Invariant.{IsWellFormed}
use pyaseba.Node.Keeps.{Keeps, Any, AnyValue}
use pyaseba.Node.Preserve.{keeps_set, keeps_get, keeps_sync}
use pyaseba.Node.Refresh.{keeps_update, keeps_get_all}
use pyaseba.Node.Lives.{
  KeepsCaches, keeps_event_cb, keeps_run, keeps_pause, keeps_reset, keeps_emit, keeps_call,
}
use pyaseba.Node.Link.{
  KeepOverrides, keeps_set_callback, keeps_wait, keeps_close, keeps_load_script,
}
use pyaseba.Node.Arrive.{keeps_start_mirroring, keeps_connect}

module _ (client : Client) (finds : Finder) (class : NodeClass) (overrides : Overrides)
    (code : UserCode) where
  -- One step: an event arrives, or a method is called; it may return or raise.
  pub data Step (w : World) : World → Type 0 where
    arrives : (event : Event) → Step w (event_cb code sync event w).1
    sets : (name : Text) (value : Value) (mode : Option Bool) → Step w (set name value mode w).1
    gets_one :
        (name : Text) (wait_ms : ℕ) (mode : Option Bool) → Step w (get client name wait_ms mode w).1
    gets_all :
        (wait_ms : ℕ) (mode : Option Bool) (changed : Bool)
        → Step w (get_all client wait_ms mode changed w).1
    syncs : Step w (sync w).1
    updates : (wait_ms : ℕ) (changed : Bool) → Step w (update client wait_ms changed w).1
    emits : (name : Text) (args : List ℤ) → Step w (emit name args w).1
    calls : (name : Text) (args : List ℤ) → Step w (call name args w).1
    waits : (name : Text) (wait_ms : ℕ) → Step w (wait client name wait_ms w).1
    sets_callback : (name : Text) (cb : Option Callback) → Step w (set_callback name cb w).1
    runs : Step w (run w).1
    pauses : Step w (pause w).1
    stops : Step w (overrides.stop w).1
    resets : Step w (reset w).1
    loads :
        (script : Text) (events constants : Dict Text ℤ)
        → Step w (load_script client finds class script events constants w).1
    mirrors : Step w (start_mirroring client finds class w).1
    connects :
        (given : Option ℕ) (target : Text) (params : Dict Text Text) (wait_ms max_retries : ℕ)
        (node_id : ℤ) (mirroring : Bool)
        → Step w
            (connect client finds class overrides given target params wait_ms max_retries node_id
              mirroring w).1
    closes : (with_reset : Bool) → Step w (close overrides with_reset w).1

  -- Any number of steps.
  pub data Reaches (w : World) : World → Type 0 where
    starts : Reaches w w
    goes_on : (w' w'' : World) → Reaches w w' → Step w' w'' → Reaches w w''

  module _ (gentle : KeepsCaches code) (k : KeepOverrides overrides) where
    after_run :
        {A : Type 0} (m : Action A) (w : World)
        → Keeps Any m AnyValue
        → IsWellFormed w
        → IsWellFormed (m w).1
    after_run m w km wf = (km.run w wf tt).0

    pub Step-IsWellFormed : (w w' : World) → Step w w' → IsWellFormed w → IsWellFormed w'
    Step-IsWellFormed w w' (arrives event) wf =
        after_run (event_cb code sync event) w (keeps_event_cb code gentle event) wf
    Step-IsWellFormed w w' (sets name value mode) wf =
        after_run (set name value mode) w (keeps_set name value mode) wf
    Step-IsWellFormed w w' (gets_one name wait_ms mode) wf =
        after_run (get client name wait_ms mode) w (keeps_get client name wait_ms mode) wf
    Step-IsWellFormed w w' (gets_all wait_ms mode changed) wf =
        after_run (get_all client wait_ms mode changed) w
          (keeps_get_all client wait_ms mode changed) wf
    Step-IsWellFormed w w' syncs wf = after_run sync w keeps_sync wf
    Step-IsWellFormed w w' (updates wait_ms changed) wf =
        after_run (update client wait_ms changed) w (keeps_update client wait_ms changed) wf
    Step-IsWellFormed w w' (emits name args) wf =
        after_run (emit name args) w (keeps_emit name args) wf
    Step-IsWellFormed w w' (calls name args) wf =
        after_run (call name args) w (keeps_call name args) wf
    Step-IsWellFormed w w' (waits name wait_ms) wf =
        after_run (wait client name wait_ms) w (keeps_wait client name wait_ms) wf
    Step-IsWellFormed w w' (sets_callback name cb) wf =
        after_run (set_callback name cb) w (keeps_set_callback name cb) wf
    Step-IsWellFormed w w' runs wf = after_run run w keeps_run wf
    Step-IsWellFormed w w' pauses wf = after_run pause w keeps_pause wf
    Step-IsWellFormed w w' stops wf = after_run overrides.stop w k.stop wf
    Step-IsWellFormed w w' resets wf = after_run reset w keeps_reset wf
    Step-IsWellFormed w w' (loads script events constants) wf =
        after_run (load_script client finds class script events constants) w
          (keeps_load_script client finds class script events constants) wf
    Step-IsWellFormed w w' mirrors wf =
        after_run (start_mirroring client finds class) w (keeps_start_mirroring client finds class)
          wf
    Step-IsWellFormed w w' (connects given target params wait_ms max_retries node_id mirroring) wf =
        after_run
          (connect client finds class overrides given target params wait_ms max_retries node_id
            mirroring)
          w
          (keeps_connect client finds class overrides k given target params wait_ms max_retries
            node_id mirroring)
          wf
    Step-IsWellFormed w w' (closes with_reset) wf =
        after_run (close overrides with_reset) w (keeps_close overrides with_reset k) wf

    -- With code and overridden methods that keep the caches well-formed, all steps do: so a state
    -- that can be reached from a new node has the caches that `sync` relies on.
    Reaches-IsWellFormed : (w w' : World) → Reaches w w' → IsWellFormed w → IsWellFormed w'
    Reaches-IsWellFormed w w' starts wf = wf
    Reaches-IsWellFormed w last (goes_on w' w'' r s) wf =
        Step-IsWellFormed w' w'' s (Reaches-IsWellFormed w w' r wf)

    pub new_node-IsWellFormed :
        (config : MirroringConfig) (functions : List Text) (cached : Bool) (heap : Heap ℤ)
        (history : History)
        → IsWellFormed (new_node config functions cached heap history)
    unfolding new_node
    new_node-IsWellFormed config functions cached heap history = record {
      of_values = tt;
      of_next = tt;
      of_prev = tt;
    }
