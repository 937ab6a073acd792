-- ===== src/NodeAsync.antt =====
-- pyaseba/client/node/node_async.py: the coroutines of `NodeAsync`. Other coroutines of the event
-- loop and arriving events may change the node whenever one awaits.
pub mod Invariant
pub mod Closing
pub mod Reach
mod Tests
use pyaseba.Base.{
  ℕ, Bool, true, false, not, ◌||◌, ◌&&◌, Option, none, some, List, [], ◌∷◌, Text, text_eq, is_some,
  contains, if◌then◌else◌, Dict, ℤ, pos, negsuc, ◌=ℕ◌,
}
use pyaseba.Base.Int.{leb_ℤ}
use pyaseba.Base.Dicts.{lookup, has_key}
use pyaseba.Base.Heap.{Ref}
use pyaseba.Base.Results.{key_error, attribute_error}
use pyaseba.Utils.{Finder, int16}
use pyaseba.Mirroring.{given}
use pyaseba.Client.{Call, Client, History}
use pyaseba.Node.State.{
  World, Action, Callback, NodeClass, pure, gets, or_raise, modify, skip, the_client, perform, ask,
  new_list, words_at, ◌>>=◌, ◌>>◌,
}
use pyaseba.Node.Cache.{Got, got, put_value}
use pyaseba.Node.Update.{new_lists}
use pyaseba.Node.Events.{or_name, event_name, user_events_of, set_callback}
use pyaseba.Node.Connect.{Overrides, when, reset, init_variables, start_mirroring}

-- The client whose attribute is read: `None` has none of them.
unfoldable pub live_client : Action ℕ
live_client w = or_raise w.client attribute_error w

-- A callback, which may be a coroutine.
pub data MaybeAsyncCallback : Type 0 where
  function coroutine : ℕ → MaybeAsyncCallback

-- `wrap_callback`
abbrev pub wrap_callback : MaybeAsyncCallback → Callback
wrap_callback (function f) = Callback.user f
wrap_callback (coroutine f) = Callback.scheduled f

-- `NodeAsync.set_callback`
unfoldable pub set_callback_async : Text → Option MaybeAsyncCallback → Action (Unit {0})
unfolding set_callback
set_callback_async name none = set_callback name none
set_callback_async name (some cb) = set_callback name (some (wrap_callback cb))

module _ (client : Client) (meanwhile : World → World) where
  -- A call of a coroutine of the client and, after all that happens meanwhile, its answer.
  unfoldable pub await_call {ℓ} : {A : Type ℓ} → (History → A) → ℕ → Call → Action A
  unfolding perform
  await_call answer c call = do perform c call; modify meanwhile; gets (λ w. answer w.calls)

  -- `if vs: self._variable_values = vs`
  unfoldable pub store_answer : Dict Text (List ℤ) → Action (Unit {0})
  store_answer [] = skip
  store_answer (v ∷ vs) = do
    d ← new_lists client (v ∷ vs)
    modify (λ w. record w { variable_values = d })

  -- `NodeAsync.update`
  unfoldable pub update_async : ℕ → Action (Unit {0})
  unfolding the_client await_call store_answer
  update_async wait_ms = do
    c ← the_client
    node_id ← gets (λ w. w.node_id)
    vs ← await_call client.get_all_variables c (Call.get_all_variables node_id wait_ms [])
    store_answer vs

  -- `NodeAsync.get_all`
  unfoldable pub get_all_async : ℕ → Option Bool → Action (Dict Text Ref)
  unfolding the_client
  get_all_async wait_ms cached = do
    the_client
    default ← gets (λ w. w.cached)
    if given cached default then skip else update_async wait_ms
    gets (λ w. w.variable_values)

  -- The query of `get`.
  unfoldable pub fetch_async : ℕ → Text → ℕ → Action (Unit {0})
  unfolding await_call new_list put_value
  fetch_async c name wait_ms = do
    node_id ← gets (λ w. w.node_id)
    v ← await_call client.get_variable c (Call.get_variable node_id name wait_ms [])
    r ← new_list v
    put_value name r

  -- `NodeAsync.get`
  unfoldable pub get_async : Text → ℕ → Option Bool → Action Got
  unfolding the_client fetch_async lookup text_eq words_at
  get_async name wait_ms cached = do
    c ← the_client
    default ← gets (λ w. w.cached)
    known ← gets (λ w. has_key name w.variable_values)
    if not (given cached default) || not known then fetch_async c name wait_ms else skip
    found ← gets (λ w. lookup name w.variable_values)
    r ← or_raise found key_error
    words ← words_at r
    pure (got r words)

  -- `NodeAsync.wait`
  unfoldable pub wait_async : Text → ℕ → Action Bool
  unfolding the_client await_call
  wait_async name wait_ms = do
    c ← the_client
    event ← gets (λ w. event_name w.mirroring name)
    events ← gets (λ w. user_events_of w.description)
    node_id ← gets (λ w. w.node_id)
    if contains events event
        then (do
          e ← await_call client.get_event c (Call.get_event node_id event [] wait_ms)
          pure (is_some e))
        else pure false

  -- `if not self._shared_client and self._client`
  unfoldable pub drop_own : Option ℕ → Bool → Action (Unit {0})
  unfolding perform
  drop_own none shared = skip
  drop_own (some c) true = skip
  drop_own (some c) false = do perform c Call.close; modify (λ w. record w { client = none })

  -- `NodeAsync.close`; the sleep is no call on a client.
  unfoldable pub close_async : Overrides → Bool → Action (Unit {0})
  unfolding reset drop_own perform
  close_async overrides with_reset = do
    if with_reset then reset else overrides.stop
    perform 0 (Call.sleep 100)
    modify meanwhile
    own ← gets (λ w. w.client)
    shared ← gets (λ w. w.shared_client)
    drop_own own shared
    modify (λ w. record w { node_id = negsuc 0 })

  -- `client or ClientAsync()`
  unfoldable pub take_client : Option ℕ → Action ℕ
  unfolding ask
  take_client (some c) = pure c
  take_client none = ask client.new_client 0 Call.new_client

  -- The end of `connect` without a node.
  unfoldable pub give_up_async : Action Bool
  unfolding live_client ask perform
  give_up_async = do
    shared ← gets (λ w. w.shared_client)
    if shared then pure false else (do
      c ← live_client
      connected ← ask client.is_connected c Call.is_connected
      when (not connected) (do perform c Call.close; modify (λ w. record w { client = none }))
      pure false)

  module _ (finds : Finder) (class : NodeClass) (overrides : Overrides) where
    -- What `connect` does with the node that it has found.
    unfoldable pub adopt_async : Text → ℕ → Bool → ℤ × ℕ → Action Bool
    unfolding live_client ask int16
    adopt_async target wait_ms mirroring (node_id, conn) = do
      modify (λ w. record w {
        connection = conn;
        target = target;
        node_id = node_id;
        node_id_int16 = int16 node_id;
      })
      c ← live_client
      desc ← ask client.get_description c (Call.get_description node_id (conn ∷ []))
      modify (λ w. record w { description = desc })
      when mirroring (start_mirroring client finds class)
      init_variables client finds class
      update_async wait_ms
      overrides.setup
      pure true

    -- The wait for a node, once the client is connected.
    unfoldable pub find_node_async : Text → ℕ → ℤ → Bool → Action Bool
    unfolding live_client perform await_call
    find_node_async target wait_ms node_id mirroring = do
      when (leb_ℤ (pos 0) node_id) (do c ← live_client; perform c (Call.cmd_reset node_id []))
      c ← live_client
      found ← await_call client.wait_node c (Call.wait_node wait_ms node_id [])
      if found.1 =ℕ 0 then give_up_async else adopt_async target wait_ms mirroring found

    -- `self._client.is_connected or await self._client.connect(...)`
    unfoldable pub connect_unless_async : ℕ → Text → ℕ → ℕ → Action Bool
    unfolding ask await_call
    connect_unless_async c target wait_ms max_retries = do
      connected ← ask client.is_connected c Call.is_connected
      if connected then pure true else (do
        conn ← await_call client.connect c (Call.connect target wait_ms max_retries)
        pure (not (conn =ℕ 0)))

    -- `NodeAsync.connect`
    unfoldable pub connect_async : Option ℕ → Text → ℕ → ℕ → ℤ → Bool → Action Bool
    unfolding take_client
    connect_async given target wait_ms max_retries node_id mirroring = do
      modify (λ w. record w { shared_client = if is_some given then true else w.shared_client })
      c ← take_client given
      modify (λ w. record w { client = some c })
      last ← gets (λ w. w.target)
      connected ← connect_unless_async c (or_name target last) wait_ms max_retries
      if connected then find_node_async target wait_ms node_id mirroring else give_up_async
