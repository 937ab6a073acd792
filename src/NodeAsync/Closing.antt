-- ===== src/NodeAsync/Closing.antt =====
-- What `NodeAsync.close` leaves behind, and `get` where it does not await.
use pyaseba.Base.{
  ℕ, ◌≡◌, refl, ◌∙◌, Bool, true, false, Option, some, none, [], Text, text_eq, negsuc, ◌∷◌, ◌++◌,
  arith, if◌then◌else◌,
}
use mathlib.Core.List.{append-nil}
use pyaseba.Base.Dicts.{has_key}
use pyaseba.Base.Results.{ok}
use pyaseba.Mirroring.{given}
use pyaseba.Client.{Call, Client, History}
use pyaseba.Node.State.{World, the_client, modify, perform, words_at, bind-ok, ◌>>◌}
use pyaseba.Node.Cache.{get}
use pyaseba.Node.Connect.{Overrides, reset}
use pyaseba.NodeAsync.{close_async, drop_own, get_async}

module _ (client : Client) (meanwhile : World → World) where
  -- The calls that close the client of a node, unless it is shared.
  abbrev pub closing : Option ℕ → Bool → History
  closing own true = []
  closing none false = []
  closing (some c) false = (c, Call.close) ∷ []

  -- A node that has closed and dropped its client, unless it is shared.
  abbrev dropped : Option ℕ → Bool → World → World
  dropped own shared w = record w {
    client = if shared then own else none;
    calls = w.calls ++ closing own shared;
  }

  drop_own_lem :
      (own : Option ℕ) (shared : Bool) (w : World)
      → w.client ≡ own
      → drop_own client meanwhile own shared w ≡ (ok tt, dropped own shared w)
  unfolding drop_own perform
  drop_own_lem none true w h = rw (append-nil w.calls, ← h) refl
  drop_own_lem none false w h = rw (append-nil w.calls, ← h) refl
  drop_own_lem (some c) true w h = rw (append-nil w.calls, ← h) refl
  drop_own_lem (some c) false w h = refl

  -- A close whose `stop`, or `reset`, returns: whatever happens while it sleeps, it returns. A node
  -- that shares its client then keeps it, and closes nothing; any other node closes the client that
  -- it has, if any, and has none. The identifier of the node is reset, and nothing else changes.
  pub close_async_lem :
      (overrides : Overrides) (with_reset : Bool) (w w1 : World)
      → (if with_reset then reset else overrides.stop) w ≡ (ok tt, w1)
      → let awake = meanwhile (record w1 { calls = w1.calls ++ (0, Call.sleep 100) ∷ [] }) in
        let own = awake.client in
        let shared = awake.shared_client in
        close_async client meanwhile overrides with_reset w ≡ (
          ok tt,
          record awake {
            client = if shared then own else none;
            calls = awake.calls ++ closing own shared;
            node_id = negsuc 0;
          },
        )
  unfolding close_async perform
  close_async_lem overrides with_reset w w1 h =
      let asleep : World = record w1 { calls = w1.calls ++ (0, Call.sleep 100) ∷ [] } in
      let v = meanwhile asleep in
      let drop_and_forget = λ (u : World).
        (drop_own client meanwhile u.client u.shared_client
            >> modify (λ u'. record u' { node_id = negsuc 0 }))
          u in
      bind-ok (if with_reset then reset else overrides.stop)
        (λ _. perform 0 (Call.sleep 100) >> modify meanwhile >> drop_and_forget) w tt w1 h
      ∙ bind-ok (drop_own client meanwhile v.client v.shared_client)
          (λ _. modify (λ u. record u { node_id = negsuc 0 })) v tt
          (dropped v.client v.shared_client v) (drop_own_lem v.client v.shared_client v refl)

  -- A `get` that takes a known value from the cache does not await: it is the `get` of a node, in
  -- its result and in the state behind it.
  get_async-get :
      (name : Text) (wait_ms : ℕ) (mode : Option Bool) (w : World)
      → given mode w.cached ≡ true
      → has_key name w.variable_values ≡ true
      → get_async client meanwhile name wait_ms mode w ≡ get client name wait_ms mode w
  unfolding get_async get the_client words_at
  get_async-get name wait_ms mode w h k = ground arith
