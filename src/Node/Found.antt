-- ===== src/Node/Found.antt =====
-- The conversation with the client in which `Node.connect` finds a node, and what it comes to.
use pyaseba.Base.{
  ℕ, zero, suc, ◌≡◌, Bool, true, false, Option, none, some, [], List, ◌∷◌, ◌++◌, not, Text, ℤ, pos,
  if◌then◌else◌, ◌=ℕ◌,
}
use pyaseba.Base.Int.{leb_ℤ}
use pyaseba.Base.Results.{Result, ok, err}
use pyaseba.Utils.{int16}
use pyaseba.Client.{Call, Client, History}
use pyaseba.Node.State.{World, Action}
use pyaseba.Node.Connect.{compatible_connections}
use pyaseba.Node.Linked.{link}

-- The state of a node that has its client.
abbrev pub equipped : World → Bool → Option ℕ → History → World
equipped w shared client calls = record w { shared_client = shared; client = client; calls = calls }

-- What the conversation with the client has come to: the client, the node that was found with its
-- connection, if any, and all calls up to that.
pub record Found : Type 0 where
  pub client : ℕ
  pub node : Option (ℤ × ℕ)
  pub calls : History

-- A connection of 0 means that no node was found.
abbrev pub some_node : ℤ × ℕ → Option (ℤ × ℕ)
some_node (id, zero) = none
some_node (id, suc conn) = some (id, suc conn)

module _ (client : Client) where
  -- The node's own client, the given one, or a new one.
  abbrev pub client_of : Option ℕ → Option ℕ → History → ℕ × History
  client_of (some own) given calls = (own, calls)
  client_of none (some c) calls = (c, calls ++ (c, Call.add_event_callback) ∷ [])
  client_of none none calls =
      let asked = calls ++ (0, Call.new_client) ∷ [] in
      let c = client.new_client asked in (c, asked ++ (c, Call.add_event_callback) ∷ [])

  -- Whether the target is connected: by a known connection, or else by a new one.
  abbrev pub joined_by : ℕ → List ℕ → Text → ℕ → ℕ → History → Bool × History
  joined_by c (conn ∷ connections) target wait_ms max_retries calls = (true, calls)
  joined_by c [] target wait_ms max_retries calls =
      let asked = calls ++ (c, Call.connect target wait_ms max_retries) ∷ [] in
      (not (client.connect asked =ℕ 0), asked)

  -- The node that `wait_node` answers, and the calls up to that; it is asked behind the reset of a
  -- node that is named, and not at all if the target is not connected.
  abbrev pub waited : ℕ → ℕ → ℤ → List ℕ → Bool → History → Option (ℤ × ℕ) × History
  waited c wait_ms node_id connections false calls = (none, calls)
  waited c wait_ms node_id connections true calls =
      let before =
        if leb_ℤ (pos 0) node_id then calls ++ (c, Call.cmd_reset node_id []) ∷ [] else calls in
      let asked = before ++ (c, Call.wait_node wait_ms node_id connections) ∷ [] in
      (some_node (client.wait_node asked), asked)

  abbrev pub found_with : ℕ × History → Text → ℕ → ℕ → ℤ → Found
  found_with start target wait_ms max_retries node_id =
      let c = start.0 in
      let asked = start.1 ++ (c, Call.connections) ∷ [] in
      let connections = compatible_connections target (client.connections asked) in
      let joined = joined_by c connections target wait_ms max_retries asked in
      let answer = waited c wait_ms node_id connections joined.0 joined.1 in
      record { client = c; node = answer.0; calls = answer.1 }

-- What `connect` has done, by the node that was found and by its result. Without a node it returns
-- false, and only the client may have changed, which is closed and dropped unless it is shared.
-- With one it returns true or raises; if it returns, it has run `setup` in a state that is linked
-- to this node.
abbrev pub Outcome :
    Action (Unit {0})
    → World
    → Text
    → Bool
    → ℕ
    → History
    → Option (ℤ × ℕ)
    → Result Bool × World
    → Type 0
Outcome setup w target shared c calls none (r, w') =
    (r ≡ ok false)
    × (w'
        ≡ equipped w shared (if shared then some c else none)
            (calls ++ (if shared then [] else (c, Call.close) ∷ [])))
Outcome setup w target shared c calls (some (id, conn)) (ok true, w') =
    (w2 : World) × (link w2 ≡ (conn, target, id, int16 id, some c, shared))
    × (setup w2 ≡ (ok tt, w'))
Outcome setup w target shared c calls (some (id, conn)) (ok false, w') = ⊥
Outcome setup w target shared c calls (some (id, conn)) (err e, w') = Unit
