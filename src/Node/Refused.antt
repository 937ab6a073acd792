-- ===== src/Node/Refused.antt =====
-- A failed `Node.connect`.
use pyaseba.Base.{
  ℕ, ◌≡◌, sym, ◌∙◌, ap, Bool, true, false, Option, none, some, [], ◌∷◌, ◌++◌, Text, ℤ, Dict,
  if◌then◌else◌,
}
use pyaseba.Base.Results.{Result, ok, err}
use pyaseba.Utils.{Finder}
use pyaseba.Client.{Call, Client, History}
use pyaseba.Node.State.{World, NodeClass}
use pyaseba.Node.Events.{or_name}
use pyaseba.Node.Connect.{Overrides, connect}
use pyaseba.Node.Found.{equipped, Found, client_of, found_with, Outcome}
use pyaseba.Node.Connected.{connect-Outcome}

module _ (client : Client) (finds : Finder) (class : NodeClass) (overrides : Overrides) where
  -- A node without a client that cannot be connected keeps its state but for the calls, and has no
  -- client afterwards.
  pub connect-refused :
      (target : Text) (params : Dict Text Text) (wait_ms max_retries : ℕ) (node_id : ℤ)
      (mirroring : Bool) (w : World)
      → w.client ≡ none
      → w.shared_client ≡ false
      → (connect client finds class overrides none target params wait_ms max_retries node_id
          mirroring w).0
        ≡ ok false
      → (calls : History) × (connect client finds class overrides none target params wait_ms
            max_retries node_id mirroring w
          ≡ (ok false, record w { calls = calls }))
  connect-refused target params wait_ms max_retries node_id mirroring w no_client unshared refused =
      at found.node
        (connect client finds class overrides none target params wait_ms max_retries node_id
          mirroring w)
        (connect-Outcome client finds class overrides none target params wait_ms max_retries node_id
          mirroring w)
        refused
    where
      full : Text
      full = client.complete_target (or_name target class.default_target) params

      found : Found
      found =
          found_with client (client_of client w.client none w.calls) full wait_ms max_retries
            node_id

      left :
          (calls : History)
          → equipped w w.shared_client (if w.shared_client then some found.client else none) calls
            ≡ record w { calls = calls }
      left calls =
          ap (λ o. equipped w w.shared_client o calls)
            (ap (λ b. if b then some found.client else none) unshared ∙ sym no_client)

      at :
          (node : Option (ℤ × ℕ)) (p : Result Bool × World)
          → Outcome overrides.setup w full w.shared_client found.client found.calls node p
          → p.0 ≡ ok false
          → (calls : History) × (p ≡ (ok false, record w { calls = calls }))
      at none (r, w') (e, same) e' = (
        found.calls ++ (if w.shared_client then [] else (found.client, Call.close) ∷ []),
        ap (λ r'. (r', w')) e ∙ ap (λ w''. (ok false, w'')) (same ∙ left _),
      )
      at (some node) (ok true, w') o e = cc
      at (some node) (ok false, w') o e = elim o [ ]
      at (some node) (err _, w') o e = cc
