-- ===== src/Agent/Backend/Requests.antt =====
-- How often a request is sent, and what it gives.
use guardtime.Base.{ℕ, ◌+◌, ◌≡◌, String}
use guardtime.Agent.Host.{Host}
use guardtime.Agent.Backend.{Http, Client, Options, Reply, Request, request_of}

-- A state that counts the requests: each one adds one, and a pause adds none.
pub record Counted {H : Host} (N : Http H) : Type 0 where
  pub sent : H.State → ℕ
  pub sends : (r : Request) (s : H.State) → sent (N.fetch r s).1 ≡ sent s + 1
  pub waits : (ms : ℕ) (s : H.State) → sent (N.wait ms s) ≡ sent s

module _ {H : Host} (N : Http H) (C : Counted N) where
  -- The reply to a request that is sent in a state.
  abbrev pub reply : Client → (path : String) → Options → H.State → Reply
  unfolding request_of
  reply this path options s = (N.fetch (request_of N this path options (H.now s)) s).0

  -- The state in which the second request is sent.
  abbrev pub second : Client → (path : String) → Options → H.State → H.State
  unfolding request_of
  second this path options s = N.wait 300 (N.fetch (request_of N this path options (H.now s)) s).1
