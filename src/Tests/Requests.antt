-- ===== src/Tests/Requests.antt =====
-- Signed requests of infrastructure/nodes/auth.py.
use project_vpn.Common.{
  ℕ, ◌+◌, ◌≡◌, ◌&&◌, refl, true, false, none, some, [], ◌∷◌, arith, leb, if◌then◌else◌, codes,
  text_eq, seconds,
}
use project_vpn.Errors.{ok, is_ok}
use project_vpn.Agent.Nonces.{NonceStore, remember, purge, IsRemembered}
use project_vpn.Common.Table.{find}
use project_vpn.Agent.Auth.{
  Crypto, Call, Headers, VerifiedNodeRequest, aware, is_near, verify_signed_request,
  build_signed_headers, nonce_key,
}
use project_vpn.Agent.Auth.Accept.{Authentic, accepted-Authentic}
use project_vpn.Agent.Auth.Served.{Traffic, serve}
use project_vpn.Agent.Auth.Replay.{build-verify, verify_twice, replay_accepted, replay_refused}

-- Digests of two letters, and a reader of one time.
abbrev lib : Crypto
lib = record {
  sha256_hex = λ body. codes "e3";
  hmac_hex = λ secret message. if text_eq secret (codes "shared") then codes "5f" else codes "0b";
  fromisoformat = λ text.
      if text_eq text (codes "2024-01-01T00:10:00+00:00") then some (aware (seconds 600)) else none;
}

abbrev call : Call
call = record {
  method = codes "post";
  path = codes "/v1/provision";
  body = [];
  node_id = codes "node-1";
  key_id = codes "key-1";
  secret = codes "shared";
}

abbrev sent : Headers
sent = build_signed_headers lib call (codes "op-1") (codes "2024-01-01T00:10:00Z") (codes "n1")

-- The store that remembers for so many seconds.
abbrev empty_store : ℕ → NonceStore
empty_store ttl = record { ttl = ttl; entries = [] }

abbrev verified : VerifiedNodeRequest
verified = record {
  node_id = codes "node-1";
  key_id = codes "key-1";
  timestamp = seconds 600;
  nonce = codes "n1";
  idempotency_key = codes "op-1";
}

fresh : (ttl : ℕ) → (remember (empty_store ttl) (nonce_key verified) (seconds 590)).1 ≡ true
unfolding remember purge find
fresh ttl = refl

accepted :
    (ttl : ℕ)
    → (verify_signed_request lib call 300 (seconds 590) sent (empty_store ttl)).1 ≡ ok verified
accepted ttl =
    build-verify lib call 300 (seconds 590) (seconds 600) (codes "op-1")
      (codes "2024-01-01T00:10:00Z") (codes "n1") (empty_store ttl) refl refl refl
      (λ s m. ground arith) (λ s m. ground arith) refl refl (fresh ttl)

build-verify_example :
    (verify_signed_request lib call 300 (seconds 590) sent (empty_store 300)).1 ≡ ok verified
build-verify_example =
    build-verify lib call 300 (seconds 590) (seconds 600) (codes "op-1")
      (codes "2024-01-01T00:10:00Z") (codes "n1") (empty_store 300) refl refl refl
      (λ s m. ground arith) (λ s m. ground arith) refl refl (fresh 300)

accepted-Authentic_example :
    Authentic lib call 300 (seconds 590) sent verified
    × IsRemembered
        (empty_store 300)
        (verify_signed_request lib call 300 (seconds 590) sent (empty_store 300)).0
        (nonce_key verified)
        (seconds 590)
accepted-Authentic_example =
    accepted-Authentic lib call 300 (seconds 590) sent (empty_store 300) verified (accepted 300)

verify_twice_example :
    is_ok
      (verify_signed_request lib call 300
        (seconds 700)
        sent
        (verify_signed_request lib call 300 (seconds 590) sent (empty_store 300)).0).1
    ≡ (leb (seconds 590 + seconds 300) (seconds 700) && is_near 300 (seconds 700) (seconds 600))
verify_twice_example =
    verify_twice lib call 300 (seconds 590) (seconds 700) sent (empty_store 300) verified
      (accepted 300)

replay_accepted_example :
    is_ok
      (verify_signed_request lib call 300
        (seconds 590 + seconds 300)
        sent
        (verify_signed_request lib call 300 (seconds 590) sent (empty_store 300)).0).1
    ≡ true
replay_accepted_example =
    replay_accepted lib call 300 (seconds 590) sent (empty_store 300) verified refl (omega arith)
      (accepted 300)

-- Another request of the same client.
abbrev other : Headers
other = build_signed_headers lib call (codes "op-2") (codes "2024-01-01T00:10:00Z") (codes "n2")

abbrev traffic : Traffic
traffic = (call, seconds 650, other) ∷ (call, seconds 660, sent) ∷ (call, seconds 700, other) ∷ []

replay_refused_example :
    let first = verify_signed_request lib call 300 (seconds 590) sent (empty_store 601) in
    is_ok (verify_signed_request lib call 300 (seconds 880) sent (serve lib 300 first.0 traffic)).1
    ≡ false
replay_refused_example =
    replay_refused lib call 300 (seconds 590) (seconds 880) sent (empty_store 601) verified traffic
      (omega arith) (accepted 601) (omega arith, (omega arith, (omega arith, tt)))
