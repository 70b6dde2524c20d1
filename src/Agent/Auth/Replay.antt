-- ===== src/Agent/Auth/Replay.antt =====
-- What the check of infrastructure/nodes/auth.py does with a request that is sent again, and with
-- one that the client's own function has signed.
use project_vpn.Common.{
  ℕ, ◌++◌, codes, ◌+◌, ◌≤◌, ◌<◌, ◌≡◌, refl, sym, ap, ◌∙◌, true, false, ◌&&◌, some, Bool-cases, inl,
  inr, arith, leb, Text, lower, text_eq_refl, is_blank, Instant, seconds,
}
use project_vpn.Errors.{ok, is_ok, Result-cases}
use project_vpn.Agent.Nonces.{NonceStore, remember, remember_twice}
use project_vpn.Agent.Auth.Accept.{accepted_steps, accepted-Authentic}
use project_vpn.Agent.Auth.Served.{
  Traffic, serve, Until, recheck, serve_keeps, verify_held, verify_late,
}
use project_vpn.Agent.Auth.{
  Crypto, Call, node_id_header, key_id_header, timestamp_header, nonce_header, idempotency_header,
  signature_header, Headers, VerifiedNodeRequest, aware, header, is_near, signature_of,
  check_request, check_signature, compare_digest, is_ascii, timestamp_of, verify_signed_request,
  remember_request, answer, nonce_key, replace_z, build_signed_headers, canonical_string,
  body_sha256, compute_signature,
}

verify_later :
    (lib : Crypto)
    → (c : Call) → (tolerance : ℕ) → (now later : Instant) → (headers : Headers)
    → (store : NonceStore) → (r : VerifiedNodeRequest)
    → check_request lib c tolerance now headers ≡ ok r
    → (remember store (nonce_key r) now).1 ≡ true
    → is_ok
        (verify_signed_request lib c tolerance later headers (remember store (nonce_key r) now).0).1
      ≡ (leb (now + seconds store.ttl) later && is_near tolerance later r.timestamp)
unfolding verify_signed_request remember_request answer
verify_later lib c tolerance now later headers store r h fresh =
    let again = recheck lib c tolerance now later headers r h in
    let twice = remember_twice store (nonce_key r) now later fresh in ground arith

-- Once a request is accepted, the same request is accepted again at a later time exactly when the
-- nonce store's time to live has passed since the first use and the request's time is still within
-- the tolerance of the clock.
pub verify_twice :
    (lib : Crypto)
    → (c : Call) → (tolerance : ℕ) → (now later : Instant) → (headers : Headers)
    → (store : NonceStore) → (r : VerifiedNodeRequest)
    → (verify_signed_request lib c tolerance now headers store).1 ≡ ok r
    → is_ok
        (verify_signed_request lib c tolerance later headers
          (verify_signed_request lib c tolerance now headers store).0).1
      ≡ (leb (now + seconds store.ttl) later && is_near tolerance later r.timestamp)
unfolding verify_signed_request remember_request answer
verify_twice lib c tolerance now later headers store r h =
    elim (Result-cases (check_request lib c tolerance now headers)) [
      | inl (v, e) ↦ elim (Bool-cases (remember store (nonce_key v) now).1) [
        | inl fresh ↦
            let same : r ≡ v = ground arith in
            let stored : (verify_signed_request lib c tolerance now headers store).0
                ≡ (remember store (nonce_key v) now).0 =
              ground arith in
            rw stored (
              verify_later lib c tolerance now later headers store v e fresh
              ∙ ap (λ x. leb (now + seconds store.ttl) later && is_near tolerance later x.timestamp)
                  (sym same))
        | inr seen ↦ ground arith
      ]
      | inr (x, e) ↦ ground arith
    ]

-- What the reader finds in the headers that the client builds.
headers_sent :
    (lib : Crypto)
    → (c : Call) → (key ts nonce : Text)
    → (header (build_signed_headers lib c key ts nonce) node_id_header ≡ c.node_id)
      × (header (build_signed_headers lib c key ts nonce) key_id_header ≡ c.key_id)
      × (header (build_signed_headers lib c key ts nonce) timestamp_header ≡ ts)
      × (header (build_signed_headers lib c key ts nonce) nonce_header ≡ nonce)
      × (header (build_signed_headers lib c key ts nonce) idempotency_header ≡ key)
      × (header (build_signed_headers lib c key ts nonce) signature_header
          ≡ signature_of lib c ts nonce key)
unfolding header build_signed_headers lower
headers_sent lib c key ts nonce = (refl, refl, refl, refl, refl, refl)

built-check_request :
    (lib : Crypto)
    → (c : Call) → (tolerance : ℕ) → (now t : Instant) → (key ts nonce : Text)
    → is_blank key ≡ false
    → is_blank ts ≡ false
    → is_blank nonce ≡ false
    → ((secret message : Text) → is_blank (lib.hmac_hex secret message) ≡ false)
    → ((secret message : Text) → is_ascii (lib.hmac_hex secret message) ≡ true)
    → lib.fromisoformat (replace_z ts) ≡ some (aware t)
    → is_near tolerance now t ≡ true
    → check_request lib c tolerance now (build_signed_headers lib c key ts nonce)
      ≡ ok (record {
        node_id = c.node_id;
        key_id = c.key_id;
        timestamp = t;
        nonce = nonce;
        idempotency_key = key;
      })
unfolding check_request check_signature timestamp_of compare_digest signature_of compute_signature
built-check_request lib c tolerance now t key ts nonce h1 h2 h3 h4 h5 h6 h7 =
    let (e1, e2, e3, e4, e5, e6) = headers_sent lib c key ts nonce in
    let m = canonical_string c.method c.path ts nonce key (body_sha256 lib c.body) in
    ground (
      arith,
      text_eq_refl c.node_id,
      text_eq_refl c.key_id,
      text_eq_refl (lib.hmac_hex c.secret m),
      h4 c.secret m,
      h5 c.secret m,
    )

-- Headers that the client builds for a call, with header values that are not empty and a time that
-- reads as a moment within the tolerance of the node's clock, are accepted by a node with the same
-- settings that has not seen the nonce, when digests are ASCII text that is not empty; the node
-- learns the identity, the time, the nonce and the idempotency key that were sent.
pub build-verify :
    (lib : Crypto)
    → (c : Call) → (tolerance : ℕ) → (now t : Instant) → (key ts nonce : Text)
    → (store : NonceStore) → is_blank key ≡ false
    → is_blank ts ≡ false
    → is_blank nonce ≡ false
    → ((secret message : Text) → is_blank (lib.hmac_hex secret message) ≡ false)
    → ((secret message : Text) → is_ascii (lib.hmac_hex secret message) ≡ true)
    → lib.fromisoformat (replace_z ts) ≡ some (aware t)
    → is_near tolerance now t ≡ true
    → (remember store (c.node_id ++ (codes ":" ++ nonce)) now).1 ≡ true
    → (verify_signed_request lib c tolerance now (build_signed_headers lib c key ts nonce) store).1
      ≡ ok (record {
        node_id = c.node_id;
        key_id = c.key_id;
        timestamp = t;
        nonce = nonce;
        idempotency_key = key;
      })
unfolding verify_signed_request remember_request answer
build-verify lib c tolerance now t key ts nonce store h1 h2 h3 h4 h5 h6 h7 fresh =
    let checked = built-check_request lib c tolerance now t key ts nonce h1 h2 h3 h4 h5 h6 h7 in
    ground arith

-- With a nonce store whose time to live is the tolerance, as the agent makes it, a request whose
-- time is not before its first use is accepted a second time, the tolerance after that use.
pub replay_accepted :
    (lib : Crypto)
    → (c : Call) → (tolerance : ℕ) → (now : Instant) → (headers : Headers) → (store : NonceStore)
    → (r : VerifiedNodeRequest) → store.ttl ≡ tolerance
    → now ≤ r.timestamp
    → (verify_signed_request lib c tolerance now headers store).1 ≡ ok r
    → is_ok
        (verify_signed_request lib c tolerance
          (now + seconds tolerance)
          headers
          (verify_signed_request lib c tolerance now headers store).0).1
      ≡ true
replay_accepted lib c tolerance now headers store r e early h =
    let (seen, _) = accepted-Authentic lib c tolerance now headers store r h in
    let near = seen.near in
    let twice = verify_twice lib c tolerance now (now + seconds tolerance) headers store r h in
    ground arith

-- With a time to live of more than twice the tolerance, a request that was accepted is not accepted
-- again, whatever requests the node serves in between at times not after the repeat.
pub replay_refused :
    (lib : Crypto)
    → (c : Call) → (tolerance : ℕ) → (now later : Instant) → (headers : Headers)
    → (store : NonceStore) → (r : VerifiedNodeRequest) → (traffic : Traffic)
    → tolerance + tolerance < store.ttl
    → (verify_signed_request lib c tolerance now headers store).1 ≡ ok r
    → Until later traffic
    → let first = verify_signed_request lib c tolerance now headers store in
      is_ok
        (verify_signed_request lib c tolerance later headers
          (serve lib tolerance first.0 traffic)).1
      ≡ false
replay_refused lib c tolerance now later headers store r traffic long h until =
    let (seen, used) = accepted-Authentic lib c tolerance now headers store r h in
    let (passed, _) = accepted_steps lib c tolerance now headers store r h in
    let first = (verify_signed_request lib c tolerance now headers store).0 in
    let left = serve lib tolerance first traffic in
    elim (Bool-cases (leb (now + seconds store.ttl) later)) [
      | inl forgotten ↦
          let near = seen.near in
          verify_late lib c tolerance now later headers left r passed (ground arith)
      | inr soon ↦
          let in_time : later < now + seconds store.ttl = ground arith in
          verify_held lib c tolerance now later headers left r (now + seconds store.ttl) passed
            (serve_keeps lib tolerance traffic first later (nonce_key r) (now + seconds store.ttl)
              until used.held in_time)
            in_time
    ]
