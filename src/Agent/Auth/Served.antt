-- ===== src/Agent/Auth/Served.antt =====
-- Requests that reach the check of infrastructure/nodes/auth.py at several times.
use project_vpn.Common.{
  ℕ, ◌≤◌, ◌<◌, ◌≡◌, refl, if◌then◌else◌, false, some, List, [], ◌∷◌, inl, inr, arith, Text, Instant,
}
use project_vpn.Errors.{node_auth, ok, err, is_ok, Result-cases}
use project_vpn.Agent.Nonces.{NonceStore, remember-held, held_refused}
use project_vpn.Common.Table.{find}
use project_vpn.Agent.Auth.Accept.{time_checked}
use project_vpn.Agent.Auth.{
  Crypto, Call, Headers, VerifiedNodeRequest, is_near, check_request, check_signature, timestamp_of,
  verify_signed_request, remember_request, answer, nonce_key,
}

-- The clock is used for the skew alone.
signature_later :
    (lib : Crypto)
    → (c : Call) → (tolerance : ℕ) → (now later : Instant) → (headers : Headers) → (t : Instant)
    → (r : VerifiedNodeRequest) → check_signature lib c tolerance now headers t ≡ ok r
    → check_signature lib c tolerance later headers t ≡ (
        if is_near tolerance later t
        then ok r
        else err (node_auth "Timestamp outside allowed skew"))
unfolding check_signature
signature_later lib c tolerance now later headers t r h = ground arith

pub recheck :
    (lib : Crypto)
    → (c : Call) → (tolerance : ℕ) → (now later : Instant) → (headers : Headers)
    → (r : VerifiedNodeRequest) → check_request lib c tolerance now headers ≡ ok r
    → check_request lib c tolerance later headers ≡ (
        if is_near tolerance later r.timestamp
        then ok r
        else err (node_auth "Timestamp outside allowed skew"))
unfolding check_request timestamp_of
recheck lib c tolerance now later headers r h =
    let (read, passed) = time_checked lib c tolerance now headers r _ refl h in
    let again = signature_later lib c tolerance now later headers r.timestamp r passed in
    ground arith

-- Requests that reach a node one after another, each with its time.
abbrev pub Traffic : Type 0
Traffic = List (Call × Instant × Headers)

-- The store after the traffic has been served.
unfoldable pub serve : Crypto → ℕ → NonceStore → Traffic → NonceStore
serve lib tolerance store [] = store
serve lib tolerance store ((c, now, headers) ∷ rest) =
    serve lib tolerance (verify_signed_request lib c tolerance now headers store).0 rest

-- Every request of the traffic comes at a time not after this one.
abbrev pub Until : Instant → Traffic → Type 0
Until later [] = Unit
Until later ((c, now, headers) ∷ rest) = (now ≤ later) × Until later rest

verify_keeps :
    (lib : Crypto)
    → (c : Call) → (tolerance : ℕ) → (now : Instant) → (headers : Headers) → (store : NonceStore)
    → (k : Text) → (e : Instant) → find k store.entries ≡ some e
    → now < e
    → find k (verify_signed_request lib c tolerance now headers store).0.entries ≡ some e
unfolding verify_signed_request remember_request answer
verify_keeps lib c tolerance now headers store k e h l =
    elim (Result-cases (check_request lib c tolerance now headers)) [
      | inl (v, f) ↦
          let kept = remember-held store (nonce_key v) k now e h l in ground (arith, kept)
      | inr (x, f) ↦ ground arith
    ]

pub serve_keeps :
    (lib : Crypto)
    → (tolerance : ℕ) → (traffic : Traffic) → (store : NonceStore) → (later : Instant) → (k : Text)
    → (e : Instant) → Until later traffic
    → find k store.entries ≡ some e
    → later < e
    → find k (serve lib tolerance store traffic).entries ≡ some e
unfolding serve
serve_keeps lib tolerance [] store later k e u h l = h
serve_keeps lib tolerance ((c, now, headers) ∷ rest) store later k e u h l =
    serve_keeps lib tolerance rest (verify_signed_request lib c tolerance now headers store).0 later
      k e u.1 (verify_keeps lib c tolerance now headers store k e h (omega arith)) l

-- A request whose nonce is held is not accepted.
pub verify_held :
    (lib : Crypto)
    → (c : Call) → (tolerance : ℕ) → (now later : Instant) → (headers : Headers)
    → (store : NonceStore) → (r : VerifiedNodeRequest) → (e : Instant)
    → check_request lib c tolerance now headers ≡ ok r
    → find (nonce_key r) store.entries ≡ some e
    → later < e
    → is_ok (verify_signed_request lib c tolerance later headers store).1 ≡ false
unfolding verify_signed_request remember_request answer
verify_held lib c tolerance now later headers store r e h held l =
    let again = recheck lib c tolerance now later headers r h in
    let refused = held_refused store (nonce_key r) later e held l in ground arith

-- A request whose time is too far from the clock is not accepted.
pub verify_late :
    (lib : Crypto)
    → (c : Call) → (tolerance : ℕ) → (now later : Instant) → (headers : Headers)
    → (store : NonceStore) → (r : VerifiedNodeRequest)
    → check_request lib c tolerance now headers ≡ ok r
    → is_near tolerance later r.timestamp ≡ false
    → is_ok (verify_signed_request lib c tolerance later headers store).1 ≡ false
unfolding verify_signed_request remember_request answer
verify_late lib c tolerance now later headers store r h far =
    let again = recheck lib c tolerance now later headers r h in ground arith
