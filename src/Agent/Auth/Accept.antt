-- ===== src/Agent/Auth/Accept.antt =====
-- Which requests the check of infrastructure/nodes/auth.py accepts.
use project_vpn.Common.{
  ℕ, ◌≡◌, refl, ap, Bool, true, false, Option, none, some, Bool-cases, inl, inr, arith, text_eq,
  text_eq_iff, text_eq_sound, is_blank, Instant,
}
use mathlib.Core.Path.{subst}
use project_vpn.Errors.{ok, Result-cases}
use project_vpn.Agent.Nonces.{NonceStore, remember, IsRemembered, remember-IsRemembered}
use project_vpn.Agent.Auth.{
  Crypto, Call, Headers, VerifiedNodeRequest, Timestamp, naive, aware, header, node_id_header,
  key_id_header, timestamp_header, nonce_header, idempotency_header, signature_header, is_near,
  signature_of, check_request, check_signature, compare_digest, timestamp_of, verify_signed_request,
  remember_request, answer, nonce_key, replace_z,
}

-- What an accepted request carries.
pub record Authentic (lib : Crypto) (c : Call) (tolerance : ℕ) (now : Instant) (headers : Headers)
    (r : VerifiedNodeRequest) : Type 0 where
  pub same_node : r.node_id ≡ c.node_id
  pub same_key : r.key_id ≡ c.key_id
  pub nonce_sent : r.nonce ≡ header headers nonce_header
  pub key_sent : r.idempotency_key ≡ header headers idempotency_header
  pub has_key : is_blank r.idempotency_key ≡ false
  pub time_read :
      lib.fromisoformat (replace_z (header headers timestamp_header)) ≡ some (aware r.timestamp)
  pub near : is_near tolerance now r.timestamp ≡ true
  pub signed :
      header headers signature_header
      ≡ signature_of lib c (header headers timestamp_header) r.nonce r.idempotency_key

signature_checked :
    (lib : Crypto) (c : Call) (tolerance : ℕ) (now : Instant) (headers : Headers) (t : Instant)
    (r : VerifiedNodeRequest)
    → check_signature lib c tolerance now headers t ≡ ok r
    → (is_near tolerance now t ≡ true)
      × (r.timestamp ≡ t)
      × (r.node_id ≡ header headers node_id_header)
      × (r.key_id ≡ header headers key_id_header)
      × (r.nonce ≡ header headers nonce_header)
      × (r.idempotency_key ≡ header headers idempotency_header)
      × (text_eq (header headers signature_header) (
            signature_of lib c
              (header headers timestamp_header)
              (header headers nonce_header)
              (header headers idempotency_header))
          ≡ true)
unfolding check_signature compare_digest
signature_checked lib c tolerance now headers t r h = ground arith

pub time_checked :
    (lib : Crypto) (c : Call) (tolerance : ℕ) (now : Instant) (headers : Headers)
    (r : VerifiedNodeRequest)
    → (o : Option Timestamp) → lib.fromisoformat (replace_z (header headers timestamp_header)) ≡ o
    → check_request lib c tolerance now headers ≡ ok r
    → (lib.fromisoformat (replace_z (header headers timestamp_header)) ≡ some (aware r.timestamp))
      × (check_signature lib c tolerance now headers r.timestamp ≡ ok r)
unfolding check_request timestamp_of
time_checked lib c tolerance now headers r none e h = ground arith
time_checked lib c tolerance now headers r (some (naive t)) e h = ground arith
time_checked lib c tolerance now headers r (some (aware t)) e h =
    let passed : check_signature lib c tolerance now headers t ≡ ok r = ground arith in
    let same : r.timestamp ≡ t = (signature_checked lib c tolerance now headers t r passed).1 in
    (cc, cc)

ids_checked :
    (lib : Crypto) (c : Call) (tolerance : ℕ) (now : Instant) (headers : Headers)
    (r : VerifiedNodeRequest)
    → check_request lib c tolerance now headers ≡ ok r
    → (text_eq (header headers node_id_header) c.node_id ≡ true)
      × (text_eq (header headers key_id_header) c.key_id ≡ true)
      × (is_blank (header headers idempotency_header) ≡ false)
unfolding check_request
ids_checked lib c tolerance now headers r h = ground arith

checked :
    (lib : Crypto) (c : Call) (tolerance : ℕ) (now : Instant) (headers : Headers)
    (r : VerifiedNodeRequest)
    → check_request lib c tolerance now headers ≡ ok r
    → Authentic lib c tolerance now headers r
checked lib c tolerance now headers r h =
    let (read, passed) = time_checked lib c tolerance now headers r _ refl h in
    let (near, _, node, key, nonce, sent, signed) =
      signature_checked lib c tolerance now headers r.timestamp r passed in
    let (same_node, same_key, has_key) = ids_checked lib c tolerance now headers r h in
    record {
      same_node = ground (arith, text_eq_iff (header headers node_id_header) c.node_id);
      same_key = ground (arith, text_eq_iff (header headers key_id_header) c.key_id);
      nonce_sent = nonce;
      key_sent = sent;
      has_key = rw sent has_key;
      time_read = read;
      near = near;
      signed = rw nonce (rw sent (text_eq_sound _ _ signed));
    }

-- The two checks behind an accepted request, and the store that is left.
pub accepted_steps :
    (lib : Crypto)
    → (c : Call) → (tolerance : ℕ) → (now : Instant) → (headers : Headers) → (store : NonceStore)
    → (r : VerifiedNodeRequest) → (verify_signed_request lib c tolerance now headers store).1 ≡ ok r
    → (check_request lib c tolerance now headers ≡ ok r)
      × (remember store (nonce_key r) now
          ≡ ((verify_signed_request lib c tolerance now headers store).0, true))
unfolding verify_signed_request remember_request answer
accepted_steps lib c tolerance now headers store r h =
    elim (Result-cases (check_request lib c tolerance now headers)) [
      | inl (v, e) ↦ elim (Bool-cases (remember store (nonce_key v) now).1) [
        | inl fresh ↦ let same : v ≡ r = ground arith in (cc, ground arith)
        | inr seen ↦ ground arith
      ]
      | inr (x, e) ↦ ground arith
    ]

-- A request that is accepted has the identity and the signature that the node expects for its
-- method, path, body, time, nonce and idempotency key, a time within the tolerance of the clock, and
-- a nonce that the store did not hold at that time; the store holds that nonce for its time to live
-- from then on, and every other nonce whose time has not come as long as it did before.
pub accepted-Authentic :
    (lib : Crypto)
    → (c : Call) → (tolerance : ℕ) → (now : Instant) → (headers : Headers) → (store : NonceStore)
    → (r : VerifiedNodeRequest) → (verify_signed_request lib c tolerance now headers store).1 ≡ ok r
    → Authentic lib c tolerance now headers r
      × IsRemembered store
          (verify_signed_request lib c tolerance now headers store).0
          (nonce_key r)
          now
accepted-Authentic lib c tolerance now headers store r h =
    let (passed, used) = accepted_steps lib c tolerance now headers store r h in
    let left = ap (λ (x : NonceStore × Bool). x.0) used in
    let new = ap (λ (x : NonceStore × Bool). x.1) used in
    (
      checked lib c tolerance now headers r passed,
      subst (λ s. IsRemembered store s (nonce_key r) now) left
          (remember-IsRemembered store (nonce_key r) now new),
    )
