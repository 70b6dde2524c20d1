-- ===== src/Agent/Auth.antt =====
-- infrastructure/nodes/auth.py: the headers that sign a request to a node, and their check.
-- `hashlib`, `hmac` and `datetime.fromisoformat` are a parameter; a body is its bytes.
pub mod Accept
pub mod Replay
pub mod Served
use project_vpn.Common.{
  ℕ, ◌+◌, ◌-◌, ◌≡◌, refl, Bool, true, false, not, ◌&&◌, ◌||◌, Option, none, some, List, [], ◌∷◌,
  ◌++◌, ltb, leb, ◌==◌, if◌then◌else◌, Text, text_eq, is_blank, codes, lower, upper, Instant,
  seconds,
}
use project_vpn.Errors.{Error, node_auth, runtime, Result, ok, err, ◌>>=◌, ◌>>◌, raise_if, is_ok}
use project_vpn.Agent.Nonces.{NonceStore, remember}

-- What `datetime.fromisoformat` reads: a time without an offset, or one with it, in UTC.
pub data Timestamp : Type 0 where
  naive : Instant → Timestamp
  aware : Instant → Timestamp

pub record Crypto : Type 0 where
  -- `sha256(body).hexdigest()`
  pub sha256_hex : List ℕ → Text
  -- `hmac.new(secret, message, sha256).hexdigest()`
  pub hmac_hex : Text → Text → Text
  -- `datetime.fromisoformat(text)`, `none` where it raises ValueError
  pub fromisoformat : Text → Option Timestamp

pub record VerifiedNodeRequest : Type 0 where
  pub node_id : Text
  pub key_id : Text
  pub timestamp : Instant
  pub nonce : Text
  pub idempotency_key : Text

abbrev pub Headers : Type 0
Headers = List (Text × Text)

abbrev pub node_id_header : Text
node_id_header = codes "X-Node-Id"

abbrev pub key_id_header : Text
key_id_header = codes "X-Key-Id"

abbrev pub timestamp_header : Text
timestamp_header = codes "X-Timestamp"

abbrev pub nonce_header : Text
nonce_header = codes "X-Nonce"

abbrev pub idempotency_header : Text
idempotency_header = codes "X-Idempotency-Key"

abbrev pub signature_header : Text
signature_header = codes "X-Signature"

-- `"\n".join(parts)`
abbrev join_lines : List Text → Text
join_lines [] = []
join_lines (s ∷ []) = s
join_lines (s ∷ t ∷ rest) = s ++ (10 ∷ join_lines (t ∷ rest))

unfoldable pub canonical_string : Text → Text → Text → Text → Text → Text → Text
canonical_string method path timestamp nonce idempotency_key body_hash =
    join_lines (upper method ∷ path ∷ timestamp ∷ nonce ∷ idempotency_key ∷ body_hash ∷ [])

unfoldable pub header : Headers → Text → Text
header [] name = []
header ((k, v) ∷ rest) name = if text_eq (lower k) (lower name) then v else header rest name

-- `text.replace("Z", "+00:00")`
abbrev pub replace_z : Text → Text
replace_z [] = []
replace_z (c ∷ s) = if c == 90 then codes "+00:00" ++ replace_z s else c ∷ replace_z s

abbrev pub is_ascii : Text → Bool
is_ascii [] = true
is_ascii (c ∷ s) = ltb c 128 && is_ascii s

-- `hmac.compare_digest` of two texts, a TypeError where one is not ASCII
unfoldable pub compare_digest : Text → Text → Result Bool
compare_digest a b =
    if is_ascii a && is_ascii b
    then ok (text_eq a b)
    else err (runtime "comparing strings with non-ASCII characters is not supported")

unfoldable pub timestamp_of : Option Timestamp → Result Instant
timestamp_of none = err (node_auth "Invalid timestamp")
timestamp_of (some (naive t)) = err (node_auth "Timestamp must include timezone")
timestamp_of (some (aware t)) = ok t

-- `abs(a - b)`
abbrev distance : Instant → Instant → ℕ
distance a b = (a - b) + (b - a)

-- The time of a request is not farther from the clock than the tolerance.
abbrev pub is_near : ℕ → Instant → Instant → Bool
is_near tolerance_seconds now t = leb (distance now t) (seconds tolerance_seconds)

-- What both sides of a request agree on, and the node's settings.
pub record Call : Type 0 where
  pub method : Text
  pub path : Text
  pub body : List ℕ
  pub node_id : Text
  pub key_id : Text
  pub secret : Text

module _ (lib : Crypto) where
  unfoldable pub body_sha256 : List ℕ → Text
  body_sha256 body = lib.sha256_hex body

  unfoldable pub compute_signature : Text → Text → Text
  compute_signature secret canonical = lib.hmac_hex secret canonical

  -- The signature of a call sent with these header values.
  unfoldable pub signature_of : Call → Text → Text → Text → Text
  signature_of c timestamp nonce key =
      compute_signature c.secret
        (canonical_string c.method c.path timestamp nonce key (body_sha256 c.body))

  unfoldable pub build_signed_headers : Call → Text → Text → Text → Headers
  build_signed_headers c idempotency_key ts nonce =
      (node_id_header, c.node_id)
      ∷ (key_id_header, c.key_id)
      ∷ (timestamp_header, ts)
      ∷ (nonce_header, nonce)
      ∷ (idempotency_header, idempotency_key)
      ∷ (signature_header, signature_of c ts nonce idempotency_key)
      ∷ []

  -- The checks from the skew on, for the time that was read.
  unfoldable pub check_signature :
      Call → ℕ → Instant → Headers → Instant → Result VerifiedNodeRequest
  check_signature c tolerance now headers t =
      let raw = header headers timestamp_header in
      let nonce = header headers nonce_header in
      let key = header headers idempotency_header in
      raise_if (not (is_near tolerance now t)) (node_auth "Timestamp outside allowed skew")
      >> (compare_digest (header headers signature_header) (signature_of c raw nonce key)
          >>= λ same.
              raise_if (not same) (node_auth "Invalid signature")
              >> ok (record {
                node_id = header headers node_id_header;
                key_id = header headers key_id_header;
                timestamp = t;
                nonce = nonce;
                idempotency_key = key;
              }))

  -- `verify_signed_request` before the nonce is remembered
  unfoldable pub check_request : Call → ℕ → Instant → Headers → Result VerifiedNodeRequest
  check_request c tolerance now headers =
      let raw = header headers timestamp_header in
      raise_if (not (text_eq (header headers node_id_header) c.node_id))
        (node_auth "Unexpected node id")
      >> raise_if (not (text_eq (header headers key_id_header) c.key_id))
          (node_auth "Unexpected key id")
      >> raise_if
          (is_blank raw
            || is_blank (header headers nonce_header)
            || is_blank (header headers idempotency_header)
            || is_blank (header headers signature_header))
          (node_auth "Missing authentication headers")
      >> timestamp_of (lib.fromisoformat (replace_z raw))
      >>= check_signature c tolerance now headers

-- `f"{node_id}:{nonce}"`
abbrev pub nonce_key : VerifiedNodeRequest → Text
nonce_key r = r.node_id ++ (codes ":" ++ r.nonce)

unfoldable pub answer :
    VerifiedNodeRequest → NonceStore × Bool → NonceStore × Result VerifiedNodeRequest
answer r (store, true) = (store, ok r)
answer r (store, false) = (store, err (node_auth "Replay detected"))

-- The nonce is remembered last, for a request that has passed every other check.
unfoldable pub remember_request :
    NonceStore → Instant → Result VerifiedNodeRequest → NonceStore × Result VerifiedNodeRequest
remember_request store now (err e) = (store, err e)
remember_request store now (ok r) = answer r (remember store (nonce_key r) now)

unfoldable pub verify_signed_request :
    Crypto → Call → ℕ → Instant → Headers → NonceStore → NonceStore × Result VerifiedNodeRequest
verify_signed_request lib c tolerance now headers store =
    remember_request store now (check_request lib c tolerance now headers)
