-- ===== src/Agent/Journal/Ownership.antt =====
-- One owner at a time: what a claim wins, and what the others cannot do to it.
use project_vpn.Common.{
  ℕ, ◌+◌, ◌<◌, ◌≡◌, ◌≢◌, refl, ◌⊎◌, true, false, Option, none, some, arith, Text, text_eq_refl,
  Instant, seconds,
}
use mathlib.Core.Option.{some-injective}
use project_vpn.Common.Json.{Payload}
use project_vpn.Common.Table.{Table, find, store, find-store}
use project_vpn.Agent.Journal.{
  Row, RowStatus, Request, ClaimKind, same_request, claim, claim_row, complete, mark_retryable,
  retire, new_row, reclaimed_row, completed_row, retryable_row, update_owned, retire_row,
}

pub same_request_refl : (r : Request) → same_request r r ≡ true
same_request_refl r = ground (
  arith,
  text_eq_refl r.request_hash,
  text_eq_refl r.operation,
  text_eq_refl r.client_uuid,
  text_eq_refl r.inbound_id,
)

pub find-store_self : (k : Text) (v : Row) (t : Table Row) → find k (store k v t) ≡ some v
find-store_self k v t = ground (arith, find-store k k v t, text_eq_refl k)

-- The key's row says that the token owns an operation for the request, until a time.
pub record IsOwned (key : Text) (r : Request) (token : ℕ) (until : Instant) (t : Table Row)
    : Type 0 where
  pub row : Row
  pub found : find key t ≡ some row
  pub request : same_request row.request r ≡ true
  pub status : row.status ≡ RowStatus.in_progress
  pub owner : row.owner_token ≡ some token
  pub lease : row.lease_expires_at ≡ some until

claim_row-IsOwned :
    (o : Option Row) (key : Text) (r : Request) (now until : Instant) (token : ℕ) (t : Table Row)
    → (claim_row o key r now until token t).1.kind ≡ ClaimKind.owner
    → IsOwned key r token until (claim_row o key r now until token t).0
unfolding claim_row
claim_row-IsOwned none key r now until token t h = record {
  row = new_row r token until now;
  found = find-store_self key (new_row r token until now) t;
  request = same_request_refl r;
  status = refl;
  owner = refl;
  lease = refl;
}
claim_row-IsOwned (some row) key r now until token t h = record {
  row = reclaimed_row row token until now;
  found = ground (arith, find-store_self key (reclaimed_row row token until now) t);
  request = ground arith;
  status = refl;
  owner = refl;
  lease = refl;
}

-- A claim that answers OWNER makes its token the owner for as long as the lease lasts.
pub claim-IsOwned :
    (n : ℕ) (key : Text) (r : Request) (now : Instant) (token : ℕ) (t : Table Row)
    → (claim n key r now token t).1.kind ≡ ClaimKind.owner
    → IsOwned key r token (now + seconds n) (claim n key r now token t).0
unfolding claim
claim-IsOwned n key r now token t h =
    claim_row-IsOwned (find key t) key r now (now + seconds n) token t h

module _ (key : Text) (r : Request) (token : ℕ) (until : Instant) (t : Table Row)
    (w : IsOwned key r token until t) where
  owned_claim_row :
      (o : Option Row) (r' : Request) (now later : Instant) (token' : ℕ)
      → o ≡ some w.row
      → now < until
      → ((claim_row o key r' now later token' t).0 ≡ t)
        × (((claim_row o key r' now later token' t).1.kind ≡ ClaimKind.busy)
            ⊎ ((claim_row o key r' now later token' t).1.kind ≡ ClaimKind.conflict))
  unfolding claim_row
  owned_claim_row none r' now later token' e h = cc
  owned_claim_row (some row) r' now later token' e h =
      ground (arith, w.status, w.lease, some-injective e)

  -- Before the lease ends every claim is refused and leaves the table as it is.
  pub owned_claim :
      (n : ℕ) (r' : Request) (now : Instant) (token' : ℕ)
      → now < until
      → ((claim n key r' now token' t).0 ≡ t)
        × (((claim n key r' now token' t).1.kind ≡ ClaimKind.busy)
            ⊎ ((claim n key r' now token' t).1.kind ≡ ClaimKind.conflict))
  unfolding claim
  owned_claim n r' now token' h =
      owned_claim_row (find key t) r' now (now + seconds n) token' w.found h

  owned_update_owned :
      (o : Option Row) (token' : ℕ) (change : Row → Row)
      → o ≡ some w.row
      → token' ≢ token
      → update_owned o key token' change t ≡ (t, false)
  unfolding update_owned
  owned_update_owned none token' change e h = cc
  owned_update_owned (some row) token' change e h = ground (arith, w.owner, some-injective e)

  -- No other token completes it or gives it up.
  pub owned_update :
      (token' : ℕ) (p : Payload) (m : Text) (now : Instant)
      → token' ≢ token
      → (complete key token' p now t ≡ (t, false))
        × (mark_retryable key token' m now t ≡ (t, false))
  unfolding complete mark_retryable
  owned_update token' p m now h = (
    owned_update_owned (find key t) token' (completed_row p now) w.found h,
    owned_update_owned (find key t) token' (retryable_row m now) w.found h,
  )

  owned_retire_row : (o : Option Row) → o ≡ some w.row → (retire_row o key t).0 ≡ t
  unfolding retire_row
  owned_retire_row none e = refl
  owned_retire_row (some row) e = ground (arith, w.status, some-injective e)

  -- It is not retired.
  pub owned_retire : (retire key t).0 ≡ t
  unfolding retire
  owned_retire = owned_retire_row (find key t) w.found
