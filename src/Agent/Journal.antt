-- ===== src/Agent/Journal.antt =====
-- `NodeOperationJournal` of infrastructure/nodes/idempotency.py: one table, keyed by the idempotency
-- key. Each method is one transaction of the database; the token of a claim is an argument. A
-- stored time or response is what was stored, since the text forms are read back exactly.
pub mod Frame
pub mod Run
pub mod Ownership
pub mod Exclusion
pub mod Replay
use project_vpn.Common.{
  ℕ, ◌+◌, ◌≡◌, Bool, true, false, not, ◌&&◌, ◌||◌, Option, none, some, [], ltb, same_number,
  if◌then◌else◌, Text, text_eq, codes, Instant, seconds,
}
use project_vpn.Common.Json.{Payload}
use project_vpn.Common.Table.{Table, find, store, remove}

pub data RowStatus : Type 0 where
  in_progress completed retryable : RowStatus

abbrev pub in_progress? : RowStatus → Bool
in_progress? in_progress = true
in_progress? _ = false

abbrev pub completed? : RowStatus → Bool
completed? completed = true
completed? _ = false

-- What a key stands for.
pub record Request : Type 0 where
  pub request_hash : Text
  pub operation : Text
  pub client_uuid : Text
  pub inbound_id : Text

-- A row of `node_operation_journal`, but for its key.
pub record Row : Type 0 where
  pub request : Request
  pub status : RowStatus
  pub response : Option Payload
  pub owner_token : Option ℕ
  pub lease_expires_at : Option Instant
  pub last_error : Option Text
  pub created_at : Instant
  pub updated_at : Instant

pub data ClaimKind : Type 0 where
  owner replay conflict busy : ClaimKind

pub record JournalClaim : Type 0 where
  pub kind : ClaimKind
  pub owner_token : Option ℕ
  pub response : Option Payload
  pub reclaimed : Bool

abbrev pub same_request : Request → Request → Bool
same_request a b =
    text_eq a.request_hash b.request_hash
    && text_eq a.operation b.operation
    && text_eq a.client_uuid b.client_uuid
    && text_eq a.inbound_id b.inbound_id

-- `lease_expires_at and lease_expires_at > now`
abbrev pub is_live : Option Instant → Instant → Bool
is_live none now = false
is_live (some t) now = ltb now t

-- `orjson.loads(response_json) if response_json else {}`
abbrev pub response_or_empty : Option Payload → Payload
response_or_empty none = []
response_or_empty (some p) = p

abbrev pub owner_claim : ℕ → Bool → JournalClaim
owner_claim token reclaimed = record {
  kind = ClaimKind.owner;
  owner_token = some token;
  response = none;
  reclaimed = reclaimed;
}

abbrev pub other_claim : ClaimKind → Option Payload → JournalClaim
other_claim kind response = record {
  kind = kind;
  owner_token = none;
  response = response;
  reclaimed = false;
}

abbrev pub new_row : Request → ℕ → Instant → Instant → Row
new_row request token lease now = record {
  request = request;
  status = in_progress;
  response = none;
  owner_token = some token;
  lease_expires_at = some lease;
  last_error = none;
  created_at = now;
  updated_at = now;
}

abbrev pub reclaimed_row : Row → ℕ → Instant → Instant → Row
reclaimed_row row token lease now = record row {
  status = in_progress;
  owner_token = some token;
  lease_expires_at = some lease;
  last_error = none;
  updated_at = now;
}

-- The branches of `_claim_sync` on the row that the SELECT returned.
claim_row :
    Option Row → Text → Request → Instant → Instant → ℕ → Table Row → Table Row × JournalClaim
claim_row none key request now lease token t =
    (store key (new_row request token lease now) t, owner_claim token false)
claim_row (some row) key request now lease token t =
    if not (same_request row.request request)
    then (t, other_claim ClaimKind.conflict none)
    else if completed? row.status
    then (t, other_claim ClaimKind.replay (some (response_or_empty row.response)))
    else if in_progress? row.status && is_live row.lease_expires_at now
    then (t, other_claim ClaimKind.busy none)
    else (store key (reclaimed_row row token lease now) t, owner_claim token true)

-- `_claim_sync`
unfoldable pub claim : ℕ → Text → Request → Instant → ℕ → Table Row → Table Row × JournalClaim
unfolding claim_row
claim lease_seconds key request now token t =
    claim_row (find key t) key request now (now + seconds lease_seconds) token t

-- `status = 'in_progress' AND owner_token = ?`
abbrev pub owned : Row → ℕ → Bool
owned row token = in_progress? row.status && same_number row.owner_token (some token)

-- An UPDATE of the row that the token owns, and whether there was one.
update_owned : Option Row → Text → ℕ → (Row → Row) → Table Row → Table Row × Bool
update_owned none key token change t = (t, false)
update_owned (some row) key token change t =
    if owned row token then (store key (change row) t, true) else (t, false)

abbrev pub completed_row : Payload → Instant → Row → Row
completed_row response now row = record row {
  status = completed;
  response = some response;
  owner_token = none;
  lease_expires_at = none;
  last_error = none;
  updated_at = now;
}

-- `_complete_sync`
unfoldable pub complete : Text → ℕ → Payload → Instant → Table Row → Table Row × Bool
unfolding update_owned
complete key token response now t =
    update_owned (find key t) key token (completed_row response now) t

abbrev pub retryable_row : Text → Instant → Row → Row
retryable_row error now row = record row {
  status = retryable;
  owner_token = none;
  lease_expires_at = none;
  last_error = some error;
  updated_at = now;
}

-- `_mark_retryable_sync`
unfoldable pub mark_retryable : Text → ℕ → Text → Instant → Table Row → Table Row × Bool
unfolding update_owned
mark_retryable key token error now t =
    update_owned (find key t) key token (retryable_row error now) t

retire_row : Option Row → Text → Table Row → Table Row × Text
retire_row none key t = (t, codes "already_retired")
retire_row (some row) key t =
    if in_progress? row.status
    then (t, codes "operation_in_progress")
    else (remove key t, codes "retired")

-- `_retire_sync`
unfoldable pub retire : Text → Table Row → Table Row × Text
unfolding retire_row
retire key t = retire_row (find key t) key t
