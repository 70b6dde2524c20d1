-- ===== src/Agent/Journal/Replay.antt =====
-- A completed operation is answered from the journal, with the response that was recorded.
use project_vpn.Common.{
  ℕ, ◌+◌, ◌≡◌, refl, sym, ap, ◌∙◌, inl, inr, Bool, true, false, Option, none, some, Bool-cases, not,
  ◌&&◌, if◌then◌else◌, List, [], ◌∷◌, arith, Text, text_eq, text_eq_sound, text_eq_complete,
  Instant, seconds,
}
use mathlib.Core.Path.{subst}
use mathlib.Core.Option.{some-injective}
use project_vpn.Common.Json.{Payload}
use project_vpn.Common.Table.{Table, find, store}
use project_vpn.Agent.Journal.{
  Row, RowStatus, Request, ClaimKind, JournalClaim, same_request, claim, claim_row, complete,
  mark_retryable, completed_row, retryable_row, update_owned, other_claim, owned,
}
use project_vpn.Agent.Journal.Run.{
  Operation, op_claim, op_complete, op_retryable, op_retire, apply, run, key_of,
}
use project_vpn.Agent.Journal.Ownership.{IsOwned, same_request_refl, find-store_self}
use project_vpn.Agent.Journal.Exclusion.{apply_frame}

-- The key's row holds the response to a request.
pub record IsCompleted (key : Text) (r : Request) (p : Payload) (t : Table Row) : Type 0 where
  pub row : Row
  pub found : find key t ≡ some row
  pub request : row.request ≡ r
  pub status : row.status ≡ RowStatus.completed
  pub response : row.response ≡ some p

update_owned_eq :
    (o : Option Row) (key : Text) (token : ℕ) (change : Row → Row) (row : Row) (t : Table Row)
    → o ≡ some row
    → owned row token ≡ true
    → update_owned o key token change t ≡ (store key (change row) t, true)
unfolding update_owned
update_owned_eq none key token change row t e h = cc
update_owned_eq (some x) key token change row t e h = ground (arith, some-injective e)

-- The owner's completion is accepted, even after its lease if nobody has taken the row over, and
-- records the response.
pub complete-IsCompleted :
    (key : Text) (r : Request) (token : ℕ) (until now : Instant) (p : Payload) (t : Table Row)
    (w : IsOwned key r token until t)
    → ((complete key token p now t).1 ≡ true)
      × IsCompleted key w.row.request p (complete key token p now t).0
unfolding complete
complete-IsCompleted key r token until now p t w =
    let e =
      update_owned_eq (find key t) key token (completed_row p now) w.row t w.found
        (ground (arith, w.status, w.owner)) in
    (
      ap (λ (x : Table Row × Bool). x.1) e,
      record {
        row = completed_row p now w.row;
        found =
            ap (λ (x : Table Row × Bool). find key x.0) e
            ∙ find-store_self key (completed_row p now w.row) t;
        request = refl;
        status = refl;
        response = refl;
      },
    )

-- The answer to a claim on a completed row.
abbrev pub answer : Request → Request → Payload → JournalClaim
answer r r' p =
    if same_request r r'
    then other_claim ClaimKind.replay (some p)
    else other_claim ClaimKind.conflict none

completed_claim_row :
    (o : Option Row) (key : Text) (r r' : Request) (p : Payload) (now later : Instant) (token : ℕ)
    (row : Row) (t : Table Row)
    → o ≡ some row
    → row.request ≡ r
    → row.status ≡ RowStatus.completed
    → row.response ≡ some p
    → claim_row o key r' now later token t ≡ (t, answer r r' p)
unfolding claim_row
completed_claim_row none key r r' p now later token row t e er es ep = cc
completed_claim_row (some x) key r r' p now later token row t e er es ep =
    let same : x ≡ row = cc in
    subst (λ (y : Row). claim_row (some y) key r' now later token t ≡ (t, answer r r' p)) (sym same)
      (subst (λ (q : Request). claim_row (some row) key r' now later token t ≡ (t, answer q r' p))
        er (ground arith))

module _ (key : Text) (r : Request) (p : Payload) (t : Table Row) (w : IsCompleted key r p t) where
  -- A claim of the same request is answered with the response, any other with CONFLICT; neither
  -- changes the table.
  pub completed_claim :
      (n : ℕ) (r' : Request) (now : Instant) (token : ℕ)
      → claim n key r' now token t ≡ (t, answer r r' p)
  unfolding claim
  completed_claim n r' now token =
      completed_claim_row (find key t) key r r' p now (now + seconds n) token w.row t w.found
        w.request w.status w.response

  completed_update_owned :
      (o : Option Row) (token : ℕ) (change : Row → Row)
      → o ≡ some w.row
      → update_owned o key token change t ≡ (t, false)
  unfolding update_owned
  completed_update_owned none token change e = cc
  completed_update_owned (some row) token change e = ground (arith, w.status, some-injective e)

-- No operation of the sequence retires the key.
abbrev pub keeps_key : Text → List Operation → Bool
keeps_key key [] = true
keeps_key key (op_retire j ∷ os) = not (text_eq j key) && keeps_key key os
keeps_key key (_ ∷ os) = keeps_key key os

module _ (n : ℕ) (key : Text) (r : Request) (p : Payload) (t : Table Row)
    (w : IsCompleted key r p t) where
  -- An operation on the key itself changes nothing.
  apply_same : (o : Operation) → key_of o ≡ key → keeps_key key (o ∷ []) ≡ true → apply n o t ≡ t
  unfolding apply complete mark_retryable
  apply_same (op_claim j r' now token) e k =
      rw e (ap (λ (x : Table Row × JournalClaim). x.0) (completed_claim key r p t w n r' now token))
  apply_same (op_complete j token q now) e k = rw e (
      ap (λ (x : Table Row × Bool). x.0)
        (completed_update_owned key r p t w (find key t) token (completed_row q now) w.found))
  apply_same (op_retryable j token m now) e k = rw e (
      ap (λ (x : Table Row × Bool). x.0)
        (completed_update_owned key r p t w (find key t) token (retryable_row m now) w.found))
  apply_same (op_retire j) e k = ground (arith, text_eq_complete j key e)

  apply-IsCompleted :
      (o : Operation) → keeps_key key (o ∷ []) ≡ true → IsCompleted key r p (apply n o t)
  apply-IsCompleted o k = elim (Bool-cases (text_eq (key_of o) key)) [
    | inl same ↦
        still (apply n o t) (ap (find key) (apply_same o (text_eq_sound (key_of o) key same) k))
    | inr e ↦ still (apply n o t) (apply_frame n key o t e)
  ]
    where
      still : (t' : Table Row) → find key t' ≡ find key t → IsCompleted key r p t'
      still t' e = record {
        row = w.row;
        found = e ∙ w.found;
        request = w.request;
        status = w.status;
        response = w.response;
      }

keeps_one :
    (key : Text) (o : Operation) (os : List Operation)
    → keeps_key key (o ∷ os) ≡ true
    → (keeps_key key (o ∷ []) ≡ true) × (keeps_key key os ≡ true)
keeps_one key (op_retire j) os h = ground arith
keeps_one key _ os h = (refl, h)

run-IsCompleted :
    (n : ℕ) (key : Text) (r : Request) (p : Payload) (os : List Operation) (t : Table Row)
    → IsCompleted key r p t
    → keeps_key key os ≡ true
    → IsCompleted key r p (run n os t)
unfolding run
run-IsCompleted n key r p [] t w h = w
run-IsCompleted n key r p (o ∷ os) t w h =
    let (one, rest) = keeps_one key o os h in
    run-IsCompleted n key r p os (apply n o t) (apply-IsCompleted n key r p t w o one) rest

-- A completed operation is executed at most once: until its key is retired, and whatever all callers
-- do, its request is answered with the first response, and the table keeps that row.
pub replay_forever :
    (n : ℕ) (key : Text) (r : Request) (p : Payload) (os : List Operation) (now : Instant)
    (token : ℕ) (t : Table Row)
    → IsCompleted key r p t
    → keeps_key key os ≡ true
    → claim n key r now token (run n os t) ≡ (run n os t, other_claim ClaimKind.replay (some p))
replay_forever n key r p os now token t w h =
    completed_claim key r p (run n os t) (run-IsCompleted n key r p os t w h) n r now token
    ∙ ground (arith, same_request_refl r)
