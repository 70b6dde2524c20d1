-- ===== src/Agent/Journal/Exclusion.antt =====
-- An owner is not disturbed before its lease ends, whatever the other callers do.
use project_vpn.Common.{
  ℕ, ◌+◌, ◌<◌, ◌≡◌, ◌≢◌, ap, ◌∙◌, ◌⊎◌, inl, inr, Bool, false, Bool-cases, List, [], ◌∷◌, Text,
  text_eq, text_eq_sound, Instant, seconds,
}
use project_vpn.Common.Table.{Table, find}
use project_vpn.Agent.Journal.{Row, Request, ClaimKind, claim}
use project_vpn.Agent.Journal.Frame.{
  claim_frame, complete_frame, mark_retryable_frame, retire_frame,
}
use project_vpn.Agent.Journal.Run.{
  Operation, op_claim, op_complete, op_retryable, op_retire, apply, run, key_of,
}
use project_vpn.Agent.Journal.Ownership.{
  IsOwned, claim-IsOwned, owned_claim, owned_update, owned_retire,
}

-- An operation on the key that is not the owner's own: a claim before the lease ends, an update with
-- another token, or a retirement.
abbrev pub IsForeign : ℕ → Instant → Operation → Type 0
IsForeign token until (op_claim key r now token') = now < until
IsForeign token until (op_complete key token' p now) = token' ≢ token
IsForeign token until (op_retryable key token' m now) = token' ≢ token
IsForeign token until (op_retire key) = Unit

-- Each operation is on another key, or is foreign.
abbrev pub AllForeign : Text → ℕ → Instant → List Operation → Type 0
AllForeign key token until [] = Unit
AllForeign key token until (o ∷ os) =
    ((text_eq (key_of o) key ≡ false) ⊎ IsForeign token until o) × AllForeign key token until os

moved :
    {key : Text} {r : Request} {token : ℕ} {until : Instant} {t : Table Row} (t' : Table Row)
    → IsOwned key r token until t
    → find key t' ≡ find key t
    → IsOwned key r token until t'
moved t' w e = record {
  row = w.row;
  found = e ∙ w.found;
  request = w.request;
  status = w.status;
  owner = w.owner;
  lease = w.lease;
}

pub apply_frame :
    (n : ℕ) (k : Text) (o : Operation) (t : Table Row)
    → text_eq (key_of o) k ≡ false
    → find k (apply n o t) ≡ find k t
unfolding apply
apply_frame n k (op_claim j r now token) t e = claim_frame k j e n r now token t
apply_frame n k (op_complete j token p now) t e = complete_frame k j e token p now t
apply_frame n k (op_retryable j token m now) t e = mark_retryable_frame k j e token m now t
apply_frame n k (op_retire j) t e = retire_frame k j e t

apply_same :
    (n : ℕ) (key : Text) (r : Request) (token : ℕ) (until : Instant) (o : Operation) (t : Table Row)
    → IsOwned key r token until t
    → key_of o ≡ key
    → IsForeign token until o
    → apply n o t ≡ t
unfolding apply
apply_same n key r token until (op_claim j r' now token') t w e f =
    rw e (owned_claim key r token until t w n r' now token' f).0
apply_same n key r token until (op_complete j token' p now) t w e f =
    rw e
      (ap (λ (x : Table Row × Bool). x.0) (owned_update key r token until t w token' p [] now f).0)
apply_same n key r token until (op_retryable j token' m now) t w e f =
    rw e
      (ap (λ (x : Table Row × Bool). x.0) (owned_update key r token until t w token' [] m now f).1)
apply_same n key r token until (op_retire j) t w e f = rw e (owned_retire key r token until t w)

apply-IsOwned :
    (n : ℕ) (key : Text) (r : Request) (token : ℕ) (until : Instant) (o : Operation) (t : Table Row)
    → IsOwned key r token until t
    → (text_eq (key_of o) key ≡ false) ⊎ IsForeign token until o
    → IsOwned key r token until (apply n o t)
apply-IsOwned n key r token until o t w (inl e) = moved (apply n o t) w (apply_frame n key o t e)
apply-IsOwned n key r token until o t w (inr f) = elim (Bool-cases (text_eq (key_of o) key)) [
  | inl same ↦
      moved (apply n o t) w
        (ap (find key) (apply_same n key r token until o t w (text_eq_sound (key_of o) key same) f))
  | inr e ↦ moved (apply n o t) w (apply_frame n key o t e)
]

-- What other callers do before the lease ends, to this key and to others, leaves the owner what it
-- has.
pub owner_undisturbed :
    (n : ℕ) (key : Text) (r : Request) (token : ℕ) (until : Instant) (os : List Operation)
    (t : Table Row)
    → IsOwned key r token until t
    → AllForeign key token until os
    → IsOwned key r token until (run n os t)
unfolding run
owner_undisturbed n key r token until [] t w f = w
owner_undisturbed n key r token until (o ∷ os) t w (f, fs) =
    owner_undisturbed n key r token until os (apply n o t)
      (apply-IsOwned n key r token until o t w f) fs

-- A claim that wins lets nobody else win: whatever other callers do in between, a claim by any of
-- them before the lease ends is answered BUSY or CONFLICT.
pub claim_exclusive_until :
    (n : ℕ) (key : Text) (r r' : Request) (now later : Instant) (token token' : ℕ)
    (os : List Operation) (t : Table Row)
    → (claim n key r now token t).1.kind ≡ ClaimKind.owner
    → AllForeign key token (now + seconds n) os
    → later < now + seconds n
    → let answer = (claim n key r' later token' (run n os (claim n key r now token t).0)).1 in
      (answer.kind ≡ ClaimKind.busy) ⊎ (answer.kind ≡ ClaimKind.conflict)
claim_exclusive_until n key r r' now later token token' os t h fs early =
    let t' = run n os (claim n key r now token t).0 in
    let w =
      owner_undisturbed n key r token (now + seconds n) os (claim n key r now token t).0
        (claim-IsOwned n key r now token t h) fs in
    (owned_claim key r token (now + seconds n) t' w n r' later token' early).1
