-- ===== src/Agent/Journal/Run.antt =====
-- The journal under many callers: each transaction is one operation of the sequence.
use project_vpn.Common.{ℕ, List, [], ◌∷◌, Text, Instant}
use project_vpn.Common.Json.{Payload}
use project_vpn.Common.Table.{Table}
use project_vpn.Agent.Journal.{Row, Request, claim, complete, mark_retryable, retire}

pub data Operation : Type 0 where
  op_claim : Text → Request → Instant → ℕ → Operation
  op_complete : Text → ℕ → Payload → Instant → Operation
  op_retryable : Text → ℕ → Text → Instant → Operation
  op_retire : Text → Operation

-- The table after an operation, with the length of a lease.
unfoldable pub apply : ℕ → Operation → Table Row → Table Row
apply n (op_claim key r now token) t = (claim n key r now token t).0
apply n (op_complete key token p now) t = (complete key token p now t).0
apply n (op_retryable key token e now) t = (mark_retryable key token e now t).0
apply n (op_retire key) t = (retire key t).0

unfoldable pub run : ℕ → List Operation → Table Row → Table Row
run n [] t = t
run n (o ∷ os) t = run n os (apply n o t)

abbrev pub key_of : Operation → Text
key_of (op_claim key r now token) = key
key_of (op_complete key token p now) = key
key_of (op_retryable key token e now) = key
key_of (op_retire key) = key
