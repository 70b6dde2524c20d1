-- ===== src/Tests/Agents.antt =====
-- The journal and the signed requests of infrastructure/nodes.
use project_vpn.Common.{
  ◌+◌, ◌≡◌, ◌⊎◌, refl, none, some, List, [], ◌∷◌, inl, inr, arith, codes, Text, seconds,
}
use project_vpn.Common.Table.{find}
use project_vpn.Agent.Journal.{Row, RowStatus, Request, ClaimKind, claim, other_claim}
use project_vpn.Agent.Journal.Run.{Operation, op_claim, op_complete, op_retire, run}
use project_vpn.Agent.Journal.Exclusion.{AllForeign, claim_exclusive_until}
use project_vpn.Agent.Journal.Replay.{replay_forever}

abbrev key : Text
key = codes "op-1"

abbrev request : Request
request = record {
  request_hash = codes "abc";
  operation = codes "provision_client";
  client_uuid = codes "u1";
  inbound_id = codes "1";
}

abbrev other_request : Request
other_request = record request { request_hash = codes "def" }

-- The row of token 42, whose lease ends after thirty seconds.
abbrev owned : Row
owned = record {
  request = request;
  status = RowStatus.in_progress;
  response = none;
  owner_token = some 42;
  lease_expires_at = some (0 + seconds 30);
  last_error = none;
  created_at = 0;
  updated_at = 0;
}

-- Others claim the key, complete it with another token, and retire another key.
abbrev others : List Operation
others = op_claim key request 1000 43 ∷ op_complete key 43 [] 2000 ∷ op_retire (codes "op-2") ∷ []

foreign : AllForeign key 42 (0 + seconds 30) others
foreign = (inr (omega arith), (inr (ground arith), (inl refl, tt)))

found : find key ((key, owned) ∷ []) ≡ some owned
unfolding find
found = refl

wins : (claim 30 key request 0 42 []).1.kind ≡ ClaimKind.owner
unfolding claim find
wins = refl

claim_exclusive_until_example :
    let answer =
      (claim 30 key other_request 5000 44 (run 30 others (claim 30 key request 0 42 []).0)).1 in
    (answer.kind ≡ ClaimKind.busy) ⊎ (answer.kind ≡ ClaimKind.conflict)
claim_exclusive_until_example =
    claim_exclusive_until 30 key request other_request 0 5000 42 44 others [] wins foreign
      (omega arith)

abbrev done : Row
done = record owned { status = RowStatus.completed; response = some []; owner_token = none }

found_done : find key ((key, done) ∷ []) ≡ some done
unfolding find
found_done = refl

replay_forever_example :
    claim 30 key request 9000 45 (run 30 others ((key, done) ∷ []))
    ≡ (run 30 others ((key, done) ∷ []), other_claim ClaimKind.replay (some []))
replay_forever_example =
    replay_forever 30 key request [] others 9000 45 ((key, done) ∷ [])
      (record { row = done; found = found_done; request = refl; status = refl; response = refl })
      refl
