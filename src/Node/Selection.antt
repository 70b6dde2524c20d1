-- ===== src/Node/Selection.antt =====
-- domain/services/node_selection.py: which candidates may take a client, and the weighted draw.
-- `secrets.randbelow` is a parameter.
pub mod Draw
pub mod Members
pub mod Choice
pub mod Endpoint
use project_vpn.Common.{
  ℕ, ◌+◌, ◌≡◌, max, Bool, true, false, not, ◌&&◌, ◌||◌, Option, none, some, List, [], ◌∷◌, ◌==◌,
  ltb, leb, leb_ℤ, ltb_ℤ, or_else, filter, if◌then◌else◌, ℤ, pos, pos_part, Text, Instant, seconds,
}
use project_vpn.Node.{NodeStatus, is, node_status_of}

pub record Candidate : Type 0 where
  pub node_id : ℕ
  pub endpoint_id : ℕ
  pub node_status : Text
  pub is_enabled : Bool
  pub last_checked_at : Option Instant
  pub active_clients : Option ℤ
  pub max_clients : Option ℤ
  pub selection_weight : ℤ
  pub local_reserved_clients : ℤ

-- `max(n or 0, 0)`
abbrev clients : Option ℤ → ℕ
clients none = 0
clients (some n) = pos_part n

unfoldable pub effective_clients : Candidate → ℕ
effective_clients self =
    max (clients self.active_clients) (clients (some self.local_reserved_clients))

-- `last_checked_at is None or last_checked_at < now - timedelta(seconds=stale_after_seconds)`
abbrev is_stale : ℕ → Option Instant → Instant → Bool
is_stale stale_after_seconds none now = true
is_stale stale_after_seconds (some t) now = ltb (t + seconds stale_after_seconds) now

abbrev serves : Option NodeStatus → Bool
serves none = false
serves (some s) = is s NodeStatus.online || is s NodeStatus.degraded

-- `NodeAvailabilityPolicy.allows_operation`
unfoldable pub allows_operation : ℕ → Text → Bool → Option Instant → Instant → Bool → Bool
allows_operation stale_after_seconds node_status is_enabled last_checked_at now require_enabled =
    if require_enabled && not is_enabled
    then false
    else if is_stale stale_after_seconds last_checked_at now
    then false
    else serves (node_status_of node_status)

-- `NodeAvailabilityPolicy.eligible`
unfoldable pub eligible : ℕ → Instant → Candidate → Bool
unfolding allows_operation effective_clients
eligible stale_after_seconds now c = elim c.max_clients [
  | none ↦ false
  | some m ↦
      if leb_ℤ m (pos 0)
      then false
      else if not (
          allows_operation stale_after_seconds c.node_status c.is_enabled c.last_checked_at now
            true)
      then false
      else ltb_ℤ (pos (effective_clients c)) m
]

-- `NodeStatus(c.node_status) is s`
abbrev pub has_status : NodeStatus → Candidate → Bool
has_status s c = elim (node_status_of c.node_status) [ none ↦ false | some t ↦ is t s ]

-- The order of `sorted(pool, key=lambda c: (c.node_id, c.endpoint_id))`.
abbrev pub key_le : Candidate → Candidate → Bool
key_le a b = ltb a.node_id b.node_id || (a.node_id == b.node_id && leb a.endpoint_id b.endpoint_id)

unfoldable pub insert : Candidate → List Candidate → List Candidate
insert c [] = c ∷ []
insert c (d ∷ ds) = if key_le c d then c ∷ d ∷ ds else d ∷ insert c ds

-- A stable sort.
unfoldable pub sorted : List Candidate → List Candidate
unfolding insert
sorted [] = []
sorted (c ∷ cs) = insert c (sorted cs)

abbrev pub member : ℕ → List ℕ → Bool
member n [] = false
member n (m ∷ ms) = n == m || member n ms

-- The values of `by_node`: the first candidate of each node, in order, but for the nodes seen.
unfoldable pub first_per_node : List ℕ → List Candidate → List Candidate
first_per_node seen [] = []
first_per_node seen (c ∷ cs) =
    let kept = c ∷ first_per_node (c.node_id ∷ seen) cs in
    let skipped = first_per_node seen cs in if member c.node_id seen then skipped else kept

-- `max(1, int(c.selection_weight))`
abbrev pub weight : Candidate → ℕ
weight c = max 1 (pos_part c.selection_weight)

unfoldable pub total_weight : List Candidate → ℕ
total_weight [] = 0
total_weight (c ∷ cs) = weight c + total_weight cs

-- The loop over the nodes, which adds up the weights until they pass the ticket.
unfoldable pub draw : ℕ → ℕ → List Candidate → Option Candidate
draw ticket cumulative [] = none
draw ticket cumulative (c ∷ cs) =
    let rest = draw ticket (cumulative + weight c) cs in
    if ltb ticket (cumulative + weight c) then some c else rest

-- `nodes[-1]`
abbrev last : List Candidate → Option Candidate
last [] = none
last (c ∷ []) = some c
last (c ∷ d ∷ ds) = last (d ∷ ds)

-- `online or degraded`
abbrev pub online_or : List Candidate → List Candidate → List Candidate
online_or [] degraded = degraded
online_or (c ∷ cs) degraded = c ∷ cs

unfoldable pub pool_of : ℕ → Instant → List Candidate → List Candidate
unfolding eligible
pool_of stale_after_seconds now candidates =
    let fit = filter (eligible stale_after_seconds now) candidates in
    online_or (filter (has_status NodeStatus.online) fit)
      (filter (has_status NodeStatus.degraded) fit)

unfoldable pub nodes_of : List Candidate → List Candidate
unfolding sorted first_per_node
nodes_of pool = first_per_node [] (sorted pool)

-- The draw among the nodes of a pool that is not empty.
unfoldable pub draw_from : (ℕ → ℕ) → List Candidate → Option Candidate
unfolding total_weight draw
draw_from randbelow nodes = or_else (draw (randbelow (total_weight nodes)) 0 nodes) (last nodes)

abbrev pub choose : (ℕ → ℕ) → List Candidate → Option Candidate
choose randbelow [] = none
choose randbelow (c ∷ cs) = draw_from randbelow (nodes_of (c ∷ cs))

-- `WeightedNodeSelector.select`
unfoldable pub select : (ℕ → ℕ) → List Candidate → Instant → ℕ → Option Candidate
unfolding pool_of nodes_of draw_from
select randbelow candidates now stale_after_seconds =
    choose randbelow (pool_of stale_after_seconds now candidates)
