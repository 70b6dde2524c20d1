-- ===== src/Node.antt =====
-- Nodes and how one is chosen: `Node` of domain/entities/node.py and
-- domain/services/node_selection.py.
pub mod Selection
use project_vpn.Common.{
  ℕ, ◌≡◌, Bool, true, false, ◌&&◌, ◌||◌, Option, none, some, ◌==◌, leb_ℤ, if◌then◌else◌, ℤ, pos,
  pos_part, Text, text_eq, codes, Instant,
}
use project_vpn.Errors.{Result, ok, err, Error, domain_validation, raise_if, ◌>>=◌, ◌>>◌}

pub data NodeStatus : Type 0 where
  unknown online offline degraded : NodeStatus

abbrev number : NodeStatus → ℕ
number NodeStatus.unknown = 0
number NodeStatus.online = 1
number NodeStatus.offline = 2
number NodeStatus.degraded = 3

-- `a is b`
abbrev pub is : NodeStatus → NodeStatus → Bool
is a b = number a == number b

-- `NodeStatus(value)`; `none` stands for the ValueError.
unfoldable pub node_status_of : Text → Option NodeStatus
node_status_of value =
    if text_eq value (codes "unknown")
    then some NodeStatus.unknown
    else if text_eq value (codes "online")
    then some NodeStatus.online
    else if text_eq value (codes "offline")
    then some NodeStatus.offline
    else if text_eq value (codes "degraded")
    then some NodeStatus.degraded
    else none

pub record Node : Type 0 where
  pub id : Option ℕ
  pub node_key : Text
  pub display_name : Text
  pub api_base_url : Text
  pub status : NodeStatus
  pub is_enabled : Bool
  pub selection_weight : ℕ
  pub last_seen_at : Option Instant
  pub last_error : Option Text

-- `__post_init__`, with the weight as the caller hands it over
unfoldable pub post_init : Node → ℤ → Result Node
post_init self selection_weight = do
  raise_if (leb_ℤ selection_weight (pos 0))
      (domain_validation "Node selection weight must be positive")
  ok (record self { selection_weight = pos_part selection_weight })

unfoldable pub is_available : Node → Bool
is_available self =
    self.is_enabled && (is self.status NodeStatus.online || is self.status NodeStatus.degraded)

unfoldable pub mark_online : Node → Instant → Node
mark_online self now = record self {
  status = NodeStatus.online;
  last_seen_at = some now;
  last_error = none;
}

unfoldable pub mark_offline : Node → Instant → Text → Node
mark_offline self now error = record self { status = NodeStatus.offline; last_error = some error }
