-- ===== src/Tests/Nodes.antt =====
-- Candidates of domain/services/node_selection.py.
use project_vpn.Common.{
  ◌+◌, ◌<◌, ◌≡◌, ◌↔◌, ◌⊎◌, refl, true, false, none, some, List, [], ◌∷◌, ◌++◌, In, arith, pos,
  codes,
}
use project_vpn.Node.{NodeStatus, node_status_of}
use project_vpn.Node.Selection
use project_vpn.Node.Selection.{Candidate, eligible, has_status, select, draw, weight, total_weight}
use project_vpn.Node.Selection.Draw.{draw_fair}
use project_vpn.Node.Selection.Choice.{select_sound, select_complete}

-- One is online with room for two, one is degraded and one is full.
abbrev small : Candidate
small = record {
  node_id = 1;
  endpoint_id = 10;
  node_status = codes "online";
  is_enabled = true;
  last_checked_at = some 1000;
  active_clients = some (pos 8);
  max_clients = some (pos 10);
  selection_weight = pos 3;
  local_reserved_clients = pos 0;
}

abbrev weak : Candidate
weak = record small {
  node_id = 2;
  endpoint_id = 20;
  node_status = codes "degraded";
  selection_weight = pos 5;
}

abbrev full : Candidate
full = record small { node_id = 3; endpoint_id = 30; local_reserved_clients = pos 10 }

abbrev offered : List Candidate
offered = full ∷ weak ∷ small ∷ []

chosen : select (λ n. 0) offered 2000 60 ≡ some small
unfolding select eligible Selection.pool_of Selection.nodes_of Selection.draw_from draw
    node_status_of
chosen = refl

select_sound_example :
    In small offered
    × (eligible 60 2000 small ≡ true)
    × ((has_status NodeStatus.online small ≡ true)
        ⊎ ((has_status NodeStatus.degraded small ≡ true)
            × ((d : Candidate)
                → In d offered
                → eligible 60 2000 d ≡ true
                → has_status NodeStatus.online d ≡ false)))
select_sound_example = select_sound (λ n. 0) offered 2000 60 small chosen

select_complete_example :
    (select (λ n. 0) offered 2000 60 ≡ none)
    ↔ ((d : Candidate) → In d offered → eligible 60 2000 d ≡ false)
select_complete_example = select_complete (λ n. 0) offered 2000 60

weights : 5 < 0 + total_weight (small ∷ weak ∷ [])
unfolding total_weight
weights = omega arith

within : 4 < weight weak
within = omega arith

draw_fair_example : draw (total_weight (small ∷ []) + 4) 0 ((small ∷ []) ++ weak ∷ []) ≡ some weak
draw_fair_example = draw_fair (small ∷ []) weak [] 4 within
