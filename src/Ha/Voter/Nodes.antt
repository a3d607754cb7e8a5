-- ===== src/Ha/Voter/Nodes.antt =====
-- The panel nodes that a voter of shared/ha-voter.mjs talks to: syncNodes, voteBody, leader() and
-- status(). The map goes by the node's URL; timers are left out.
pub mod Leader
use forthway_command_center.Base.{
  ℕ, ◌-◌, Bool, true, false, not, ◌&&◌, Option, none, some, List, [], ◌∷◌, ltb, if◌then◌else◌,
  select, any, Text, text_eq, is_text, round_ms, map_get, map_set,
}
use forthway_command_center.Ha.Version.{Version}
use forthway_command_center.Ha.Wire.{RawPanel, PanelUrl, Grant}
use forthway_command_center.Ha.Panels.{clean_panels}
use forthway_command_center.Ha.Voter.State.{Voter, lease_left}
use forthway_command_center.Ha.Voter.Learn.{Node, Role, is_leader}

abbrev pub Nodes : Type 0
Nodes = List (Text × Node)

pub record VoteMessage : Type 0 where
  pub voter_id : Text
  pub term : ℕ
  pub voted_for : Option Text
  pub lease_left_ms : ℕ
  pub lease_ms : ℕ
  pub heartbeat_ms : ℕ
  pub proto : ℕ
  pub known_committed : Version
  pub grant : Option Grant

unfoldable pub vote_body : Text → Voter → ℕ → Option Grant → VoteMessage
vote_body voter_id v now grant = record {
  voter_id = voter_id;
  term = v.term;
  voted_for = v.voted_for;
  lease_left_ms = lease_left v now;
  lease_ms = v.lease_len;
  heartbeat_ms = v.heartbeat_ms;
  proto = 2;
  known_committed = v.known_committed;
  grant = grant;
}

new_node : PanelUrl → Node
new_node p = record {
  server_id = p.server_id;
  reachable = false;
  role = none;
  term = none;
  leader_id = none;
  last_ok_at = none;
  error = none;
  last_refusal = none;
}

add_node : PanelUrl → Option Node → Node
unfolding new_node
add_node p none = new_node p
add_node p (some n) = record n { server_id = p.server_id }

add_nodes : List PanelUrl → Nodes → Nodes
unfolding add_node
add_nodes [] ns = ns
add_nodes (p ∷ ps) ns =
    add_nodes ps (map_set ns p.direct_url (add_node p (map_get ns p.direct_url)))

-- `syncNodes`, for what `panels()` returns; it returns nothing when it fails.
unfoldable pub sync_nodes : List RawPanel → Nodes → Nodes
unfolding add_nodes
sync_nodes raw ns =
    let wanted = clean_panels raw in
    add_nodes wanted (select (λ x. any (λ p. text_eq p.direct_url x.0) wanted) ns)

-- A node that answers as the leader and names itself.
unfoldable pub claims_lead : Node → Bool
claims_lead n = n.reachable && is_leader n.role && is_text n.leader_id n.server_id

-- `(a.term ?? -1) < (b.term ?? -1)`
unfoldable pub term_less : Option ℕ → Option ℕ → Bool
term_less a none = false
term_less none (some b) = true
term_less (some a) (some b) = ltb a b

abbrev pub better : Option (Text × Node) → Text × Node → Option (Text × Node)
better none x = some x
better (some b) x = if term_less b.1.term x.1.term then some x else some b

unfoldable pub best_of : Option (Text × Node) → Nodes → Option (Text × Node)
best_of best [] = best
best_of best (x ∷ ns) = best_of (if claims_lead x.1 then better best x else best) ns

-- `leader()`: the node, with its URL.
unfoldable pub leader : Nodes → Option (Text × Node)
leader ns = best_of none ns
