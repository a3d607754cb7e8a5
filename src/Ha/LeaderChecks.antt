-- ===== src/Ha/LeaderChecks.antt =====
-- The leader that a voter sees, among concrete nodes.
use forthway_command_center.Base.{◌≡◌, refl, true, some, [], ◌∷◌, Text, codes, text_eq, Has, All}
use forthway_command_center.Ha.Voter.Learn.{Node, Role}
use forthway_command_center.Ha.Voter.Nodes.{Nodes, best_of, claims_lead, leader}
use forthway_command_center.Ha.Voter.Nodes.Leader.{Beats, leader-Beats}
use forthway_command_center.Ha.Examples.{node_a, record_a}

-- Node a as its voter sees it while it leads, beside a node that does not answer.
abbrev leading_a : Text × Node
leading_a = (
  codes "https://a",
  record record_a {
    reachable = true;
    role = some Role.leader;
    term = some 1;
    leader_id = some node_a;
  },
)

abbrev nodes : Nodes
nodes = (codes "https://b", record_a) ∷ leading_a ∷ []

leader-Beats_example :
    Has leading_a nodes × (claims_lead leading_a.1 ≡ true) × All (Beats leading_a) nodes
unfolding leader claims_lead text_eq best_of
leader-Beats_example = leader-Beats nodes leading_a refl
