-- ===== src/Ha/Voter/Learn.antt =====
-- handleReply of shared/ha-voter.mjs, up to the request: what a voter learns from a reply.
use forthway_command_center.Base.{
  ℕ, ◌+◌, ◌*◌, ◌/◌, max, Bool, true, false, Option, none, some, List, [], ◌∷◌, ◌++◌, if◌then◌else◌,
  Text, codes, text_eq, Number, Value, to_number, string_of, clean_id, micros,
}
use forthway_command_center.Ha.Version.{RawVersion, clean_version, older}
use forthway_command_center.Ha.Wire.{RawPanel, PanelUrl, Reply, Grant}
use forthway_command_center.Ha.Panels.{clean_panels, same_panels}
use forthway_command_center.Ha.Voter.State.{SavedVote, Voter, Refusal, persist, adopt}

-- What a voter does to the outside, in order: a save that succeeds, `onPanels`, a grant sent.
pub data Effect : Type 0 where
  saves : SavedVote → Effect
  tells : List PanelUrl → Effect
  sends : Grant → Effect

pub data Role : Type 0 where
  leader follower candidate : Role

pub data ReplyError : Type 0 where
  wrong_node : ReplyError

-- The record that the voter keeps of a panel node.
pub record Node : Type 0 where
  pub server_id : Text
  pub reachable : Bool
  pub role : Option Role
  pub term : Option ℕ
  pub leader_id : Option Text
  pub last_ok_at : Option ℕ
  pub error : Option ReplyError
  pub last_refusal : Option Refusal

-- What surrounds one reply: the clocks, whether this reply answers a grant, whether the two calls
-- of `save` succeed, and what `panels()` returns.
pub record Setting : Type 0 where
  pub now : ℕ
  pub wall_ms : ℕ
  pub wall_iso : Text
  pub follow_up : Bool
  pub saves_committed : Bool
  pub saves_vote : Bool
  pub panels : List RawPanel

abbrev role_named : Text → Option Role
role_named s =
    if text_eq s (codes "leader")
    then some Role.leader
    else if text_eq s (codes "follower")
    then some Role.follower
    else if text_eq s (codes "candidate")
    then some Role.candidate
    else none

abbrev read_role : Value → Option Role
read_role v = elim (string_of v) [ none ↦ none | some s ↦ role_named s ]

abbrev read_term : Number → Option ℕ
read_term (Number.decimal n) = some (n / 1000)
read_term (Number.below_zero n) = some 0
read_term _ = none

abbrev pub is_leader : Option Role → Bool
is_leader (some Role.leader) = true
is_leader _ = false

-- The node's id, if the reply comes from the node that was asked.
unfoldable pub answering : Node → Reply → Option Text
answering n r = elim (clean_id r.node_id) [
  | none ↦ none
  | some i ↦ if text_eq i n.server_id then some i else none
]

unfoldable pub reached : Setting → Node → Reply → Node
reached e n r = record n {
  reachable = true;
  role = read_role r.role;
  term = read_term (to_number r.term);
  leader_id = clean_id r.leader_id;
  last_ok_at = some e.wall_ms;
  error = none;
}

abbrev if_saved : Bool → SavedVote → List Effect
if_saved true s = saves s ∷ []
if_saved false s = []

-- The four things that a voter learns from a leader.
unfoldable pub learn_timings : Voter → Option Value → Voter
unfolding adopt
learn_timings v none = v
learn_timings v (some t) = adopt v t

unfoldable pub learn_committed : Setting → Voter → Option RawVersion → Voter × List Effect
learn_committed e v none = (v, [])
learn_committed e v (some c) =
    let new = clean_version c in
    let v' = record v { state = record (v.state) { known_committed = new } } in
    if older v.known_committed new then (v', if_saved e.saves_committed (persist v')) else (v, [])

unfoldable pub learn_handover : Setting → Voter → Option Text → Voter
learn_handover e v none = v
learn_handover e v (some to) = record v {
  handover =
      some (record { target = to; until = max v.lease_until e.now + micros (2 * v.heartbeat_ms) });
}

tell_panels : List PanelUrl → List PanelUrl → List Effect
tell_panels [] cur = []
tell_panels (p ∷ ps) cur = if same_panels (p ∷ ps) cur then [] else tells (p ∷ ps) ∷ []

unfoldable pub learn_panels : Setting → Option (List RawPanel) → List Effect
unfolding tell_panels
learn_panels e none = []
learn_panels e (some ps) = tell_panels (clean_panels ps) (clean_panels e.panels)

unfoldable pub learn : Setting → Voter → Reply → Voter × List Effect
unfolding learn_timings learn_committed learn_handover learn_panels persist
learn e v r =
    let (v', saved) = learn_committed e (learn_timings v r.timings) r.committed in
    (learn_handover e v' (clean_id r.handover_to), saved ++ learn_panels e r.panels)
