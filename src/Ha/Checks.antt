-- ===== src/Ha/Checks.antt =====
-- The theorems on panel failover at concrete inputs.
use forthway_command_center.Base.{
  ◌+◌, ◌*◌, ◌≤◌, ◌≡◌, ◌⊎◌, ◌↔◌, refl, inl, inr, true, false, none, some, [], ◌∷◌, arith, Text,
  codes, text_eq, Value, whole, Number, map_get, is_id, Bool-cases,
}
use forthway_command_center.Ha.Timing.{ha_timings, clean_lease_ms, effective_failover_seconds}
use forthway_command_center.Ha.Timing.Bounds.{IsSound, ha_timings-IsSound}
use forthway_command_center.Ha.Version.{initial_version, older, raw_version}
use forthway_command_center.Ha.Wire.{Reply}
use forthway_command_center.Ha.Voter.State.{SavedVote, Voter, create_voter, raw_vote, refusal}
use forthway_command_center.Ha.Voter.Learn.{answering, reached}
use forthway_command_center.Ha.Voter.Reply.{handle_reply, answer, grant_vote, request_of, learned}
use forthway_command_center.Ha.Voter.Lease.{IsEntitled, refusal_iff, Follows, handle_reply-Follows}
use forthway_command_center.Ha.Voter.Grants.{disk_after, Sent, handle_reply-Sent}
use forthway_command_center.Ha.Voter.Disk.{
  IsStored, IsClean, Resumes, create_voter-Resumes, Quiet, handle_reply-Quiet,
}
use forthway_command_center.Ha.Panel.State.{
  failover_seconds, timings, enabled_servers, is_panel_server, Panel, Role, Server, Counted,
  majority, is_enabled, ha_active,
}
use forthway_command_center.Ha.Panel.Lease.{
  other_lease, valid_issued, grant_until, valid_grant_count,
}
use forthway_command_center.Ha.Panel.Lease.Requests.{IsFound, valid_issued-IsFound, grant_until-le}
use forthway_command_center.Ha.Panel.Election.{
  Moment, ensure_ha_leading, candidacy_blocker, evaluate, evaluate_candidate, maybe_candidate,
  has_majority, promote,
}
use forthway_command_center.Ha.Panel.Ballot.{raw_request}
use forthway_command_center.Ha.Panel.Rules.{
  IsStanding, Stood, evaluate_serves, evaluate_wins, evaluate-Stood,
}
use forthway_command_center.Ha.Safety.System.{blank_vote}
use forthway_command_center.Ha.Safety.Exclusion.{one_node_at_a_time}
use forthway_command_center.Ha.Safety.Majority.{Mirrors, no_two_majorities}
use forthway_command_center.Ha.Examples.{node_a, reply_a, record_a, setting, cast_a, issued_a, ran}

one_node_at_a_time_example : ◌≡◌ {A = Text} node_a node_a
one_node_at_a_time_example = one_node_at_a_time node_a node_a ran.1 ran.2 ran.2

abbrev server_a : Text → Server
server_a i = record { id = i; enabled = true; panel_enabled = true }

abbrev counted_a : Counted
counted_a = record { term = 1; nonce = 15000000; until = 20440000 }

abbrev main : Text
main = codes "main"

-- Node a as a candidate of term 1 that has won the vote of the server named `main`.
abbrev candidate_a : Panel
candidate_a = record {
  me = node_a;
  ha_boot = true;
  servers = server_a main ∷ [];
  config_enabled = true;
  armed = false;
  failover_setting = whole 15;
  follower_setting = whole 20;
  role = Role.candidate;
  term = 1;
  max_term_seen = 1;
  local_term = 1;
  local_version = initial_version;
  tracker_version = none;
  leader_id = none;
  ha_leading = false;
  promoting = false;
  fencing = false;
  stopped = false;
  candidacy = some (record { term = 1; since = 15000000; until = 30000000; handover = false });
  backoff_until = 0;
  cond_since = 0;
  first_delay = none;
  last_state_ok_at = 0;
  handover_expected_until = 0;
  handover = none;
  committed = initial_version;
  leader_restart = none;
  restart_until = none;
  reclaim_until = 0;
  grants = (main, counted_a) ∷ [];
  issued = [];
  voter_messages = [];
}

abbrev moment : Moment
moment = record { now = 15000000; backoff = 1000000; delay = 0; saves_local = true }

mirror : (voter : Text) → Mirrors ran.0 candidate_a voter 15000000
unfolding ran map_get
mirror voter = record {
  counted =
      λ g e. elim (Bool-cases (text_eq main voter)) [ inl t ↦ ground arith | inr t ↦ ground arith ];
  clock = refl;
}

no_two_majorities_example : candidate_a.me ≡ candidate_a.me
unfolding has_majority valid_grant_count text_eq majority is_enabled
no_two_majorities_example =
    no_two_majorities 1360 (λ voter. ran.0) candidate_a candidate_a 1 1 15000000 15000000
      (λ voter. ran.1) mirror mirror refl (refl, tt) (refl, tt) refl refl

abbrev voter_a : Voter
voter_a = create_voter (raw_vote blank_vote) Value.undefined 0

-- The voter of a fresh start votes for node a when its hold has passed.
handle_reply-Sent_example :
    Sent setting voter_a record_a reply_a cast_a.grant
      (handle_reply setting voter_a record_a reply_a)
unfolding handle_reply text_eq valid_issued raw_request is_id answering learned reached answer
    request_of refusal create_voter raw_vote older clean_lease_ms grant_vote
handle_reply-Sent_example = handle_reply-Sent setting voter_a record_a reply_a cast_a.grant refl

handle_reply-Follows_example :
    Follows 15000000 voter_a (handle_reply setting voter_a record_a reply_a).voter
handle_reply-Follows_example = handle_reply-Follows setting voter_a record_a reply_a

refusal_iff_example :
    (refusal voter_a 15000000 node_a 1 (raw_version initial_version) ≡ none)
    ↔ IsEntitled voter_a 15000000 node_a 1 (raw_version initial_version)
refusal_iff_example = refusal_iff voter_a 15000000 node_a 1 (raw_version initial_version)

abbrev vote_a : SavedVote
vote_a = record {
  term = 1;
  voted_for = some node_a;
  granted_at = none;
  lease_ms = 6800;
  known_committed = initial_version;
}

vote_a-IsClean : IsClean vote_a
unfolding is_id
vote_a-IsClean = record { id = λ i e. ground arith; short = omega arith; long = omega arith }

create_voter-Resumes_example :
    Resumes vote_a 7000 (create_voter (raw_vote vote_a) Value.undefined 7000)
create_voter-Resumes_example = create_voter-Resumes vote_a Value.undefined 7000 vote_a-IsClean

-- A reply from a follower, without a request.
abbrev plain_reply : Reply
plain_reply = record reply_a { request = none }

voter_a-IsStored : IsStored blank_vote voter_a
unfolding create_voter raw_vote clean_lease_ms
voter_a-IsStored = record { vote = refl; length = refl }

handle_reply-Quiet_example :
    Quiet
      (disk_after blank_vote (handle_reply setting voter_a record_a plain_reply).effects)
      voter_a
      (handle_reply setting voter_a record_a plain_reply).voter
unfolding handle_reply text_eq is_id answering learned reached answer request_of
handle_reply-Quiet_example =
    handle_reply-Quiet setting voter_a record_a plain_reply blank_vote voter_a-IsStored refl

ha_timings-IsSound_example : IsSound (effective_failover_seconds (whole 20)) (ha_timings (whole 20))
ha_timings-IsSound_example = ha_timings-IsSound (whole 20)

valid_issued-IsFound_example : IsFound (issued_a ∷ []) 16000000 1 (Number.decimal 15000000) issued_a
unfolding valid_issued
valid_issued-IsFound_example =
    valid_issued-IsFound (issued_a ∷ []) 16000000 1 (Number.decimal 15000000) refl

grant_until-le_example :
    (grant_until issued_a (whole 6800) + 1360 * 1000 ≤ 15000000 + 6800 * 1000)
    × (grant_until issued_a (whole 6800) + 1360 * 1000 ≤ 15000000 + 6800 * 1000)
unfolding grant_until clean_lease_ms
grant_until-le_example = grant_until-le issued_a 6800 (omega arith) (omega arith) (omega arith)

candidate_a-IsStanding : IsStanding candidate_a
candidate_a-IsStanding c e = ground arith

evaluate_wins_example :
    (candidate_a.role ≡ Role.candidate)
    × (has_majority (evaluate moment candidate_a) (evaluate moment candidate_a).term 15000000
        ≡ true)
unfolding evaluate evaluate_candidate has_majority valid_grant_count text_eq majority is_enabled
    promote
evaluate_wins_example = evaluate_wins moment candidate_a candidate_a-IsStanding (λ e. cc) refl

-- Node a once it leads, armed.
abbrev leader_a : Panel
leader_a = record candidate_a {
  role = Role.leader;
  armed = true;
  ha_leading = true;
  candidacy = none;
}

evaluate_serves_example :
    ((evaluate moment leader_a).fencing ≡ true)
    ⊎ (has_majority (evaluate moment leader_a) (evaluate moment leader_a).term 15000000 ≡ true)
unfolding evaluate has_majority valid_grant_count text_eq majority is_enabled ha_active
    ensure_ha_leading other_lease
evaluate_serves_example = evaluate_serves moment leader_a refl (λ c e. cc) refl refl refl

-- Node a as a follower that has lost its leader, among three servers.
abbrev follower_a : Panel
follower_a = record candidate_a {
  servers = server_a main ∷ server_a node_a ∷ server_a (codes "b") ∷ [];
  local_version = record { term = 1; seq = 4 };
  role = Role.follower;
  candidacy = none;
  grants = [];
}

evaluate-Stood_example : Stood moment follower_a (evaluate moment follower_a)
unfolding failover_seconds evaluate maybe_candidate text_eq timings ha_timings other_lease
    candidacy_blocker enabled_servers is_panel_server
evaluate-Stood_example = evaluate-Stood moment follower_a refl refl
