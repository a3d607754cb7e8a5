-- ===== src/Ha/Examples.antt =====
-- A concrete run of the vote protocol, and the data of the other checks.
use forthway_command_center.Base.{
  refl, true, false, none, some, [], arith, Text, codes, text_eq, Value, whole, Number, here, is_id,
}
use forthway_command_center.Ha.Timing.{clean_lease_ms}
use forthway_command_center.Ha.Version.{initial_version, older}
use forthway_command_center.Ha.Wire.{Reply}
use forthway_command_center.Ha.Voter.State.{create_voter, raw_vote, refusal}
use forthway_command_center.Ha.Voter.Learn.{Node, Setting, answering, reached}
use forthway_command_center.Ha.Voter.Reply.{handle_reply, answer, grant_vote, request_of, learned}
use forthway_command_center.Ha.Panel.State.{Issued}
use forthway_command_center.Ha.Panel.Lease.{valid_issued, record_issued, grant_until}
use forthway_command_center.Ha.Panel.Ballot.{Request, raw_request}
use forthway_command_center.Ha.Safety.System.{
  System, Cast, Reach, wait, ask, count, vote, start, next,
}
use forthway_command_center.Ha.Safety.Exclusion.{CountsNow}

abbrev pub node_a : Text
node_a = codes "a"

abbrev pub request_a : Request
request_a = record {
  candidate = node_a;
  term = 1;
  nonce = 15000000;
  lease_ms = 6800;
  version = initial_version;
}

abbrev pub reply_a : Reply
reply_a = record {
  node_id = Value.text node_a Number.nan;
  role = Value.text (codes "candidate") Number.nan;
  term = whole 1;
  leader_id = Value.null;
  timings = none;
  committed = none;
  handover_to = Value.undefined;
  panels = none;
  request = some (raw_request request_a);
}

abbrev pub record_a : Node
record_a = record {
  server_id = node_a;
  reachable = false;
  role = none;
  term = none;
  leader_id = none;
  last_ok_at = none;
  error = none;
  last_refusal = none;
}

abbrev pub setting : Setting
setting = record {
  now = 15000000;
  wall_ms = 0;
  wall_iso = [];
  follow_up = false;
  saves_committed = true;
  saves_vote = true;
  panels = [];
}

abbrev pub cast_a : Cast
cast_a = record {
  grant = record { candidate = node_a; term = 1; nonce = Number.decimal 15000000; lease_ms = 6800 };
  at = 15000000;
}

abbrev pub issued_a : Issued
issued_a = record { term = 1; nonce = 15000000; lease_ms = 6800; margin_ms = 1360 }

-- The hold of a fresh start passes, node a asks, the voter votes, and the node counts the vote.
unfoldable pub ran : (s : System) × Reach 1360 s × CountsNow 1360 s node_a
unfolding handle_reply text_eq valid_issued raw_request is_id answering learned reached answer
    request_of refusal create_voter raw_vote older clean_lease_ms grant_vote record_issued
    grant_until
ran = (
  _,
  next
      (next
        (next (next start (wait 15000000)) (ask request_a 1360 (omega arith) (omega arith) refl))
        (vote setting record_a reply_a
          (record { from = node_a; request = request_a; at = 15000000 }) (here refl) refl refl))
      (count cast_a issued_a 15000000 (here refl) refl refl),
  record {
    grant = record { term = 1; nonce = 15000000; until = 20440000 };
    counted = refl;
    some_time = omega arith;
    live = omega arith;
  },
)
