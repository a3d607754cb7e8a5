-- ===== src/Ha/Panel/Ballot.antt =====
-- POST /ha/vote on a panel node: buildVoteReply and handleVote of panel/lib/ha.mjs. The token check
-- and the parsing of the body are before it.
use forthway_command_center.Base.{
  map_get, map_set, map_delete, ℕ, ◌-◌, ◌/◌, Bool, true, false, not, ◌&&◌, ◌||◌, Option, none, some,
  ◌∷◌, ltb, leb, ◌==◌, if◌then◌else◌, Text, is_text, Number, Value, to_number, string_of, clean_id,
  min, round_ms, whole,
}
use forthway_command_center.Ha.Timing.{advertised, Advertised}
use forthway_command_center.Ha.Version.{RawVersion, Version, clean_version, raw_version}
use forthway_command_center.Ha.Wire.{RawRequest}
use forthway_command_center.Ha.Panel.State.{
  Panel, Role, Issued, Counted, VoterMessage, LeaderHandover, failover_seconds, timings, note_term,
}
use forthway_command_center.Ha.Panel.Lease.{issued_to, valid_issued, record_issued, grant_until}
use forthway_command_center.Ha.Panel.Election.{Moment, evaluate}

pub record RawGrant : Type 0 where
  pub candidate : Value
  pub term : Value
  pub nonce : Value
  pub lease_ms : Value

-- What `Number()` makes of a field of a message, in thousandths and cut off at 0. An infinite one,
-- which only a numeral like 1e999 gives, is outside the model.
pub data Sent : Type 0 where
  not_a_number below_zero : Sent
  decimal : ℕ → Sent

-- The body of a voter's message.
pub record VoteBody : Type 0 where
  pub term : Sent
  pub voted_for : Value
  pub lease_left_ms : Sent
  pub heartbeat_ms : Value
  pub known_committed : RawVersion
  pub grant : Option RawGrant

pub record Request : Type 0 where
  pub candidate : Text
  pub term : ℕ
  pub nonce : ℕ
  pub lease_ms : ℕ
  pub version : Version

pub record VoteReply : Type 0 where
  pub node_id : Text
  pub role : Role
  pub term : ℕ
  pub leader_id : Option Text
  pub committed : Option Version
  pub timings : Option Advertised
  pub handover_to : Option Text
  pub restarting_ms : Option ℕ
  pub request : Option Request

-- The request as JSON carries it to the voter.
unfoldable pub raw_request : Request → RawRequest
unfolding raw_version
raw_request q = record {
  candidate = Value.text q.candidate Number.nan;
  term = whole q.term;
  nonce = Value.num (Number.decimal q.nonce);
  lease_ms = whole q.lease_ms;
  version = raw_version q.version;
}

-- `role === "leader" && !fencing ? "leader" : role === "candidate" ? "candidate" : "follower"`
unfoldable pub reply_role : Panel → Role
reply_role p = elim p.role [
  | Role.leader ↦ if p.fencing then Role.follower else Role.leader
  | Role.candidate ↦ Role.candidate
  | Role.follower ↦ Role.follower
]

abbrev handover_target : Option LeaderHandover → Option Text
handover_target none = none
handover_target (some h) = some h.to

abbrev is_none {ℓ} : {A : Type ℓ} → Option A → Bool
is_none none = true
is_none (some _) = false

wants_request : Panel → Role → Bool
wants_request p Role.leader = p.ha_leading && is_none p.handover && not p.promoting
wants_request p Role.candidate = not (is_none p.candidacy)
wants_request p Role.follower = false

tracked : Version → Option Version → Version
tracked local none = local
tracked local (some v) = v

my_version : Panel → Role → Version
unfolding tracked
my_version p Role.leader = tracked p.local_version p.tracker_version
my_version p _ = p.local_version

-- The reply without its request, for a given role.
reply_as : Panel → ℕ → Role → VoteReply
reply_as p now Role.leader = record {
  node_id = p.me;
  role = Role.leader;
  term = p.term;
  leader_id = some p.me;
  committed = some p.committed;
  timings = some (advertised (failover_seconds p));
  handover_to = handover_target p.handover;
  restarting_ms = elim p.restart_until [ none ↦ none | some u ↦ some (round_ms (u - now)) ];
  request = none;
}
reply_as p now Role.candidate = record {
  node_id = p.me;
  role = Role.candidate;
  term = p.term;
  leader_id = none;
  committed = none;
  timings = none;
  handover_to = none;
  restarting_ms = none;
  request = none;
}
reply_as p now Role.follower = record {
  node_id = p.me;
  role = Role.follower;
  term = p.max_term_seen;
  leader_id = p.leader_id;
  committed = none;
  timings = none;
  handover_to = none;
  restarting_ms = none;
  request = none;
}

issue : Panel → Text → ℕ → Panel
issue p voter now = record p {
  issued = map_set p.issued voter (
      record_issued (issued_to p voter) now (record {
        term = p.term;
        nonce = now;
        lease_ms = (timings p).lease_ms;
        margin_ms = (timings p).margin_ms;
      }));
}

request_now : Panel → ℕ → Request
unfolding my_version
request_now p now = record {
  candidate = p.me;
  term = p.term;
  nonce = now;
  lease_ms = (timings p).lease_ms;
  version = my_version p p.role;
}

unfoldable pub build_vote_reply : Panel → ℕ → Text → Bool → Panel × VoteReply
unfolding reply_role wants_request reply_as issue request_now
build_vote_reply p now voter omit_request =
    let reply = reply_as p now (reply_role p) in
    if not omit_request && wants_request p (reply_role p)
    then (issue p voter now, record reply { request = some (request_now p now) })
    else (p, reply)

abbrev positive : Number → Option ℕ
positive (Number.decimal n) = if leb 1 n then some n else none
positive _ = none

-- `Math.max(0, Number(v) || 0)`, in thousandths.
abbrev magnitude : Sent → ℕ
magnitude (Sent.decimal n) = n
magnitude _ = 0

unfoldable pub message_of : VoteBody → ℕ → VoterMessage
message_of b now = record {
  term = magnitude b.term / 1000;
  voted_for = clean_id b.voted_for;
  lease_left = magnitude b.lease_left_ms;
  known_committed = clean_version b.known_committed;
  heartbeat = elim (positive (to_number b.heartbeat_ms)) [
    | none ↦ none
    | some h ↦ some (min h 60000000)
  ];
  at = now;
}

-- A voter that moved on takes its grant with it.
withdraw : Panel → Text → VoterMessage → Option Counted → Panel
withdraw p voter m none = p
withdraw p voter m (some had) =
    if ltb had.term m.term || (not (is_none m.voted_for) && not (is_text m.voted_for p.me))
    then record p { grants = map_delete p.grants voter }
    else p

-- `Math.floor(x) === t`
abbrev floors_to : Number → ℕ → Bool
floors_to (Number.decimal n) t = n / 1000 == t
floors_to _ t = false

may_count : Panel → Bool
may_count p = not p.fencing && elim p.role [ Role.follower ↦ false | _ ↦ true ]

unfoldable pub matching_request : Panel → Text → ℕ → RawGrant → Option Issued
unfolding may_count
matching_request p voter now g =
    if is_text (string_of g.candidate) p.me && may_count p && floors_to (to_number g.term) p.term
    then valid_issued (issued_to p voter) now p.term (to_number g.nonce)
    else none

newer_than : Option Counted → Issued → Bool
newer_than none e = true
newer_than (some prev) e = not (prev.term == e.term) || ltb prev.nonce e.nonce

count_grant : Panel → Text → Value → Option Issued → Panel
unfolding newer_than
count_grant p voter lease none = p
count_grant p voter lease (some e) =
    if newer_than (map_get p.grants voter) e
    then record p {
      grants =
          map_set p.grants voter
            (record { term = e.term; nonce = e.nonce; until = grant_until e lease });
    }
    else p

take_grant : Panel → Text → ℕ → Option RawGrant → Panel
unfolding matching_request count_grant
take_grant p voter now none = p
take_grant p voter now (some g) = count_grant p voter g.lease_ms (matching_request p voter now g)

notify : Panel → Text → Panel
notify p voter = elim p.handover [
  | none ↦ p
  | some h ↦ record p { handover = some (record h { notified = voter ∷ h.notified }) }
]

-- What the message of a voter changes before the election is looked at again.
unfoldable pub receive : Panel → Text → ℕ → VoteBody → Panel
unfolding withdraw take_grant notify
receive p voter now b =
    let m = message_of b now in
    let q = note_term p m.term in
    let q' = record q { voter_messages = map_set q.voter_messages voter m } in
    notify (take_grant (withdraw q' voter m (map_get q'.grants voter)) voter now b.grant) voter

unfoldable pub handle_vote : Moment → Panel → Text → VoteBody → Panel × VoteReply
unfolding receive build_vote_reply
handle_vote m p voter b =
    build_vote_reply (evaluate m (receive p voter m.now b)) m.now voter (not (is_none b.grant))
