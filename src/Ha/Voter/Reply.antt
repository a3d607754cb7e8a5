-- ===== src/Ha/Voter/Reply.antt =====
-- handleReply of shared/ha-voter.mjs: the request, the vote and the whole of a reply.
use forthway_command_center.Base.{
  ℕ, ◌+◌, ◌-◌, max, Bool, true, false, ◌&&◌, Option, none, some, List, [], ◌∷◌, ◌++◌, if◌then◌else◌,
  Text, text_eq, is_text, Number, Value, to_number, is_finite, natural, string_of, round_ms, micros,
}
use forthway_command_center.Ha.Timing.{clean_lease_ms, legacy_lease_ms}
use forthway_command_center.Ha.Version.{RawVersion}
use forthway_command_center.Ha.Wire.{RawRequest, Reply, Grant}
use forthway_command_center.Ha.Voter.State.{Voter, Refusal, refusal, persist}
use forthway_command_center.Ha.Voter.Learn.{
  Effect, saves, sends, Node, Setting, wrong_node, is_leader, answering, reached, learn,
}

-- A request in the form that the rules read: from the node itself, with its term, its nonce and
-- the lease it asks for.
pub record Asked : Type 0 where
  pub candidate : Text
  pub term : ℕ
  pub nonce : Number
  pub lease_ms : ℕ
  pub version : RawVersion

abbrev pub asked_lease : Value → ℕ
asked_lease Value.undefined = legacy_lease_ms
asked_lease v = clean_lease_ms v

asked_term : Text → RawRequest → Option ℕ → Option Asked
asked_term i q none = none
asked_term i q (some term) =
    if is_finite (to_number q.nonce)
    then some (record {
      candidate = i;
      term = term;
      nonce = to_number q.nonce;
      lease_ms = asked_lease q.lease_ms;
      version = q.version;
    })
    else none

unfoldable pub read_request : Text → RawRequest → Option Asked
unfolding asked_term
read_request i q =
    if is_text (string_of q.candidate) i then asked_term i q (natural (to_number q.term)) else none

-- The vote as it is saved.
unfoldable pub give_vote : Setting → Voter → Asked → Voter
give_vote e v q =
    let until = max v.lease_until (e.now + micros q.lease_ms) in
    record v {
      state = record (v.state) {
        term = q.term;
        voted_for = some q.candidate;
        granted_at = some e.wall_iso;
      };
      lease_until = until;
      lease_len = max q.lease_ms (round_ms (until - e.now));
    }

abbrev pub grant_of : Asked → Grant
grant_of q = record {
  candidate = q.candidate;
  term = q.term;
  nonce = q.nonce;
  lease_ms = q.lease_ms;
}

-- A handover that this vote completes is over.
unfoldable pub end_handover : Voter → Text → Voter
end_handover v i = elim v.handover [
  | none ↦ v
  | some h ↦ if text_eq h.target i then record v { handover = none } else v
]

pub record Outcome : Type 0 where
  pub voter : Voter
  pub node : Node
  pub effects : List Effect

unfoldable pub grant_vote : Setting → Voter → Node → Asked → Outcome
unfolding give_vote end_handover persist
grant_vote e v n q =
    if e.saves_vote
    then record {
      voter = end_handover (give_vote e v q) q.candidate;
      node = n;
      effects = saves (persist (give_vote e v q)) ∷ sends (grant_of q) ∷ [];
    }
    else record { voter = v; node = n; effects = [] }

vote_or_refuse : Setting → Voter → Node → Asked → Option Refusal → Outcome
vote_or_refuse e v n q (some why) = record {
  voter = v;
  node = record n { last_refusal = some why };
  effects = [];
}
vote_or_refuse e v n q none = grant_vote e v n q

unfoldable pub answer : Setting → Voter → Node → Option Asked → Outcome
unfolding vote_or_refuse
answer e v n none = record { voter = v; node = n; effects = [] }
answer e v n (some q) = vote_or_refuse e v n q (refusal v e.now q.candidate q.term q.version)

unfoldable pub request_of : Bool → Text → Option RawRequest → Option Asked
unfolding read_request
request_of true i q = none
request_of false i none = none
request_of false i (some q) = read_request i q

-- Only a leader that names itself is believed.
unfoldable pub learned : Setting → Voter → Node → Text → Reply → Voter × List Effect
unfolding learn
learned e v n i r = if is_leader n.role && is_text n.leader_id i then learn e v r else (v, [])

unfoldable pub prepend : List Effect → Outcome → Outcome
prepend es o = record o { effects = es ++ o.effects }

handle_from : Setting → Voter → Node → Reply → Option Text → Outcome
unfolding prepend
handle_from e v n r none = record {
  voter = v;
  node = record n { reachable = false; error = some wrong_node };
  effects = [];
}
handle_from e v n r (some i) =
    let n' = reached e n r in
    let l = learned e v n' i r in prepend l.1 (answer e l.0 n' (request_of e.follow_up i r.request))

unfoldable pub handle_reply : Setting → Voter → Node → Reply → Outcome
unfolding handle_from
handle_reply e v n r = handle_from e v n r (answering n r)
