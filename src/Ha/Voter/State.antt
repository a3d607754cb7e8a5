-- ===== src/Ha/Voter/State.antt =====
-- What a voter remembers, saves and refuses: the first half of createVoter, shared/ha-voter.mjs.
-- `performance.now()` is a number of microseconds; one reading serves each synchronous call.
use forthway_command_center.Base.{
  ℕ, ◌+◌, ◌-◌, Bool, false, not, ◌&&◌, Option, none, some, ltb, leb, if◌then◌else◌, Text, text_eq,
  is_text, Number, Value, whole, to_number, floor_or_zero, string_of, clean_id, round_ms, micros,
}
use forthway_command_center.Ha.Timing.{ha_timings, clean_lease_ms, clean_heartbeat_ms}
use forthway_command_center.Ha.Version.{RawVersion, Version, clean_version, older, raw_version}

-- What `save` is given, and what `load` gives back before it is cleaned.
pub record SavedVote : Type 0 where
  pub term : ℕ
  pub voted_for : Option Text
  pub granted_at : Option Text
  pub lease_ms : ℕ
  pub known_committed : Version

pub record RawVote : Type 0 where
  pub term : Value
  pub voted_for : Value
  pub granted_at : Value
  pub lease_ms : Value
  pub known_committed : RawVersion

pub record VoteState : Type 0 where
  pub term : ℕ
  pub voted_for : Option Text
  pub granted_at : Option Text
  pub known_committed : Version

pub record Handover : Type 0 where
  pub target : Text
  pub until : ℕ

pub record Voter : Type 0 where
  pub state : VoteState
  pub open state use *
  pub lease_len : ℕ
  pub lease_until : ℕ
  pub heartbeat_ms : ℕ
  pub handover : Option Handover

unfoldable pub clean_state : RawVote → VoteState
unfolding clean_version
clean_state s = record {
  term = floor_or_zero (to_number s.term);
  voted_for = clean_id s.voted_for;
  granted_at = string_of s.granted_at;
  known_committed = clean_version s.known_committed;
}

abbrev or_else : Option ℕ → ℕ → ℕ
or_else none d = d
or_else (some n) d = n

-- Boot: the lease that may have been granted just before counts in full from now.
unfoldable pub create_voter : RawVote → Value → ℕ → Voter
unfolding clean_state
create_voter loaded heartbeat now =
    let len = clean_lease_ms loaded.lease_ms in
    record {
      state = clean_state loaded;
      lease_len = len;
      lease_until = now + micros len;
      heartbeat_ms =
          or_else (clean_heartbeat_ms heartbeat) (ha_timings Value.undefined).heartbeat_ms;
      handover = none;
    }

unfoldable pub lease_left : Voter → ℕ → ℕ
lease_left v now = round_ms (v.lease_until - now)

unfoldable pub lease_expired : Voter → ℕ → Bool
lease_expired v now = leb v.lease_until now

unfoldable pub handover_pending : Voter → ℕ → Option Handover
handover_pending v now = elim v.handover [
  | none ↦ none
  | some h ↦ if ltb now h.until then some h else none
]

unfoldable pub persist : Voter → SavedVote
persist v = record {
  term = v.term;
  voted_for = v.voted_for;
  granted_at = v.granted_at;
  lease_ms = v.lease_len;
  known_committed = v.known_committed;
}

-- The saved vote as JSON.
abbrev pub raw_text : Option Text → Value
raw_text none = Value.null
raw_text (some s) = Value.text s Number.nan

unfoldable pub raw_vote : SavedVote → RawVote
unfolding raw_version
raw_vote s = record {
  term = whole s.term;
  voted_for = raw_text s.voted_for;
  granted_at = raw_text s.granted_at;
  lease_ms = whole s.lease_ms;
  known_committed = raw_version s.known_committed;
}

adopt_heartbeat : Voter → Option ℕ → Voter
adopt_heartbeat v none = v
adopt_heartbeat v (some hb) = record v { heartbeat_ms = hb }

unfoldable pub adopt : Voter → Value → Voter
unfolding adopt_heartbeat
adopt v t = adopt_heartbeat v (clean_heartbeat_ms t)

-- Why a request is refused.
pub data Refusal : Type 0 where
  older_term behind leased handing_over : Refusal

awaits_other : Option Handover → Text → Bool
awaits_other none candidate = false
awaits_other (some h) candidate = not (text_eq h.target candidate)

unfoldable pub refusal : Voter → ℕ → Text → ℕ → RawVersion → Option Refusal
unfolding lease_expired handover_pending awaits_other
refusal v now candidate term version =
    if ltb term v.term
    then some older_term
    else if older (clean_version version) v.known_committed
    then some behind
    else if not (is_text v.voted_for candidate) && not (lease_expired v now)
    then some leased
    else if awaits_other (handover_pending v now) candidate
    then some handing_over
    else none
