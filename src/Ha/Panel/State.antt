-- ===== src/Ha/Panel/State.antt =====
-- The state of createHa, panel/lib/ha.mjs, that the election reads, and its small queries.
-- `performance.now()` is a number of microseconds; one reading serves each synchronous call.
use forthway_command_center.Base.{
  ℕ, ◌+◌, ◌-◌, ◌*◌, ◌/◌, max, Bool, not, ◌&&◌, ◌||◌, Option, none, some, List, ltb, if◌then◌else◌,
  length, select, any, Text, codes, text_eq, Value, micros,
}
use forthway_command_center.Ha.Timing.{ha_timings, Timings, legacy_heartbeat_ms}
use forthway_command_center.Ha.Version.{Version}

pub data Role : Type 0 where
  leader follower candidate : Role

-- A server record, with the two switches that panel failover reads.
pub record Server : Type 0 where
  pub id : Text
  pub enabled : Bool
  pub panel_enabled : Bool

-- A request for a vote that was handed out, with the lease and the margin of that moment.
pub record Issued : Type 0 where
  pub term : ℕ
  pub nonce : ℕ
  pub lease_ms : ℕ
  pub margin_ms : ℕ

pub record Counted : Type 0 where
  pub term : ℕ
  pub nonce : ℕ
  pub until : ℕ

-- The last message of a voter. Its times are in microseconds.
pub record VoterMessage : Type 0 where
  pub term : ℕ
  pub voted_for : Option Text
  pub lease_left : ℕ
  pub known_committed : Version
  pub heartbeat : Option ℕ
  pub at : ℕ

pub record Candidacy : Type 0 where
  pub term : ℕ
  pub since : ℕ
  pub until : ℕ
  pub handover : Bool

pub record LeaderHandover : Type 0 where
  pub to : Text
  pub notified : List Text

pub record LeaderRestart : Type 0 where
  pub id : Text
  pub until : ℕ

pub record Panel : Type 0 where
  pub me : Text
  pub ha_boot : Bool
  pub servers : List Server
  pub config_enabled : Bool
  pub armed : Bool
  pub failover_setting : Value
  pub follower_setting : Value
  pub role : Role
  pub term : ℕ
  pub max_term_seen : ℕ
  pub local_term : ℕ
  pub local_version : Version
  pub tracker_version : Option Version
  pub leader_id : Option Text
  pub ha_leading : Bool
  pub promoting : Bool
  pub fencing : Bool
  pub stopped : Bool
  pub candidacy : Option Candidacy
  pub backoff_until : ℕ
  pub cond_since : ℕ
  pub first_delay : Option ℕ
  pub last_state_ok_at : ℕ
  pub handover_expected_until : ℕ
  pub handover : Option LeaderHandover
  pub committed : Version
  pub leader_restart : Option LeaderRestart
  pub restart_until : Option ℕ
  pub reclaim_until : ℕ
  pub grants : List (Text × Counted)
  pub issued : List (Text × List Issued)
  pub voter_messages : List (Text × VoterMessage)

abbrev pub main_id : Text
main_id = codes "main"

chosen_setting : Role → Value → Value → Value
chosen_setting Role.leader replicated own = own
chosen_setting _ Value.undefined own = own
chosen_setting _ Value.null own = own
chosen_setting _ replicated own = replicated

-- `failoverSeconds`: that of the leader's configuration, or the replicated one of another node.
unfoldable pub failover_seconds : Panel → Value
unfolding chosen_setting
failover_seconds p = chosen_setting p.role p.follower_setting p.failover_setting

unfoldable pub timings : Panel → Timings
timings p = ha_timings (failover_seconds p)

unfoldable pub enabled_servers : List Server → List Server
enabled_servers = select (λ s. s.enabled)

unfoldable pub majority : List Server → ℕ
unfolding enabled_servers
majority ss = length (enabled_servers ss) / 2 + 1

unfoldable pub is_panel_server : Server → Bool
is_panel_server s = text_eq s.id main_id || s.panel_enabled

unfoldable pub ha_active : Panel → Bool
ha_active p =
    p.ha_boot
    || p.config_enabled
    || any (λ s. not (text_eq s.id main_id) && s.panel_enabled) p.servers

unfoldable pub note_term : Panel → ℕ → Panel
note_term p t =
    if ltb p.max_term_seen t
    then record p { max_term_seen = t; local_term = max p.local_term t }
    else p

unfoldable pub is_enabled : List Server → Text → Bool
unfolding enabled_servers
is_enabled ss id = any (λ s. text_eq s.id id) (enabled_servers ss)

-- A voter message younger than this describes the voter now.
abbrev beat_of : Option ℕ → ℕ
beat_of none = micros legacy_heartbeat_ms
beat_of (some b) = b

unfoldable pub fresh : Panel → ℕ → VoterMessage → Bool
fresh p now m =
    ltb (now - m.at) (2 * max (micros (timings p).heartbeat_ms) (beat_of m.heartbeat) + micros 2000)

unfoldable pub lease_left : ℕ → VoterMessage → ℕ
lease_left now m = m.lease_left - (now - m.at)
