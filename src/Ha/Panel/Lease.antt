-- ===== src/Ha/Panel/Lease.antt =====
-- The candidate's side of a lease, panel/lib/ha.mjs: the requests it hands out, and until when a
-- grant counts on its own clock.
pub mod Requests
use forthway_command_center.Base.{
  map_get, map_set, map_delete, ℕ, ◌+◌, ◌-◌, ◌*◌, ◌/◌, min, Bool, true, false, not, ◌&&◌, ◌||◌,
  Option, none, some, List, [], ◌∷◌, ◌++◌, ltb, leb, ◌==◌, if◌then◌else◌, length, select,
  find_first, count, Text, text_eq, Value, Number, micros, suc,
}
use forthway_command_center.Ha.Timing.{legacy_lease_ms, clean_lease_ms}
use forthway_command_center.Ha.Panel.State.{Issued}
use forthway_command_center.Ha.Panel.State.{
  Panel, Counted, Server, VoterMessage, is_enabled, fresh, lease_left,
}

-- `(issued.get(voterId) || [])`
unfoldable pub issued_to : Panel → Text → List Issued
issued_to p voter = elim (map_get p.issued voter) [ none ↦ [] | some es ↦ es ]

counts_still : ℕ → Option Issued → Option Issued
counts_still now none = none
counts_still now (some e) =
    if ltb now (e.nonce + micros e.lease_ms - micros e.margin_ms) then some e else none

-- The request with this term and nonce, while it could still count.
unfoldable pub valid_issued : List Issued → ℕ → ℕ → Number → Option Issued
unfolding counts_still
valid_issued es now t (Number.decimal nonce) =
    if leb nonce now
    then counts_still now (find_first (λ e. (e.term == t) && (e.nonce == nonce)) es)
    else none
valid_issued es now t _ = none

-- `while (list.length > 32) list.shift()`
abbrev pub shift_to : ℕ → List Issued → List Issued
shift_to limit [] = []
shift_to limit (e ∷ es) = if ltb limit (length (e ∷ es)) then shift_to limit es else e ∷ es

unfoldable pub record_issued : List Issued → ℕ → Issued → List Issued
record_issued es now e =
    shift_to 32 (select (λ o. ltb (now - o.nonce) (micros o.lease_ms)) es ++ e ∷ [])

abbrev pub lease_named : Value → ℕ
lease_named Value.undefined = legacy_lease_ms
lease_named v = clean_lease_ms v

unfoldable pub grant_until : Issued → Value → ℕ
grant_until e lease = e.nonce + micros (min (lease_named lease) e.lease_ms) - micros e.margin_ms

abbrev pub counts : List Server → ℕ → ℕ → Text × Counted → Bool
counts ss t now (id, g) = is_enabled ss id && (g.term == t) && ltb now g.until

unfoldable pub valid_grant_count : Panel → ℕ → ℕ → ℕ
valid_grant_count p t now = count (counts p.servers t now) p.grants

-- A live lease for another node.
pub record Rival : Type 0 where
  pub voter_id : Text
  pub voted_for : Text
  pub term : ℕ

rival_vote : Panel → ℕ → ℕ → Text → VoterMessage → Option Text → Option Rival
rival_vote p min_term now id m none = none
rival_vote p min_term now id m (some other) =
    if fresh p now m && not (text_eq other p.me) && ltb 0 (lease_left now m) && leb min_term m.term
    then some (record { voter_id = id; voted_for = other; term = m.term })
    else none

abbrev first_of_two : Option Rival → Option Rival → Option Rival
first_of_two none b = b
first_of_two (some a) b = some a

rival_among : Panel → ℕ → ℕ → List (Text × VoterMessage) → Option Rival
unfolding rival_vote
rival_among p min_term now [] = none
rival_among p min_term now ((id, m) ∷ ms) =
    first_of_two (rival_vote p min_term now id m m.voted_for) (rival_among p min_term now ms)

unfoldable pub other_lease : Panel → ℕ → ℕ → Option Rival
unfolding rival_among
other_lease p min_term now = rival_among p min_term now p.voter_messages
