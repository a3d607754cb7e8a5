-- ===== src/Ha/Safety/System.antt =====
-- One voter and every panel node that asks it, as a step relation over the functions of
-- shared/ha-voter.mjs and panel/lib/ha.mjs. Messages may be lost, late, repeated or out of order.
-- Every process reads its own clock, which starts with it: real time less the time of its start.
use forthway_command_center.Base.{
  ℕ, ◌+◌, ◌≤◌, ◌<◌, ◌≡◌, Option, none, some, List, [], ◌∷◌, if◌then◌else◌, Text, text_eq, Value,
  whole, Has,
}
use forthway_command_center.Ha.Wire.{Reply, Grant}
use forthway_command_center.Ha.Voter.State.{SavedVote, Voter, create_voter, raw_vote}
use forthway_command_center.Ha.Voter.Learn.{Node, Setting}
use forthway_command_center.Ha.Voter.Reply.{Outcome, handle_reply}
use forthway_command_center.Ha.Voter.Grants.{granted, disk_after}
use forthway_command_center.Ha.Panel.State.{Issued, Counted}
use forthway_command_center.Ha.Panel.Lease.{valid_issued, record_issued, grant_until}
use forthway_command_center.Ha.Panel.Ballot.{Request, raw_request}

-- What a panel node keeps of this voter: what it asked, and the grant that it counts. `floor` is
-- the first term of its present run.
pub record View : Type 0 where
  pub boot : ℕ
  pub floor : ℕ
  pub issued : List Issued
  pub counted : Option Counted

-- A request on its way, and a grant on its way, with the real time of the request.
pub record Posted : Type 0 where
  pub from : Text
  pub request : Request
  pub at : ℕ

pub record Cast : Type 0 where
  pub grant : Grant
  pub at : ℕ

pub record System : Type 0 where
  pub time : ℕ
  pub voter : Voter
  pub voter_boot : ℕ
  pub disk : SavedVote
  pub saved_at : ℕ
  pub views : Text → View
  pub requests : List Posted
  pub casts : List Cast

abbrev pub update : (Text → View) → Text → View → Text → View
update f c v d = if text_eq c d then v else f d

abbrev pub cast_on : Option Grant → ℕ → List Cast → List Cast
cast_on none at xs = xs
cast_on (some g) at xs = record { grant = g; at = at } ∷ xs

abbrev pub save_time : Option Grant → ℕ → ℕ → ℕ
save_time none now old = old
save_time (some g) now old = now

-- The voter has handled a reply.
abbrev pub heard : System → ℕ → Outcome → System
heard s at o = record s {
  voter = o.voter;
  disk = disk_after s.disk o.effects;
  saved_at = save_time (granted o.effects) s.time s.saved_at;
  casts = cast_on (granted o.effects) at s.casts;
}

abbrev pub ask_view : View → Request → ℕ → View
ask_view v q margin = record v {
  issued =
      record_issued v.issued q.nonce
        (record { term = q.term; nonce = q.nonce; lease_ms = q.lease_ms; margin_ms = margin });
}

abbrev pub count_view : View → Issued → ℕ → View
count_view v e lease = record v {
  counted = some (record { term = e.term; nonce = e.nonce; until = grant_until e (whole lease) });
}

-- One step. `margin` is the least margin that panel nodes keep, in milliseconds.
pub data Step (margin : ℕ) (s : System) : System → Type 0 where
  wait : (d : ℕ) → Step margin s (record s { time = s.time + d })
  -- A panel node hands out a request.
  ask :
      (q : Request) (m : ℕ)
      → (s.views q.candidate).floor ≤ q.term
      → margin ≤ m
      → (s.views q.candidate).boot + q.nonce ≡ s.time
      → Step margin s (record s {
        views = update s.views q.candidate (ask_view (s.views q.candidate) q m);
        requests = record { from = q.candidate; request = q; at = s.time } ∷ s.requests;
      })
  -- It counts a grant that answers a request of its own.
  count :
      (x : Cast) (e : Issued) (now : ℕ)
      → Has x s.casts
      → (s.views x.grant.candidate).boot + now ≡ s.time
      → valid_issued (s.views x.grant.candidate).issued now x.grant.term x.grant.nonce ≡ some e
      → Step margin s (record s {
        views =
            update s.views x.grant.candidate
              (count_view (s.views x.grant.candidate) e x.grant.lease_ms);
      })
  drop :
      (c : Text)
      → Step margin s
          (record s { views = update s.views c (record (s.views c) { counted = none }) })
  -- It starts again, in terms that it has not asked in.
  restart :
      (c : Text) (floor : ℕ)
      → ((p : Posted) → Has p s.requests → p.from ≡ c → p.request.term < floor)
      → Step margin s (record s {
        views =
            update s.views c (record { boot = s.time; floor = floor; issued = []; counted = none });
      })
  -- The voter handles a reply, with a request in it or without.
  vote :
      (e : Setting) (n : Node) (r : Reply) (p : Posted)
      → Has p s.requests
      → s.voter_boot + e.now ≡ s.time
      → r.request ≡ some (raw_request p.request)
      → Step margin s (heard s p.at (handle_reply e s.voter n r))
  hear :
      (e : Setting) (n : Node) (r : Reply)
      → s.voter_boot + e.now ≡ s.time
      → r.request ≡ none
      → Step margin s (heard s 0 (handle_reply e s.voter n r))
  -- The voter starts again from its disk, at the earliest half a millisecond after its last vote.
  reboot :
      (heartbeat : Value)
      → s.saved_at + 500 ≤ s.time
      → Step margin s
          (record s { voter = create_voter (raw_vote s.disk) heartbeat 0; voter_boot = s.time })

-- A voter that has never voted, and panel nodes that have asked for nothing.
abbrev pub blank_vote : SavedVote
blank_vote = record {
  term = 0;
  voted_for = none;
  granted_at = none;
  lease_ms = 15000;
  known_committed = record { term = 0; seq = 0 };
}

abbrev pub initial : System
initial = record {
  time = 0;
  voter = create_voter (raw_vote blank_vote) Value.undefined 0;
  voter_boot = 0;
  disk = blank_vote;
  saved_at = 0;
  views = λ c. record { boot = 0; floor = 0; issued = []; counted = none };
  requests = [];
  casts = [];
}

pub data Reach (margin : ℕ) : System → Type 0 where
  start : Reach margin initial
  next : {s t : System} → Reach margin s → Step margin s t → Reach margin t
