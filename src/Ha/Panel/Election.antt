-- ===== src/Ha/Panel/Election.antt =====
-- Standing for election, winning and stepping down: evaluate and what it calls, panel/lib/ha.mjs.
-- Random delays and the outcome of writing ha-local.json are inputs.
use forthway_command_center.Base.{
  ℕ, ◌+◌, ◌-◌, max, Bool, true, false, not, ◌&&◌, ◌||◌, Option, none, some, [], ltb, leb, ◌==◌,
  if◌then◌else◌, length, find_first, text_eq, micros,
}
use forthway_command_center.Ha.Version.{Version}
use forthway_command_center.Ha.Panel.State.{
  Panel, Role, Server, Candidacy, LeaderRestart, main_id, timings, enabled_servers, majority,
  is_panel_server, ha_active,
}
use forthway_command_center.Ha.Panel.Lease.{Rival, valid_grant_count, other_lease}

pub record Moment : Type 0 where
  pub now : ℕ
  pub backoff : ℕ
  pub delay : ℕ
  pub saves_local : Bool

unfoldable pub fence : Panel → Panel
fence p = record p { fencing = true }

unfoldable pub is_lead : Role → Bool
is_lead Role.leader = true
is_lead _ = false

unfoldable pub arm : Panel → Panel
unfolding is_lead
arm p = if p.promoting || not (is_lead p.role) || p.fencing then p else record p { armed = true }

-- `trackerStart`, as far as versions go.
tracker_start : Panel → Panel
tracker_start p =
    let v : Version = record { term = p.term; seq = 0 } in
    record p { tracker_version = some v; local_version = v }

-- The fresh term of a leader that enters HA mode.
unfoldable pub next_term : Panel → ℕ
next_term p = max (max p.local_term p.max_term_seen) p.term + 1

enter_term : Panel → Panel
unfolding next_term
enter_term p = record p {
  term = next_term p;
  max_term_seen = next_term p;
  local_term = next_term p;
  ha_leading = true;
}

unfoldable pub ensure_ha_leading : Panel → Panel
unfolding enter_term tracker_start is_lead
ensure_ha_leading p =
    if p.ha_leading || not (is_lead p.role) || p.fencing || not (ha_active p)
    then p
    else tracker_start (enter_term p)

unfoldable pub has_majority : Panel → ℕ → ℕ → Bool
has_majority p t now = leb (majority p.servers) (valid_grant_count p t now)

fence_for : Option Rival → Panel → Panel
unfolding fence
fence_for none p = p
fence_for (some _) p = fence p

abbrev is_some {ℓ} : {A : Type ℓ} → Option A → Bool
is_some none = false
is_some (some _) = true

-- The leader, once HA mode is entered.
lead_on : Moment → Panel → Panel
unfolding arm fence fence_for
lead_on m p =
    if has_majority p p.term m.now
    then (let q =
          if p.config_enabled && not p.armed && not (is_some p.handover) then arm p else p in
        fence_for (other_lease q (q.term + 1) m.now) q)
    else if p.config_enabled && p.armed
    then fence p
    else fence_for (other_lease p (p.term + 1) m.now) p

unfoldable pub evaluate_leader : Moment → Panel → Panel
unfolding lead_on fence
evaluate_leader m p =
    if p.promoting
    then (if has_majority p p.term m.now then p else fence p)
    else if not (ha_active p)
    then record p { armed = false }
    else lead_on m (ensure_ha_leading p)

-- The synchronous part of `promote`: from the won vote to the start of the modules.
unfoldable pub promote : Panel → Panel
unfolding tracker_start
promote p = tracker_start (record p {
  promoting = true;
  candidacy = none;
  leader_id = some p.me;
  ha_leading = true;
  handover_expected_until = 0;
  reclaim_until = 0;
  leader_restart = none;
  first_delay = none;
  role = Role.leader;
})

-- The rest of `promote`, when the modules have started or failed to.
unfoldable pub promoted : Moment → Bool → Panel → Panel
unfolding arm fence
promoted m false p = fence (record p { promoting = false })
promoted m true p =
    let q = record p { promoting = false } in
    if not q.armed && has_majority q q.term m.now then arm q else q

unfoldable pub give_up : Moment → Bool → Panel → Panel
give_up m true p = record p {
  role = Role.follower;
  candidacy = none;
  backoff_until = m.now + m.backoff;
  grants = [];
}
give_up m false p = p

unfoldable pub evaluate_candidate : Moment → Candidacy → Panel → Panel
unfolding promote give_up
evaluate_candidate m c p =
    if has_majority p c.term m.now
    then promote p
    else if not (ltb m.now p.handover_expected_until) && is_some (other_lease p c.term m.now)
    then record p { role = Role.follower; candidacy = none }
    else give_up m (ltb c.until m.now) p

pub data Blocker : Type 0 where
  too_few_servers not_listed disabled not_a_panel nothing_replicated : Blocker

blocked_self : Panel → Option Server → Option Blocker
blocked_self p none = some not_listed
blocked_self p (some s) =
    if not s.enabled
    then some disabled
    else if not (is_panel_server s)
    then some not_a_panel
    else if not (text_eq p.me main_id) && (p.local_version.term == 0) && (p.local_version.seq == 0)
    then some nothing_replicated
    else none

unfoldable pub candidacy_blocker : Panel → Option Blocker
unfolding blocked_self
candidacy_blocker p =
    if ltb (length (enabled_servers p.servers)) 3
    then some too_few_servers
    else blocked_self p (find_first (λ s. text_eq s.id p.me) p.servers)

candidacy_until : Moment → Bool → Panel → ℕ
candidacy_until m true p =
    m.now + max (micros (timings p).candidacy_ms) (p.handover_expected_until - m.now)
candidacy_until m false p = m.now + micros (timings p).candidacy_ms

unfoldable pub become_candidate : Moment → Bool → Panel → Panel
unfolding next_term candidacy_until
become_candidate m handover_mode p =
    let t = next_term p in
    let q = record p { term = t; max_term_seen = t; local_term = t } in
    if m.saves_local
    then record q {
      grants = [];
      leader_id = none;
      role = Role.candidate;
      candidacy = some (record {
        term = t;
        since = m.now;
        until = candidacy_until m handover_mode q;
        handover = handover_mode;
      });
    }
    else record q { backoff_until = m.now + micros 5000 }

restart_window : ℕ → Option LeaderRestart → Bool
restart_window now none = false
restart_window now (some r) = ltb now r.until

-- The conditions of `maybeCandidate`.
unfoldable pub is_ready : Moment → Panel → Bool
is_ready m p =
    ltb m.now p.handover_expected_until
    || ((ltb m.now p.reclaim_until
          || leb (micros (timings p).failover_ms) (m.now - p.last_state_ok_at))
        && not (is_some (other_lease p 0 m.now)))

unfoldable pub waits_for_restart : Moment → Panel → Bool
unfolding restart_window
waits_for_restart m p =
    not (ltb m.now p.handover_expected_until)
    && not (ltb m.now p.reclaim_until)
    && restart_window m.now p.leader_restart

start_condition : ℕ → ℕ → ℕ
start_condition now since = if since == 0 then now else since

first_wait : Moment → Panel → Option ℕ → ℕ
first_wait m p old =
    let prompt =
      text_eq p.me main_id || ltb m.now p.handover_expected_until || ltb m.now p.reclaim_until in
    let new = if prompt then 0 else m.delay in
    elim old [ none ↦ new | some d ↦ if ltb m.now p.reclaim_until then new else d ]

-- The wait before standing: main goes first, the others after a random delay.
stand : Moment → Panel → Panel
unfolding start_condition first_wait become_candidate
stand m p =
    let since = start_condition m.now p.cond_since in
    let wait = first_wait m p p.first_delay in
    let q = record p { cond_since = since; first_delay = some wait } in
    if ltb (m.now - since) wait
    then q
    else become_candidate m (ltb m.now p.handover_expected_until) q

stand_unless : Moment → Panel → Option Blocker → Panel
unfolding stand
stand_unless m p none = stand m p
stand_unless m p (some why) = p

unfoldable pub maybe_candidate : Moment → Panel → Panel
unfolding is_ready waits_for_restart stand_unless
maybe_candidate m p =
    if ltb m.now p.backoff_until
    then p
    else if waits_for_restart m p || not (is_ready m p)
    then record p { cond_since = 0 }
    else stand_unless m p (candidacy_blocker p)

evaluate_role : Moment → Role → Option Candidacy → Panel → Panel
unfolding evaluate_leader evaluate_candidate maybe_candidate
evaluate_role m Role.leader c p = evaluate_leader m p
evaluate_role m Role.candidate (some c) p = evaluate_candidate m c p
evaluate_role m Role.candidate none p = p
evaluate_role m Role.follower c p = maybe_candidate m p

unfoldable pub evaluate : Moment → Panel → Panel
unfolding evaluate_role
evaluate m p = if p.fencing || p.stopped then p else evaluate_role m p.role p.candidacy p
