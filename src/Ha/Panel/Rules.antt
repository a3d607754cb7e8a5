-- ===== src/Ha/Panel/Rules.antt =====
-- What evaluate of panel/lib/ha.mjs promises, whatever came before.
use forthway_command_center.Base.{
  ◌≤◌, ◌<◌, ◌≡◌, refl, ◌⊎◌, inl, inr, Bool, true, false, Option, none, some, ◌≢◌, [], arith,
  Bool-cases, sym, ◌∙◌, ◌||◌,
}
use forthway_command_center.Ha.Panel.State.{Panel, Role, Candidacy}
use forthway_command_center.Ha.Panel.Lease.{valid_grant_count}
use forthway_command_center.Ha.Panel.Election.{
  Moment, has_majority, evaluate, evaluate_leader, evaluate_candidate, maybe_candidate,
  become_candidate, candidacy_blocker, is_ready, waits_for_restart, next_term,
}

-- The node keeps its candidacy's term as its own.
abbrev pub IsStanding : Panel → Type 0
IsStanding p = (c : Candidacy) → p.candidacy ≡ some c → c.term ≡ p.term

evaluate_leader-fenced :
    (m : Moment) (p : Panel)
    → let q = evaluate_leader m p in
      q.config_enabled ≡ true
      → q.armed ≡ true
      → (q.fencing ≡ true) ⊎ (has_majority q q.term m.now ≡ true)
unfolding evaluate_leader has_majority valid_grant_count
evaluate_leader-fenced m p a b = ground arith

evaluate_candidate-majority :
    (m : Moment) (c : Candidacy) (p : Panel)
    → p.role ≡ Role.candidate
    → c.term ≡ p.term
    → let q = evaluate_candidate m c p in
      q.role ≡ Role.leader → (has_majority q q.term m.now ≡ true) × (q.promoting ≡ true)
unfolding evaluate_candidate has_majority valid_grant_count
evaluate_candidate-majority m c p h e a = ground arith

-- What standing for election takes, and what it leaves behind.
pub record Stood (m : Moment) (p q : Panel) : Type 0 where
  pub ready : is_ready m p ≡ true
  pub not_waiting : waits_for_restart m p ≡ false
  pub rested : p.backoff_until ≤ m.now
  pub unblocked : candidacy_blocker p ≡ none
  pub saved : m.saves_local ≡ true
  pub term : (p.term < q.term) × (p.max_term_seen < q.term) × (p.local_term < q.term)
  pub on_disk : q.local_term ≡ q.term
  pub own : IsStanding q
  pub clear : q.grants ≡ []

become_candidate-role :
    (m : Moment) (b : Bool) (p : Panel)
    → p.role ≡ Role.follower
    → (become_candidate m b p).role ≡ Role.candidate
    → m.saves_local ≡ true
unfolding become_candidate
become_candidate-role m b p h a = ground arith

maybe_candidate-follower :
    (m : Moment) (p : Panel) → p.role ≡ Role.follower → (maybe_candidate m p).role ≢ Role.leader
unfolding maybe_candidate
maybe_candidate-follower m p h a = ground arith

maybe_candidate-Stood :
    (m : Moment) (p : Panel)
    → p.role ≡ Role.follower
    → (maybe_candidate m p).role ≡ Role.candidate
    → Stood m p (maybe_candidate m p)
unfolding maybe_candidate next_term
maybe_candidate-Stood m p h a = record {
  ready = ground arith;
  not_waiting = ground arith;
  rested = ground arith;
  unblocked = ground arith;
  saved = ground arith;
  term = ground arith;
  on_disk = ground arith;
  own = λ c e. ground arith;
  clear = ground arith;
}

-- A node that is neither on its way out nor stopped looks at the election as its role says.
evaluate-leader :
    (m : Moment) (p : Panel)
    → p.fencing ≡ false
    → p.stopped ≡ false
    → p.role ≡ Role.leader
    → evaluate m p ≡ evaluate_leader m p
unfolding evaluate
evaluate-leader m p f s r = rw (f, s, r) refl

evaluate-candidate :
    (m : Moment) (p : Panel) (c : Candidacy)
    → p.fencing ≡ false
    → p.stopped ≡ false
    → p.role ≡ Role.candidate
    → p.candidacy ≡ some c
    → evaluate m p ≡ evaluate_candidate m c p
unfolding evaluate
evaluate-candidate m p c f s r e = rw (f, s, r, e) refl

evaluate-idle :
    (m : Moment) (p : Panel) → p.role ≡ Role.candidate → p.candidacy ≡ none → evaluate m p ≡ p
unfolding evaluate
evaluate-idle m p r e = ground arith

evaluate-follower :
    (m : Moment) (p : Panel)
    → p.fencing ≡ false
    → p.stopped ≡ false
    → p.role ≡ Role.follower
    → evaluate m p ≡ maybe_candidate m p
unfolding evaluate
evaluate-follower m p f s r = rw (f, s, r) refl

evaluate-fencing : (m : Moment) (p : Panel) → p.fencing ≡ true → evaluate m p ≡ p
unfolding evaluate
evaluate-fencing m p f = rw f refl

evaluate-out : (m : Moment) (p : Panel) → (p.fencing || p.stopped) ≡ true → evaluate m p ≡ p
unfolding evaluate
evaluate-out m p f = rw f refl

-- A node that leads with failover on and armed is on its way out or holds a majority of grants
-- that count now.
abbrev Serves : Moment → Panel → Type 0
Serves m q =
    q.role ≡ Role.leader
    → q.config_enabled ≡ true
    → q.armed ≡ true
    → (q.fencing ≡ true) ⊎ (has_majority q q.term m.now ≡ true)

Serves-by_role :
    (m : Moment) (p : Panel) (f : Bool) (r : Role) (c : Option Candidacy)
    → p.stopped ≡ false
    → IsStanding p
    → p.fencing ≡ f
    → p.role ≡ r
    → p.candidacy ≡ c
    → Serves m (evaluate m p)
Serves-by_role m p true r c s own ef er ec = rw (evaluate-fencing m p ef) (λ a b d. inl ef)
Serves-by_role m p false Role.leader c s own ef er ec =
    rw (evaluate-leader m p ef s er) (λ a b d. evaluate_leader-fenced m p b d)
Serves-by_role m p false Role.candidate (some c) s own ef er ec =
    rw (evaluate-candidate m p c ef s er ec)
      (λ a b d. inr (evaluate_candidate-majority m c p er (own c ec) a).0)
Serves-by_role m p false Role.candidate none s own ef er ec =
    rw (evaluate-idle m p er ec) (λ a b d. cc)
Serves-by_role m p false Role.follower c s own ef er ec =
    rw (evaluate-follower m p ef s er) (λ a b d. absurd (maybe_candidate-follower m p er a))

-- After a look at the election, a node that leads with failover on and armed holds a majority of
-- grants that count now, or is on its way out. It starts from any state in which the node is not
-- stopped and a candidacy is for the node's own term.
pub evaluate_serves :
    (m : Moment) (p : Panel)
    → p.stopped ≡ false
    → IsStanding p
    → (evaluate m p).role ≡ Role.leader
    → (evaluate m p).config_enabled ≡ true
    → (evaluate m p).armed ≡ true
    → ((evaluate m p).fencing ≡ true)
      ⊎ (has_majority (evaluate m p) (evaluate m p).term m.now ≡ true)
evaluate_serves m p s own = Serves-by_role m p p.fencing p.role p.candidacy s own refl refl refl

-- A follower that turns candidate in one look at the election had a condition to stand met, waits
-- for no announced restart and no back-off, has nothing that blocks it and could save its term; the
-- term is above all that it has seen, and its grants are cleared.
pub evaluate-Stood :
    (m : Moment) (p : Panel)
    → p.role ≡ Role.follower
    → (evaluate m p).role ≡ Role.candidate
    → Stood m p (evaluate m p)
evaluate-Stood m p r h = elim (Bool-cases (p.fencing || p.stopped)) [
  | inl out ↦ absurd (cc (sym r ∙ rw (evaluate-out m p out) at h))
  | inr on ↦
      let e = evaluate-follower m p (ground arith) (ground arith) r in
      rw e (maybe_candidate-Stood m p r (rw e at h))
]

abbrev Won : Moment → Panel → Panel → Type 0
Won m p q = q.role ≡ Role.leader → (p.role ≡ Role.candidate) × (has_majority q q.term m.now ≡ true)

wins_by_role :
    (m : Moment) (p : Panel) (r : Role) (c : Option Candidacy)
    → IsStanding p
    → p.role ≢ Role.leader
    → p.fencing ≡ false
    → p.stopped ≡ false
    → p.role ≡ r
    → p.candidacy ≡ c
    → Won m p (evaluate m p)
wins_by_role m p Role.leader c own n f s er ec = absurd (n er)
wins_by_role m p Role.candidate (some c) own n f s er ec =
    rw (evaluate-candidate m p c f s er ec)
      (λ a. (er, (evaluate_candidate-majority m c p er (own c ec) a).0))
wins_by_role m p Role.candidate none own n f s er ec =
    rw (evaluate-idle m p er ec) (λ a. absurd (n a))
wins_by_role m p Role.follower c own n f s er ec =
    rw (evaluate-follower m p f s er) (λ a. absurd (maybe_candidate-follower m p er a))

-- A node whose candidacy, if any, is for its own term becomes the leader in one look at the election
-- only if it was a candidate, and then it holds a majority of grants that count now.
pub evaluate_wins :
    (m : Moment) (p : Panel)
    → IsStanding p
    → p.role ≢ Role.leader
    → (evaluate m p).role ≡ Role.leader
    → (p.role ≡ Role.candidate) × (has_majority (evaluate m p) (evaluate m p).term m.now ≡ true)
evaluate_wins m p own no_leader h = elim (Bool-cases (p.fencing || p.stopped)) [
  | inl out ↦ absurd (no_leader (rw (evaluate-out m p out) at h))
  | inr on ↦
      wins_by_role m p p.role p.candidacy own no_leader (ground arith) (ground arith) refl refl h
]
