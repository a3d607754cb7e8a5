-- ===== src/Ha/Safety/Majority.antt =====
-- Two majorities share a voter, so two panel nodes never both have one.
use forthway_command_center.Base.{
  ℕ, ◌+◌, ◌/◌, ◌≤◌, ◌<◌, ◌≡◌, inl, inr, Bool, true, false, ◌&&◌, Option, none, some, List, [], ◌∷◌,
  arith, Text, sym, ◌∙◌, ltb, ◌==◌, length, count, count_mono, count-strict, count-disjoint,
  text_eq, text_eq_iff, text_eq-sym, map_get, map_get-lacks, IsMap, lacks, subst, Bool-cases,
  Option-cases, if◌then◌else◌,
}
use forthway_command_center.Ha.Panel.State.{
  Panel, Server, Counted, enabled_servers, majority, is_enabled,
}
use forthway_command_center.Ha.Panel.Lease.{counts, valid_grant_count}
use forthway_command_center.Ha.Panel.Election.{has_majority}
use forthway_command_center.Ha.Safety.System.{System, Reach}
use forthway_command_center.Ha.Safety.Exclusion.{CountsNow, one_node_at_a_time}

-- The node counts a grant of the voter with this id.
abbrev pub votes : ℕ → ℕ → Option Counted → Bool
votes t now none = false
votes t now (some g) = (g.term == t) && ltb now g.until

voted_by : List (Text × Counted) → ℕ → ℕ → Server → Bool
voted_by m t now s = votes t now (map_get m s.id)

voted_by-cons :
    (m : List (Text × Counted)) (t now : ℕ) (k : Text) (g : Counted) (s : Server)
    → voted_by ((k, g) ∷ m) t now s
      ≡ (if text_eq k s.id then votes t now (some g) else voted_by m t now s)
unfolding voted_by map_get
voted_by-cons m t now k g s = ground arith

voted_by-lacks :
    (m : List (Text × Counted)) (t now : ℕ) (k : Text) (s : Server)
    → lacks k m ≡ true
    → text_eq k s.id ≡ true
    → voted_by m t now s ≡ false
unfolding voted_by
voted_by-lacks m t now k s h e = ground (
  arith,
  text_eq_iff k s.id,
  map_get-lacks m s.id,
  subst (λ j. lacks j m ≡ true) ((text_eq_iff k s.id).0 e) h,
)

voted_by_mono :
    (m : List (Text × Counted)) (t now : ℕ) (k : Text) (g : Counted) (s : Server)
    → lacks k m ≡ true
    → voted_by m t now s ≡ true
    → voted_by ((k, g) ∷ m) t now s ≡ true
voted_by_mono m t now k g s h e =
    ground (arith, voted_by-cons m t now k g s, voted_by-lacks m t now k s h)

voted_by-new :
    (m : List (Text × Counted)) (t now : ℕ) (k : Text) (g : Counted) (s : Server)
    → lacks k m ≡ true
    → votes t now (some g) ≡ true
    → text_eq s.id k ≡ true
    → (voted_by m t now s ≡ false) × (voted_by ((k, g) ∷ m) t now s ≡ true)
voted_by-new m t now k g s h v e =
    ground (arith, voted_by-cons m t now k g s, voted_by-lacks m t now k s h, text_eq-sym k s.id)

-- The votes that a node counts are those of enabled servers, each once.
count-voted_by :
    (ss : List Server) (t now : ℕ) (m : List (Text × Counted))
    → IsMap m
    → count (counts ss t now) m ≤ count (voted_by m t now) (enabled_servers ss)
unfolding is_enabled
count-voted_by ss t now [] h = omega arith
count-voted_by ss t now ((k, g) ∷ m) h = elim (Bool-cases (counts ss t now (k, g))) [
  | inr no_vote ↦ rw no_vote (
      omega (
        arith,
        count-voted_by ss t now m h.1,
        count_mono (voted_by m t now) (voted_by ((k, g) ∷ m) t now) (enabled_servers ss)
            (λ s. voted_by_mono m t now k g s h.0),
      ))
  | inl vote ↦ rw vote (
      omega (
        arith,
        count-voted_by ss t now m h.1,
        count-strict (voted_by m t now) (voted_by ((k, g) ∷ m) t now) (λ s. text_eq s.id k)
            (enabled_servers ss) (λ s. voted_by_mono m t now k g s h.0)
            (λ s. voted_by-new m t now k g s h.0 (ground arith)) (ground arith),
      ))
]

-- The panel node as the voter's system sees it, at one moment of its clock.
pub record Mirrors (s : System) (p : Panel) (voter : Text) (now : ℕ) : Type 0 where
  pub counted : (g : Counted) → map_get p.grants voter ≡ some g → (s.views p.me).counted ≡ some g
  pub clock : (s.views p.me).boot + now ≡ s.time

votes-CountsNow :
    {margin : ℕ} {s : System} {p : Panel} {voter : Text} {now : ℕ} (t : ℕ)
    → Mirrors s p voter now
    → votes t now (map_get p.grants voter) ≡ true
    → CountsNow margin s p.me
votes-CountsNow {s = s} {p = p} {voter = voter} {now = now} t mirror v =
    elim (Option-cases (map_get p.grants voter)) [
      | inl e ↦ absurd (ground arith)
      | inr (g, e) ↦
          let live : now < g.until = ground arith in
          record {
            grant = g;
            counted = mirror.counted g e;
            some_time = omega arith;
            live = omega (arith, mirror.clock);
          }
    ]

-- The votes of a majority, as enabled servers.
has_majority-voted_by :
    (p : Panel) (t now : ℕ)
    → IsMap p.grants
    → has_majority p t now ≡ true
    → length (enabled_servers p.servers) / 2 + 1
      ≤ count (voted_by p.grants t now) (enabled_servers p.servers)
unfolding has_majority valid_grant_count majority
has_majority-voted_by p t now m h = ground (arith, count-voted_by p.servers t now p.grants m)

-- Take two panel nodes with the same servers in their databases and one entry per voter among their
-- grants, which they got in a run of each voter's protocol that has reached the present. If both
-- hold a majority of grants that count now, in whatever terms, they are the same node.
pub no_two_majorities :
    (margin : ℕ) (systems : Text → System) (p q : Panel) (t u now later : ℕ)
    → ((voter : Text) → Reach margin (systems voter))
    → ((voter : Text) → Mirrors (systems voter) p voter now)
    → ((voter : Text) → Mirrors (systems voter) q voter later)
    → p.servers ≡ q.servers
    → IsMap p.grants
    → IsMap q.grants
    → has_majority p t now ≡ true
    → has_majority q u later ≡ true
    → p.me ≡ q.me
no_two_majorities margin systems p q t u now later reach mp mq same ip iq hp hq =
    elim (Bool-cases (text_eq p.me q.me)) [
      | inl e ↦ (text_eq_iff p.me q.me).0 e
      | inr e ↦ absurd (
          omega (
            arith,
            has_majority-voted_by p t now ip hp,
            rw (← same) at (has_majority-voted_by q u later iq hq),
            count-disjoint (voted_by p.grants t now) (voted_by q.grants u later)
                (enabled_servers p.servers) (λ s v. apart s e v),
          ))
    ]
  where
    apart :
        (s : Server)
        → text_eq p.me q.me ≡ false
        → voted_by p.grants t now s ≡ true
        → voted_by q.grants u later s ≡ false
    apart s e v = elim (Bool-cases (voted_by q.grants u later s)) [
      | inr no_vote ↦ no_vote
      | inl w ↦ absurd (
          cc (
            sym e
            ∙ (text_eq_iff p.me q.me).1 (
                one_node_at_a_time p.me q.me (reach s.id)
                  (votes-CountsNow t (mp s.id) (unfold voted_by in v))
                  (votes-CountsNow u (mq s.id) (unfold voted_by in w)))))
    ]
