-- ===== src/Ha/Voter/Nodes/Leader.antt =====
-- Whom a voter of shared/ha-voter.mjs takes for the leader.
use forthway_command_center.Base.{
  ℕ, ◌≡◌, refl, sym, ◌∙◌, subst, ◌⊎◌, inl, inr, true, false, Option, none, some, [], ◌∷◌, arith,
  Text, All, Has, here, there, Bool-cases,
}
use forthway_command_center.Ha.Voter.Learn.{Node}
use forthway_command_center.Ha.Voter.Nodes.{Nodes, claims_lead, term_less, better, best_of, leader}

-- `x` is not behind `y`, unless `y` does not claim to lead.
abbrev pub Beats : Text × Node → Text × Node → Type 0
Beats x y = (claims_lead y.1 ≡ false) ⊎ (term_less x.1.term y.1.term ≡ false)

-- The best of a list and of a node that was found before.
record IsBest (best : Option (Text × Node)) (ns : Nodes) (x : Text × Node) : Type 0 where
  found : (best ≡ some x) ⊎ (Has x ns × (claims_lead x.1 ≡ true))
  above : (b : Text × Node) → best ≡ some b → term_less x.1.term b.1.term ≡ false
  others : All (Beats x) ns

term_less_irrefl : (a : Option ℕ) → term_less a a ≡ false
unfolding term_less
term_less_irrefl none = refl
term_less_irrefl (some a) = ground arith

term_less_weaken :
    (a b c : Option ℕ) → term_less a b ≡ false → term_less c b ≡ true → term_less a c ≡ false
unfolding term_less
term_less_weaken a b c h k = ground arith

term_less_trans :
    (a b c : Option ℕ) → term_less a b ≡ false → term_less b c ≡ false → term_less a c ≡ false
unfolding term_less
term_less_trans a b c h k = ground arith

same_some : {a b : Text × Node} → some a ≡ some b → a ≡ b
same_some h = cc

-- A node that is found further on is found here as well.
found_later :
    {b : Text × Node} {ns : Nodes} {x : Text × Node}
    → claims_lead b.1 ≡ true
    → (some b ≡ some x) ⊎ (Has x ns × (claims_lead x.1 ≡ true))
    → Has x (b ∷ ns) × (claims_lead x.1 ≡ true)
found_later {b = b} c (inl e) =
    (here (sym (same_some e)), subst (λ y. claims_lead y.1 ≡ true) (same_some e) c)
found_later c (inr f) = (there f.0, f.1)

-- A node that claims to lead, against the best one before it.
against :
    (best : Option (Text × Node)) (y : Text × Node) (ns : Nodes) (x : Text × Node)
    → ((b : Option (Text × Node)) → best_of b ns ≡ some x → IsBest b ns x)
    → claims_lead y.1 ≡ true
    → best_of (better best y) ns ≡ some x
    → IsBest best (y ∷ ns) x
against none y ns x rec claim h =
    let r = rec (some y) h in
    record {
      found = inr (found_later claim r.found);
      above = λ b e. absurd (cc e);
      others = (inr (r.above y refl), r.others);
    }
against (some b) y ns x rec claim h = elim (Bool-cases (term_less b.1.term y.1.term)) [
  | inl later ↦
      let r = rec (some y) (rw later at h) in
      record {
        found = inr (found_later claim r.found);
        above = λ c e.
            subst (λ d. term_less x.1.term d.1.term ≡ false) (same_some e)
              (term_less_weaken x.1.term y.1.term b.1.term (r.above y refl) later);
        others = (inr (r.above y refl), r.others);
      }
  | inr not_later ↦
      let r = rec (some b) (rw not_later at h) in
      record {
        found = elim r.found [ inl e ↦ inl e | inr f ↦ inr (there f.0, f.1) ];
        above = r.above;
        others =
            (inr (term_less_trans x.1.term b.1.term y.1.term (r.above b refl) not_later), r.others);
      }
]

best_of-IsBest :
    (best : Option (Text × Node)) (ns : Nodes) (x : Text × Node)
    → best_of best ns ≡ some x
    → IsBest best ns x
unfolding best_of
best_of-IsBest best [] x h = record {
  found = inl h;
  above = λ b e.
      subst (λ c. term_less x.1.term c.1.term ≡ false) (same_some (sym h ∙ e))
        (term_less_irrefl x.1.term);
  others = tt;
}
best_of-IsBest best (y ∷ ns) x h = elim (Bool-cases (claims_lead y.1)) [
  | inr no_claim ↦
      let r = best_of-IsBest best ns x (rw (no_claim, best_of) at h) in
      record {
        found = elim r.found [ inl e ↦ inl e | inr f ↦ inr (there f.0, f.1) ];
        above = r.above;
        others = (inl no_claim, r.others);
      }
  | inl claim ↦ against best y ns x (λ b. best_of-IsBest b ns x) claim (rw (claim, best_of) at h)
]

-- The leader that a voter sees is one of its nodes that answers as the leader and names itself, and
-- no other such node is in a later term.
pub leader-Beats :
    (ns : Nodes) (x : Text × Node)
    → leader ns ≡ some x
    → Has x ns × (claims_lead x.1 ≡ true) × All (Beats x) ns
unfolding leader
leader-Beats ns x h =
    let b = best_of-IsBest none ns x h in
    elim b.found [ inl e ↦ absurd (cc e) | inr f ↦ (f.0, f.1, b.others) ]
