-- ===== src/Ha/Safety/Nodes.antt =====
-- The steps of panel nodes keep the invariant.
use forthway_command_center.Base.{
  ℕ, ◌+◌, ◌≤◌, ◌<◌, ◌≡◌, refl, inl, inr, none, some, List, [], ◌∷◌, arith, Text, micros, All, Has,
  here, there, All-map, sym, All-Has, subst, whole,
}
use forthway_command_center.Ha.Panel.State.{Issued, Counted}
use forthway_command_center.Ha.Panel.Lease.{valid_issued, grant_until}
use forthway_command_center.Ha.Panel.Lease.Requests.{
  IsFound, valid_issued-IsFound, All-record_issued, grant_until-le,
}
use forthway_command_center.Ha.Panel.Ballot.{Request}
use forthway_command_center.Ha.Safety.System.{
  View, Posted, Cast, System, update, ask_view, count_view,
}
use forthway_command_center.Ha.Safety.Invariant.{
  Held, Dated, IsPosted, IsCast, IsIssued, Counts, Inv,
}
use forthway_command_center.Ha.Safety.Frame.{update-cases, Held-le, Held-wait, Dated-update}

module _ {margin : ℕ} {s : System} (inv : Inv margin s) where
  pub wait-Inv : (d : ℕ) → Inv margin (record s { time = s.time + d })
  wait-Inv d = record {
    booted = omega (arith, inv.booted);
    saved = omega (arith, inv.saved);
    stored = inv.stored;
    clean = inv.clean;
    cap = omega (arith, inv.cap);
    requests =
        All-map s.requests
          (λ p h. record { own = h.own; past = omega (arith, h.past); dated = h.dated })
          inv.requests;
    casts =
        All-map s.casts
          (λ x h. record {
            origin = h.origin;
            answers = record {
              posted = h.answers.posted;
              own = h.answers.own;
              term = h.answers.term;
              nonce = h.answers.nonce;
              at = h.answers.at;
            };
            short = h.short;
            long = h.long;
            held = Held-wait s x.grant.candidate _ d h.held;
          })
          inv.casts;
    issued = inv.issued;
    counted = λ c g e pos. Held-wait s c _ d (inv.counted c g e pos);
  }

  -- A node that goes on in the same run.
  view-Inv :
      (c : Text) (v : View)
      → v.boot ≡ (s.views c).boot
      → v.floor ≡ (s.views c).floor
      → All (IsIssued margin v.floor) v.issued
      → ((g : Counted)
          → v.counted ≡ some g
          → 0 < g.until
          → Held s c (v.boot + g.until + micros margin))
      → Inv margin (record s { views = update s.views c v })
  view-Inv c v b fl iss cnt = record {
    booted = inv.booted;
    saved = inv.saved;
    stored = inv.stored;
    clean = inv.clean;
    cap = inv.cap;
    requests =
        All-map s.requests
          (λ p h. record {
            own = h.own;
            past = h.past;
            dated =
                Dated-update s.views c p.from v p.request.term p.request.nonce p.at b fl h.dated;
          })
          inv.requests;
    casts =
        All-map s.casts
          (λ x h. record {
            origin = h.origin;
            answers = record {
              posted = h.answers.posted;
              own = h.answers.own;
              term = h.answers.term;
              nonce = h.answers.nonce;
              at = h.answers.at;
            };
            short = h.short;
            long = h.long;
            held = h.held;
          })
          inv.casts;
    issued = λ d. elim (update-cases s.views c d v) [
      | inl (e, p) ↦ rw p iss
      | inr p ↦ rw p (inv.issued d)
    ];
    counted = λ d. elim (update-cases s.views c d v) [
      | inl (q, p) ↦ rw (p, ← q) cnt
      | inr p ↦ rw p (inv.counted d)
    ];
  }

  posted-Inv : (p : Posted) → IsPosted s p → Inv margin (record s { requests = p ∷ s.requests })
  posted-Inv p h = record {
    booted = inv.booted;
    saved = inv.saved;
    stored = inv.stored;
    clean = inv.clean;
    cap = inv.cap;
    requests = (
      record { own = h.own; past = h.past; dated = h.dated },
      All-map s.requests (λ q k. record { own = k.own; past = k.past; dated = k.dated })
          inv.requests,
    );
    casts =
        All-map s.casts
          (λ x k. record {
            origin = k.origin;
            answers = record {
              posted = there k.answers.posted;
              own = k.answers.own;
              term = k.answers.term;
              nonce = k.answers.nonce;
              at = k.answers.at;
            };
            short = k.short;
            long = k.long;
            held = k.held;
          })
          inv.casts;
    issued = inv.issued;
    counted = inv.counted;
  }

  pub drop-Inv :
      (c : Text)
      → Inv margin (record s { views = update s.views c (record (s.views c) { counted = none }) })
  drop-Inv c =
      view-Inv c (record (s.views c) { counted = none }) refl refl (inv.issued c) (λ g e pos. cc)

  pub count-Inv :
      (x : Cast) (e : Issued) (now : ℕ)
      → Has x s.casts
      → valid_issued (s.views x.grant.candidate).issued now x.grant.term x.grant.nonce ≡ some e
      → Inv margin (record s {
        views =
            update s.views x.grant.candidate
              (count_view (s.views x.grant.candidate) e x.grant.lease_ms);
      })
  count-Inv x e now m h =
      view-Inv x.grant.candidate (count_view (s.views x.grant.candidate) e x.grant.lease_ms) refl
        refl (inv.issued x.grant.candidate) (λ g q pos. counts g q pos)
    where
      found : IsFound (s.views x.grant.candidate).issued now x.grant.term x.grant.nonce e
      found =
          valid_issued-IsFound (s.views x.grant.candidate).issued now x.grant.term x.grant.nonce h

      ok : IsIssued margin (s.views x.grant.candidate).floor e
      ok = All-Has _ (s.views x.grant.candidate).issued (inv.issued x.grant.candidate) found.listed

      cast : IsCast s x
      cast = All-Has (IsCast s) s.casts inv.casts m

      asked : IsPosted s cast.origin
      asked = All-Has (IsPosted s) s.requests inv.requests cast.answers.posted

      same : cast.origin.request.nonce ≡ e.nonce
      same = ground (arith, cast.answers.nonce, found.nonce_eq)

      on_time : x.at ≡ (s.views x.grant.candidate).boot + e.nonce
      on_time =
          let dated =
            subst
              (λ c.
                Dated (s.views c) cast.origin.request.term cast.origin.request.nonce cast.origin.at)
              cast.answers.own asked.dated in
          omega (arith, dated, cast.answers.term, cast.answers.at, found.term, ok, same)

      counts :
          Counts margin s x.grant.candidate
            (count_view (s.views x.grant.candidate) e x.grant.lease_ms)
      counts g q pos =
          let until : g.until ≡ grant_until e (whole x.grant.lease_ms) = ground arith in
          let ends =
            grant_until-le e x.grant.lease_ms cast.short cast.long (subst (λ u. 0 < u) until pos) in
          Held-le s x.grant.candidate (omega (arith, until, ends, on_time, ok)) cast.held

  -- A request whose nonce is the node's clock.
  pub ask-Inv :
      (q : Request) (m : ℕ)
      → (s.views q.candidate).floor ≤ q.term
      → margin ≤ m
      → Inv margin
          (record s { views = update s.views q.candidate (ask_view (s.views q.candidate) q m) })
  ask-Inv q m fl mg =
      view-Inv q.candidate (ask_view (s.views q.candidate) q m) refl refl
        (All-record_issued (IsIssued margin (s.views q.candidate).floor) _ q.nonce _
          (inv.issued q.candidate) (mg, fl))
        (λ g e pos. inv.counted q.candidate g e pos)

  restart-Dated :
      (c : Text) (floor : ℕ) (v : View) (p : Posted)
      → ((o : Posted) → Has o s.requests → o.from ≡ c → o.request.term < floor)
      → v.floor ≡ floor
      → Has p s.requests
      → Dated (s.views p.from) p.request.term p.request.nonce p.at
      → Dated (update s.views c v p.from) p.request.term p.request.nonce p.at
  restart-Dated c floor v p old fl m h = elim (update-cases s.views c p.from v) [
    | inl (e, u) ↦ rw (u, fl) (inl (old p m (sym e)))
    | inr u ↦ rw u h
  ]

-- Every entry, with its place in the list.
All-with_Has {ℓ κ ι} :
    {A : Type ℓ} {P : A → Type κ} {Q : A → Type ι} (xs : List A)
    → ((x : A) → Has x xs → P x → Q x)
    → All P xs
    → All Q xs
All-with_Has [] f h = tt
All-with_Has (x ∷ xs) f h = (f x (here refl) h.0, All-with_Has xs (λ y m. f y (there m)) h.1)

pub asked-Inv :
    {margin : ℕ} {s : System} (inv : Inv margin s) (q : Request) (m : ℕ)
    → (s.views q.candidate).floor ≤ q.term
    → margin ≤ m
    → (s.views q.candidate).boot + q.nonce ≡ s.time
    → Inv margin (record s {
      views = update s.views q.candidate (ask_view (s.views q.candidate) q m);
      requests = record { from = q.candidate; request = q; at = s.time } ∷ s.requests;
    })
asked-Inv {s = s} inv q m fl mg clock = posted-Inv (ask-Inv inv q m fl mg) _ (record {
  own = refl;
  past = omega arith;
  dated =
      Dated-update s.views q.candidate q.candidate (ask_view (s.views q.candidate) q m) q.term
        q.nonce s.time refl refl (inr (sym clock));
})

pub restart-Inv :
    {margin : ℕ} {s : System} (inv : Inv margin s) (c : Text) (floor : ℕ)
    → ((p : Posted) → Has p s.requests → p.from ≡ c → p.request.term < floor)
    → Inv margin (record s {
      views =
          update s.views c (record { boot = s.time; floor = floor; issued = []; counted = none });
    })
restart-Inv {s = s} inv c floor old =
    let v : View = record { boot = s.time; floor = floor; issued = []; counted = none } in
    record {
      booted = inv.booted;
      saved = inv.saved;
      stored = inv.stored;
      clean = inv.clean;
      cap = inv.cap;
      requests =
          All-with_Has s.requests
            (λ p m h. record {
              own = h.own;
              past = h.past;
              dated = restart-Dated inv c floor v p old refl m h.dated;
            })
            inv.requests;
      casts =
          All-map s.casts
            (λ x h. record {
              origin = h.origin;
              answers = record {
                posted = h.answers.posted;
                own = h.answers.own;
                term = h.answers.term;
                nonce = h.answers.nonce;
                at = h.answers.at;
              };
              short = h.short;
              long = h.long;
              held = h.held;
            })
            inv.casts;
      issued = λ d. elim (update-cases s.views c d v) [
        | inl (e, p) ↦ rw p tt
        | inr p ↦ rw p (inv.issued d)
      ];
      counted = λ d. elim (update-cases s.views c d v) [
        | inl (e, p) ↦ rw p (λ g q pos. cc)
        | inr p ↦ rw p (inv.counted d)
      ];
    }
