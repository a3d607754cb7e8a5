-- ===== src/Jobs/Moves.antt =====
-- What a move of a waiting job does to the queue, panel/lib/jobs.mjs.
use forthway_command_center.Base.{
  ℕ, ◌+◌, ◌≤◌, ◌≡◌, refl, sym, ◌∙◌, ap, zero, suc, inl, inr, Bool, true, not, some, List, [], ◌∷◌,
  arith, length, select, count, All, Bool-cases, Option-cases,
}
use forthway_command_center.Jobs.State.{Waiter}
use forthway_command_center.Jobs.Control.{heavy_waiters, insert_at, pick, relocate, fill}

-- Heavy jobs put to the spots of as many heavy ones appear there in their order.
pub heavy_waiters-fill :
    (ws hs : List Waiter)
    → All (λ w. w.heavy ≡ true) hs
    → length hs ≡ length (heavy_waiters ws)
    → heavy_waiters (fill ws hs) ≡ hs
unfolding fill
heavy_waiters-fill [] [] a e = refl
heavy_waiters-fill [] (h ∷ hs) a e = absurd (omega (arith, e))
heavy_waiters-fill (w ∷ ws) [] a e = elim (Bool-cases w.heavy) [
  | inl t ↦ absurd (ground arith)
  | inr t ↦ ground arith
]
heavy_waiters-fill (w ∷ ws) (h ∷ hs) a e = elim (Bool-cases w.heavy) [
  | inl t ↦ ground (arith, heavy_waiters-fill ws hs a.1, a.0)
  | inr t ↦ ground (arith, heavy_waiters-fill ws (h ∷ hs) a)
]

-- The light jobs and the spots of the heavy ones stay as they are.
pub light-fill :
    (ws hs : List Waiter)
    → All (λ w. w.heavy ≡ true) hs
    → select (λ w. not w.heavy) (fill ws hs) ≡ select (λ w. not w.heavy) ws
unfolding fill
light-fill [] hs a = refl
light-fill (w ∷ ws) [] a = refl
light-fill (w ∷ ws) (h ∷ hs) a = elim (Bool-cases w.heavy) [
  | inl t ↦ ground (arith, light-fill ws hs a.1, a.0)
  | inr t ↦ ground (arith, light-fill ws (h ∷ hs) a)
]

count-insert_at :
    (p : Waiter → Bool) (n : ℕ) (w : Waiter) (ws : List Waiter)
    → count p (insert_at n w ws) ≡ count p (w ∷ ws)
count-insert_at p zero w ws = refl
count-insert_at p (suc n) w [] = refl
count-insert_at p (suc n) w (x ∷ ws) = ground (arith, count-insert_at p n w ws)

count-pick :
    (p : Waiter → Bool) (n : ℕ) (ws : List Waiter) {w : Waiter} {rest : List Waiter}
    → pick n ws ≡ some (w, rest)
    → count p ws ≡ count p (w ∷ rest)
count-pick p n [] e = cc
count-pick p zero (x ∷ ws) e = ground arith
count-pick p (suc n) (x ∷ ws) e = elim (Option-cases (pick n ws)) [
  | inl q ↦ absurd (ground arith)
  | inr ((y, ys), q) ↦ ground (arith, count-pick p n ws q)
]

pub count-relocate :
    (p : Waiter → Bool) (from dest : ℕ) (ws : List Waiter)
    → count p (relocate from dest ws) ≡ count p ws
unfolding relocate
count-relocate p from dest ws = elim (Option-cases (pick from ws)) [
  | inl e ↦ rw (e, relocate) refl
  | inr ((w, rest), e) ↦
      rw (e, relocate) (count-insert_at p dest w rest ∙ sym (count-pick p from ws e))
]

pick-insert_at :
    (n : ℕ) (w : Waiter) (ws : List Waiter)
    → n ≤ length ws
    → pick n (insert_at n w ws) ≡ some (w, ws)
pick-insert_at zero w [] le = refl
pick-insert_at zero w (x ∷ ws) le = refl
pick-insert_at (suc n) w [] le = absurd (omega (arith, le))
pick-insert_at (suc n) w (x ∷ ws) le = rw (pick-insert_at n w ws (omega (arith, le))) refl

-- A waiter that is moved stands at its new place, and the others keep their order.
pub pick-relocate :
    (from dest : ℕ) (ws : List Waiter) (w : Waiter) (rest : List Waiter)
    → pick from ws ≡ some (w, rest)
    → dest ≤ length rest
    → pick dest (relocate from dest ws) ≡ some (w, rest)
unfolding relocate
pick-relocate from dest ws w rest e le = rw (e, relocate) (pick-insert_at dest w rest le)

length-count : (ws : List Waiter) → length ws ≡ count (λ w. true) ws
length-count [] = refl
length-count (w ∷ ws) = ap suc (length-count ws)

count-light : (ws : List Waiter) → count (λ w. not w.heavy) (heavy_waiters ws) ≡ 0
count-light [] = refl
count-light (w ∷ ws) = ground (arith, count-light ws)

none_light : (ws : List Waiter) → count (λ w. not w.heavy) ws ≡ 0 → All (λ w. w.heavy ≡ true) ws
none_light [] e = tt
none_light (w ∷ ws) e = (ground arith, none_light ws (ground arith))

count-split :
    (p : Waiter → Bool) (ws : List Waiter)
    → count p ws ≡ count p (heavy_waiters ws) + count p (select (λ w. not w.heavy) ws)
count-split p [] = refl
count-split p (w ∷ ws) = ground (arith, count-split p ws)

-- A move of a heavy waiter puts the heavy ones in their new order, to the spots that heavy ones
-- had; the light ones stay where they are, and the queue has the same waiters as before.
pub fill-relocate :
    (p : Waiter → Bool) (from dest : ℕ) (ws : List Waiter)
    → let hs = relocate from dest (heavy_waiters ws) in
      (heavy_waiters (fill ws hs) ≡ hs)
      × (select (λ w. not w.heavy) (fill ws hs) ≡ select (λ w. not w.heavy) ws)
      × (count p (fill ws hs) ≡ count p ws)
fill-relocate p from dest ws =
    let hs = relocate from dest (heavy_waiters ws) in
    let heavy =
      none_light hs
        (count-relocate (λ w. not w.heavy) from dest (heavy_waiters ws) ∙ count-light ws) in
    let same =
      length-count hs
      ∙ count-relocate (λ w. true) from dest (heavy_waiters ws)
      ∙ sym (length-count (heavy_waiters ws)) in
    let order = heavy_waiters-fill ws hs heavy same in
    let light = light-fill ws hs heavy in
    (
      order,
      light,
      count-split p (fill ws hs)
          ∙ rw (order, light)
              (omega (arith, count-relocate p from dest (heavy_waiters ws), count-split p ws)),
    )
