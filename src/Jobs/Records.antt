-- ===== src/Jobs/Records.antt =====
-- The records of panel/lib/jobs.mjs: what start writes, what recover leaves.
use forthway_command_center.Base.{
  ℕ, ◌≤◌, ◌≡◌, refl, zero, suc, inl, inr, true, false, none, some, List, [], ◌∷◌, arith, length,
  Text, text_eq_refl, text_eq_iff, ◌⊎◌, Bool-cases, ◌≢◌, map_get,
}
use forthway_command_center.Jobs.State.{
  Job, Status, is_done, server_list, distinct_after, trimmed, or_fallback, take_first, has_text,
}
use forthway_command_center.Jobs.Life.{recover, recovered}

-- A list of different names.
abbrev pub IsDistinct : List Text → Type 0
IsDistinct [] = Unit
IsDistinct (t ∷ ts) = (has_text ts t ≡ false) × IsDistinct ts

has_text-here : (t : Text) (ts : List Text) → has_text (t ∷ ts) t ≡ true
unfolding has_text
has_text-here t ts = ground (arith, text_eq_refl t)

has_text-distinct_after :
    (seen ts : List Text) (t : Text)
    → has_text seen t ≡ true
    → has_text (distinct_after seen ts) t ≡ false
unfolding distinct_after has_text
has_text-distinct_after seen [] t h = refl
has_text-distinct_after seen (u ∷ ts) t h = elim (Bool-cases (has_text seen u)) [
  | inl e ↦ rw (e, distinct_after) (has_text-distinct_after seen ts t h)
  | inr e ↦
      ground
        (arith, e, h, text_eq_iff u t, has_text-distinct_after (u ∷ seen) ts t (ground (arith, h)))
]

distinct_after-IsDistinct : (seen ts : List Text) → IsDistinct (distinct_after seen ts)
unfolding distinct_after
distinct_after-IsDistinct seen [] = tt
distinct_after-IsDistinct seen (t ∷ ts) = elim (Bool-cases (has_text seen t)) [
  | inl e ↦ rw e (distinct_after-IsDistinct seen ts)
  | inr e ↦ rw e (
    has_text-distinct_after (t ∷ seen) ts t (has_text-here t seen),
    distinct_after-IsDistinct (t ∷ seen) ts,
  )
]

has_text-take_first :
    (n : ℕ) (ts : List Text) (t : Text)
    → has_text ts t ≡ false
    → has_text (take_first n ts) t ≡ false
unfolding has_text take_first
has_text-take_first zero ts t h = refl
has_text-take_first (suc n) [] t h = refl
has_text-take_first (suc n) (u ∷ ts) t h = ground (arith, has_text-take_first n ts t)

take_first-IsDistinct : (n : ℕ) (ts : List Text) → IsDistinct ts → IsDistinct (take_first n ts)
unfolding take_first
take_first-IsDistinct zero ts h = tt
take_first-IsDistinct (suc n) [] h = tt
take_first-IsDistinct (suc n) (t ∷ ts) h =
    (has_text-take_first n ts t h.0, take_first-IsDistinct n ts h.1)

length-take_first : (n : ℕ) (ts : List Text) → length (take_first n ts) ≤ n
unfolding take_first
length-take_first zero ts = omega arith
length-take_first (suc n) [] = omega arith
length-take_first (suc n) (t ∷ ts) = omega (arith, length-take_first n ts)

-- A heavy job loads at least one server and at most 32, each once.
pub server_list-IsDistinct :
    (ts : List Text) (fallback : Text)
    → IsDistinct (server_list ts fallback)
      × (1 ≤ length (server_list ts fallback))
      × (length (server_list ts fallback) ≤ 32)
unfolding server_list has_text or_fallback
server_list-IsDistinct ts fallback =
    let xs = distinct_after [] (trimmed ts) in
    of_list (take_first 32 xs)
      (take_first-IsDistinct 32 xs (distinct_after-IsDistinct [] (trimmed ts)))
      (length-take_first 32 xs)
  where
    of_list :
        (xs : List Text)
        → IsDistinct xs
        → length xs ≤ 32
        → IsDistinct (or_fallback fallback xs)
          × (1 ≤ length (or_fallback fallback xs))
          × (length (or_fallback fallback xs) ≤ 32)
    of_list [] d le = ((refl, tt), omega arith, omega arith)
    of_list (x ∷ xs) d le = (d, omega arith, le)

-- What becomes of a job over a restart.
pub record Recovers (j r : Job) : Type 0 where
  pub over : is_done r.status ≡ true
  pub kept : (is_done j.status ≡ false) ⊎ (r ≡ j)
  pub ended : (is_done j.status ≡ true) ⊎ (r.finished ≡ true)
  pub waited :
      (j.status ≢ Status.queued)
      ⊎ ((j.heavy ≡ true) × (r.status ≡ Status.cancelled) × (r.position ≡ none))
      ⊎ ((j.heavy ≡ false) × (r.status ≡ Status.failed))
  pub ran : (j.status ≢ Status.running) ⊎ (r.status ≡ Status.failed)

recovered-Recovers : (j : Job) → Recovers j (recovered j)
unfolding recovered is_done
recovered-Recovers j = record {
  over = ground arith;
  kept = ground arith;
  ended = ground arith;
  waited = ground arith;
  ran = ground arith;
}

recover-get :
    (js : List (Text × Job)) (id : Text) {j : Job}
    → map_get js id ≡ some j
    → map_get (recover js) id ≡ some (recovered j)
unfolding recover map_get
recover-get [] id e = cc
recover-get ((k, i) ∷ js) id {j} e = ground (arith, recover-get js id {j = j})

-- A restart settles every job: one that was settled stays as it was, a heavy one that waited is
-- cancelled and has no place in the queue, and any other that waited or ran has failed.
pub recover-Recovers :
    (js : List (Text × Job)) (id : Text) (j : Job)
    → map_get js id ≡ some j
    → (r : Job) × (map_get (recover js) id ≡ some r) × Recovers j r
recover-Recovers js id j e = (recovered j, recover-get js id e, recovered-Recovers j)
