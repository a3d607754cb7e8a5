-- ===== src/Jobs/Slots.antt =====
-- How many jobs load a server after admission, panel/lib/jobs.mjs.
use forthway_command_center.Base.{
  ℕ, ◌≤◌, ◌≡◌, refl, ◌∙◌, inl, inr, true, not, ◌&&◌, List, [], ◌∷◌, ltb, arith, max, Text,
  Bool-cases,
}
use forthway_command_center.Jobs.State.{
  Jobs, Waiter, has_text, is_over, used, loads, per_server, update_job,
}
use forthway_command_center.Jobs.Admit.{
  Round, admit, admit_one, slots_free, begin, unqueue, pump, first_round, number_from,
  sync_positions,
}
use forthway_command_center.Jobs.Tables.{all-has_text, count-map_set}
use forthway_command_center.Jobs.Order.{starts, admit_one-over, admit_one-starts, admit_one-waits}
use forthway_command_center.Jobs.Sound.{number_from-tables}

begin-used :
    (s : Jobs) (limit : ℕ) (servers : List Text) (w : Waiter) (server : Text)
    → slots_free s limit servers w ≡ true
    → used (begin s w) server ≤ max (used s server) limit
unfolding begin used update_job slots_free loads
begin-used s limit servers w server free = ground (
  arith,
  count-map_set (λ x. has_text x.servers server) s.slots w.id
      (record { servers = w.servers; forced = w.forced }),
  all-has_text (λ x. not (has_text servers x) && ltb (used s x) limit) w.servers server,
)

used-unqueue : (s : Jobs) (id server : Text) → used (unqueue s id) server ≡ used s server
unfolding used unqueue
used-unqueue s id server = refl

slots_free-unqueue :
    (s : Jobs) (id : Text) (limit : ℕ) (servers : List Text) (w : Waiter)
    → slots_free (unqueue s id) limit servers w ≡ slots_free s limit servers w
unfolding slots_free used unqueue
slots_free-unqueue s id limit servers w = refl

admit_one-used :
    (limit : ℕ) (w : Waiter) (r : Round) (server : Text)
    → used (admit_one limit w r).jobs server ≤ max (used r.jobs server) limit
admit_one-used limit w r server = elim (Bool-cases (is_over r.jobs w.id)) [
  | inl over ↦ rw (admit_one-over limit w r over) (omega (arith, used-unqueue r.jobs w.id server))
  | inr on ↦ elim (Bool-cases (starts limit w r)) [
    | inl goes ↦ rw (admit_one-starts limit w r on goes) (
        omega (
          arith,
          used-unqueue r.jobs w.id server,
          begin-used (unqueue r.jobs w.id) limit r.servers w server
              (slots_free-unqueue r.jobs w.id limit r.servers w ∙ ground arith),
        ))
    | inr waits ↦ rw (admit_one-waits limit w r on waits) (omega arith)
  ]
]

admit-used :
    (limit : ℕ) (ws : List Waiter) (r : Round) (server : Text)
    → used (admit limit ws r).jobs server ≤ max (used r.jobs server) limit
unfolding admit
admit-used limit [] r server = omega arith
admit-used limit (w ∷ ws) r server =
    omega (arith, admit_one-used limit w r server, admit-used limit ws (admit_one limit w r) server)

used-number_from :
    (n : ℕ) (ws : List Waiter) (s : Jobs) (server : Text)
    → used (number_from n ws s) server ≡ used s server
unfolding used
used-number_from n ws s server = rw ((number_from-tables n ws s).0) refl

-- After admission, a server has at most as many heavy jobs that load it as before, or at most as
-- many as the limit that is set, whichever is more.
pub pump-used :
    (s : Jobs) (server : Text) → used (pump s) server ≤ max (used s server) (per_server s)
unfolding pump sync_positions
pump-used s server = omega (
  arith,
  used-number_from 0 (admit (per_server s) s.waiting (first_round s)).jobs.waiting
      (admit (per_server s) s.waiting (first_round s)).jobs server,
  admit-used (per_server s) s.waiting (first_round s) server,
)
