-- ===== src/Passkeys/Challenges.antt =====
-- ChallengeStore of panel/lib/webauthn.mjs. A clock reading is an argument for each call of `now`,
-- and so are the random bytes. The limit on all challenges is 1 at least: with 0 the loop of `issue`
-- would not end.
pub mod Sublists
pub mod Bounded
pub mod Redeem
use forthway_command_center.Base.{
  ℕ, zero, suc, ◌+◌, ◌-◌, Bool, true, false, not, Option, none, some, List, [], ◌∷◌, ltb, leb,
  if◌then◌else◌, Text, text_eq, is_text, select, length, map_get, map_set, map_delete,
}
use forthway_command_center.Passkeys.Outcome.{Bytes}
use forthway_command_center.Passkeys.Base64.{b64url}
use forthway_command_center.Passkeys.ClientData.{unpadded}

-- What a challenge is bound to.
pub record Binding : Type 0 where
  pub kind : Text
  pub admin_id : Text
  pub session_key : Option Text
  pub rp_id : Text
  pub origin : Text
  pub user_handle : Option Text

pub record Issued : Type 0 where
  pub binding : Binding
  pub challenge : Text
  pub exp : ℕ

pub record Store : Type 0 where
  pub ttl_ms : ℕ
  pub max : ℕ
  pub per_key : ℕ
  pub items : List (Text × Issued)

unfoldable pub prune : Store → ℕ → Store
prune st t = record st { items = select (λ x. ltb t x.1.exp) st.items }

-- `binding.sessionKey || ""`
abbrev pub key_of : Binding → Text
key_of b = elim b.session_key [ none ↦ [] | some k ↦ k ]

abbrev pub is_of : Text → Text × Issued → Bool
is_of key x = is_text x.1.binding.session_key key

-- The loop that deletes the first `n` of the entries it goes through.
unfoldable pub delete_first : ℕ → List (Text × Issued) → List (Text × Issued) → List (Text × Issued)
delete_first zero mine m = m
delete_first (suc n) [] m = m
delete_first (suc n) ((c, r) ∷ mine) m = delete_first n mine (map_delete m c)

-- The loop that deletes the oldest while there are `max` or more.
unfoldable pub make_room : ℕ → List (Text × Issued) → List (Text × Issued)
make_room max [] = []
make_room max (x ∷ m) = if leb max (length (x ∷ m)) then make_room max m else x ∷ m

-- What is left of the challenges for a new one of this session.
unfoldable pub kept : Store → Text → ℕ → List (Text × Issued)
kept st key t =
    let items = (prune st t).items in
    let mine = select (is_of key) items in
    make_room st.max (delete_first (length mine + 1 - st.per_key) mine items)

abbrev pub made : Store → Binding → Text → ℕ → Issued
made st b c now = record { binding = b; challenge = c; exp = now + st.ttl_ms }

unfoldable pub issue : Store → Binding → Bytes → ℕ → ℕ → Store × Text
issue st b random t now =
    let challenge = b64url random in
    (
      record st { items = map_set (kept st (key_of b) t) challenge (made st b challenge now) },
      challenge,
    )

abbrev pub live : ℕ → Option Issued → Option Issued
live now none = none
live now (some r) = if ltb now r.exp then some r else none

-- The argument is a string; a value that is falsy counts as "".
unfoldable pub take : Store → Text → ℕ → Store × Option Issued
take st given now =
    let c = unpadded given in
    (record st { items = map_delete st.items c }, live now (map_get st.items c))
