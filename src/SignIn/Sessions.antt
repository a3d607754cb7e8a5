-- ===== src/SignIn/Sessions.antt =====
-- The sessions of createAuth in panel/lib/auth.mjs: tokens, what they stand for, and when they end.
-- A request is its session cookie, and a clock reading is an argument. A passkey id and a session id
-- that are given to a function are none when they are falsy.
pub mod Tokens
pub mod Safe
use forthway_command_center.Base.{
  ℕ, suc, ◌+◌, Bool, true, false, not, ◌&&◌, ◌||◌, Option, none, some, List, [], ◌∷◌, ltb, ◌==◌,
  if◌then◌else◌, Text, text_eq, is_text, any, map_get, map_set,
}
use forthway_command_center.SignIn.Sessions.Tokens.{
  Payload, Coder, unsign, sign, token_matches, first_codes, session_ttl_ms, pending_ttl_ms,
}

-- An admin, as far as sessions read it.
pub record Admin : Type 0 where
  pub id : Text
  pub session_version : ℕ
  pub password_hash : Option Text

-- The admins by id, the owners of the passkeys, and whether only GitHub may sign in.
pub record Accounts : Type 0 where
  pub admins : List (Text × Admin)
  pub passkey_owners : List Text
  pub github_only : Bool

hash_text : Option Text → Text
hash_text none = []
hash_text (some h) = h

-- `fingerprint`
unfoldable pub fingerprint : Coder → Admin → Text
unfolding hash_text
fingerprint c admin = first_codes 16 (c.mac (b'p' ∷ b'v' ∷ b':' ∷ hash_text admin.password_hash))

unfoldable pub has_password : Admin → Bool
has_password admin = elim admin.password_hash [ none ↦ false | some h ↦ true ]

-- A cookie from before sessionVersion.
unfoldable pub old_cookie_holds : Coder → Accounts → Admin → Option Text → Bool
old_cookie_holds c p admin none = false
old_cookie_holds c p admin (some pv) =
    not p.github_only && has_password admin && token_matches pv (fingerprint c admin)

unfoldable pub version_holds : Coder → Accounts → Admin → Option ℕ → Option Text → Bool
version_holds c p admin (some sv) pv = sv == admin.session_version
version_holds c p admin none pv = old_cookie_holds c p admin pv

pub record Info : Type 0 where
  pub admin : Admin
  pub full : Bool
  pub sid : Text
  pub passkey_id : Option Text
  pub exp : ℕ

-- A text that is not empty.
unfoldable pub named_text : Option Text → Option Text
named_text none = none
named_text (some []) = none
named_text (some (c ∷ s)) = some (c ∷ s)

unfoldable pub is_there : Option Text → Bool
is_there none = false
is_there (some t) = true

unfoldable pub text_or : Option Text → Text → Text
text_or none d = d
text_or (some t) d = t

unfoldable pub info_of : Coder → Text → Payload → ℕ → Admin → Info
info_of c token payload exp admin = record {
  admin = admin;
  full = is_there (named_text payload.pk);
  sid = text_or (named_text payload.sid) (first_codes 16 (c.digest token));
  passkey_id = named_text payload.pk;
  exp = exp;
}

unfoldable pub admitted : Coder → Accounts → Text → Payload → ℕ → Option Admin → Option Info
unfolding info_of
admitted c p token payload exp none = none
admitted c p token payload exp (some admin) =
    if version_holds c p admin payload.sv payload.pv
    then some (info_of c token payload exp admin)
    else none

unfoldable pub in_time : Coder → Accounts → Text → ℕ → Payload → Option ℕ → Option Info
in_time c p token now payload none = none
in_time c p token now payload (some exp) =
    if ltb now exp then admitted c p token payload exp (map_get p.admins payload.admin_id) else none

unfoldable pub payload_info : Coder → Accounts → Text → ℕ → Option Payload → Option Info
payload_info c p token now none = none
payload_info c p token now (some payload) = in_time c p token now payload payload.exp

-- `sessionInfo`
unfoldable pub session_info : Coder → Accounts → ℕ → Text → Option Info
unfolding payload_info
session_info c p now token = payload_info c p token now (unsign c token [])

pub data Gate : Type 0 where
  nobody setup_required passkey_required : Gate
  signed_in : Admin → Gate

unfoldable pub gate_of : Accounts → Option Info → Gate
gate_of p none = nobody
gate_of p (some i) =
    if i.full
    then signed_in i.admin
    else if any (text_eq i.admin.id) p.passkey_owners
    then passkey_required
    else setup_required

-- `gate`
unfoldable pub gate : Coder → Accounts → ℕ → Text → Gate
unfolding gate_of
gate c p now token = gate_of p (session_info c p now token)

unfoldable pub ttl_of : Option Text → ℕ
ttl_of none = pending_ttl_ms
ttl_of (some k) = session_ttl_ms

unfoldable pub payload_for : Admin → Option Text → Option Text → Text → ℕ → Payload
unfolding ttl_of
payload_for admin passkey sid random now = record {
  admin_id = admin.id;
  iat = now;
  exp = some (now + ttl_of passkey);
  sv = some admin.session_version;
  pv = none;
  sid = some (text_or (named_text sid) random);
  pk = passkey;
}

-- `issue`, with the random bytes of a session id.
unfoldable pub issue : Coder → Admin → Option Text → Option Text → Text → ℕ → Text
issue c admin passkey sid random now = sign c (payload_for admin passkey sid random now) []

-- `currentPasskey`: what the cookie of the request holds, when it is a full session of this admin.
unfoldable pub current_if : Text → ℕ → Payload → Option ℕ → Option (Text × Option Text)
current_if admin_id now payload none = none
current_if admin_id now payload (some exp) =
    if ltb now exp && text_eq payload.admin_id admin_id
    then (elim (named_text payload.pk) [ none ↦ none | some k ↦ some (k, named_text payload.sid) ])
    else none

unfoldable pub current_passkey : Coder → ℕ → Text → Text → Option (Text × Option Text)
current_passkey c now token admin_id = elim (unsign c token []) [
  | none ↦ none
  | some payload ↦ current_if admin_id now payload payload.exp
]

sid_of : Option Info → Option Text
sid_of none = none
sid_of (some i) = some i.sid

unfoldable pub reissued : Coder → Admin → Option (Text × Option Text) → Text → ℕ → Text
reissued c admin none random now = issue c admin none none random now
reissued c admin (some (k, sid)) random now = issue c admin (some k) sid random now

-- `setSession`: the new cookie of a request.
unfoldable pub set_session : Coder → Accounts → ℕ → Text → Admin → Bool → Option Text → Text → Text
unfolding sid_of reissued
set_session c p now token admin fresh (some k) random =
    issue c admin (some k) (sid_of (session_info c p now token)) random now
set_session c p now token admin true none random = issue c admin none none random now
set_session c p now token admin false none random =
    reissued c admin (current_passkey c now token admin.id) random now

unfoldable pub bumped : Option Admin → List (Text × Admin) → Text → List (Text × Admin)
bumped none admins id = admins
bumped (some a) admins id = map_set admins id (record a { session_version = a.session_version + 1 })

-- `bumpSessions`
unfoldable pub bump_sessions : Accounts → Text → Accounts
unfolding bumped
bump_sessions p id = record p { admins = bumped (map_get p.admins id) p.admins id }
