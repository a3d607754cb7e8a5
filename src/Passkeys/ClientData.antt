-- ===== src/Passkeys/ClientData.antt =====
-- readClientData, checkClientData and checkAuthFlags of panel/lib/webauthn.mjs, with what they take
-- from the platform.
use forthway_command_center.Base.{
  Bool, true, false, not, ◌&&◌, ◌||◌, Option, none, some, List, [], ◌∷◌, leb, ◌==◌, if◌then◌else◌,
  Text, codes, text_eq, any, select, length,
}
use mathlib.Core.List.{reverse}
use forthway_command_center.Passkeys.Outcome.{
  Bytes, Code, Result, ok, refused, client_data, wrong_type, challenge, origin, user_presence,
  user_verification, ◌>>=◌, check,
}
use forthway_command_center.Passkeys.Base64.{from_b64url}
use forthway_command_center.Passkeys.AuthData.{Auth}
use forthway_command_center.Passkeys.Key.{Crypto}

-- A property of the client data: a string, true, or anything else.
pub data Property : Type 0 where
  string : Text → Property
  yes other : Property

-- What `JSON.parse` does: it throws, or gives a value without properties, or one with them.
pub data Parsed : Type 0 where
  throws plain : Parsed
  object : (Text → Property) → Parsed

-- `utf8` is `toString("utf8")` and `utf8_bytes` is `Buffer.from`.
pub record Platform : Type 0 where
  pub utf8 : Bytes → Text
  pub utf8_bytes : Text → Bytes
  pub parse : Text → Parsed
  pub crypto : Crypto

pub record ClientData : Type 0 where
  pub type_name : Text
  pub answered : Text
  pub from_origin : Text
  pub cross_origin : Bool

string_property : Property → Result Text
string_property (string s) = ok s
string_property _ = refused client_data

is_yes : Property → Bool
is_yes yes = true
is_yes _ = false

fields_of : Parsed → Result ClientData
unfolding string_property is_yes
fields_of (object get) = do
  c ← string_property (get (codes "challenge"))
  t ← string_property (get (codes "type"))
  o ← string_property (get (codes "origin"))
  ok (record {
    type_name = t;
    answered = c;
    from_origin = o;
    cross_origin = is_yes (get (codes "crossOrigin"));
  })
fields_of _ = refused client_data

-- `fromB64url` of a value that need not be a string.
unfoldable pub read_b64url : Option Text → Code → Result Bytes
read_b64url none code = refused code
read_b64url (some s) code = from_b64url s code

-- `readClientData`: the bytes and the data.
unfoldable pub read_client_data : Platform → Option Text → Result (Bytes × ClientData)
unfolding fields_of
read_client_data p value = do
  raw ← read_b64url value client_data
  tt ← check (leb 1 (length raw) && leb (length raw) 4096) client_data
  cd ← fields_of (p.parse (p.utf8 raw))
  ok (raw, cd)

unfoldable pub drop_padding : Text → Text
drop_padding [] = []
drop_padding (c ∷ s) = if c == b'=' then drop_padding s else c ∷ s

-- `replace(/=+$/, "")`
unfoldable pub unpadded : Text → Text
unfolding drop_padding
unpadded s = reverse (drop_padding (reverse s))

-- What the panel expects of a ceremony. An origin that is "" is left out.
pub record Expected : Type 0 where
  pub expected_challenge : Text
  pub expected_origins : List Text
  pub rp_id : Text
  pub require_uv : Bool

abbrev is_named : Text → Bool
is_named [] = false
is_named (c ∷ s) = true

unfoldable pub check_client_data : Platform → Expected → Text → ClientData → Result (Unit {0})
check_client_data p e type_name cd = do
  tt ← check (text_eq cd.type_name type_name) wrong_type
  tt ←
      check (text_eq (p.utf8_bytes e.expected_challenge) (p.utf8_bytes (unpadded cd.answered)))
        challenge
  tt ← check (any (text_eq cd.from_origin) (select is_named e.expected_origins)) origin
  check (not cd.cross_origin) origin

unfoldable pub check_auth_flags : Platform → Expected → Auth → Result (Unit {0})
check_auth_flags p e auth = do
  tt ← check (text_eq (p.crypto.sha256 (p.utf8_bytes e.rp_id)) auth.rp_id_hash) Code.rp_id
  tt ← check auth.up user_presence
  check (not e.require_uv || auth.uv) user_verification
