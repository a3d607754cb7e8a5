-- ===== src/Passkeys/Ceremony.antt =====
-- verifyRegistration and verifyAssertion of panel/lib/webauthn.mjs.
use forthway_command_center.Base.{
  ℕ, zero, suc, Bool, true, not, ◌&&◌, ◌||◌, Option, none, some, List, [], ◌∷◌, ◌++◌, leb, ◌==◌,
  if◌then◌else◌, Text, codes, text_eq, any, all, length,
}
use forthway_command_center.Passkeys.Outcome.{
  Bytes, Result, ok, refused, format, alg, auth_data, attestation, user_handle, signature, ◌>>=◌,
  check, Code,
}
use forthway_command_center.Passkeys.Base64.{from_b64url, b64url}
use forthway_command_center.Passkeys.Cbor.{Cbor, decode}
use forthway_command_center.Passkeys.AuthData.{Auth, parse_auth_data, table_of}
use forthway_command_center.Passkeys.Key.{
  Alg, same_alg, Jwk, table_get, buffer_of, cose_to_jwk, verify_signature,
}
use forthway_command_center.Passkeys.ClientData.{
  Platform, Expected, read_b64url, read_client_data, check_client_data, check_auth_flags,
}

-- `credential.response`, with none for a value that is not a string. `handle` is none when it is
-- falsy, and `transports` when it is no array.
pub record Response : Type 0 where
  pub client_data_json : Option Text
  pub attestation_object : Option Text
  pub transports : Option (List (Option Text))
  pub authenticator_data : Option Text
  pub signed_by : Option Text
  pub handle : Option Text

-- `credential`: its response, unless that is no object, its type, unless it is undefined, and what
-- `String` makes of its ids.
pub record Credential : Type 0 where
  pub response : Option Response
  pub kind : Option Text
  pub raw_id : Option Text
  pub plain_id : Option Text

pub record Registered : Type 0 where
  pub credential_id : Text
  pub key_alg : Alg
  pub jwk : Jwk
  pub sign_count : ℕ
  pub aaguid : Option Text
  pub uv : Bool
  pub be : Bool
  pub bs : Bool
  pub fmt : Text
  pub transports : List Text

-- The stored passkey; `sign_count` is `Number(stored.signCount) || 0`.
pub record Stored : Type 0 where
  pub key_alg : Option Alg
  pub jwk : Jwk
  pub sign_count : ℕ
  pub handle : Option Text

pub record Asserted : Type 0 where
  pub sign_count : ℕ
  pub counter_regression : Bool
  pub uv : Bool
  pub be : Bool
  pub bs : Bool

-- What is there, or a refusal.
unfoldable pub given {ℓ} : {A : Type ℓ} → Option A → Code → Result A
given none code = refused code
given (some a) code = ok a

abbrev string_of_cbor : Cbor → Option Text
string_of_cbor (Cbor.string s) = some s
string_of_cbor _ = none

is_kind : Option Text → Bool
is_kind none = true
is_kind (some k) = text_eq k (codes "public-key")

unfoldable pub id_given : Option Text → Option Text → Option Text
id_given none i = i
id_given (some r) i = some r

unfoldable pub check_id : Option Text → Bytes → Result (Unit {0})
check_id none id = ok tt
check_id (some given_id) id = do
  bytes ← from_b64url given_id format
  check (text_eq bytes id) format

abbrev is_transport : Text → Bool
is_transport t =
    leb 1 (length t) && leb (length t) 20 && all (λ c. (leb b'a' c && leb c b'z') || (c == b'-')) t

kept_transports : List (Option Text) → List Text
kept_transports [] = []
kept_transports (none ∷ ts) = kept_transports ts
kept_transports (some t ∷ ts) =
    if is_transport t then t ∷ kept_transports ts else kept_transports ts

first_of {ℓ} : {A : Type ℓ} → ℕ → List A → List A
first_of zero xs = []
first_of (suc n) [] = []
first_of (suc n) (x ∷ xs) = x ∷ first_of n xs

read_transports : Option (List (Option Text)) → List Text
unfolding kept_transports first_of
read_transports none = []
read_transports (some ts) = first_of 8 (kept_transports ts)

unfoldable pub registered : Response → Bytes → Alg → Jwk → Auth → Text → Registered
unfolding read_transports
registered r id a jwk auth fmt = record {
  credential_id = b64url id;
  key_alg = a;
  jwk = jwk;
  sign_count = auth.sign_count;
  aaguid = auth.aaguid;
  uv = auth.uv;
  be = auth.be;
  bs = auth.bs;
  fmt = fmt;
  transports = read_transports r.transports;
}

unfoldable pub verify_registration : Platform → Expected → List Alg → Credential → Result Registered
unfolding is_kind
verify_registration p e algs credential = do
  r ← given credential.response format
  tt ← check (is_kind credential.kind) format
  (raw, cd) ← read_client_data p r.client_data_json
  tt ← check_client_data p e (codes "webauthn.create") cd
  object_bytes ← read_b64url r.attestation_object attestation
  object ← decode p.utf8 object_bytes
  table ← given (table_of object) attestation
  auth_bytes ← given (buffer_of (table_get (Cbor.string (codes "authData")) table)) attestation
  fmt ← given (string_of_cbor (table_get (Cbor.string (codes "fmt")) table)) attestation
  auth ← parse_auth_data p.utf8 auth_bytes
  tt ← check_auth_flags p e auth
  id ← given auth.credential_id attestation
  cose ← given auth.cose_key attestation
  tt ← check_id (id_given credential.raw_id credential.plain_id) id
  (a, jwk) ← cose_to_jwk p.crypto cose
  tt ← check (any (same_alg a) algs) alg
  ok (registered r id a jwk auth fmt)

-- The user handles are compared when both are there.
unfoldable pub check_handle : Option Text → Option Text → Result (Unit {0})
check_handle (some given_handle) (some stored_handle) = do
  mine ← from_b64url given_handle format
  theirs ← from_b64url stored_handle format
  check (text_eq mine theirs) user_handle
check_handle _ _ = ok tt

-- Either counter is not 0 and the new one is not larger.
unfoldable pub goes_back : ℕ → ℕ → Bool
goes_back now before = (not (now == 0) || not (before == 0)) && leb now before

unfoldable pub asserted : Stored → Auth → Asserted
unfolding goes_back
asserted stored auth = record {
  sign_count = auth.sign_count;
  counter_regression = goes_back auth.sign_count stored.sign_count;
  uv = auth.uv;
  be = auth.be;
  bs = auth.bs;
}

unfoldable pub verify_assertion : Platform → Expected → Stored → Credential → Result Asserted
verify_assertion p e stored credential = do
  r ← given credential.response format
  (raw, cd) ← read_client_data p r.client_data_json
  tt ← check_client_data p e (codes "webauthn.get") cd
  auth_raw ← read_b64url r.authenticator_data auth_data
  auth ← parse_auth_data p.utf8 auth_raw
  tt ← check_auth_flags p e auth
  tt ← check_handle r.handle stored.handle
  sig ← read_b64url r.signed_by signature
  let signed = auth_raw ++ p.crypto.sha256 raw
  tt ← check (verify_signature p.crypto stored.key_alg stored.jwk signed sig) signature
  ok (asserted stored auth)
