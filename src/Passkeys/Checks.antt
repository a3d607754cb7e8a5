-- ===== src/Passkeys/Checks.antt =====
-- The passkey checks at concrete inputs.
use forthway_command_center.Base.{
  ℕ, zero, suc, text_eq, ◌≡◌, refl, ◌⊎◌, ◌++◌, true, false, none, some, [], ◌∷◌, if◌then◌else◌,
  Text, codes, arith, IsMap,
}
use forthway_command_center.Passkeys.Outcome.{Bytes, Code, ok, ◌>>=◌, check, first_bytes}
use forthway_command_center.Passkeys.Base64.{b64url, from_b64url}
use forthway_command_center.Passkeys.Base64.RoundTrip.{from_b64url-b64url}
use forthway_command_center.Passkeys.Cbor.{
  Cbor, item, no_items, decode_item, decode_items, decode_pairs, read_uint, read_argument,
  read_bytes, decode_body, decode_head, decode, has_key, add_pair, is_nothing, same_key,
  simple_value,
}
use forthway_command_center.Passkeys.AuthData.{
  parse_auth_data, fixed_part, hex, attested_part, extension_part,
}
use forthway_command_center.Passkeys.Key.{
  Crypto, eddsa, supported_algs, okp, verify_signature, cose_to_jwk, read_key, key_bytes, table_get,
}
use forthway_command_center.Passkeys.ClientData.{
  Platform, Expected, Parsed, Property, read_b64url, read_client_data, check_client_data,
  check_auth_flags, unpadded, drop_padding,
}
use forthway_command_center.Passkeys.Ceremony.{
  Response, Credential, Stored, Asserted, Registered, given, asserted, check_handle, check_id,
  id_given, verify_assertion, verify_registration, registered,
}
use forthway_command_center.Passkeys.Sound.{Genuine, OfCeremony, OfParty, verify_assertion_sound}
use forthway_command_center.Passkeys.Enrol.{Enrolled, verify_registration_sound}
use forthway_command_center.Passkeys.Challenges.{Binding, Store, made, issue, take}
use forthway_command_center.Passkeys.Challenges.Bounded.{IsBounded, issue-IsBounded}
use forthway_command_center.Passkeys.Challenges.Redeem.{after_takes, take-once, take-issue}
use forthway_command_center.Passkeys.Party.{
  Url, relying_party, relying_party-one, OnPanel, is_localhost, passkey_capable, is_ip_host, starts,
}
use forthway_command_center.Passkeys.Cbor.Errors.{IsCborError, decode-IsCborError}
use forthway_command_center.Passkeys.Cbor.Consumed.{size, Splits, decode_item-Splits}

abbrev four_bytes : Bytes
four_bytes = 0 ∷ 255 ∷ 16 ∷ 131 ∷ []

from_b64url-b64url_example : from_b64url (b64url four_bytes) Code.format ≡ ok four_bytes
from_b64url-b64url_example = from_b64url-b64url four_bytes Code.format (omega arith)

-- The array [1, h'0203', "a"] before two more bytes.
abbrev array_bytes : Bytes
array_bytes = 131 ∷ 1 ∷ 66 ∷ 2 ∷ 3 ∷ 97 ∷ 97 ∷ 9 ∷ 9 ∷ []

abbrev as_is : Bytes → Text
as_is bs = bs

abbrev three_items : Cbor
three_items = Cbor.array (
    item (Cbor.natural 1)
      (item (Cbor.bytes (2 ∷ 3 ∷ [])) (item (Cbor.string (codes "a")) no_items)))

array_bytes_pass : decode_item as_is 17 array_bytes ≡ ok (three_items, 9 ∷ 9 ∷ [])
unfolding decode_item decode_head decode_body read_argument read_bytes decode_items ◌>>=◌ check
array_bytes_pass = refl

decode_item-Splits_example : Splits array_bytes (size three_items) (9 ∷ 9 ∷ [])
decode_item-Splits_example =
    decode_item-Splits as_is 17 array_bytes three_items (9 ∷ 9 ∷ []) (λ taken. omega arith)
      array_bytes_pass

-- A platform that can be computed with: strings are their bytes, a hash is the beginning, and a
-- signature is what was signed.
zeros : ℕ → Bytes
zeros zero = []
zeros (suc n) = 0 ∷ zeros n

client_of : Text → Text → Property
client_of type_name name =
    if text_eq name (codes "type")
    then Property.string type_name
    else if text_eq name (codes "challenge")
    then Property.string (codes "abc")
    else if text_eq name (codes "origin")
    then Property.string (codes "https://p")
    else Property.other

abbrev plain_crypto : Crypto
unfolding zeros
plain_crypto = record {
  sha256 = λ bs. first_bytes 32 (bs ++ zeros 32);
  key_loads = λ jwk. true;
  verify = λ a jwk signed sig. some (text_eq signed sig);
}

abbrev plain_platform : Platform
unfolding client_of
plain_platform = record {
  utf8 = λ bs. bs;
  utf8_bytes = λ s. s;
  parse = λ s. Parsed.object (client_of s);
  crypto = plain_crypto;
}

abbrev expected_here : Expected
expected_here = record {
  expected_challenge = codes "abc";
  expected_origins = codes "https://q" ∷ codes "https://p" ∷ [];
  rp_id = codes "p";
  require_uv = true;
}

-- Authenticator data of "p" with some flags and the counter 7.
abbrev auth_of : ℕ → Bytes
auth_of flags = plain_crypto.sha256 (codes "p") ++ (flags ∷ 0 ∷ 0 ∷ 0 ∷ 7 ∷ [])

abbrev login_response : Response
login_response = record {
  client_data_json = some (b64url (codes "webauthn.get"));
  attestation_object = none;
  transports = none;
  authenticator_data = some (b64url (auth_of 5));
  signed_by = some (b64url (auth_of 5 ++ plain_crypto.sha256 (codes "webauthn.get")));
  handle = some (codes "YQ");
}

abbrev login : Credential
login = record { response = some login_response; kind = none; raw_id = none; plain_id = none }

abbrev stored_key : Stored
stored_key = record {
  key_alg = some eddsa;
  jwk = okp (codes "x");
  sign_count = 9;
  handle = some (codes "YQ==");
}

abbrev accepted : Asserted
accepted = record { sign_count = 7; counter_regression = true; uv = true; be = false; bs = false }

login_passes : verify_assertion plain_platform expected_here stored_key login ≡ ok accepted
unfolding verify_assertion b64url ◌>>=◌ check given read_client_data read_b64url from_b64url
    plain_platform text_eq check_client_data unpadded plain_crypto parse_auth_data fixed_part
    check_auth_flags check_handle verify_signature asserted
login_passes = refl

verify_assertion_sound_example :
    (g : Genuine plain_platform expected_here stored_key login) × OfCeremony plain_platform
      expected_here
      (codes "webauthn.get")
      g.cd
    × OfParty plain_platform expected_here g.auth
    × (accepted ≡ asserted stored_key g.auth)
verify_assertion_sound_example =
    verify_assertion_sound plain_platform expected_here stored_key login accepted login_passes

-- The key -8 on Ed25519 with 32 bytes, under an id of 16, attested without a statement.
abbrev new_key : Bytes
unfolding zeros
new_key = 164 ∷ 1 ∷ 1 ∷ 3 ∷ 39 ∷ 32 ∷ 6 ∷ 33 ∷ 88 ∷ 32 ∷ zeros 32

abbrev new_auth : Bytes
unfolding zeros
new_auth = auth_of 69 ++ zeros 16 ++ (0 ∷ 16 ∷ zeros 16) ++ new_key

abbrev new_object : Bytes
new_object =
    (162 ∷ 99 ∷ codes "fmt")
    ++ (100 ∷ codes "none")
    ++ (104 ∷ codes "authData")
    ++ (88 ∷ 113 ∷ new_auth)

abbrev enrol_response : Response
enrol_response = record {
  client_data_json = some (b64url (codes "webauthn.create"));
  attestation_object = some (b64url new_object);
  transports = some (some (codes "usb") ∷ none ∷ []);
  authenticator_data = none;
  signed_by = none;
  handle = none;
}

abbrev enrol : Credential
unfolding zeros
enrol = record {
  response = some enrol_response;
  kind = some (codes "public-key");
  raw_id = none;
  plain_id = some (b64url (zeros 16));
}

abbrev enrolled_out : Registered
unfolding zeros
enrolled_out = record {
  credential_id = b64url (zeros 16);
  key_alg = eddsa;
  jwk = okp (b64url (zeros 32));
  sign_count = 7;
  aaguid = some (hex (zeros 16));
  uv = true;
  be = false;
  bs = false;
  fmt = codes "none";
  transports = codes "usb" ∷ [];
}

enrol_passes :
    verify_registration plain_platform expected_here supported_algs enrol ≡ ok enrolled_out
unfolding verify_registration b64url ◌>>=◌ check given enrol text_eq read_client_data read_b64url
    from_b64url plain_platform check_client_data unpadded decode decode_item read_uint read_argument
    decode_body decode_pairs read_bytes has_key add_pair attested_part extension_part fixed_part
    parse_auth_data decode_head decode_items is_nothing same_key simple_value check_id id_given
    registered client_of new_auth new_key plain_crypto zeros check_auth_flags drop_padding
    cose_to_jwk read_key key_bytes table_get enrolled_out
enrol_passes = refl

verify_registration_sound_example :
    (g : Enrolled plain_platform supported_algs enrol) × OfCeremony plain_platform expected_here
      (codes "webauthn.create")
      g.cd
    × OfParty plain_platform expected_here g.auth
    × (enrolled_out ≡ registered g.answer g.id g.key_alg g.jwk g.auth g.fmt)
verify_registration_sound_example =
    verify_registration_sound plain_platform expected_here supported_algs enrol enrolled_out
      enrol_passes

abbrev session_binding : Binding
session_binding = record {
  kind = codes "get";
  admin_id = codes "a";
  session_key = some (codes "s");
  rp_id = codes "p";
  origin = codes "https://p";
  user_handle = none;
}

abbrev small_store : Store
small_store = record { ttl_ms = 300; max = 2; per_key = 1; items = [] }

abbrev used_store : Store
used_store = (issue small_store session_binding four_bytes 10 10).0

small_store-IsBounded : IsBounded small_store
unfolding IsBounded
small_store-IsBounded = (tt, omega arith, λ key. omega arith)

issue-IsBounded_example : IsBounded (issue small_store session_binding four_bytes 10 10).0
issue-IsBounded_example =
    issue-IsBounded small_store session_binding four_bytes 10 10 (omega arith) (omega arith)
      small_store-IsBounded

used_store-IsMap : IsMap used_store.items
unfolding IsBounded
used_store-IsMap =
    (issue-IsBounded small_store session_binding four_bytes 10 10 (omega arith) (omega arith)
      small_store-IsBounded).0

abbrev padded : Text
padded = b64url four_bytes ++ codes "=="

take-once_example :
    (take
      (after_takes (take used_store (b64url four_bytes) 20).0 ((codes "AAAA", 25) ∷ []))
      padded
      30).1
    ≡ none
unfolding unpadded drop_padding b64url
take-once_example =
    take-once used_store (b64url four_bytes) padded 20 30 ((codes "AAAA", 25) ∷ []) used_store-IsMap
      refl

-- Another challenge is asked for in between.
take-issue_example :
    (take
      (after_takes (issue small_store session_binding four_bytes 10 10).0 ((codes "AAAA", 15) ∷ []))
      (issue small_store session_binding four_bytes 10 10).1
      20).1
    ≡ some (made small_store session_binding (b64url four_bytes) 10)
unfolding unpadded drop_padding text_eq b64url issue
take-issue_example =
    take-issue small_store session_binding four_bytes 10 10 20 ((codes "AAAA", 15) ∷ [])
      (omega arith) tt (refl, tt)

-- The panel is on "https://p" and the page is there too.
abbrev url_p : Url
url_p = record {
  protocol = codes "https:";
  hostname = codes "p.org";
  host = codes "p.org";
  origin = codes "https://p.org";
}

relying_party-one_example :
    (is_localhost url_p.hostname ≡ true)
    ⊎ OnPanel url_p url_p (codes "p.org") (codes "https://p.org")
unfolding passkey_capable relying_party is_ip_host text_eq is_localhost starts
relying_party-one_example =
    relying_party-one (λ s. some url_p) (codes "https://p.org/a") (codes "https://p.org") url_p
      url_p (codes "p.org") (codes "https://p.org") refl refl refl refl

decode-IsCborError_example : IsCborError (decode as_is (255 ∷ []))
decode-IsCborError_example = decode-IsCborError as_is (255 ∷ [])
