-- ===== src/Passkeys/Enrol.antt =====
-- What an accepted registration proves, panel/lib/webauthn.mjs.
use forthway_command_center.Base.{◌≡◌, sym, true, some, List, Text, codes, any}
use forthway_command_center.Passkeys.Outcome.{
  Bytes, ok, attestation, bind_ok, check_ok, ok_injective,
}
use forthway_command_center.Passkeys.Cbor.{Cbor, Pairs, decode}
use forthway_command_center.Passkeys.AuthData.{Auth, parse_auth_data, table_of}
use forthway_command_center.Passkeys.Key.{Alg, same_alg, Jwk, table_get, buffer_of, cose_to_jwk}
use forthway_command_center.Passkeys.ClientData.{
  Platform, Expected, ClientData, read_b64url, read_client_data,
}
use forthway_command_center.Passkeys.Ceremony.{
  Response, Credential, Registered, id_given, check_id, registered, verify_registration,
}
use forthway_command_center.Passkeys.Sound.{
  OfCeremony, OfParty, given_ok, check_client_data-OfCeremony, check_auth_flags-OfParty,
}

-- What an accepted registration rests on: the client data, the attestation object, the authenticator
-- data in it, and the credential in that.
pub record Enrolled (p : Platform) (algs : List Alg) (c : Credential) : Type 0 where
  pub answer : Response
  pub raw : Bytes
  pub cd : ClientData
  pub object_bytes : Bytes
  pub object : Cbor
  pub table : Pairs
  pub auth_bytes : Bytes
  pub auth : Auth
  pub fmt : Text
  pub id : Bytes
  pub cose : Pairs
  pub key_alg : Alg
  pub jwk : Jwk
  pub answered : c.response ≡ some answer
  pub client_read : read_client_data p answer.client_data_json ≡ ok (raw, cd)
  pub object_read : read_b64url answer.attestation_object attestation ≡ ok object_bytes
  pub decoded : decode p.utf8 object_bytes ≡ ok object
  pub a_table : table_of object ≡ some table
  pub auth_found : buffer_of (table_get (Cbor.string (codes "authData")) table) ≡ some auth_bytes
  pub auth_parsed : parse_auth_data p.utf8 auth_bytes ≡ ok auth
  pub id_attested : auth.credential_id ≡ some id
  pub key_attested : auth.cose_key ≡ some cose
  pub id_agrees : check_id (id_given c.raw_id c.plain_id) id ≡ ok tt
  pub key_read : cose_to_jwk p.crypto cose ≡ ok (key_alg, jwk)
  pub offered : any (same_alg key_alg) algs ≡ true

-- A registration that is accepted answers the challenge of the panel, from one of its origins and in
-- its own frame, for its relying party, with a person present and verified where that is asked for;
-- the credential that is stored is the one attested in the authenticator data, under the id that the
-- browser states, with a key that loads and an algorithm that was offered.
pub verify_registration_sound :
    (p : Platform) (e : Expected) (algs : List Alg) (c : Credential) (out : Registered)
    → verify_registration p e algs c ≡ ok out
    → (g : Enrolled p algs c) × OfCeremony p e (codes "webauthn.create") g.cd
      × OfParty p e g.auth
      × (out ≡ registered g.answer g.id g.key_alg g.jwk g.auth g.fmt)
unfolding verify_registration
verify_registration_sound p e algs c out h =
    let (answer, h1, h) = bind_ok _ h in
    let (_, h2, h) = bind_ok _ h in
    let ((raw, cd), h3, h) = bind_ok _ h in
    let (_, h4, h) = bind_ok _ h in
    let (object_bytes, h5, h) = bind_ok _ h in
    let (object, h6, h) = bind_ok _ h in
    let (table, h7, h) = bind_ok _ h in
    let (auth_bytes, h8, h) = bind_ok _ h in
    let (fmt, h9, h) = bind_ok _ h in
    let (auth, h10, h) = bind_ok _ h in
    let (_, h11, h) = bind_ok _ h in
    let (id, h12, h) = bind_ok _ h in
    let (cose, h13, h) = bind_ok _ h in
    let (_, h14, h) = bind_ok _ h in
    let ((a, jwk), h15, h) = bind_ok _ h in
    let (_, h16, h) = bind_ok _ h in
    (
      record {
        answer = answer;
        raw = raw;
        cd = cd;
        object_bytes = object_bytes;
        object = object;
        table = table;
        auth_bytes = auth_bytes;
        auth = auth;
        fmt = fmt;
        id = id;
        cose = cose;
        key_alg = a;
        jwk = jwk;
        answered = given_ok _ _ h1;
        client_read = h3;
        object_read = h5;
        decoded = h6;
        a_table = given_ok _ _ h7;
        auth_found = given_ok _ _ h8;
        auth_parsed = h10;
        id_attested = given_ok _ _ h12;
        key_attested = given_ok _ _ h13;
        id_agrees = h14;
        key_read = h15;
        offered = check_ok _ _ h16;
      },
      check_client_data-OfCeremony p e _ cd h4,
      check_auth_flags-OfParty p e auth h11,
      sym (ok_injective h),
    )
