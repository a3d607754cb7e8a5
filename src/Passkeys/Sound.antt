-- ===== src/Passkeys/Sound.antt =====
-- What an accepted ceremony proves, panel/lib/webauthn.mjs.
use forthway_command_center.Base.{
  ◌≡◌, Bool-cases, refl, sym, ap, ◌⊎◌, inl, inr, Bool, true, false, not, ◌||◌, Option, none, some,
  List, [], ◌∷◌, ◌++◌, Text, codes, text_eq, text_eq_sound, any, select, Has, here, there, arith,
}
use forthway_command_center.Passkeys.Outcome.{
  Bytes, Code, ok, auth_data, signature, bind_ok, check_ok, ok_injective,
}
use forthway_command_center.Passkeys.AuthData.{Auth, parse_auth_data}
use forthway_command_center.Passkeys.Key.{verify_signature}
use forthway_command_center.Passkeys.ClientData.{
  Platform, Expected, ClientData, read_b64url, read_client_data, unpadded, check_client_data,
  check_auth_flags,
}
use forthway_command_center.Passkeys.Ceremony.{
  Response, Credential, Stored, Asserted, given, check_handle, asserted, verify_assertion,
}

-- The client data is of the ceremony: its type, its challenge, an origin of the panel, its own frame.
pub record OfCeremony (p : Platform) (e : Expected) (type_name : Text) (cd : ClientData)
    : Type 0 where
  pub typed : cd.type_name ≡ type_name
  pub challenged : p.utf8_bytes e.expected_challenge ≡ p.utf8_bytes (unpadded cd.answered)
  pub at_home : Has cd.from_origin e.expected_origins
  pub own_frame : cd.cross_origin ≡ false

-- The authenticator speaks for the relying party, and saw a person, whom it knows where it must.
pub record OfParty (p : Platform) (e : Expected) (auth : Auth) : Type 0 where
  pub party : p.crypto.sha256 (p.utf8_bytes e.rp_id) ≡ auth.rp_id_hash
  pub present : auth.up ≡ true
  pub verified : (e.require_uv ≡ false) ⊎ (auth.uv ≡ true)

is_false : (b : Bool) → not b ≡ true → b ≡ false
is_false b h = ground arith

holds_where_needed : (a b : Bool) → (not a || b) ≡ true → (a ≡ false) ⊎ (b ≡ true)
holds_where_needed false b h = inl refl
holds_where_needed true b h = inr h

any-select :
    (o x : Text) (q : Text → Bool) (os : List Text)
    → any (text_eq o) (select q (x ∷ os)) ≡ true
    → (text_eq o x ≡ true) ⊎ (any (text_eq o) (select q os) ≡ true)
any-select o x q os h = elim (Bool-cases (q x)) [
  | inl e ↦ (elim (Bool-cases (text_eq o x)) [ inl k ↦ inl k | inr k ↦ inr (ground arith) ])
  | inr e ↦ inr (ground arith)
]

any-Has :
    (o : Text) (q : Text → Bool) (os : List Text) → any (text_eq o) (select q os) ≡ true → Has o os
any-Has o q [] h = cc
any-Has o q (x ∷ os) h = elim (any-select o x q os h) [
  | inl e ↦ here (text_eq_sound o x e)
  | inr e ↦ there (any-Has o q os e)
]

pub check_client_data-OfCeremony :
    (p : Platform) (e : Expected) (t : Text) (cd : ClientData)
    → check_client_data p e t cd ≡ ok tt
    → OfCeremony p e t cd
unfolding check_client_data
check_client_data-OfCeremony p e t cd h =
    let (_, h1, h) = bind_ok _ h in
    let (_, h2, h) = bind_ok _ h in
    let (_, h3, h) = bind_ok _ h in
    record {
      typed = text_eq_sound _ _ (check_ok _ _ h1);
      challenged = text_eq_sound _ _ (check_ok _ _ h2);
      at_home = any-Has _ _ _ (check_ok _ _ h3);
      own_frame = is_false _ (check_ok _ _ h);
    }

pub check_auth_flags-OfParty :
    (p : Platform) (e : Expected) (auth : Auth)
    → check_auth_flags p e auth ≡ ok tt
    → OfParty p e auth
unfolding check_auth_flags
check_auth_flags-OfParty p e auth h =
    let (_, h1, h) = bind_ok _ h in
    let (_, h2, h) = bind_ok _ h in
    record {
      party = text_eq_sound _ _ (check_ok _ _ h1);
      present = check_ok _ _ h2;
      verified = holds_where_needed _ _ (check_ok _ _ h);
    }

-- What an accepted sign-in rests on: what the passkey signed, with the client data and the
-- authenticator data that the signature covers.
pub record Genuine (p : Platform) (e : Expected) (stored : Stored) (c : Credential) : Type 0 where
  pub answer : Response
  pub raw : Bytes
  pub cd : ClientData
  pub auth_raw : Bytes
  pub auth : Auth
  pub sig : Bytes
  pub answered : c.response ≡ some answer
  pub client_read : read_client_data p answer.client_data_json ≡ ok (raw, cd)
  pub client_checked : check_client_data p e (codes "webauthn.get") cd ≡ ok tt
  pub auth_read : read_b64url answer.authenticator_data auth_data ≡ ok auth_raw
  pub auth_parsed : parse_auth_data p.utf8 auth_raw ≡ ok auth
  pub auth_checked : check_auth_flags p e auth ≡ ok tt
  pub handle_checked : check_handle answer.handle stored.handle ≡ ok tt
  pub sig_read : read_b64url answer.signed_by signature ≡ ok sig
  pub signed :
      verify_signature p.crypto stored.key_alg stored.jwk (auth_raw ++ p.crypto.sha256 raw) sig
      ≡ true

pub given_ok {ℓ} :
    {A : Type ℓ} (o : Option A) (code : Code) {a : A} → given o code ≡ ok a → o ≡ some a
unfolding given
given_ok none code h = cc
given_ok (some b) code h = ap some (ok_injective h)

-- A sign-in that is accepted answers the challenge of the panel, from one of its origins and in its
-- own frame, for its relying party, with a person present and verified where that is asked for; the
-- key of the passkey signed the authenticator data and the hash of the client data; and what is
-- reported is of that authenticator data.
pub verify_assertion_sound :
    (p : Platform) (e : Expected) (stored : Stored) (c : Credential) (out : Asserted)
    → verify_assertion p e stored c ≡ ok out
    → (g : Genuine p e stored c) × OfCeremony p e (codes "webauthn.get") g.cd
      × OfParty p e g.auth
      × (out ≡ asserted stored g.auth)
unfolding verify_assertion
verify_assertion_sound p e stored c out h =
    let (answer, h1, h) = bind_ok _ h in
    let ((raw, cd), h2, h) = bind_ok _ h in
    let (_, h3, h) = bind_ok _ h in
    let (auth_raw, h4, h) = bind_ok _ h in
    let (auth, h5, h) = bind_ok _ h in
    let (_, h6, h) = bind_ok _ h in
    let (_, h7, h) = bind_ok _ h in
    let (sig, h8, h) = bind_ok _ h in
    let (_, h9, h) = bind_ok _ h in
    (
      record {
        answer = answer;
        raw = raw;
        cd = cd;
        auth_raw = auth_raw;
        auth = auth;
        sig = sig;
        answered = given_ok _ _ h1;
        client_read = h2;
        client_checked = h3;
        auth_read = h4;
        auth_parsed = h5;
        auth_checked = h6;
        handle_checked = h7;
        sig_read = h8;
        signed = check_ok _ _ h9;
      },
      check_client_data-OfCeremony p e _ cd h3,
      check_auth_flags-OfParty p e auth h6,
      sym (ok_injective h),
    )
