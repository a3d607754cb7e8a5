-- ===== src/Passkeys/Key.antt =====
-- coseToJwk and verifySignature of panel/lib/webauthn.mjs.
use forthway_command_center.Base.{
  ℕ, Bool, true, false, ◌&&◌, Option, none, some, List, [], ◌∷◌, leb, ◌==◌, if◌then◌else◌, Text,
  length,
}
use forthway_command_center.Passkeys.Outcome.{Bytes, Result, ok, refused, key, alg, ◌>>=◌, check}
use forthway_command_center.Passkeys.Base64.{b64url}
use forthway_command_center.Passkeys.Cbor.{Cbor, Pairs, no_pairs, pair, same_key}

-- `ALG`: -7, -8 and -257.
pub data Alg : Type 0 where
  es256 eddsa rs256 : Alg

abbrev pub same_alg : Alg → Alg → Bool
same_alg es256 es256 = true
same_alg eddsa eddsa = true
same_alg rs256 rs256 = true
same_alg _ _ = false

-- `SUPPORTED_ALGS`
abbrev pub supported_algs : List Alg
supported_algs = eddsa ∷ es256 ∷ rs256 ∷ []

-- A JSON web key: on P-256 with x and y, for RSA with n and e, on Ed25519 with x.
pub data Jwk : Type 0 where
  ec : Text → Text → Jwk
  rsa : Text → Text → Jwk
  okp : Text → Jwk

-- `createPublicKey` throws or does not; `verify` is with SHA-256 and a DER signature, with SHA-256
-- and PKCS#1 padding, or plain, and none when it throws.
pub record Crypto : Type 0 where
  pub sha256 : Bytes → Bytes
  pub key_loads : Jwk → Bool
  pub verify : Alg → Jwk → Bytes → Bytes → Option Bool

-- `Map.prototype.get`: `undefined` for a key it lacks.
unfoldable pub table_get : Cbor → Pairs → Cbor
table_get k no_pairs = Cbor.undefined
table_get k (pair j v ps) = if same_key j k then v else table_get k ps

abbrev pub buffer_of : Cbor → Option Bytes
buffer_of (Cbor.bytes bs) = some bs
buffer_of _ = none

sized : Option ℕ → Option Bytes → Result Bytes
sized size none = refused key
sized none (some bs) = ok bs
sized (some n) (some bs) = if length bs == n then ok bs else refused key

-- `bytes(label, len)`
unfoldable pub key_bytes : Pairs → Cbor → Option ℕ → Result Bytes
unfolding sized
key_bytes cose label size = sized size (buffer_of (table_get label cose))

-- A label below 0 is negative 0, 1 and 2: -1, -2 and -3.
abbrev pub label_at : Pairs → Cbor → Cbor → Bool
label_at cose label v = same_key (table_get label cose) v

ec_key : Pairs → Result (Alg × Jwk)
ec_key cose = do
  tt ←
      check
        (label_at cose (Cbor.natural 1) (Cbor.natural 2)
          && label_at cose (Cbor.negative 0) (Cbor.natural 1))
        key
  x ← key_bytes cose (Cbor.negative 1) (some 32)
  y ← key_bytes cose (Cbor.negative 2) (some 32)
  ok (es256, ec (b64url x) (b64url y))

rsa_key : Pairs → Result (Alg × Jwk)
rsa_key cose = do
  tt ← check (label_at cose (Cbor.natural 1) (Cbor.natural 3)) key
  n ← key_bytes cose (Cbor.negative 0) none
  tt ← check (leb 256 (length n)) key
  e ← key_bytes cose (Cbor.negative 1) none
  ok (rs256, rsa (b64url n) (b64url e))

okp_key : Pairs → Result (Alg × Jwk)
okp_key cose = do
  tt ←
      check
        (label_at cose (Cbor.natural 1) (Cbor.natural 1)
          && label_at cose (Cbor.negative 0) (Cbor.natural 6))
        key
  x ← key_bytes cose (Cbor.negative 1) (some 32)
  ok (eddsa, okp (b64url x))

unfoldable pub read_key : Pairs → Result (Alg × Jwk)
unfolding ec_key rsa_key okp_key
read_key cose =
    if label_at cose (Cbor.natural 3) (Cbor.negative 6)
    then ec_key cose
    else if label_at cose (Cbor.natural 3) (Cbor.negative 256)
    then rsa_key cose
    else if label_at cose (Cbor.natural 3) (Cbor.negative 7)
    then okp_key cose
    else refused alg

unfoldable pub cose_to_jwk : Crypto → Pairs → Result (Alg × Jwk)
cose_to_jwk crypto cose = do
  (a, jwk) ← read_key cose
  tt ← check (crypto.key_loads jwk) key
  ok (a, jwk)

holds : Option Bool → Bool
holds none = false
holds (some b) = b

-- `verifySignature`, of an algorithm that is one of `ALG` or none of them.
unfoldable pub verify_signature : Crypto → Option Alg → Jwk → Bytes → Bytes → Bool
unfolding holds
verify_signature crypto none jwk signed signature = false
verify_signature crypto (some a) jwk signed signature =
    crypto.key_loads jwk && holds (crypto.verify a jwk signed signature)
