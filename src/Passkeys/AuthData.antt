-- ===== src/Passkeys/AuthData.antt =====
-- parseAuthData of panel/lib/webauthn.mjs. The offset is where the bytes that are left begin.
use forthway_command_center.Base.{
  ℕ, ◌+◌, ◌/◌, ◌%◌, ◌^◌, Bool, not, ◌||◌, Option, none, some, [], ◌∷◌, ltb, leb, ◌==◌,
  if◌then◌else◌, Text, length,
}
use forthway_command_center.Passkeys.Outcome.{
  Bytes, Result, ok, refused, auth_data, ◌>>=◌, check, first_bytes, skip_bytes, number_from,
}
use forthway_command_center.Passkeys.Cbor.{Cbor, Pairs, decode_item, levels, is_nothing}

pub record Auth : Type 0 where
  pub rp_id_hash : Bytes
  pub flags : ℕ
  pub sign_count : ℕ
  pub up : Bool
  pub uv : Bool
  pub be : Bool
  pub bs : Bool
  pub aaguid : Option Text
  pub credential_id : Option Bytes
  pub cose_key : Option Pairs
  pub extensions : Option Cbor

-- `flags & 2 ** k`
abbrev pub has_flag : ℕ → ℕ → Bool
has_flag k flags = flags / 2 ^ k % 2 == 1

hex_digit : ℕ → ℕ
hex_digit n = if ltb n 10 then n + b'0' else n + b'W'

abbrev pub hex : Bytes → Text
unfolding hex_digit
hex [] = []
hex (b ∷ bs) = hex_digit (b / 16) ∷ hex_digit (b % 16) ∷ hex bs

-- The first 37 bytes.
unfoldable pub fixed_part : Bytes → Auth
fixed_part buf =
    let flags = number_from 0 (first_bytes 1 (skip_bytes 32 buf)) in
    record {
      rp_id_hash = first_bytes 32 buf;
      flags = flags;
      sign_count = number_from 0 (first_bytes 4 (skip_bytes 33 buf));
      up = has_flag 0 flags;
      uv = has_flag 2 flags;
      be = has_flag 3 flags;
      bs = has_flag 4 flags;
      aaguid = none;
      credential_id = none;
      cose_key = none;
      extensions = none;
    }

abbrev pub table_of : Cbor → Option Pairs
table_of (Cbor.table ps) = some ps
table_of _ = none

with_key : Auth → Bytes → Bytes → Option Pairs → Bytes → Result (Auth × Bytes)
with_key out id_guid id none rest = refused auth_data
with_key out id_guid id (some ps) rest =
    ok (
      record out { aaguid = some (hex id_guid); credential_id = some id; cose_key = some ps },
      rest,
    )

-- What stands under the flag `FLAG_AT`.
unfoldable pub attested_part : (Bytes → Text) → Auth → Bytes → Result (Auth × Bytes)
unfolding with_key
attested_part utf8 out rest = do
  tt ← check (leb 18 (length rest)) auth_data
  let guid = first_bytes 16 rest
  let len = number_from 0 (first_bytes 2 (skip_bytes 16 rest))
  let rest = skip_bytes 18 rest
  tt ← check (not (ltb len 16 || ltb 1023 len || ltb (length rest) len)) auth_data
  (key, after) ← decode_item utf8 levels (skip_bytes len rest)
  with_key out guid (first_bytes len rest) (table_of key) after

-- What stands under the flag `FLAG_ED`.
unfoldable pub extension_part : (Bytes → Text) → Auth → Bytes → Result (Auth × Bytes)
extension_part utf8 out rest = do
  (ext, after) ← decode_item utf8 levels rest
  ok (record out { extensions = some ext }, after)

unfoldable pub parse_auth_data : (Bytes → Text) → Bytes → Result Auth
unfolding is_nothing
parse_auth_data utf8 buf = do
  tt ← check (leb 37 (length buf)) auth_data
  let out = fixed_part buf
  (out, rest) ←
      if has_flag 6 out.flags
      then attested_part utf8 out (skip_bytes 37 buf)
      else ok (out, skip_bytes 37 buf)
  (out, rest) ← if has_flag 7 out.flags then extension_part utf8 out rest else ok (out, rest)
  tt ← check (is_nothing rest) auth_data
  ok out
