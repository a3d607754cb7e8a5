-- ===== src/Passkeys/Base64.antt =====
-- base64url, b64url and fromB64url of panel/lib/webauthn.mjs, with what Node's Buffer makes of it.
pub mod RoundTrip
use forthway_command_center.Base.{
  ℕ, ◌+◌, ◌-◌, ◌*◌, ◌/◌, ◌%◌, Bool, true, false, ◌&&◌, ◌||◌, List, [], ◌∷◌, map, ltb, leb, ◌==◌,
  if◌then◌else◌, Text, is_letter, is_digit,
}
use forthway_command_center.Passkeys.Outcome.{Bytes, Code, Result, ok, refused}

-- `[A-Za-z0-9_\-+/]`
abbrev pub is_sextet : ℕ → Bool
is_sextet c = is_letter c || is_digit c || (c == b'_') || (c == b'-') || (c == b'+') || (c == b'/')

-- `={0,2}$`
abbrev ends : Text → Bool
ends [] = true
ends (a ∷ []) = a == b'='
ends (a ∷ b ∷ []) = (a == b'=') && (b == b'=')
ends _ = false

abbrev pub is_base64 : Text → Bool
is_base64 [] = true
is_base64 (c ∷ s) = if is_sextet c then is_base64 s else ends (c ∷ s)

-- The value of a digit, of either alphabet.
abbrev pub sextet : ℕ → ℕ
sextet c =
    if leb b'A' c && leb c b'Z'
    then c - b'A'
    else if leb b'a' c && leb c b'z'
    then c - b'a' + 26
    else if is_digit c
    then c - b'0' + 52
    else if (c == b'-') || (c == b'+')
    then 62
    else 63

-- The digits, up to the padding.
abbrev pub sextets : Text → List ℕ
sextets [] = []
sextets (c ∷ s) = if is_sextet c then sextet c ∷ sextets s else []

-- Four digits make three bytes; what is left over makes as many as it has bits for.
abbrev pub bytes_of : List ℕ → Bytes
bytes_of (a ∷ b ∷ c ∷ d ∷ r) =
    (a * 4 + b / 16) ∷ (b % 16 * 16 + c / 4) ∷ (c % 4 * 64 + d) ∷ bytes_of r
bytes_of (a ∷ b ∷ c ∷ []) = (a * 4 + b / 16) ∷ (b % 16 * 16 + c / 4) ∷ []
bytes_of (a ∷ b ∷ []) = (a * 4 + b / 16) ∷ []
bytes_of _ = []

-- `fromB64url`, for a string
unfoldable pub from_b64url : Text → Code → Result Bytes
from_b64url s code = if is_base64 s then ok (bytes_of (sextets s)) else refused code

abbrev pub digit_of : ℕ → ℕ
digit_of n =
    if ltb n 26
    then n + b'A'
    else if ltb n 52
    then n - 26 + b'a'
    else if ltb n 62
    then n - 52 + b'0'
    else if n == 62
    then b'-'
    else b'_'

abbrev pub sextets_of : Bytes → List ℕ
sextets_of (x ∷ y ∷ z ∷ r) =
    (x / 4) ∷ (x % 4 * 16 + y / 16) ∷ (y % 16 * 4 + z / 64) ∷ (z % 64) ∷ sextets_of r
sextets_of (x ∷ y ∷ []) = (x / 4) ∷ (x % 4 * 16 + y / 16) ∷ (y % 16 * 4) ∷ []
sextets_of (x ∷ []) = (x / 4) ∷ (x % 4 * 16) ∷ []
sextets_of [] = []

-- `b64url`
unfoldable pub b64url : Bytes → Text
b64url bs = map digit_of (sextets_of bs)
