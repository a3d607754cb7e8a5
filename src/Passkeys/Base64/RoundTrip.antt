-- ===== src/Passkeys/Base64/RoundTrip.antt =====
-- Bytes written in base64url are read back as they were, panel/lib/webauthn.mjs.
use forthway_command_center.Base.{
  ℕ, ◌<◌, ◌≡◌, refl, Bool, true, ◌&&◌, List, [], ◌∷◌, map, ◌==◌, arith, every_below_sound, All,
}
use forthway_command_center.Passkeys.Outcome.{Bytes, Code, ok, IsBytes}
use forthway_command_center.Passkeys.Base64.{
  is_sextet, is_base64, sextet, sextets, bytes_of, from_b64url, digit_of, sextets_of, b64url,
}

unfoldable pub IsDigits : List ℕ → Type 0
IsDigits = All (λ n. n < 64)

reads_back : ℕ → Bool
reads_back n = is_sextet (digit_of n) && (sextet (digit_of n) == n)

digit_reads_back : (n : ℕ) → n < 64 → reads_back n ≡ true
unfolding reads_back
digit_reads_back n h = every_below_sound 64 reads_back n refl h

sextets-digits : (ns : List ℕ) → IsDigits ns → sextets (map digit_of ns) ≡ ns
unfolding IsDigits reads_back
sextets-digits [] h = refl
sextets-digits (n ∷ ns) h = ground (arith, digit_reads_back n h.0, sextets-digits ns h.1)

is_base64-digits : (ns : List ℕ) → IsDigits ns → is_base64 (map digit_of ns) ≡ true
unfolding IsDigits reads_back
is_base64-digits [] h = refl
is_base64-digits (n ∷ ns) h = ground (arith, digit_reads_back n h.0, is_base64-digits ns h.1)

pub sextets_of-IsDigits : (bs : Bytes) → IsBytes bs → IsDigits (sextets_of bs)
unfolding IsDigits
sextets_of-IsDigits [] h = tt
sextets_of-IsDigits (x ∷ []) h = omega (arith, h.0)
sextets_of-IsDigits (x ∷ y ∷ []) h = omega (arith, h.0, h.1.0)
sextets_of-IsDigits (x ∷ y ∷ z ∷ r) h = (
  omega (arith, h.0),
  (
    omega (arith, h.0, h.1.0),
    (omega (arith, h.1.0, h.1.1.0), (omega arith, sextets_of-IsDigits r h.1.1.1)),
  ),
)

bytes_of-sextets_of : (bs : Bytes) → IsBytes bs → bytes_of (sextets_of bs) ≡ bs
bytes_of-sextets_of [] h = refl
bytes_of-sextets_of (x ∷ []) h = ground (arith, h.0)
bytes_of-sextets_of (x ∷ y ∷ []) h = ground (arith, h.0, h.1.0)
bytes_of-sextets_of (x ∷ y ∷ z ∷ r) h =
    ground (arith, h.0, h.1.0, h.1.1.0, bytes_of-sextets_of r h.1.1.1)

-- Bytes that are written in base64url are accepted and read back as they were.
pub from_b64url-b64url :
    (bs : Bytes) (code : Code) → IsBytes bs → from_b64url (b64url bs) code ≡ ok bs
unfolding from_b64url b64url
from_b64url-b64url bs code h =
    let d = sextets_of-IsDigits bs h in
    rw
      (
        is_base64-digits (sextets_of bs) d,
        sextets-digits (sextets_of bs) d,
        bytes_of-sextets_of bs h,
      )
      refl
