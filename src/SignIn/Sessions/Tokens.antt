-- ===== src/SignIn/Sessions/Tokens.antt =====
-- sign and unsign of panel/lib/auth.mjs, with what they take from the platform.
use forthway_command_center.Base.{
  ℕ, zero, suc, ◌*◌, Bool, false, Option, none, some, [], ◌∷◌, ◌++◌, if◌then◌else◌, Text, text_eq,
  at_code,
}

-- `SESSION_TTL_MS` and `PENDING_TTL_MS`
abbrev pub session_ttl_ms : ℕ
session_ttl_ms = 12 * 60 * 60 * 1000

abbrev pub pending_ttl_ms : ℕ
pending_ttl_ms = 30 * 60 * 1000

-- The body of a token. A number is whole, or none when it is no number; a text is none when it is no
-- text; `pv` is none when it is falsy.
pub record Payload : Type 0 where
  pub admin_id : Text
  pub iat : ℕ
  pub exp : Option ℕ
  pub sv : Option ℕ
  pub pv : Option Text
  pub sid : Option Text
  pub pk : Option Text

-- `mac` is the HMAC under the secret of the panel in base64url, `digest` is SHA-256 in base64url, and
-- `encode` and `decode` are JSON in base64url.
pub record Coder : Type 0 where
  pub mac : Text → Text
  pub digest : Text → Text
  pub encode : Payload → Text
  pub decode : Text → Option Payload

unfoldable pub first_codes : ℕ → Text → Text
first_codes zero s = []
first_codes (suc n) [] = []
first_codes (suc n) (c ∷ s) = c ∷ first_codes n s

unfoldable pub purposed : Text → Text → Text
purposed [] body = body
purposed (c ∷ p) body = c ∷ p ++ (b'.' ∷ body)

unfoldable pub sign : Coder → Payload → Text → Text
sign c payload purpose =
    let body = c.encode payload in body ++ (b'.' ∷ c.mac (purposed purpose body))

-- `tokenMatches`
unfoldable pub token_matches : Text → Text → Bool
token_matches [] t = false
token_matches (c ∷ s) t = text_eq (c ∷ s) t

unfoldable pub unsign_parts : Coder → Text → Option (Text × Text) → Option Payload
unsign_parts c purpose none = none
unsign_parts c purpose (some ([], given)) = none
unsign_parts c purpose (some (b ∷ body, given)) =
    if token_matches given (c.mac (purposed purpose (b ∷ body))) then c.decode (b ∷ body) else none

-- A token that is empty stands for none.
unfoldable pub unsign : Coder → Text → Text → Option Payload
unsign c token purpose = unsign_parts c purpose (at_code b'.' token)
