-- ===== src/Passkeys/Outcome.antt =====
-- What the functions of panel/lib/webauthn.mjs give or refuse: a value, or the code of a
-- WebAuthnError. Buffers are lists of bytes.
use forthway_command_center.Base.{
  ℕ, zero, suc, ◌+◌, ◌*◌, ◌<◌, ◌≡◌, refl, ap, Bool, true, false, List, [], ◌∷◌, All,
}

abbrev pub Bytes : Type 0
Bytes = List ℕ

-- `code` of a WebAuthnError, or `range_error` for the RangeError of the platform when the head of a
-- CBOR item is read past the end of a buffer.
pub data Code : Type 0 where
  format cbor auth_data key alg client_data wrong_type challenge origin : Code
  rp_id user_presence user_verification attestation user_handle signature : Code
  range_error : Code

pub data Result {ℓ} (A : Type ℓ) : Type ℓ where
  ok : A → Result A
  refused : Code → Result A

infixl 1 ◌>>=◌
unfoldable pub ◌>>=◌ {ℓ κ} : {A : Type ℓ} {B : Type κ} → Result A → (A → Result B) → Result B
ok a >>= f = f a
refused c >>= f = refused c

-- `if (!test) fail(code)`
unfoldable pub check : Bool → Code → Result (Unit {0})
check true c = ok tt
check false c = refused c

-- `subarray(0, n)` and `subarray(n)`
abbrev pub first_bytes : ℕ → Bytes → Bytes
first_bytes zero bs = []
first_bytes (suc n) [] = []
first_bytes (suc n) (b ∷ bs) = b ∷ first_bytes n bs

abbrev pub skip_bytes : ℕ → Bytes → Bytes
skip_bytes zero bs = bs
skip_bytes (suc n) [] = []
skip_bytes (suc n) (b ∷ bs) = skip_bytes n bs

-- A big-endian number.
abbrev pub number_from : ℕ → Bytes → ℕ
number_from acc [] = acc
number_from acc (b ∷ bs) = number_from (256 * acc + b) bs

abbrev pub IsBytes : Bytes → Type 0
IsBytes = All (λ b. b < 256)

-- What a sequence that is not refused went through.
pub bind_ok {ℓ κ} :
    {A : Type ℓ} {B : Type κ} (r : Result A) {f : A → Result B} {b : B}
    → (r >>= f) ≡ ok b
    → (a : A) × (r ≡ ok a) × (f a ≡ ok b)
unfolding ◌>>=◌
bind_ok (ok a) h = (a, refl, h)
bind_ok (refused c) h = cc

pub check_ok : (b : Bool) (c : Code) {u : Unit {0}} → check b c ≡ ok u → b ≡ true
unfolding check
check_ok true c h = refl
check_ok false c h = cc

pub ok_injective {ℓ} : {A : Type ℓ} {a b : A} → ok a ≡ ok b → a ≡ b
ok_injective {A = A} {a = a} h = ap (λ r. elim r as (λ _. A) [ ok x ↦ x | refused c ↦ a ]) h
