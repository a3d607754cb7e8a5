-- ===== src/Passkeys/Cbor/Errors.antt =====
-- What the CBOR decoder of panel/lib/webauthn.mjs refuses with.
use forthway_command_center.Base.{
  ℕ, zero, suc, ◌-◌, ◌^◌, ◌/◌, ◌%◌, ◌≡◌, refl, Bool, true, false, not, [], ◌∷◌, leb, ltb, ◌==◌,
  if◌then◌else◌, Text, length,
}
use forthway_command_center.Passkeys.Outcome.{Bytes, Result, ok, refused, cbor, ◌>>=◌, check}
use forthway_command_center.Passkeys.Cbor.{
  Cbor, Pairs, no_pairs, has_key, read_uint, read_argument, read_bytes, decode_items, add_pair,
  decode_pairs, decode_body, decode_head, decode_item, decode, is_nothing, levels,
}

-- A refusal, if it is one, is with `cbor`.
pub IsCborError {ℓ} : {A : Type ℓ} → Result A → Type 0
IsCborError (ok a) = Unit
IsCborError (refused c) = c ≡ cbor

bind-IsCborError {ℓ κ} :
    {A : Type ℓ} {B : Type κ} (r : Result A) (f : A → Result B)
    → IsCborError r
    → ((a : A) → IsCborError (f a))
    → IsCborError (r >>= f)
unfolding ◌>>=◌ IsCborError
bind-IsCborError (ok a) f h k = k a
bind-IsCborError (refused c) f h k = h

if-IsCborError {ℓ} :
    {A : Type ℓ} (b : Bool) (x y : Result A)
    → IsCborError x
    → IsCborError y
    → IsCborError (if b then x else y)
if-IsCborError true x y h k = h
if-IsCborError false x y h k = k

check-IsCborError : (b : Bool) → IsCborError (check b cbor)
unfolding check IsCborError
check-IsCborError true = tt
check-IsCborError false = refl

ok-IsCborError {ℓ} : {A : Type ℓ} (a : A) → IsCborError (ok a)
unfolding IsCborError
ok-IsCborError a = tt

refused-IsCborError {ℓ} : (A : Type ℓ) → IsCborError {A = A} (refused cbor)
unfolding IsCborError
refused-IsCborError A = refl

checked {ℓ} :
    {A : Type ℓ} (b : Bool) (r : Result A) → IsCborError r → IsCborError (check b cbor >>= λ _. r)
checked b r h = bind-IsCborError (check b cbor) (λ _. r) (check-IsCborError b) (λ _. h)

checked_so {ℓ} :
    {A : Type ℓ} (b : Bool) (r : Result A)
    → (b ≡ true → IsCborError r)
    → IsCborError (check b cbor >>= λ _. r)
unfolding check IsCborError ◌>>=◌
checked_so true r h = h refl
checked_so false r h = refl

-- A number that is there is read without an error of the platform.
read_uint-enough :
    (width : ℕ) (bs : Bytes) → leb width (length bs) ≡ true → IsCborError (read_uint width bs)
unfolding read_uint
read_uint-enough width bs enough = rw enough (ok-IsCborError _)

read_argument-IsCborError :
    (major info : ℕ) (bs : Bytes) → IsCborError (read_argument major info bs)
unfolding read_argument
read_argument-IsCborError major info bs = if-IsCborError (ltb info 24) _ _ (ok-IsCborError _) (
    if-IsCborError (leb info 27) _ _
      (checked_so (leb (2 ^ (info - 24)) (length bs)) _ λ enough.
        bind-IsCborError (read_uint (2 ^ (info - 24)) bs) _
          (read_uint-enough (2 ^ (info - 24)) bs enough) λ arg. checked _ _ (ok-IsCborError _))
      (refused-IsCborError (ℕ × Bytes)))

read_bytes-IsCborError : (n : ℕ) (bs : Bytes) → IsCborError (read_bytes n bs)
unfolding read_bytes
read_bytes-IsCborError n bs = checked (leb n (length bs)) _ (ok-IsCborError _)

module _ (utf8 : Bytes → Text) (next : Bytes → Result (Cbor × Bytes))
    (good : (bs : Bytes) → IsCborError (next bs)) where
  items-IsCborError : (n : ℕ) (bs : Bytes) → IsCborError (decode_items next n bs)
  unfolding decode_items
  items-IsCborError zero bs = ok-IsCborError _
  items-IsCborError (suc n) bs = bind-IsCborError (next bs) _ (good bs) λ x.
      bind-IsCborError (decode_items next n x.1) _ (items-IsCborError n x.1) λ y. ok-IsCborError _

  pairs-IsCborError : (n : ℕ) (out : Pairs) (bs : Bytes) → IsCborError (decode_pairs next n out bs)
  unfolding decode_pairs
  pairs-IsCborError zero out bs = ok-IsCborError _
  pairs-IsCborError (suc n) out bs = bind-IsCborError (next bs) _ (good bs) λ k.
      bind-IsCborError (next k.1) _ (good k.1)
        λ v. checked (not (has_key k.0 out)) _ (pairs-IsCborError n (add_pair out k.0 v.0) v.1)

  body-IsCborError :
      (major info arg : ℕ) (bs : Bytes) → IsCborError (decode_body utf8 next major info arg bs)
  unfolding decode_body
  body-IsCborError major info arg bs =
      let taken = read_bytes-IsCborError arg bs in
      if-IsCborError (major == 0) _ _ (ok-IsCborError _) (
        if-IsCborError (major == 1) _ _ (ok-IsCborError _) (
          if-IsCborError (major == 2) _ _
            (bind-IsCborError (read_bytes arg bs) _ taken (λ x. ok-IsCborError _))
            (if-IsCborError (major == 3) _ _
              (bind-IsCborError (read_bytes arg bs) _ taken (λ x. ok-IsCborError _))
              (if-IsCborError (major == 4) _ _
                (checked (leb arg 10000) _ (
                  bind-IsCborError (decode_items next arg bs) _ (items-IsCborError arg bs)
                    (λ x. ok-IsCborError _)))
                (if-IsCborError (major == 5) _ _
                  (checked (leb arg 10000) _ (
                    bind-IsCborError (decode_pairs next arg no_pairs bs) _
                      (pairs-IsCborError arg no_pairs bs) (λ x. ok-IsCborError _)))
                  (if-IsCborError (major == 6) _ _ (good bs) (ok-IsCborError _)))))))

  head-IsCborError : (bs : Bytes) → IsCborError (decode_head utf8 next bs)
  unfolding decode_head
  head-IsCborError [] = refused-IsCborError (Cbor × Bytes)
  head-IsCborError (b ∷ bs) =
      bind-IsCborError (read_argument (b / 32) (b % 32) bs) _
        (read_argument-IsCborError (b / 32) (b % 32) bs)
        (λ x. body-IsCborError (b / 32) (b % 32) x.0 x.1)

item-IsCborError : (utf8 : Bytes → Text) (d : ℕ) (bs : Bytes) → IsCborError (decode_item utf8 d bs)
unfolding decode_item
item-IsCborError utf8 zero bs = refused-IsCborError (Cbor × Bytes)
item-IsCborError utf8 (suc d) bs =
    head-IsCborError utf8 (decode_item utf8 d) (item-IsCborError utf8 d) bs

rest-IsCborError : (x : Cbor × Bytes) → IsCborError (check (is_nothing x.1) cbor >>= λ _. ok x.0)
rest-IsCborError x = checked (is_nothing x.1) (ok x.0) (ok-IsCborError x.0)

-- Whatever the bytes are, the decoder gives a value or refuses with the code of a CBOR error, and with
-- no other: it never reads a number past the end of its input, which would be a RangeError.
pub decode-IsCborError : (utf8 : Bytes → Text) (bs : Bytes) → IsCborError (decode utf8 bs)
unfolding decode
decode-IsCborError utf8 bs =
    bind-IsCborError (decode_item utf8 levels bs) _ (item-IsCborError utf8 levels bs)
      rest-IsCborError
