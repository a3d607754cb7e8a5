-- ===== src/Passkeys/Cbor/Consumed.antt =====
-- The decoder reads a beginning of its input, and makes no more of it than it reads,
-- panel/lib/webauthn.mjs.
use forthway_command_center.Base.{
  ℕ, zero, suc, ◌+◌, ◌-◌, ◌^◌, ◌/◌, ◌%◌, ◌≤◌, ◌≡◌, refl, sym, ap, ◌∙◌, subst, Bool, true, false, [],
  ◌∷◌, ◌++◌, leb, ltb, ◌==◌, if◌then◌else◌, Text, length, length-append, arith,
}
use mathlib.Core.List.{append_assoc}
use forthway_command_center.Passkeys.Outcome.{
  Bytes, Code, Result, ok, refused, cbor, ◌>>=◌, check, first_bytes, skip_bytes, bind_ok, check_ok,
  ok_injective,
}
use forthway_command_center.Passkeys.Cbor.{
  Cbor, Items, no_items, item, Pairs, no_pairs, pair, read_uint, read_argument, read_bytes,
  decode_items, add_pair, decode_pairs, decode_body, decode_head, decode_item, simple_value,
}

-- How much a value holds: its parts, the bytes of a buffer and the code units of a string.
mutual
  pub size : Cbor → ℕ
  size (Cbor.bytes bs) = 1 + length bs
  size (Cbor.string t) = 1 + length t
  size (Cbor.array vs) = 1 + items_size vs
  size (Cbor.table ps) = 1 + pairs_size ps
  size _ = 1

  pub items_size : Items → ℕ
  items_size no_items = 0
  items_size (item v vs) = size v + items_size vs

  pub pairs_size : Pairs → ℕ
  pairs_size no_pairs = 0
  pairs_size (pair k v ps) = size k + size v + pairs_size ps

-- What is left is the end of the bytes, and there are `n` before it.
abbrev pub Splits : Bytes → ℕ → Bytes → Type 0
Splits bs n rest = (used : Bytes) × (bs ≡ used ++ rest) × (n ≤ length used)

Splits-trans : {a b c : Bytes} (m n : ℕ) → Splits a m b → Splits b n c → Splits a (m + n) c
Splits-trans m n (u, e, h) (w, f, k) = (
  u ++ w,
  e ∙ ap (λ x. u ++ x) f ∙ sym (append_assoc u w _),
  omega (arith, length-append u w, h, k),
)

Splits-le : {a b : Bytes} {m n : ℕ} → n ≤ m → Splits a m b → Splits a n b
Splits-le l (u, e, h) = (u, e, omega (arith, l, h))

Splits-refl : (bs : Bytes) → Splits bs 0 bs
Splits-refl bs = ([], refl, omega arith)

first_bytes-skip_bytes : (n : ℕ) (bs : Bytes) → first_bytes n bs ++ skip_bytes n bs ≡ bs
first_bytes-skip_bytes zero bs = refl
first_bytes-skip_bytes (suc n) [] = refl
first_bytes-skip_bytes (suc n) (b ∷ bs) = ap (λ x. b ∷ x) (first_bytes-skip_bytes n bs)

length-first_bytes : (n : ℕ) (bs : Bytes) → n ≤ length bs → length (first_bytes n bs) ≡ n
length-first_bytes zero bs h = refl
length-first_bytes (suc n) [] h = omega (arith, h)
length-first_bytes (suc n) (b ∷ bs) h = ap suc (length-first_bytes n bs (omega (arith, h)))

Splits-skip_bytes : (n : ℕ) (bs : Bytes) → leb n (length bs) ≡ true → Splits bs n (skip_bytes n bs)
Splits-skip_bytes n bs h = (
  first_bytes n bs,
  sym (first_bytes-skip_bytes n bs),
  omega (arith, length-first_bytes n bs (ground (arith, h))),
)

-- A reading of the bytes is good when what it gives measures no more than what was read.
abbrev pub Good : {A : Type 0} → (A → ℕ) → Bytes → Result (A × Bytes) → Type 0
Good {A = A} m bs r = (v : A) (rest : Bytes) → r ≡ ok (v, rest) → Splits bs (m v) rest

module _ {A : Type 0} (m : A → ℕ) where
  Good-if :
      (b : Bool) {bs : Bytes} (x y : Result (A × Bytes))
      → Good m bs x
      → Good m bs y
      → Good m bs (if b then x else y)
  Good-if true x y p q = p
  Good-if false x y p q = q

  Good-refused : (c : Code) (bs : Bytes) → Good m bs (refused c)
  Good-refused c bs v rest h = cc

  Good-ok : (bs : Bytes) (v : A) (rest : Bytes) → Splits bs (m v) rest → Good m bs (ok (v, rest))
  Good-ok bs v rest s w after h = subst (λ x. Splits bs (m x.0) x.1) (ok_injective h) s

  Good-check :
      (b : Bool) (c : Code) (bs : Bytes) (r : Result (A × Bytes))
      → (b ≡ true → Good m bs r)
      → Good m bs (check b c >>= λ _. r)
  Good-check b c bs r g v rest h =
      let (_, e, h) = bind_ok (check b c) h in g (check_ok b c e) v rest h

read_argument-Good :
    (major info : ℕ) (bs : Bytes) → Good {A = ℕ} (λ _. 0) bs (read_argument major info bs)
unfolding read_argument
read_argument-Good major info bs =
    let m : ℕ → ℕ = λ _. 0 in
    let width = 2 ^ (info - 24) in
    Good-if m (ltb info 24) _ _ (Good-ok m bs info bs (Splits-refl bs)) (
      Good-if m (leb info 27) _ _
        (Good-check m (leb width (length bs)) cbor bs _ λ enough v rest h.
          let (arg, _, h) = bind_ok (read_uint width bs) h in
          Good-check m _ cbor bs _
            (λ _.
              Good-ok m bs arg (skip_bytes width bs)
                (Splits-le (omega arith) (Splits-skip_bytes width bs enough)))
            v rest h)
        (Good-refused m cbor bs))

read_bytes-Splits :
    (n : ℕ) (bs taken rest : Bytes)
    → read_bytes n bs ≡ ok (taken, rest)
    → Splits bs (length taken) rest
unfolding read_bytes
read_bytes-Splits n bs taken rest h =
    let (_, c, h) = bind_ok _ h in
    let enough = check_ok _ _ c in
    subst (λ x. Splits bs (length x.0) x.1) (ok_injective h)
      (Splits-le (omega (arith, length-first_bytes n bs (ground (arith, enough))))
        (Splits-skip_bytes n bs enough))

pairs_size-add_pair :
    (ps : Pairs) (k v : Cbor) → pairs_size (add_pair ps k v) ≡ pairs_size ps + (size k + size v)
unfolding add_pair size pairs_size
pairs_size-add_pair no_pairs k v = omega arith
pairs_size-add_pair (pair j w ps) k v = omega (arith, pairs_size-add_pair ps k v)

module _ (next : Bytes → Result (Cbor × Bytes)) (good : (bs : Bytes) → Good size bs (next bs)) where
  decode_items-Splits :
      (n : ℕ) (bs : Bytes) (vs : Items) (rest : Bytes)
      → decode_items next n bs ≡ ok (vs, rest)
      → Splits bs (items_size vs) rest
  unfolding decode_items items_size
  decode_items-Splits zero bs vs rest h =
      subst (λ x. Splits bs (items_size x.0) x.1) (ok_injective h) (Splits-refl bs)
  decode_items-Splits (suc n) bs vs rest h =
      let ((v, a), hv, h) = bind_ok _ h in
      let ((ws, b), hs, h) = bind_ok _ h in
      subst (λ x. Splits bs (items_size x.0) x.1) (ok_injective h)
        (Splits-trans (size v) (items_size ws) (good bs v a hv) (decode_items-Splits n a ws b hs))

  decode_pairs-Splits :
      (n : ℕ) (out : Pairs) (bs : Bytes) (ps : Pairs) (rest : Bytes)
      → decode_pairs next n out bs ≡ ok (ps, rest)
      → (m : ℕ) × Splits bs m rest × (pairs_size ps ≤ pairs_size out + m)
  unfolding decode_pairs
  decode_pairs-Splits zero out bs ps rest h =
      let e = ok_injective h in
      (
        0,
        subst (λ x. Splits bs 0 x.1) e (Splits-refl bs),
        subst (λ x. pairs_size x.0 ≤ pairs_size out + 0) e (omega arith),
      )
  decode_pairs-Splits (suc n) out bs ps rest h =
      let ((k, a), hk, h) = bind_ok _ h in
      let ((v, b), hv, h) = bind_ok _ h in
      let (_, _, h) = bind_ok _ h in
      let (m, s, l) = decode_pairs-Splits n (add_pair out k v) b ps rest h in
      (
        size k + (size v + m),
        Splits-trans (size k) (size v + m) (good bs k a hk)
            (Splits-trans (size v) m (good a v b hv) s),
        omega (arith, l, pairs_size-add_pair out k v),
      )

abbrev body_size : Cbor → ℕ
body_size v = size v - 1

size-simple_value : (info arg : ℕ) → size (simple_value info arg) ≡ 1
unfolding simple_value size
size-simple_value info arg = ground arith

module _ (utf8 : Bytes → Text) (short : (bs : Bytes) → length (utf8 bs) ≤ length bs)
    (next : Bytes → Result (Cbor × Bytes)) (good : (bs : Bytes) → Good size bs (next bs)) where
  buffer-Good :
      (make : Bytes → Cbor) (n : ℕ) (bs : Bytes)
      → ((taken : Bytes) → size (make taken) ≤ 1 + length taken)
      → Good body_size bs (read_bytes n bs >>= λ x. ok (make x.0, x.1))
  buffer-Good make n bs small v rest h =
      let ((taken, after), r, h) = bind_ok (read_bytes n bs) h in
      Good-ok body_size bs (make taken) after
        (Splits-le (omega (arith, small taken)) (read_bytes-Splits n bs taken after r)) v rest h

  array-Good :
      (n : ℕ) (bs : Bytes)
      → Good body_size bs (decode_items next n bs >>= λ x. ok (Cbor.array x.0, x.1))
  unfolding size
  array-Good n bs v rest h =
      let ((vs, after), r, h) = bind_ok (decode_items next n bs) h in
      Good-ok body_size bs (Cbor.array vs) after
        (Splits-le (omega arith) (decode_items-Splits next good n bs vs after r)) v rest h

  table-Good :
      (n : ℕ) (bs : Bytes)
      → Good body_size bs (decode_pairs next n no_pairs bs >>= λ x. ok (Cbor.table x.0, x.1))
  unfolding size pairs_size
  table-Good n bs v rest h =
      let ((ps, after), r, h) = bind_ok (decode_pairs next n no_pairs bs) h in
      let (m, s, l) = decode_pairs-Splits next good n no_pairs bs ps after r in
      Good-ok body_size bs (Cbor.table ps) after (Splits-le (omega (arith, l)) s) v rest h

  decode_body-Good :
      (major info arg : ℕ) (bs : Bytes)
      → Good body_size bs (decode_body utf8 next major info arg bs)
  unfolding decode_body size
  decode_body-Good major info arg bs =
      let m = body_size in
      Good-if m (major == 0) _ _ (Good-ok m bs (Cbor.natural arg) bs (Splits-refl bs)) (
        Good-if m (major == 1) _ _ (Good-ok m bs (Cbor.negative arg) bs (Splits-refl bs)) (
          Good-if m (major == 2) _ _ (buffer-Good Cbor.bytes arg bs (λ t. omega arith)) (
            Good-if m (major == 3) _ _
              (buffer-Good (λ t. Cbor.string (utf8 t)) arg bs (λ t. omega (arith, short t)))
              (Good-if m (major == 4) _ _
                (Good-check m (leb arg 10000) cbor bs _ (λ _. array-Good arg bs))
                (Good-if m (major == 5) _ _
                  (Good-check m (leb arg 10000) cbor bs _ (λ _. table-Good arg bs))
                  (Good-if m (major == 6) _ _
                    (λ v rest h. Splits-le (omega arith) (good bs v rest h))
                    (Good-ok m bs (simple_value info arg) bs
                      (rw (size-simple_value info arg) (Splits-refl bs)))))))))

  decode_head-Good : (bs : Bytes) → Good size bs (decode_head utf8 next bs)
  unfolding decode_head
  decode_head-Good [] v rest h = cc
  decode_head-Good (b ∷ bs) v rest h =
      let ((arg, after), r, h) = bind_ok _ h in
      let (used, e, l) =
        Splits-trans 0 (size v - 1) (read_argument-Good (b / 32) (b % 32) bs arg after r)
          (decode_body-Good (b / 32) (b % 32) arg after v rest h) in
      (b ∷ used, ap (λ x. b ∷ x) e, omega (arith, l))

-- An item that the decoder reads stands at the beginning of the bytes, with what is left after it, and
-- holds no more than the bytes that were read for it: no input makes a value larger than itself,
-- however deep it goes and whatever counts it states. That UTF-8 makes at most one code unit of
-- each byte is a condition.
pub decode_item-Splits :
    (utf8 : Bytes → Text) (depth : ℕ) (bs : Bytes) (v : Cbor) (rest : Bytes)
    → ((taken : Bytes) → length (utf8 taken) ≤ length taken)
    → decode_item utf8 depth bs ≡ ok (v, rest)
    → Splits bs (size v) rest
unfolding decode_item
decode_item-Splits utf8 zero bs v rest short h = cc
decode_item-Splits utf8 (suc d) bs v rest short h =
    decode_head-Good utf8 short (decode_item utf8 d)
      (λ taken w after. decode_item-Splits utf8 d taken w after short) bs v rest h
