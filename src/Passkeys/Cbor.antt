-- ===== src/Passkeys/Cbor.antt =====
-- cborDecodeItem, halfToFloat and cborDecode of panel/lib/webauthn.mjs. The decoder works on the
-- bytes that are left: the offset is where they begin. A string is what `utf8` makes of its bytes.
pub mod Consumed
pub mod Errors
use forthway_command_center.Base.{
  ℕ, zero, suc, ◌+◌, ◌-◌, ◌*◌, ◌/◌, ◌%◌, ◌^◌, Bool, true, false, not, ◌&&◌, ◌||◌, Option, none,
  some, List, [], ◌∷◌, ltb, leb, ◌==◌, if◌then◌else◌, Text, text_eq, length,
}
use forthway_command_center.Passkeys.Outcome.{
  Bytes, Result, ok, refused, cbor, range_error, ◌>>=◌, check, first_bytes, skip_bytes, number_from,
}

-- A floating-point number: `dyadic s m e` is m * 2 ^ e / 2 ^ 1074, negative when `s` is true.
pub data Float : Type 0 where
  not_a_number : Float
  infinite : Bool → Float
  dyadic : Bool → ℕ → ℕ → Float

-- `negative n` is -1 - n.
mutual
  pub data Cbor : Type 0 where
    natural negative : ℕ → Cbor
    bytes : Bytes → Cbor
    string : Text → Cbor
    array : Items → Cbor
    table : Pairs → Cbor
    boolean : Bool → Cbor
    null undefined : Cbor
    float : Float → Cbor

  pub data Items : Type 0 where
    no_items : Items
    item : Cbor → Items → Items

  pub data Pairs : Type 0 where
    no_pairs : Pairs
    pair : Cbor → Cbor → Pairs → Pairs

-- A number with sign, exponent and fraction of an IEEE format, whose exponent 1 stands for 2 ^ low.
abbrev pub ieee : ℕ → ℕ → ℕ → Bool → ℕ → ℕ → Float
ieee fraction top low s e f =
    if e == 0
    then dyadic s f low
    else if e == top
    then (if f == 0 then infinite s else not_a_number)
    else dyadic s (2 ^ fraction + f) (low + e - 1)

-- `halfToFloat`
unfoldable pub half_to_float : ℕ → Float
half_to_float h = ieee 10 31 1050 (h / 32768 % 2 == 1) (h / 1024 % 32) (h % 1024)

abbrev pub single_to_float : ℕ → Float
single_to_float h = ieee 23 255 925 (h / 2 ^ 31 % 2 == 1) (h / 2 ^ 23 % 256) (h % 2 ^ 23)

abbrev pub double_to_float : ℕ → Float
double_to_float h = ieee 52 2047 0 (h / 2 ^ 63 % 2 == 1) (h / 2 ^ 52 % 2048) (h % 2 ^ 52)

abbrev same_float : Float → Float → Bool
same_float not_a_number not_a_number = true
same_float (infinite s) (infinite t) = (s && t) || (not s && not t)
same_float (dyadic s m e) (dyadic t n k) =
    (m * 2 ^ e == n * 2 ^ k) && ((m == 0) || (s && t) || (not s && not t))
same_float _ _ = false

abbrev float_of : Cbor → Option Float
float_of (Cbor.natural n) = some (dyadic false n 1074)
float_of (Cbor.negative n) = some (dyadic true (n + 1) 1074)
float_of (Cbor.float x) = some x
float_of _ = none

same_number : Option Float → Option Float → Bool
same_number (some x) (some y) = same_float x y
same_number _ _ = false

-- The sameness of Map keys: by content for strings and numbers; two buffers or containers differ.
unfoldable pub same_key : Cbor → Cbor → Bool
unfolding same_number
same_key (Cbor.natural m) (Cbor.natural n) = m == n
same_key (Cbor.negative m) (Cbor.negative n) = m == n
same_key (Cbor.string s) (Cbor.string t) = text_eq s t
same_key (Cbor.boolean a) (Cbor.boolean b) = (a && b) || (not a && not b)
same_key Cbor.null Cbor.null = true
same_key Cbor.undefined Cbor.undefined = true
same_key a b = same_number (float_of a) (float_of b)

unfoldable pub has_key : Cbor → Pairs → Bool
has_key k no_pairs = false
has_key k (pair j v ps) = same_key j k || has_key k ps

-- `readUInt16BE`, `readUInt32BE` and `readBigUInt64BE` throw a RangeError when the buffer has too few
-- bytes. A single byte is read by its index; its absence counts as the same error here.
unfoldable pub read_uint : ℕ → Bytes → Result ℕ
read_uint width bs =
    if leb width (length bs) then ok (number_from 0 (first_bytes width bs)) else refused range_error

-- The argument of an item's head: `need`, the read, and for eight bytes the limit of an integer.
unfoldable pub read_argument : ℕ → ℕ → Bytes → Result (ℕ × Bytes)
read_argument major info bs =
    if ltb info 24
    then ok (info, bs)
    else if leb info 27
    then (let width = 2 ^ (info - 24) in
        do
          tt ← check (leb width (length bs)) cbor
          arg ← read_uint width bs
          tt ← check (not (info == 27) || (major == 7) || ltb arg (2 ^ 53)) cbor
          ok (arg, skip_bytes width bs))
    else refused cbor

unfoldable pub read_bytes : ℕ → Bytes → Result (Bytes × Bytes)
read_bytes n bs = do tt ← check (leb n (length bs)) cbor; ok (first_bytes n bs, skip_bytes n bs)

-- The loops over an array and over a map, given the decoder of an item.
unfoldable pub decode_items : (Bytes → Result (Cbor × Bytes)) → ℕ → Bytes → Result (Items × Bytes)
decode_items next zero bs = ok (no_items, bs)
decode_items next (suc n) bs = do
  (v, rest) ← next bs
  (vs, rest) ← decode_items next n rest
  ok (item v vs, rest)

unfoldable pub add_pair : Pairs → Cbor → Cbor → Pairs
add_pair no_pairs k v = pair k v no_pairs
add_pair (pair j w ps) k v = pair j w (add_pair ps k v)

unfoldable pub decode_pairs :
    (Bytes → Result (Cbor × Bytes)) → ℕ → Pairs → Bytes → Result (Pairs × Bytes)
decode_pairs next zero out bs = ok (out, bs)
decode_pairs next (suc n) out bs = do
  (k, rest) ← next bs
  (v, rest) ← next rest
  tt ← check (not (has_key k out)) cbor
  decode_pairs next n (add_pair out k v) rest

unfoldable pub simple_value : ℕ → ℕ → Cbor
unfolding half_to_float
simple_value info arg =
    if info == 20
    then Cbor.boolean false
    else if info == 21
    then Cbor.boolean true
    else if info == 22
    then Cbor.null
    else if info == 25
    then Cbor.float (half_to_float arg)
    else if info == 26
    then Cbor.float (single_to_float arg)
    else if info == 27
    then Cbor.float (double_to_float arg)
    else Cbor.undefined

-- What follows the head, by major type.
unfoldable pub decode_body :
    (Bytes → Text) → (Bytes → Result (Cbor × Bytes)) → ℕ → ℕ → ℕ → Bytes → Result (Cbor × Bytes)
unfolding simple_value
decode_body utf8 next major info arg bs =
    if major == 0
    then ok (Cbor.natural arg, bs)
    else if major == 1
    then ok (Cbor.negative arg, bs)
    else if major == 2
    then (do (taken, rest) ← read_bytes arg bs; ok (Cbor.bytes taken, rest))
    else if major == 3
    then (do (taken, rest) ← read_bytes arg bs; ok (Cbor.string (utf8 taken), rest))
    else if major == 4
    then (do
      tt ← check (leb arg 10000) cbor
      (vs, rest) ← decode_items next arg bs
      ok (Cbor.array vs, rest))
    else if major == 5
    then (do
      tt ← check (leb arg 10000) cbor
      (ps, rest) ← decode_pairs next arg no_pairs bs
      ok (Cbor.table ps, rest))
    else if major == 6
    then next bs
    else ok (simple_value info arg, bs)

unfoldable pub decode_head :
    (Bytes → Text) → (Bytes → Result (Cbor × Bytes)) → Bytes → Result (Cbor × Bytes)
decode_head utf8 next [] = refused cbor
decode_head utf8 next (b ∷ bs) = do
  (arg, rest) ← read_argument (b / 32) (b % 32) bs
  decode_body utf8 next (b / 32) (b % 32) arg rest

-- `cborDecodeItem`, with as many levels left as `16 - depth`, and one for the item itself.
unfoldable pub decode_item : (Bytes → Text) → ℕ → Bytes → Result (Cbor × Bytes)
unfolding decode_head
decode_item utf8 zero bs = refused cbor
decode_item utf8 (suc d) bs = decode_head utf8 (decode_item utf8 d) bs

abbrev pub levels : ℕ
levels = 17

unfoldable pub is_nothing : Bytes → Bool
is_nothing [] = true
is_nothing (b ∷ bs) = false

-- `cborDecode`
unfoldable pub decode : (Bytes → Text) → Bytes → Result Cbor
unfolding is_nothing
decode utf8 bs = do (v, rest) ← decode_item utf8 levels bs; tt ← check (is_nothing rest) cbor; ok v
