-- ===== src/Database/Gtid/Parse.antt =====
-- The text of a GTID set, as cleanGtid and the first loop of parseGtidSet of shared/mysql-ha.mjs
-- read it.
use forthway_command_center.Base.{
  ℕ, ◌+◌, ◌-◌, ◌*◌, ◌^◌, max, Bool, false, not, ◌&&◌, ◌||◌, Option, none, some, List, [], ◌∷◌, ◌++◌,
  map, ltb, leb, ◌==◌, if◌then◌else◌, Text, is_digit, is_letter, is_space, all, select, length,
  map_get, map_set,
}

-- From the first number to the last.
abbrev pub Interval : Type 0
Interval = ℕ × ℕ

abbrev pub GtidMap : Type 0
GtidMap = List (Text × List Interval)

-- `replace(/\s+/g, "")`
unfoldable pub unspaced : Text → Text
unspaced s = select (λ c. not (is_space c)) s

pub data Flavor : Type 0 where
  mysql mariadb : Flavor

abbrev gtid_char : Flavor → ℕ → Bool
gtid_char mariadb c = is_digit c || (c == b',') || (c == b'-')
gtid_char mysql c =
    is_letter c || is_digit c || (c == b'_') || (c == b':') || (c == b',') || (c == b'-')

-- `cleanGtid`, which throws on anything else.
unfoldable pub clean_gtid : Flavor → Text → Option Text
clean_gtid f s =
    let t = unspaced s in if not (all (gtid_char f) t) || ltb 65000 (length t) then none else some t

add_head : ℕ → List Text → List Text
add_head c [] = (c ∷ []) ∷ []
add_head c (p ∷ ps) = (c ∷ p) ∷ ps

-- `split`
unfoldable pub split : ℕ → Text → List Text
unfolding add_head
split sep [] = [] ∷ []
split sep (c ∷ s) = let rest = split sep s in if c == sep then [] ∷ rest else add_head c rest

-- `\d+`
abbrev pub is_number : Text → Bool
is_number s = leb 1 (length s) && all is_digit s

abbrev pub number_of : ℕ → Text → ℕ
number_of acc [] = acc
number_of acc (c ∷ s) = number_of (10 * acc + (c - b'0')) s

abbrev pub number : Text → ℕ
number s = number_of 0 s

-- A number as it is written out again.
unfoldable pub plain_digits : Text → Text
plain_digits [] = []
plain_digits (c ∷ []) = c ∷ []
plain_digits (c ∷ d ∷ s) = if c == b'0' then plain_digits (d ∷ s) else c ∷ d ∷ s

abbrev pub lower : Text → Text
lower s = map (λ c. if leb b'A' c && leb c b'Z' then c + 32 else c) s

abbrev pub is_safe : ℕ → Bool
is_safe n = ltb n (2 ^ 53)

abbrev pub pushed : Option (List Interval) → Interval → List Interval
pushed none i = i ∷ []
pushed (some l) i = l ++ (i ∷ [])

-- `add`
unfoldable pub add : GtidMap → Text → ℕ → ℕ → Option GtidMap
add out key a b =
    if not (is_safe a) || not (is_safe b) || ltb a 1 || ltb b a
    then none
    else some (map_set out key (pushed (map_get out key) (a, b)))

abbrev pub raised : ℕ → List Interval → List Interval
raised n [] = []
raised n ((a, b) ∷ l) = (a, max b n) ∷ l

-- The highest number of a domain wins.
unfoldable pub add_domain : GtidMap → Text → ℕ → Option GtidMap
add_domain out key n = if n == 0 then some out else elim (map_get out key) [
  | none ↦ add out key 1 n
  | some l ↦ some (map_set out key (raised n l))
]

-- `/^(\d+)-(\d+)-(\d+)$/`: the domain and the number.
unfoldable pub domain_entry : List Text → Option (Text × Text)
domain_entry (d ∷ s ∷ n ∷ []) =
    if is_number d && is_number s && is_number n then some (d, n) else none
domain_entry _ = none

abbrev is_hex : ℕ → Bool
is_hex c = is_digit c || (leb b'a' c && leb c b'f') || (leb b'A' c && leb c b'F')

abbrev is_hex_of : ℕ → Text → Bool
is_hex_of n s = (length s == n) && all is_hex s

uuid_parts : List Text → Bool
uuid_parts (a ∷ b ∷ c ∷ d ∷ e ∷ []) =
    is_hex_of 8 a && is_hex_of 4 b && is_hex_of 4 c && is_hex_of 4 d && is_hex_of 12 e
uuid_parts _ = false

-- `UUID_RE`
unfoldable pub is_uuid : Text → Bool
unfolding uuid_parts
is_uuid s = uuid_parts (split b'-' s)

-- `/^(\d+)(?:-(\d+))?$/`: both ends.
unfoldable pub range_of : List Text → Option Interval
range_of (a ∷ []) = if is_number a then some (number a, number a) else none
range_of (a ∷ b ∷ []) = if is_number a && is_number b then some (number a, number b) else none
range_of _ = none

abbrev is_tag_rest : ℕ → Bool
is_tag_rest c = is_letter c || is_digit c || (c == b'_')

-- `/^[a-z_][a-z0-9_]{0,31}$/i`
unfoldable pub is_tag : Text → Bool
is_tag [] = false
is_tag (c ∷ s) = (is_letter c || (c == b'_')) && leb (length s) 31 && all is_tag_rest s

-- The ranges and tags of a server, under the key so far.
unfoldable pub read_segments : Text → Text → List Text → GtidMap → Option GtidMap
read_segments uuid key [] out = some out
read_segments uuid key (seg ∷ segs) out = elim (range_of (split b'-' seg)) [
  | none ↦ if is_tag seg then read_segments uuid (uuid ++ (b':' ∷ lower seg)) segs out else none
  | some i ↦ elim (add out key i.0 i.1) [ none ↦ none | some out ↦ read_segments uuid key segs out ]
]

unfoldable pub server_entry : List Text → GtidMap → Option GtidMap
server_entry [] out = none
server_entry (u ∷ segs) out = if is_uuid u then read_segments (lower u) (lower u) segs out else none

unfoldable pub read_part : Text → GtidMap → Option GtidMap
unfolding server_entry
read_part part out = elim (domain_entry (split b'-' part)) [
  | none ↦ server_entry (split b':' part) out
  | some (d, n) ↦ add_domain out (b'd' ∷ plain_digits d) (number n)
]

-- Empty parts are passed over.
unfoldable pub read_parts : List Text → GtidMap → Option GtidMap
read_parts [] out = some out
read_parts ([] ∷ ps) out = read_parts ps out
read_parts ((c ∷ p) ∷ ps) out = elim (read_part (c ∷ p) out) [
  | none ↦ none
  | some out ↦ read_parts ps out
]

unfoldable pub read_list : Text → Option GtidMap
read_list [] = some []
read_list (c ∷ t) = read_parts (split b',' (c ∷ t)) []

-- The intervals of each key, in the order in which they stand.
unfoldable pub read_gtid_set : Text → Option GtidMap
read_gtid_set s = read_list (unspaced s)
