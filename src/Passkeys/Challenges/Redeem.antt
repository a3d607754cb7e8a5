-- ===== src/Passkeys/Challenges/Redeem.antt =====
-- The redemption of challenges, panel/lib/webauthn.mjs.
use forthway_command_center.Base.{
  ℕ, ◌+◌, ◌<◌, ◌≡◌, refl, sym, ap, ◌∙◌, Bool, true, false, not, none, some, List, [], ◌∷◌, map, ltb,
  ◌==◌, if◌then◌else◌, Text, text_eq_refl, arith, every_below_sound, All, IsMap, map_get-map_set,
  map_get-map_delete, map_get, text_eq, map_delete, map_set-IsMap,
}
use mathlib.Core.List.{reverse, reverse_aux, reverse-reverse}
use forthway_command_center.Passkeys.Outcome.{Bytes, IsBytes}
use forthway_command_center.Passkeys.Base64.{b64url, digit_of, sextets_of}
use forthway_command_center.Passkeys.Base64.RoundTrip.{IsDigits, sextets_of-IsDigits}
use forthway_command_center.Passkeys.ClientData.{unpadded, drop_padding}
use forthway_command_center.Passkeys.Challenges.Bounded.{kept-Sub}
use forthway_command_center.Passkeys.Challenges.Sublists.{Sub-map_delete, IsMap-Sub}
use forthway_command_center.Passkeys.Challenges.{Store, Binding, made, issue, take, kept, key_of}

-- What is left after some challenges were asked for, each at a time.
abbrev pub after_takes : Store → List (Text × ℕ) → Store
after_takes st [] = st
after_takes st ((given, now) ∷ asked) = after_takes (take st given now).0 asked

forgotten-after_takes :
    (st : Store) (c : Text) (asked : List (Text × ℕ))
    → IsMap st.items
    → map_get st.items c ≡ none
    → map_get (after_takes st asked).items c ≡ none
unfolding take
forgotten-after_takes st c [] w h = h
forgotten-after_takes st c ((given, now) ∷ asked) w h =
    forgotten-after_takes (take st given now).0 c asked
      (IsMap-Sub (Sub-map_delete st.items (unpadded given)) w)
      (map_get-map_delete st.items (unpadded given) c w ∙ ground (arith, h))

-- In a store whose challenges are apart, a challenge that was asked for is forgotten, whatever came of
-- it: asked for again it gives nothing, with the same padding or with another, and after any number
-- of challenges were asked for in between, while none is issued.
pub take-once :
    (st : Store) (given again : Text) (now later : ℕ) (asked : List (Text × ℕ))
    → IsMap st.items
    → unpadded given ≡ unpadded again
    → (take (after_takes (take st given now).0 asked) again later).1 ≡ none
unfolding take
take-once st given again now later asked w same =
    let c = unpadded given in
    let gone : map_get (map_delete st.items c) c ≡ none =
      map_get-map_delete st.items c c w ∙ ground (arith, text_eq_refl c) in
    rw
      (
        sym same,
        forgotten-after_takes (take st given now).0 c asked
            (IsMap-Sub (Sub-map_delete st.items c) w) gone,
      )
      refl

is_plain : ℕ → Bool
is_plain c = not (c == b'=')

ArePlain : Text → Type 0
ArePlain = All (λ c. is_plain c ≡ true)

digit_of-is_plain : (n : ℕ) → n < 64 → is_plain (digit_of n) ≡ true
unfolding is_plain
digit_of-is_plain n h = every_below_sound 64 (λ x. is_plain (digit_of x)) n refl h

digits-ArePlain : (ns : List ℕ) → IsDigits ns → ArePlain (map digit_of ns)
unfolding ArePlain IsDigits
digits-ArePlain [] h = tt
digits-ArePlain (n ∷ ns) h = (digit_of-is_plain n h.0, digits-ArePlain ns h.1)

reverse-ArePlain : (s t : Text) → ArePlain s → ArePlain t → ArePlain (reverse_aux s t)
unfolding ArePlain
reverse-ArePlain [] t h k = k
reverse-ArePlain (c ∷ s) t h k = reverse-ArePlain s (c ∷ t) h.1 (h.0, k)

drop_padding-plain : (s : Text) → ArePlain s → drop_padding s ≡ s
unfolding drop_padding ArePlain is_plain
drop_padding-plain [] h = refl
drop_padding-plain (c ∷ s) h = ground (arith, h.0)

-- What is written in base64url has no padding.
unpadded-b64url : (bs : Bytes) → IsBytes bs → unpadded (b64url bs) ≡ b64url bs
unfolding unpadded b64url ArePlain
unpadded-b64url bs h =
    let plain = digits-ArePlain (sextets_of bs) (sextets_of-IsDigits bs h) in
    ap reverse (drop_padding-plain (reverse (b64url bs)) (reverse-ArePlain (b64url bs) [] plain tt))
    ∙ reverse-reverse (b64url bs)

-- None of those asked for is this one.
abbrev pub AreOthers : Text → List (Text × ℕ) → Type 0
AreOthers c = All (λ x. text_eq (unpadded x.0) c ≡ false)

map_get-after_takes :
    (st : Store) (c : Text) (asked : List (Text × ℕ))
    → IsMap st.items
    → AreOthers c asked
    → map_get (after_takes st asked).items c ≡ map_get st.items c
unfolding take
map_get-after_takes st c [] w h = refl
map_get-after_takes st c ((given, now) ∷ asked) w h =
    let s = Sub-map_delete st.items (unpadded given) in
    map_get-after_takes (take st given now).0 c asked (IsMap-Sub s w) h.1
    ∙ rw (map_get-map_delete st.items (unpadded given) c w, h.0) refl

-- In a store whose challenges are apart, one is redeemed for what it was issued for, before it expires
-- and not after, from the store that `issue` returned and after any number of other challenges were
-- asked for, while no further one is issued.
pub take-issue :
    (st : Store) (b : Binding) (random : Bytes) (t now later : ℕ) (asked : List (Text × ℕ))
    → IsBytes random
    → IsMap st.items
    → AreOthers (issue st b random t now).1 asked
    → (take (after_takes (issue st b random t now).0 asked) (issue st b random t now).1 later).1
      ≡ (if ltb later (now + st.ttl_ms) then some (made st b (b64url random) now) else none)
unfolding take issue
take-issue st b random t now later asked h w others =
    let c = b64url random in
    let r = made st b c now in
    let all = kept st (key_of b) t in
    let whole = map_set-IsMap all c r (IsMap-Sub (kept-Sub st (key_of b) t) w) in
    rw
      (
        unpadded-b64url random h,
        map_get-after_takes (issue st b random t now).0 c asked whole others,
        map_get-map_set all c c r,
        text_eq_refl c,
      )
      refl
