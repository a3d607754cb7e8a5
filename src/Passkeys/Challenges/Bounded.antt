-- ===== src/Passkeys/Challenges/Bounded.antt =====
-- The store of challenges keeps its bounds, panel/lib/webauthn.mjs.
use forthway_command_center.Base.{
  ℕ, zero, suc, ◌+◌, ◌-◌, ◌≤◌, ◌<◌, ◌≡◌, refl, sym, ap, ◌∙◌, inl, inr, Bool, true, false, List, [],
  ◌∷◌, if◌then◌else◌, Text, text_eq, text_eq_iff, text_eq-sym, is_text, select, count, length,
  map_set, map_delete, lacks, IsMap, map_set-IsMap, arith, Bool-cases, Option-cases, text_eq_sound,
  subst,
}
use forthway_command_center.Passkeys.Outcome.{Bytes}
use forthway_command_center.Passkeys.Base64.{b64url}
use forthway_command_center.Passkeys.ClientData.{unpadded}
use forthway_command_center.Passkeys.Challenges.{
  Issued, Store, made, Binding, prune, key_of, is_of, delete_first, make_room, kept, issue, take,
}
use forthway_command_center.Passkeys.Challenges.Sublists.{
  Sub, Sub-trans, Sub-select, Sub-map_delete, Sub-delete_first, Sub-make_room, count-Sub, IsMap-Sub,
  none_left, drop, keep,
}

skip : ℕ → List (Text × Issued) → List (Text × Issued)
skip zero l = l
skip (suc n) [] = []
skip (suc n) (x ∷ l) = skip n l

length-skip : (n : ℕ) (l : List (Text × Issued)) → length (skip n l) ≡ length l - n
unfolding skip
length-skip zero l = omega arith
length-skip (suc n) [] = omega arith
length-skip (suc n) (x ∷ l) = omega (arith, length-skip n l)

count-select :
    (p : Text × Issued → Bool) (m : List (Text × Issued)) → count p m ≡ length (select p m)
count-select p [] = refl
count-select p (x ∷ m) = ground (arith, count-select p m)

head_entry : Text × Issued → List (Text × Issued) → Text × Issued
head_entry d [] = d
head_entry d (x ∷ l) = x

rest_entries : List (Text × Issued) → List (Text × Issued)
rest_entries [] = []
rest_entries (x ∷ l) = l

cons_injective :
    {x y : Text × Issued} {l m : List (Text × Issued)} → x ∷ l ≡ y ∷ m → (x ≡ y) × (l ≡ m)
unfolding head_entry rest_entries
cons_injective {x = x} h = (ap (head_entry x) h, ap rest_entries h)

select-yes :
    (p : Text × Issued → Bool) (x : Text × Issued) (m : List (Text × Issued))
    → p x ≡ true
    → select p (x ∷ m) ≡ x ∷ select p m
select-yes p x m k = rw k refl

select-no :
    (p : Text × Issued → Bool) (x : Text × Issued) (m : List (Text × Issued))
    → p x ≡ false
    → select p (x ∷ m) ≡ select p m
select-no p x m k = rw k refl

-- An entry that passes a test has another challenge than one that stands nowhere.
apart :
    (p : Text × Issued → Bool) (m : List (Text × Issued)) (j c : Text) (r : Issued)
    (mine : List (Text × Issued))
    → lacks j m ≡ true
    → select p m ≡ (c, r) ∷ mine
    → text_eq j c ≡ false
apart p [] j c r mine h e = cc
apart p ((i, b) ∷ m) j c r mine h e = elim (Bool-cases (p (i, b))) [
  | inl k ↦
      let same = ap (λ x. x.0) (cons_injective (sym (select-yes p (i, b) m k) ∙ e)).0 in
      ground (arith, text_eq-sym i j, same)
  | inr k ↦ apart p m j c r mine (ground arith) (sym (select-no p (i, b) m k) ∙ e)
]

select-map_delete :
    (p : Text × Issued → Bool) (m : List (Text × Issued)) (c : Text) (r : Issued)
    (mine : List (Text × Issued))
    → IsMap m
    → select p m ≡ (c, r) ∷ mine
    → select p (map_delete m c) ≡ mine
unfolding map_delete
select-map_delete p [] c r mine w e = cc
select-map_delete p ((j, b) ∷ m) c r mine w e = elim (Bool-cases (p (j, b))) [
  | inl k ↦
      let both = cons_injective (sym (select-yes p (j, b) m k) ∙ e) in
      rw ((text_eq_iff j c).1 (ap (λ x. x.0) both.0)) both.1
  | inr k ↦
      let e = sym (select-no p (j, b) m k) ∙ e in
      rw (apart p m j c r mine w.0 e, k) (select-map_delete p m c r mine w.1 e)
]

select-delete_first :
    (p : Text × Issued → Bool) (n : ℕ) (m mine : List (Text × Issued))
    → IsMap m
    → select p m ≡ mine
    → select p (delete_first n mine m) ≡ skip n mine
unfolding delete_first skip
select-delete_first p zero m mine w e = e
select-delete_first p (suc n) m [] w e = e
select-delete_first p (suc n) m ((c, r) ∷ mine) w e =
    select-delete_first p n (map_delete m c) mine (IsMap-Sub (Sub-map_delete m c) w)
      (select-map_delete p m c r mine w e)

length-map_set :
    (m : List (Text × Issued)) (k : Text) (a : Issued) → length (map_set m k a) ≤ suc (length m)
unfolding map_set
length-map_set [] k a = omega arith
length-map_set ((j, b) ∷ m) k a = ground (arith, length-map_set m k a)

count-map_set :
    (key : Text) (m : List (Text × Issued)) (k : Text) (a : Issued)
    → count (is_of key) (map_set m k a)
      ≤ count (is_of key) m + (if is_text a.binding.session_key key then 1 else 0)
unfolding map_set
count-map_set key [] k a = ground arith
count-map_set key ((j, b) ∷ m) k a = ground (arith, count-map_set key m k a)

length-make_room : (max : ℕ) (m : List (Text × Issued)) → 1 ≤ max → length (make_room max m) < max
unfolding make_room
length-make_room max [] h = omega arith
length-make_room max (x ∷ m) h = ground (arith, length-make_room max m h)

-- The challenges are apart, no more than the limit, and for no session more than its limit.
unfoldable pub IsBounded : Store → Type 0
IsBounded st =
    IsMap st.items
    × (length st.items ≤ st.max)
    × ((key : Text) → count (is_of key) st.items ≤ st.per_key)

pub kept-Sub : (st : Store) (key : Text) (t : ℕ) → Sub (kept st key t) st.items
unfolding kept prune
kept-Sub st key t =
    Sub-trans (Sub-make_room st.max _) (Sub-trans (Sub-delete_first _ _ _) (Sub-select _ st.items))

-- There is room for one more of the session.
kept-count :
    (st : Store) (key : Text) (t : ℕ)
    → IsMap st.items
    → 1 ≤ st.per_key
    → count (is_of key) (kept st key t) < st.per_key
unfolding kept prune
kept-count st key t w h =
    let items = (prune st t).items in
    let mine = select (is_of key) items in
    let n = length mine + 1 - st.per_key in
    let a = count-Sub (is_of key) (Sub-make_room st.max (delete_first n mine items)) in
    let b = count-select (is_of key) (delete_first n mine items) in
    let c =
      select-delete_first (is_of key) n items mine (IsMap-Sub (Sub-select _ st.items) w) refl in
    let d = length-skip n mine in omega (arith, a, b, ap length c, d)

key_of-is_text : (key : Text) (b : Binding) → is_text b.session_key key ≡ true → key_of b ≡ key
key_of-is_text key b h = elim (Option-cases b.session_key) [
  | inl e ↦ (let bad = subst (λ o. is_text o key ≡ true) e h in cc)
  | inr (k, e) ↦ rw e (text_eq_sound k key (subst (λ o. is_text o key ≡ true) e h))
]

length-Sub : {l m : List (Text × Issued)} → Sub l m → length l ≤ length m
length-Sub none_left = omega arith
length-Sub (drop s) = omega (arith, length-Sub s)
length-Sub (keep s) = omega (arith, length-Sub s)

kept-length : (st : Store) (key : Text) (t : ℕ) → 1 ≤ st.max → length (kept st key t) < st.max
unfolding kept
kept-length st key t h = length-make_room st.max _ h

issue-count :
    (st : Store) (b : Binding) (t : ℕ) (k : Text) (r : Issued) (key : Text)
    → r.binding ≡ b
    → 1 ≤ st.per_key
    → IsMap st.items
    → count (is_of key) st.items ≤ st.per_key
    → count (is_of key) (map_set (kept st (key_of b) t) k r) ≤ st.per_key
issue-count st b t k r key e hp w h =
    let a = count-map_set key (kept st (key_of b) t) k r in
    let others = count-Sub (is_of key) (kept-Sub st (key_of b) t) in
    elim (Bool-cases (is_text r.binding.session_key key)) [
      | inl y ↦
          let same = key_of-is_text key b (subst (λ x. is_text x.session_key key ≡ true) e y) in
          let room =
            subst (λ x. count (is_of x) (kept st (key_of b) t) < st.per_key) same
              (kept-count st (key_of b) t w hp) in
          ground (arith, a, room, y)
      | inr y ↦ ground (arith, a, others, h, y)
    ]

-- In a store that allows a challenge, however many a session asks for and whatever the random bytes,
-- the challenges stay apart, within the limit on all and within the limit on each session.
pub issue-IsBounded :
    (st : Store) (b : Binding) (random : Bytes) (t now : ℕ)
    → 1 ≤ st.max
    → 1 ≤ st.per_key
    → IsBounded st
    → IsBounded (issue st b random t now).0
unfolding issue IsBounded
issue-IsBounded st b random t now hm hp w =
    let k = kept-length st (key_of b) t hm in
    let a = length-map_set (kept st (key_of b) t) (b64url random) (made st b (b64url random) now) in
    (
      map_set-IsMap (kept st (key_of b) t) (b64url random) (made st b (b64url random) now)
          (IsMap-Sub (kept-Sub st (key_of b) t) w.0),
      omega (arith, a, k),
      λ key.
          issue-count st b t (b64url random) (made st b (b64url random) now) key refl hp w.0
            (w.2 key),
    )

pub take-IsBounded :
    (st : Store) (given : Text) (now : ℕ) → IsBounded st → IsBounded (take st given now).0
unfolding take IsBounded
take-IsBounded st given now w =
    let s = Sub-map_delete st.items (unpadded given) in
    (
      IsMap-Sub s w.0,
      omega (arith, length-Sub s, w.1),
      λ key. omega (arith, count-Sub (is_of key) s, w.2 key),
    )
