-- ===== src/SignIn/Sessions/Safe.antt =====
-- What a session of panel/lib/auth.mjs lets in.
use forthway_command_center.Base.{
  ℕ, ◌+◌, ◌≡◌, ◌≢◌, any, refl, sym, ap, ◌∙◌, ◌⊎◌, inl, inr, Bool, true, false, not, Option, none,
  some, [], ◌∷◌, ◌++◌, all, ltb, ◌==◌, arith, Bool-cases, Option-cases, Text, text_eq, text_eq_refl,
  at_code, put_before, map_get, map_get-map_set,
}
use forthway_command_center.SignIn.Sessions.Tokens.{
  Payload, Coder, purposed, sign, token_matches, unsign_parts, unsign,
}
use forthway_command_center.SignIn.Sessions.{
  Admin, Accounts, Info, version_holds, named_text, is_there, info_of, admitted, in_time,
  payload_info, session_info, gate_of, gate, signed_in, payload_for, issue, current_passkey,
  reissued, set_session, bumped, bump_sessions,
}

-- What JSON in base64url and an HMAC do with a payload: its text is not empty and has no dot, it is
-- read back, and the code of the text is not empty.
pub record IsCoded (c : Coder) (p : Payload) : Type 0 where
  pub decoded : c.decode (c.encode p) ≡ some p
  pub no_dot : all (λ x. not (x == b'.')) (c.encode p) ≡ true
  pub body_there : c.encode p ≢ []
  pub mac_there : c.mac (c.encode p) ≢ []

at_code-all :
    (s t : Text)
    → all (λ x. not (x == b'.')) s ≡ true
    → at_code b'.' (s ++ (b'.' ∷ t)) ≡ some (s, t)
unfolding at_code put_before
at_code-all [] t h = refl
at_code-all (c ∷ s) t h = ground (arith, at_code-all s t)

token_matches-same : (t : Text) → t ≢ [] → token_matches t t ≡ true
unfolding token_matches
token_matches-same [] h = absurd (h refl)
token_matches-same (c ∷ s) h = text_eq_refl (c ∷ s)

unsign_parts-own :
    (c : Coder) (body : Text)
    → body ≢ []
    → c.mac body ≢ []
    → unsign_parts c [] (some (body, c.mac body)) ≡ c.decode body
unfolding unsign_parts purposed
unsign_parts-own c [] h k = absurd (h refl)
unsign_parts-own c (b ∷ s) h k = rw (token_matches-same (c.mac (b ∷ s)) k) refl

unsign-sign : (c : Coder) (p : Payload) → IsCoded c p → unsign c (sign c p []) [] ≡ some p
unfolding unsign sign purposed
unsign-sign c p w =
    ap (unsign_parts c []) (at_code-all (c.encode p) (c.mac (c.encode p)) w.no_dot)
    ∙ unsign_parts-own c (c.encode p) w.body_there w.mac_there
    ∙ w.decoded

-- Nobody, or a session that has not passed the passkey step.
IsPending : Option Info → Type 0
IsPending none = Unit
IsPending (some i) = i.full ≡ false

admitted-IsPending :
    (c : Coder) (p : Accounts) (token : Text) (payload : Payload) (exp : ℕ) (o : Option Admin)
    → named_text payload.pk ≡ none
    → IsPending (admitted c p token payload exp o)
unfolding admitted IsPending info_of is_there
admitted-IsPending c p token payload exp none h = tt
admitted-IsPending c p token payload exp (some a) h =
    elim (Bool-cases (version_holds c p a payload.sv payload.pv)) [
      | inl e ↦ rw (e, IsPending, h) refl
      | inr e ↦ rw (e, IsPending) tt
    ]

in_time-IsPending :
    (c : Coder) (p : Accounts) (token : Text) (now : ℕ) (payload : Payload) (o : Option ℕ)
    → named_text payload.pk ≡ none
    → IsPending (in_time c p token now payload o)
unfolding in_time IsPending
in_time-IsPending c p token now payload none h = tt
in_time-IsPending c p token now payload (some exp) h = elim (Bool-cases (ltb now exp)) [
  | inl e ↦ rw e (admitted-IsPending c p token payload exp (map_get p.admins payload.admin_id) h)
  | inr e ↦ rw (e, IsPending) tt
]

issue-IsPending :
    (c : Coder) (p : Accounts) (admin : Admin) (sid : Option Text) (random : Text) (now later : ℕ)
    → IsCoded c (payload_for admin none sid random now)
    → IsPending (session_info c p later (issue c admin none sid random now))
unfolding session_info payload_info issue payload_for named_text
issue-IsPending c p admin sid random now later w =
    let payload = payload_for admin none sid random now in
    let token = sign c payload [] in
    rw (unsign-sign c payload w) (in_time-IsPending c p token later payload payload.exp refl)

gate_of-IsPending :
    (p : Accounts) (o : Option Info) (x : Admin) → IsPending o → gate_of p o ≢ signed_in x
unfolding gate_of IsPending
gate_of-IsPending p none x h = λ e. cc
gate_of-IsPending p (some i) x h =
    rw h (elim (Bool-cases (any (text_eq i.admin.id) p.passkey_owners)) [
      | inl k ↦ rw k (λ e. cc)
      | inr k ↦ rw k (λ e. cc)
    ])

-- A sign-in without a passkey, and a cookie that is issued again to a browser that had not passed the
-- passkey step, let nobody in: neither a password nor GitHub alone opens an admin route.
pub gate-set_session :
    (c : Coder) (p : Accounts) (token random : Text) (admin x : Admin) (fresh : Bool)
    (now later : ℕ)
    → IsCoded c (payload_for admin none none random now)
    → (fresh ≡ true) ⊎ (current_passkey c now token admin.id ≡ none)
    → gate c p later (set_session c p now token admin fresh none random) ≢ signed_in x
unfolding gate set_session reissued
gate-set_session c p token random admin x true now later w h =
    gate_of-IsPending p _ x (issue-IsPending c p admin none random now later w)
gate-set_session c p token random admin x false now later w (inl e) = cc
gate-set_session c p token random admin x false now later w (inr e) =
    rw e (gate_of-IsPending p _ x (issue-IsPending c p admin none random now later w))

in_time-none :
    (c : Coder) (p : Accounts) (token : Text) (now : ℕ) (payload : Payload) (o : Option ℕ)
    → ((exp : ℕ) → admitted c p token payload exp (map_get p.admins payload.admin_id) ≡ none)
    → in_time c p token now payload o ≡ none
unfolding in_time
in_time-none c p token now payload none h = refl
in_time-none c p token now payload (some exp) h = elim (Bool-cases (ltb now exp)) [
  | inl e ↦ rw e (h exp)
  | inr e ↦ rw e refl
]

admitted-none :
    (c : Coder) (p : Accounts) (token : Text) (payload : Payload) (v exp : ℕ) (a : Admin)
    → payload.sv ≡ some v
    → (v == a.session_version) ≡ false
    → admitted c p token payload exp (some a) ≡ none
unfolding admitted version_holds
admitted-none c p token payload v exp a s n = rw (s, n) refl

no_admin :
    (c : Coder) (p : Accounts) (token : Text) (payload : Payload) (exp : ℕ)
    → admitted c p token payload exp none ≡ none
unfolding admitted
no_admin c p token payload exp = refl

-- A token of another session version is not let in.
stale :
    (c : Coder) (p : Accounts) (token : Text) (now v : ℕ) (payload : Payload) (a : Admin)
    → payload.sv ≡ some v
    → map_get p.admins payload.admin_id ≡ some a
    → (v == a.session_version) ≡ false
    → in_time c p token now payload payload.exp ≡ none
stale c p token now v payload a s m n =
    in_time-none c p token now payload payload.exp
      (λ exp. ap (admitted c p token payload exp) m ∙ admitted-none c p token payload v exp a s n)

session_info_lem :
    (c : Coder) (p : Accounts) (token : Text) (now : ℕ) (payload : Payload)
    → unsign c token [] ≡ some payload
    → session_info c p now token ≡ in_time c p token now payload payload.exp
unfolding session_info payload_info
session_info_lem c p token now payload u = rw u refl

next_version : Admin → Admin
next_version a = record a { session_version = a.session_version + 1 }

bumped-map_get :
    (p : Accounts) (id : Text) (a : Admin)
    → map_get p.admins id ≡ some a
    → map_get (bump_sessions p id).admins id ≡ some (next_version a)
unfolding bump_sessions bumped next_version
bumped-map_get p id a m =
    rw (m, map_get-map_set p.admins id id (next_version a), text_eq_refl id) refl

not_bumped :
    (p : Accounts) (id : Text)
    → map_get p.admins id ≡ none
    → map_get (bump_sessions p id).admins id ≡ none
unfolding bump_sessions bumped
not_bumped p id m = rw (m, bumped) m

-- A token that is let in states the version, so not the next one.
newer :
    (c : Coder) (p : Accounts) (token : Text) (now v : ℕ) (payload : Payload) (a : Admin) (i : Info)
    → unsign c token [] ≡ some payload
    → payload.sv ≡ some v
    → session_info c p now token ≡ some i
    → map_get p.admins payload.admin_id ≡ some a
    → (v == (a.session_version + 1)) ≡ false
newer c p token now v payload a i u s h m = elim (Bool-cases (v == a.session_version)) [
  | inl e ↦ ground arith
  | inr n ↦
      cc (sym (session_info_lem c p token now payload u) ∙ h, stale c p token now v payload a s m n)
]

-- Once the sessions of an admin are ended, a token that was let in for this admin, and that states a
-- session version, is never let in again.
pub session_info-bump_sessions :
    (c : Coder) (p : Accounts) (token : Text) (payload : Payload) (v now later : ℕ) (i : Info)
    → unsign c token [] ≡ some payload
    → payload.sv ≡ some v
    → session_info c p now token ≡ some i
    → session_info c (bump_sessions p payload.admin_id) later token ≡ none
unfolding next_version
session_info-bump_sessions c p token payload v now later i u s h =
    let q = bump_sessions p payload.admin_id in
    session_info_lem c q token later payload u
    ∙ elim (Option-cases (map_get p.admins payload.admin_id)) [
      | inl m ↦ in_time-none c q token later payload payload.exp (λ exp.
          ap (admitted c q token payload exp) (not_bumped p payload.admin_id m)
          ∙ no_admin c q token payload exp)
      | inr (a, m) ↦
          stale c q token later v payload (next_version a) s (bumped-map_get p payload.admin_id a m)
            (newer c p token now v payload a i u s h m)
    ]
