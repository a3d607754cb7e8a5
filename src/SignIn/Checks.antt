-- ===== src/SignIn/Checks.antt =====
-- The theorems on the throttle at a key with eight failures.
use forthway_command_center.SignIn.Sessions.Tokens.{
  Payload, Coder, unsign, sign, unsign_parts, token_matches, purposed,
}
use forthway_command_center.SignIn.Sessions.{
  Admin, Accounts, Info, gate, signed_in, session_info, set_session, issue, payload_for,
  bump_sessions, admitted, in_time, info_of, named_text, text_or, ttl_of, version_holds, is_there,
  payload_info,
}
use forthway_command_center.SignIn.Sessions.Safe.{
  IsCoded, gate-set_session, session_info-bump_sessions,
}
use forthway_command_center.Base.{
  ◌≡◌, ◌≢◌, refl, inl, true, false, none, some, List, [], ◌∷◌, Text, codes, text_eq, map_get, arith,
  at_code, put_before,
}
use forthway_command_center.SignIn.Throttle.{Attempts, Throttle, check, fail}
use forthway_command_center.SignIn.Limits.{is_refusal, fail-other}
use forthway_command_center.SignIn.Window.{
  Event, checked, failed, succeeded, after_events, check-failures,
}

abbrev address : Text
address = codes "10.0.0.1"

abbrev eight : Attempts
eight = record { first = 1000; count = 8 }

abbrev throttle : Throttle
throttle = record { max_attempts = 8; window_ms = 600000; by_key = (address, eight) ∷ [] }

fail-other_example :
    is_refusal (check (fail throttle (codes "b") 2000) address 3000).1
    ≡ is_refusal (check throttle address 3000).1
unfolding text_eq
fail-other_example = fail-other throttle (codes "b") address 2000 3000 (refl, tt) refl (omega arith)

-- Two failures are allowed, and a key fails twice while others come and go.
abbrev strict : Throttle
strict = record { max_attempts = 2; window_ms = 600000; by_key = [] }

abbrev tries : List Event
tries =
    checked address 1000
    ∷ checked address 1001
    ∷ failed address 1200
    ∷ failed (codes "b") 1250
    ∷ succeeded (codes "b")
    ∷ failed address 1300
    ∷ []

check-failures_example : is_refusal (check (after_events strict tries) address 500000).1 ≡ true
unfolding text_eq map_get
check-failures_example =
    check-failures strict address 1000 500000 tries (omega arith) tt refl
      (
        (omega arith, omega arith),
        (
          (omega arith, omega arith),
          (
            (omega arith, omega arith),
            ((omega arith, omega arith), (refl, ((omega arith, omega arith), tt))),
          ),
        ),
      )
      (omega arith)

abbrev ann : Admin
ann = record { id = codes "a"; session_version = 4; password_hash = none }

abbrev one_admin : Accounts
one_admin = record {
  admins = (codes "a", ann) ∷ [];
  passkey_owners = codes "a" ∷ [];
  github_only = false;
}

-- A pending session of this admin, made at 1000.
abbrev pending_body : Payload
pending_body = payload_for ann none none (codes "s") 1000

abbrev one_coder : Coder
one_coder = record {
  mac = λ t. b'm' ∷ t;
  digest = λ t. t;
  encode = λ p. codes "body";
  decode = λ t. some pending_body;
}

one_coder-IsCoded : IsCoded one_coder pending_body
one_coder-IsCoded = record {
  decoded = refl;
  no_dot = refl;
  body_there = λ e. cc;
  mac_there = λ e. cc;
}

gate-set_session_example :
    gate one_coder one_admin 2000
      (set_session one_coder one_admin 1000 [] ann true none (codes "s"))
    ≢ signed_in ann
gate-set_session_example =
    gate-set_session one_coder one_admin [] (codes "s") ann ann true 1000 2000 one_coder-IsCoded
      (inl refl)

abbrev pending_token : Text
pending_token = issue one_coder ann none none (codes "s") 1000

pending_info : Info
pending_info = record {
  admin = ann;
  full = false;
  sid = codes "s";
  passkey_id = none;
  exp = 1801000;
}

pending_token_read : unsign one_coder pending_token [] ≡ some pending_body
unfolding unsign issue sign unsign_parts token_matches purposed text_eq at_code put_before
    payload_for ttl_of text_or named_text
pending_token_read = refl

pending_token_passes : session_info one_coder one_admin 2000 pending_token ≡ some pending_info
unfolding session_info pending_info unsign issue sign unsign_parts token_matches purposed text_eq
    at_code put_before payload_for ttl_of text_or named_text payload_info in_time admitted info_of
    version_holds is_there map_get
pending_token_passes = refl

session_info-bump_sessions_example :
    session_info one_coder (bump_sessions one_admin (codes "a")) 3000 pending_token ≡ none
unfolding payload_for
session_info-bump_sessions_example =
    session_info-bump_sessions one_coder one_admin pending_token pending_body 4 2000 3000
      pending_info pending_token_read refl pending_token_passes
