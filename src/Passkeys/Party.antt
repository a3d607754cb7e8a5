-- ===== src/Passkeys/Party.antt =====
-- passkeyCapable and relyingParty of panel/lib/webauthn.mjs. `new URL` is `parse_url`, which has
-- nothing for what it throws on; the hosts it gives are of ASCII characters.
use forthway_command_center.Base.{
  ℕ, zero, suc, ◌+◌, ◌≡◌, refl, sym, ap, ◌∙◌, ◌⊎◌, inl, inr, Bool, true, false, not, ◌&&◌, ◌||◌,
  Option, none, some, [], ◌∷◌, map, leb, ◌==◌, if◌then◌else◌, Text, codes, text_eq, text_eq_sound,
  is_digit, any, all, Bool-cases,
}
use mathlib.Core.List.{reverse}

pub record Url : Type 0 where
  pub protocol : Text
  pub hostname : Text
  pub host : Text
  pub origin : Text

-- The number of digits a text starts with, and what follows.
digits : Text → ℕ × Text
digits [] = (0, [])
digits (c ∷ s) = let (n, rest) = digits s in if is_digit c then (suc n, rest) else (0, c ∷ s)

-- `\d{1,3}`, and then as many times a dot and `\d{1,3}`.
unfoldable pub dotted : ℕ → Text → Bool
unfolding digits
dotted zero s =
    let (n, rest) = digits s in leb 1 n && leb n 3 && (elim rest [ [] ↦ true | c ∷ r ↦ false ])
dotted (suc k) s =
    let (n, rest) = digits s in
    leb 1 n && leb n 3 && (elim rest [ [] ↦ false | c ∷ r ↦ (c == b'.') && dotted k r ])

unfoldable pub starts : Text → Text → Bool
starts [] s = true
starts (a ∷ p) [] = false
starts (a ∷ p) (b ∷ s) = (a == b) && starts p s

abbrev pub ends_with : Text → Text → Bool
ends_with p s = starts (reverse p) (reverse s)

abbrev pub is_line_end : ℕ → Bool
is_line_end c = (c == 10) || (c == 13) || (c == 8232) || (c == 8233)

-- `/^\[.*\]$/`
abbrev pub is_bracketed : Text → Bool
is_bracketed (a ∷ b ∷ s) =
    (a == b'[') && ends_with (codes "]") (b ∷ s) && all (λ c. not (is_line_end c)) (b ∷ s)
is_bracketed _ = false

unfoldable pub is_ip_host : Text → Bool
unfolding dotted
is_ip_host h = dotted 3 h || any (λ c. c == b':') h || is_bracketed h

unfoldable pub is_localhost : Text → Bool
is_localhost h = text_eq h (codes "localhost") || ends_with (codes ".localhost") h

abbrev pub is_https : Url → Bool
is_https u = text_eq u.protocol (codes "https:")

abbrev pub is_http : Url → Bool
is_http u = text_eq u.protocol (codes "http:")

unfoldable pub passkey_capable : Url → Bool
passkey_capable u =
    if is_ip_host u.hostname then false else is_https u || (is_http u && is_localhost u.hostname)

-- `toLowerCase`, of ASCII characters.
abbrev pub lower : Text → Text
lower s = map (λ c. if leb b'A' c && leb c b'Z' then c + 32 else c) s

pub data Reason : Type 0 where
  other_host insecure ip : Reason

pub data Party : Type 0 where
  usable : Text → Text → Party
  unusable : Reason → Text → Text → Party

origin_of : Option Url → Text
origin_of none = []
origin_of (some u) = u.origin

is_local : Option Url → Bool
is_local none = false
is_local (some u) = (is_https u || is_http u) && is_localhost u.hostname

same_host : Option Url → Url → Bool
same_host none p = false
same_host (some h) p = text_eq (lower h.host) (lower p.host)

-- Without a panel URL that can carry passkeys: the page's own.
by_page : Option Url → Option Url → Party
unfolding origin_of
by_page none p = unusable insecure [] (origin_of p)
by_page (some h) p =
    if passkey_capable h
    then usable (lower h.hostname) h.origin
    else unusable (if is_ip_host h.hostname then ip else insecure) h.origin (origin_of p)

by_panel : Option Url → Option Url → Party
unfolding origin_of same_host by_page
by_panel h none = by_page h none
by_panel h (some p) =
    if passkey_capable p
    then (if same_host h p
        then usable (lower p.hostname) p.origin
        else unusable other_host (origin_of h) p.origin)
    else by_page h (some p)

local_party : Option Url → Option Url → Party
unfolding by_panel
local_party none p = by_panel none p
local_party (some h) p = usable h.hostname h.origin

abbrev panel_of : (Text → Option Url) → Text → Option Url
panel_of parse_url [] = none
panel_of parse_url (c ∷ s) = parse_url (c ∷ s)

unfoldable pub relying_party : (Text → Option Url) → Text → Text → Party
unfolding is_local local_party by_panel
relying_party parse_url here panel_url =
    let h = parse_url here in
    let p = panel_of parse_url panel_url in if is_local h then local_party h p else by_panel h p

abbrev id_in : Party → Text
id_in (usable r o) = r
id_in (unusable r h p) = []

abbrev origin_in : Party → Text
origin_in (usable r o) = o
origin_in (unusable r h p) = []

-- The page is on the panel's host and uses the panel.
pub OnPanel : Url → Url → Text → Text → Type 0
OnPanel h p rp_id origin =
    (rp_id ≡ lower p.hostname) × (origin ≡ p.origin) × (lower h.host ≡ lower p.host)

by_panel-on_host :
    (h p : Url)
    → passkey_capable p ≡ true
    → text_eq (lower h.host) (lower p.host) ≡ true
    → by_panel (some h) (some p) ≡ usable (lower p.hostname) p.origin
unfolding by_panel same_host
by_panel-on_host h p c k = rw (c, k) refl

by_panel-off_host :
    (h p : Url)
    → passkey_capable p ≡ true
    → text_eq (lower h.host) (lower p.host) ≡ false
    → by_panel (some h) (some p) ≡ unusable other_host h.origin p.origin
unfolding by_panel same_host origin_of
by_panel-off_host h p c k = rw (c, k) refl

by_panel-OnPanel :
    (h p : Url) (rp_id origin : Text)
    → passkey_capable p ≡ true
    → by_panel (some h) (some p) ≡ usable rp_id origin
    → OnPanel h p rp_id origin
unfolding OnPanel
by_panel-OnPanel h p rp_id origin c e = elim (Bool-cases (text_eq (lower h.host) (lower p.host))) [
  | inl k ↦
      let e = sym e ∙ by_panel-on_host h p c k in
      (ap id_in e, ap origin_in e, text_eq_sound (lower h.host) (lower p.host) k)
  | inr k ↦ cc (by_panel-off_host h p c k)
]

and_right : (a b : Bool) → (a && b) ≡ true → b ≡ true
and_right true b h = h
and_right false b h = cc

-- Where the panel URL can carry passkeys, a page that may use them is one that only the server itself
-- opens, or is on the panel's host, and then uses the panel's name and origin.
pub relying_party-one :
    (parse_url : Text → Option Url) (here panel_url : Text) (h p : Url) (rp_id origin : Text)
    → parse_url here ≡ some h
    → panel_of parse_url panel_url ≡ some p
    → passkey_capable p ≡ true
    → relying_party parse_url here panel_url ≡ usable rp_id origin
    → (is_localhost h.hostname ≡ true) ⊎ OnPanel h p rp_id origin
unfolding relying_party is_local
relying_party-one parse_url here panel_url h p rp_id origin eh ep c e =
    elim (Bool-cases (is_local (some h))) [
      | inl k ↦ inl (and_right (is_https h || is_http h) (is_localhost h.hostname) k)
      | inr k ↦ inr (by_panel-OnPanel h p rp_id origin c (sym (rw (eh, ep, k) refl) ∙ e))
    ]
