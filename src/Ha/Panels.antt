-- ===== src/Ha/Panels.antt =====
-- `cleanPanels` of shared/ha-voter.mjs: the list of panel nodes, with junk and repeats dropped.
use mathlib.Core.List.{reverse}
use forthway_command_center.Base.{
  ℕ, ◌+◌, Bool, true, false, not, ◌&&◌, ◌||◌, Option, none, some, List, [], ◌∷◌, leb, ◌==◌,
  if◌then◌else◌, all, any, Text, codes, text_eq, is_space, trim, clean_id, string_of,
}
use forthway_command_center.Ha.Wire.{RawPanel, PanelUrl}

abbrev lower : ℕ → ℕ
lower c = if leb b'A' c && leb c b'Z' then c + 32 else c

-- The rest of a text behind a prefix, whatever the case of its letters.
abbrev pub strip_prefix : Text → Text → Option Text
strip_prefix [] s = some s
strip_prefix (p ∷ ps) [] = none
strip_prefix (p ∷ ps) (c ∷ s) = if lower c == p then strip_prefix ps s else none

abbrev drop_slash : Text → Text
drop_slash [] = []
drop_slash (c ∷ s) = if c == b'/' then s else c ∷ s

abbrev drop_slashes : Text → Text
drop_slashes [] = []
drop_slashes (c ∷ s) = if c == b'/' then drop_slashes s else c ∷ s

abbrev is_host_char : ℕ → Bool
is_host_char c = not (is_space c || (c == b'/') || (c == b'?') || (c == b'#'))

abbrev is_host : Text → Bool
is_host [] = false
is_host (c ∷ s) = all is_host_char (c ∷ s)

abbrev after_scheme : Text → Option Text
after_scheme s = elim (strip_prefix (codes "https://") s) [
  | some rest ↦ some rest
  | none ↦ strip_prefix (codes "http://") s
]

-- `URL_RE`, /^https?:\/\/[^\s/?#]+\/?$/i
unfoldable pub is_url : Text → Bool
is_url s = elim (after_scheme s) [
  | none ↦ false
  | some rest ↦ is_host (reverse (drop_slash (reverse rest)))
]

clean_url : Option Text → Option Text
clean_url none = none
clean_url (some s) =
    if is_url (trim s) then some (reverse (drop_slashes (reverse (trim s)))) else none

both : Option Text → Option Text → Option PanelUrl
both (some i) (some u) = some (record { server_id = i; direct_url = u })
both _ _ = none

unfoldable pub clean_panel : RawPanel → Option PanelUrl
unfolding clean_url is_url both
clean_panel p = both (clean_id p.server_id) (clean_url (string_of p.direct_url))

abbrev pub has_url : List PanelUrl → Text → Bool
has_url ps u = any (λ p. text_eq p.direct_url u) ps

-- The loop: `seen` holds the entries kept so far.
add_panel : List PanelUrl → Option PanelUrl → List PanelUrl → List PanelUrl
add_panel seen none rest = rest
add_panel seen (some p) rest = if has_url seen p.direct_url then rest else p ∷ rest

abbrev keep : List PanelUrl → Option PanelUrl → List PanelUrl
keep seen none = seen
keep seen (some p) = p ∷ seen

clean_from : List PanelUrl → List RawPanel → List PanelUrl
clean_from seen [] = []
clean_from seen (p ∷ ps) = let q = clean_panel p in add_panel seen q (clean_from (keep seen q) ps)

unfoldable pub clean_panels : List RawPanel → List PanelUrl
unfolding clean_panel add_panel clean_from
clean_panels ps = clean_from [] ps

-- `JSON.stringify(list) === JSON.stringify(cur)`
unfoldable pub same_panels : List PanelUrl → List PanelUrl → Bool
same_panels [] [] = true
same_panels (p ∷ ps) (q ∷ qs) =
    text_eq p.server_id q.server_id && text_eq p.direct_url q.direct_url && same_panels ps qs
same_panels _ _ = false
