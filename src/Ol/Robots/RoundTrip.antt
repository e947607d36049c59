-- ===== src/Ol/Robots/RoundTrip.antt =====
-- Writing rules as a robots.txt and parsing it.
use mathlib.Core.List.{reverse, reverse-append, reverse-cons}
use relentless_bookworm.Base.{
  ◌+◌, ◌<◌, ◌≡◌, ◌≢◌, refl, ap, ◌∙◌, true, false, leb, List, [], ◌∷◌, ◌++◌, append_assoc, arith,
  Bytes, codes, length, Bool-cases, inl, inr, All, All-append,
}
use relentless_bookworm.Text.{
  prefix_length, trim_front, white_space, reverse_each, bytes_eq, has_prefix, drop, split,
  trim_space,
}
use relentless_bookworm.Text.Trim.{IsTrimmed, trim_space_clean}
use relentless_bookworm.Ol.Robots.{
  Rules, Scan, normalize_path, scan_lines, scanned, drop_cr, max_scan_token_size, is_agent_line,
  agent_matches, add_path, scan_all, parse_robots, has_prefix_lower, disallow_key,
}
use relentless_bookworm.Ol.Robots.Groups.{paths_of, scan_group, IsOther, IsAgentLine}

-- A path that a rule can hold: trimmed, absolute, on one line with no carriage return, and not too
-- long for the scanner.
pub record IsRule (p : Bytes) : Type 0 where
  pub trimmed : IsTrimmed p
  pub absolute : has_prefix p (codes "/") ≡ true
  pub one_line : All (λ c. c ≢ 10) p
  pub no_cr : All (λ c. c ≢ 13) p
  pub short : length p + 20 < max_scan_token_size

-- "Disallow: " and the path
unfoldable pub disallow_line : Bytes → Bytes
disallow_line p = codes "Disallow: " ++ p

unfoldable pub render_lines : Rules → List Bytes
render_lines [] = []
render_lines (p ∷ ps) = disallow_line p ∷ render_lines ps

unfoldable pub with_newlines : List Bytes → Bytes
with_newlines [] = []
with_newlines (l ∷ ls) = l ++ 10 ∷ with_newlines ls

-- A file with one group, for every agent.
unfoldable pub render : Rules → Bytes
unfolding render_lines with_newlines disallow_line
render ps = with_newlines (codes "User-agent: *" ∷ render_lines ps)

split_line : (l s : Bytes) → All (λ c. c ≢ 10) l → split (l ++ 10 ∷ s) 10 ≡ l ∷ split s 10
unfolding split
split_line [] s h = refl
split_line (c ∷ l) s h = ground (arith, split_line l s h.1)

-- A line as a scanner reads it: no newline, no carriage return at the end, not too long.
record IsLine (l : Bytes) : Type 0 where
  one_line : All (λ c. c ≢ 10) l
  no_cr : drop_cr l ≡ l
  short : length l < max_scan_token_size

drop_cr-id : (l : Bytes) → All (λ c. c ≢ 13) l → drop_cr l ≡ l
drop_cr-id [] h = refl
drop_cr-id (c ∷ []) h = ground (arith, h.0)
drop_cr-id (c ∷ d ∷ s) h = ap (λ t. c ∷ t) (drop_cr-id (d ∷ s) h.1)

scanned-cons :
    (l : Bytes) (ls : List Bytes) → ls ≢ [] → IsLine l → scanned (l ∷ ls) ≡ l ∷ scanned ls
unfolding scanned
scanned-cons l [] n h = absurd (n refl)
scanned-cons l (m ∷ ms) n h = rw h.no_cr (elim (Bool-cases (leb max_scan_token_size (length l))) [
  | inl long ↦ absurd (ground (arith, h.short))
  | inr fits ↦ rw fits
])

split-ne-nil : (s : Bytes) → split s 10 ≢ []
unfolding split
split-ne-nil [] e = cc
split-ne-nil (c ∷ s) e = ground (arith, split-ne-nil s)

scan_lines-with_newlines : (ls : List Bytes) → All IsLine ls → scan_lines (with_newlines ls) ≡ ls
unfolding scan_lines with_newlines
scan_lines-with_newlines [] h = unfold scanned split bytes_eq in refl
scan_lines-with_newlines (l ∷ ls) h = rw (split_line l (with_newlines ls) h.0.one_line) (
    scanned-cons l _ (split-ne-nil (with_newlines ls)) h.0
    ∙ ap (λ t. l ∷ t) (scan_lines-with_newlines ls h.1))

-- Text that comes behind a slash adds no text without a slash at the front.
has_prefix-behind_slash :
    (r x w : Bytes)
    → All (λ c. c ≢ b'/') w
    → has_prefix (r ++ b'/' ∷ x) w ≡ has_prefix (r ++ b'/' ∷ []) w
unfolding has_prefix
has_prefix-behind_slash [] x [] h = refl
has_prefix-behind_slash [] x (d ∷ w) h = ground (arith, h.0)
has_prefix-behind_slash (c ∷ r) x [] h = refl
has_prefix-behind_slash (c ∷ r) x (d ∷ w) h = ground (arith, has_prefix-behind_slash r x w h.1)

prefix_length-behind_slash :
    (r x : Bytes) (ws : List Bytes)
    → All (All (λ c. c ≢ b'/')) ws
    → prefix_length (r ++ b'/' ∷ x) ws ≡ prefix_length (r ++ b'/' ∷ []) ws
unfolding prefix_length
prefix_length-behind_slash r x [] h = refl
prefix_length-behind_slash r x (w ∷ ws) h =
    rw (has_prefix-behind_slash r x w h.0, prefix_length-behind_slash r x ws h.1)

-- A rule is a slash and some text.
IsRule-slash : (p : Bytes) → has_prefix p (codes "/") ≡ true → (t : Bytes) × (p ≡ b'/' ∷ t)
unfolding has_prefix
IsRule-slash [] h = cc
IsRule-slash (c ∷ t) h = (t, ground arith)

slash_back :
    (p t x : Bytes)
    → p ≡ b'/' ∷ t
    → prefix_length (reverse p ++ x) (reverse_each white_space)
      ≡ prefix_length (reverse p) (reverse_each white_space)
slash_back p t x e =
    rw (e, reverse-cons, append_assoc)
      (prefix_length-behind_slash (reverse t) x (reverse_each white_space) (omega arith))

disallow_line-IsTrimmed : (p : Bytes) → IsRule p → IsTrimmed (disallow_line p)
unfolding disallow_line
disallow_line-IsTrimmed p h = record {
  front = unfold prefix_length in refl;
  back =
      let (t, e) = IsRule-slash p h.absolute in
      ap (λ s. prefix_length s (reverse_each white_space)) (reverse-append (codes "Disallow: ") p)
      ∙ slash_back p t (reverse (codes "Disallow: ")) e
      ∙ h.trimmed.back;
}

trim_space-space : (p : Bytes) → trim_space (32 ∷ p) ≡ trim_space p
unfolding trim_space trim_front
trim_space-space p = refl

trim_space-value :
    (p : Bytes) → IsRule p → trim_space (drop (length disallow_key) (disallow_line p)) ≡ p
unfolding disallow_line
trim_space-value p h = trim_space-space p ∙ trim_space_clean p h.trimmed

normalize_path-rule : (p : Bytes) → IsRule p → normalize_path p ≡ p
unfolding normalize_path
normalize_path-rule p h =
    let (t, e) = IsRule-slash p h.absolute in
    rw (trim_space_clean p h.trimmed, normalize_path) (rw e)

add_path-rule : (p : Bytes) → IsRule p → add_path p [] ≡ p ∷ []
unfolding add_path
add_path-rule p h =
    let (t, e) = IsRule-slash p h.absolute in
    elim_path p t e ∙ ap (λ q. q ∷ []) (normalize_path-rule p h)
  where
    elim_path : (q s : Bytes) → q ≡ b'/' ∷ s → add_path q [] ≡ normalize_path q ∷ []
    elim_path [] s k = cc
    elim_path (c ∷ r) s k = refl

is_disallow_line : (p : Bytes) → has_prefix_lower (disallow_line p) disallow_key ≡ true
unfolding has_prefix_lower disallow_line
is_disallow_line p = refl

disallow_line-IsOther : (p : Bytes) → is_agent_line (disallow_line p) ≡ false
unfolding is_agent_line disallow_line
disallow_line-IsOther p = refl

disallow_line-IsLine : (p : Bytes) → IsRule p → IsLine (disallow_line p)
unfolding disallow_line
disallow_line-IsLine p h = record {
  one_line = All-append (λ c. c ≢ 10) (codes "Disallow: ") p (omega arith) h.one_line;
  no_cr =
      drop_cr-id (codes "Disallow: " ++ p)
        (All-append (λ c. c ≢ 13) (codes "Disallow: ") p (omega arith) h.no_cr);
  short = omega (arith, h.short);
}

render_lines-IsLine : (ps : Rules) → All IsRule ps → All IsLine (render_lines ps)
unfolding render_lines
render_lines-IsLine [] h = tt
render_lines-IsLine (p ∷ ps) h = (disallow_line-IsLine p h.0, render_lines-IsLine ps h.1)

render_lines-IsOther : (ps : Rules) → All IsRule ps → All IsOther (render_lines ps)
unfolding render_lines
render_lines-IsOther [] h = tt
render_lines-IsOther (p ∷ ps) h = (
  rw (trim_space_clean (disallow_line p) (disallow_line-IsTrimmed p h.0)) (disallow_line-IsOther p),
  render_lines-IsOther ps h.1,
)

paths_of-render_lines : (ps : Rules) → All IsRule ps → paths_of (render_lines ps) ≡ ps
unfolding render_lines paths_of
paths_of-render_lines [] h = refl
paths_of-render_lines (p ∷ ps) h = rw (
  trim_space_clean (disallow_line p) (disallow_line-IsTrimmed p h.0),
  is_disallow_line,
  trim_space-value p h.0,
  add_path-rule p h.0,
  paths_of-render_lines ps h.1,
)

abbrev first_line : Bytes
first_line = codes "User-agent: *"

first_line-IsAgentLine : IsAgentLine first_line
unfolding is_agent_line trim_space
first_line-IsAgentLine = refl

first_line_matches : (agent : Bytes) → agent_matches agent (trim_space first_line) ≡ true
unfolding agent_matches trim_space
first_line_matches agent = refl

first_line-IsLine : IsLine first_line
first_line-IsLine = record { one_line = omega arith; no_cr = refl; short = omega arith }

-- Rules that are written as one group for every agent are parsed back, in order and unchanged,
-- whoever asks.
pub parse_robots-render :
    (agent : Bytes) (ps : Rules) → All IsRule ps → parse_robots (render ps) agent ≡ ps
unfolding parse_robots render
parse_robots-render agent ps h =
    ap (λ ls. (scan_all agent start ls).out)
      (scan_lines-with_newlines (first_line ∷ render_lines ps)
        (first_line-IsLine, render_lines-IsLine ps h))
    ∙ ap (λ (st : Scan). st.out)
        (scan_group agent first_line (render_lines ps) start first_line-IsAgentLine
          (render_lines-IsOther ps h))
    ∙ rw (first_line_matches agent) (paths_of-render_lines ps h)
  where
    start : Scan
    start = record { in_block = false; out = [] }
