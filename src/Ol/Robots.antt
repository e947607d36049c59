-- ===== src/Ol/Robots.antt =====
-- internal/ol/robots.go: parsing robots.txt and asking it about a path.
pub mod Laws
pub mod Groups
pub mod RoundTrip
use relentless_bookworm.Base.{
  ℕ, zero, suc, ◌+◌, Bool, true, false, not, ◌&&◌, ◌||◌, Option, none, some, List, [], ◌∷◌, ◌++◌,
  ◌==◌, leb, if◌then◌else◌, Bytes, codes, length,
}
use relentless_bookworm.Text.{bytes_eq, has_prefix, drop, split, trim_space}

-- The list of disallowed prefixes of a RobotsRules.
abbrev pub Rules : Type 0
Rules = List Bytes

unfoldable pub normalize_path : Bytes → Bytes
normalize_path p = elim (trim_space p) [
  | [] ↦ b'/' ∷ []
  | c ∷ s ↦ if c == b'/' then c ∷ s else b'/' ∷ c ∷ s
]

abbrev any_prefix : Bytes → Rules → Bool
any_prefix path [] = false
any_prefix path (p ∷ ps) = if has_prefix path p then true else any_prefix path ps

-- `none` is the nil pointer.
unfoldable pub allowed : Option Rules → Bytes → Bool
allowed none path = true
allowed (some []) path = true
allowed (some (p ∷ ps)) path = not (any_prefix (normalize_path path) (p ∷ ps))

-- bufio.MaxScanTokenSize: at a line of so many bytes the scanner stops, without a word.
abbrev pub max_scan_token_size : ℕ
max_scan_token_size = 65536

abbrev pub drop_cr : Bytes → Bytes
drop_cr [] = []
drop_cr (c ∷ []) = if c == 13 then [] else c ∷ []
drop_cr (c ∷ d ∷ s) = c ∷ drop_cr (d ∷ s)

-- bufio.ScanLines: what follows the last newline is a line only if it is not empty.
unfoldable pub scanned : List Bytes → List Bytes
scanned [] = []
scanned (l ∷ []) =
    if bytes_eq l [] || leb max_scan_token_size (length l) then [] else drop_cr l ∷ []
scanned (l ∷ m ∷ ls) =
    let rest = scanned (m ∷ ls) in
    if leb max_scan_token_size (length l) then [] else drop_cr l ∷ rest

unfoldable pub scan_lines : Bytes → List Bytes
unfolding scanned
scan_lines body = scanned (split body 10)

abbrev pub ascii_lower : ℕ → ℕ
ascii_lower c = if leb b'A' c && leb c b'Z' then c + 32 else c

-- The first character in lower case, and the rest, so far as ASCII texts can tell: beside A to Z
-- the letters whose lower case is ASCII are U+0130 and U+212A.
abbrev lower_head : Bytes → Option (ℕ × Bytes)
lower_head [] = none
lower_head (c ∷ s) =
    if has_prefix (c ∷ s) (0xC4 ∷ 0xB0 ∷ [])
    then some (b'i', drop 1 s)
    else if has_prefix (c ∷ s) (0xE2 ∷ 0x84 ∷ 0xAA ∷ [])
    then some (b'k', drop 2 s)
    else some (ascii_lower c, s)

-- strings.HasPrefix(strings.ToLower(line), p), for an ASCII text p
unfoldable pub has_prefix_lower : Bytes → Bytes → Bool
unfolding has_prefix
has_prefix_lower line [] = true
has_prefix_lower line (d ∷ p) = elim (lower_head line) [
  | none ↦ false
  | some (c, rest) ↦ c == d && has_prefix_lower rest p
]

-- As `lower_head`, for case folding: the other characters that fold to ASCII are U+017F and U+212A.
abbrev fold_head : Bytes → Option (ℕ × Bytes)
fold_head [] = none
fold_head (c ∷ s) =
    if has_prefix (c ∷ s) (0xC5 ∷ 0xBF ∷ [])
    then some (b's', drop 1 s)
    else if has_prefix (c ∷ s) (0xE2 ∷ 0x84 ∷ 0xAA ∷ [])
    then some (b'k', drop 2 s)
    else some (ascii_lower c, s)

-- strings.EqualFold(s, t), for an ASCII text t
unfoldable pub equal_fold : Bytes → Bytes → Bool
unfolding has_prefix
equal_fold s [] = bytes_eq s []
equal_fold s (d ∷ t) = elim (fold_head s) [
  | none ↦ false
  | some (c, rest) ↦ c == ascii_lower d && equal_fold rest t
]

abbrev pub user_agent_key : Bytes
user_agent_key = codes "user-agent:"

abbrev pub disallow_key : Bytes
disallow_key = codes "disallow:"

-- A line that names an agent.
unfoldable pub is_agent_line : Bytes → Bool
unfolding has_prefix_lower
is_agent_line line = has_prefix_lower line user_agent_key

-- Whether the agent that such a line names is meant.
unfoldable pub agent_matches : Bytes → Bytes → Bool
unfolding equal_fold bytes_eq
agent_matches user_agent line =
    let agent = trim_space (drop (length user_agent_key) line) in
    bytes_eq agent (codes "*") || equal_fold agent user_agent

-- The loop's variables: inMatchingBlock, and the prefixes so far.
pub record Scan : Type 0 where
  pub in_block : Bool
  pub out : Rules

-- What a Disallow line adds.
unfoldable pub add_path : Bytes → Rules → Rules
add_path path out = elim path [ [] ↦ out | c ∷ s ↦ out ++ normalize_path (c ∷ s) ∷ [] ]

-- One round of the loop, on a line that is trimmed.
unfoldable pub scan_line : Bytes → Scan → Bytes → Scan
scan_line user_agent st line =
    if bytes_eq line [] || has_prefix line (codes "#")
    then st
    else if is_agent_line line
    then record st { in_block = agent_matches user_agent line && not st.in_block }
    else if st.in_block && has_prefix_lower line disallow_key
    then record st { out = add_path (trim_space (drop (length disallow_key) line)) st.out }
    else st

unfoldable pub scan_all : Bytes → Scan → List Bytes → Scan
scan_all user_agent st [] = st
scan_all user_agent st (l ∷ ls) = scan_all user_agent (scan_line user_agent st (trim_space l)) ls

unfoldable pub parse_robots : Bytes → Bytes → Rules
parse_robots body user_agent =
    (scan_all user_agent (record { in_block = false; out = [] }) (scan_lines body)).out

abbrev pub default_user_agent : Bytes
default_user_agent = codes "RelentlessBookworm/1.0 (+https://github.com/relentless-bookworm)"

-- url.Parse as far as the path goes; `none` if it fails. net/url is a parameter here.
unfoldable pub path_from_url : (Bytes → Option Bytes) → Bytes → Bytes
path_from_url url_path raw_url = elim (url_path raw_url) [ none ↦ [] | some p ↦ normalize_path p ]
