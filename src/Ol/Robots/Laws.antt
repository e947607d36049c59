-- ===== src/Ol/Robots/Laws.antt =====
-- What the parsed rules look like, and what they forbid.
use relentless_bookworm.Base.{
  ◌≡◌, ◌⊎◌, ◌↔◌, true, false, some, List, [], ◌∷◌, arith, Bytes, codes, length, Bool-cases, inl,
  inr, All, All-append,
}
use relentless_bookworm.Text.{has_prefix, drop, trim_space}
use relentless_bookworm.Ol.Robots.{
  Rules, Scan, normalize_path, any_prefix, allowed, scan_lines, add_path, scan_line, scan_all,
  parse_robots, disallow_key,
}

abbrev pub IsAbsolute : Bytes → Type 0
IsAbsolute p = has_prefix p (codes "/") ≡ true

pub normalize_path-IsAbsolute : (p : Bytes) → IsAbsolute (normalize_path p)
unfolding normalize_path has_prefix
normalize_path-IsAbsolute p = ground arith

add_path-IsAbsolute :
    (path : Bytes) (out : Rules) → All IsAbsolute out → All IsAbsolute (add_path path out)
unfolding add_path
add_path-IsAbsolute [] out h = h
add_path-IsAbsolute (c ∷ s) out h =
    All-append IsAbsolute out _ h (normalize_path-IsAbsolute (c ∷ s), tt)

scan_line-IsAbsolute :
    (agent line : Bytes) (st : Scan)
    → All IsAbsolute st.out
    → All IsAbsolute (scan_line agent st line).out
unfolding scan_line
scan_line-IsAbsolute agent line st h =
    ground (arith, add_path-IsAbsolute (trim_space (drop (length disallow_key) line)) st.out)

scan_all-IsAbsolute :
    (agent : Bytes) (ls : List Bytes) (st : Scan)
    → All IsAbsolute st.out
    → All IsAbsolute (scan_all agent st ls).out
unfolding scan_all
scan_all-IsAbsolute agent [] st h = h
scan_all-IsAbsolute agent (l ∷ ls) st h =
    scan_all-IsAbsolute agent ls (scan_line agent st (trim_space l))
      (scan_line-IsAbsolute agent (trim_space l) st h)

-- Every prefix that is parsed out of a file begins with a slash, as the paths do that are compared.
pub parse_robots-IsAbsolute : (body agent : Bytes) → All IsAbsolute (parse_robots body agent)
unfolding parse_robots
parse_robots-IsAbsolute body agent = scan_all-IsAbsolute agent (scan_lines body) _ tt

-- Some member of the list has the property.
abbrev pub Any {ℓ} : {A : Type ℓ} → (A → Type 0) → List A → Type 0
Any P [] = ⊥
Any P (x ∷ xs) = P x ⊎ Any P xs

any_prefix_iff :
    (path : Bytes) (ps : Rules)
    → (any_prefix path ps ≡ true) ↔ Any (λ p. has_prefix path p ≡ true) ps
any_prefix_iff path [] = (λ e. cc, λ e. absurd e)
any_prefix_iff path (p ∷ ps) = elim (Bool-cases (has_prefix path p)) [
  | inl hit ↦ (λ _. inl hit, λ _. rw hit)
  | inr miss ↦ (
    λ e. inr ((any_prefix_iff path ps).0 (rw miss at e)),
    λ d. rw miss (elim d [ inl hit ↦ cc | inr later ↦ (any_prefix_iff path ps).1 later ]),
  )
]

-- A path is refused exactly when some rule is a prefix of its normal form; no rules refuse nothing.
pub allowed_iff :
    (ps : Rules) (path : Bytes)
    → (allowed (some ps) path ≡ false) ↔ Any (λ p. has_prefix (normalize_path path) p ≡ true) ps
unfolding allowed
allowed_iff [] path = (λ e. cc, λ e. absurd e)
allowed_iff (p ∷ ps) path =
    let e = any_prefix_iff (normalize_path path) (p ∷ ps) in
    (λ h. e.0 (ground arith), λ a. rw (e.1 a))
