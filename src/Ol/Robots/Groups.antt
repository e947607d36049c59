-- ===== src/Ol/Robots/Groups.antt =====
-- How the loop reads one group of a robots.txt: a line that names an agent, and the lines below it
-- up to the next such line.
use relentless_bookworm.Base.{
  ◌≡◌, refl, sym, subst, ap, ◌∙◌, Bool, true, false, not, ◌&&◌, ◌||◌, List, [], ◌∷◌, ◌++◌,
  append-nil, append_assoc, arith, ◌==◌, ==_iff, if◌then◌else◌, Bytes, codes, length, Bool-cases,
  inl, inr, All,
}
use relentless_bookworm.Text.{bytes_eq, has_prefix, drop, trim_space}
use relentless_bookworm.Ol.Robots.{
  Rules, Scan, is_agent_line, agent_matches, add_path, scan_line, scan_all, has_prefix_lower,
  disallow_key,
}

abbrev pub IsAgentLine : Bytes → Type 0
IsAgentLine l = is_agent_line (trim_space l) ≡ true

abbrev pub IsOther : Bytes → Type 0
IsOther l = is_agent_line (trim_space l) ≡ false

-- What the Disallow lines among the lines disallow, in order.
unfoldable pub paths_of : List Bytes → Rules
paths_of [] = []
paths_of (l ∷ ls) =
    (if has_prefix_lower (trim_space l) disallow_key
      then add_path (trim_space (drop (length disallow_key) (trim_space l))) []
      else [])
    ++ paths_of ls

skipped_is_no_agent :
    (line : Bytes)
    → is_agent_line line ≡ true
    → (bytes_eq line [] || has_prefix line (codes "#")) ≡ false
unfolding is_agent_line has_prefix_lower bytes_eq has_prefix
skipped_is_no_agent [] h = cc
skipped_is_no_agent (c ∷ s) h = elim (Bool-cases (c == b'#')) [
  | inl hash ↦ let h' = subst (λ d. is_agent_line (d ∷ s) ≡ true) ((==_iff c b'#').0 hash) h in cc
  | inr other ↦ rw other
]

skipped_is_no_disallow :
    (line : Bytes)
    → has_prefix_lower line disallow_key ≡ true
    → (bytes_eq line [] || has_prefix line (codes "#")) ≡ false
unfolding has_prefix_lower bytes_eq has_prefix
skipped_is_no_disallow [] h = cc
skipped_is_no_disallow (c ∷ s) h = elim (Bool-cases (c == b'#')) [
  | inl hash ↦
      let h' =
        subst (λ d. has_prefix_lower (d ∷ s) disallow_key ≡ true) ((==_iff c b'#').0 hash) h in
      cc
  | inr other ↦ rw other
]

add_path-append : (path : Bytes) (out : Rules) → add_path path out ≡ out ++ add_path path []
unfolding add_path
add_path-append [] out = sym (append-nil out)
add_path-append (c ∷ s) out = refl

scan_all_idle :
    (agent : Bytes) (ls : List Bytes) (out : Rules)
    → All IsOther ls
    → scan_all agent (record { in_block = false; out = out }) ls
      ≡ record { in_block = false; out = out }
unfolding scan_all scan_line
scan_all_idle agent [] out h = refl
scan_all_idle agent (l ∷ ls) out h = ground (arith, scan_all_idle agent ls out h.1)

scan_line_block :
    (agent line : Bytes) (out : Rules)
    → is_agent_line line ≡ false
    → scan_line agent (record { in_block = true; out = out }) line ≡ record {
      in_block = true;
      out =
          out
          ++ (if has_prefix_lower line disallow_key
              then add_path (trim_space (drop (length disallow_key) line)) []
              else []);
    }
unfolding scan_line
scan_line_block agent line out h = ground (
  arith,
  append-nil out,
  add_path-append (trim_space (drop (length disallow_key) line)) out,
  skipped_is_no_disallow line,
)

scan_all_block :
    (agent : Bytes) (ls : List Bytes) (out : Rules)
    → All IsOther ls
    → scan_all agent (record { in_block = true; out = out }) ls
      ≡ record { in_block = true; out = out ++ paths_of ls }
unfolding scan_all paths_of
scan_all_block agent [] out h = rw append-nil
scan_all_block agent (l ∷ ls) out h =
    rw (scan_line_block agent (trim_space l) out h.0, scan_all_block agent ls _ h.1, append_assoc)

-- Whether a group is taken: its agent is meant, and the group before it was not taken.
abbrev pub is_taken : Bytes → Bool → Bytes → Bool
is_taken agent in_block a = agent_matches agent (trim_space a) && not in_block

-- A group adds the paths of its Disallow lines, each normalised and in order, if its agent is meant
-- and the group before it was not taken; else it adds nothing. The loop then remembers which.
pub scan_group :
    (agent a : Bytes) (ls : List Bytes) (st : Scan)
    → IsAgentLine a
    → All IsOther ls
    → scan_all agent st (a ∷ ls) ≡ record {
      in_block = is_taken agent st.in_block a;
      out = st.out ++ (if is_taken agent st.in_block a then paths_of ls else []);
    }
unfolding scan_all scan_line
scan_group agent a ls st ha hs =
    rw (skipped_is_no_agent (trim_space a) ha, ha)
      (elim (Bool-cases (is_taken agent st.in_block a)) [
        | inl taken ↦ rw (taken, scan_all_block agent ls st.out hs)
        | inr left ↦ rw (left, scan_all_idle agent ls st.out hs, append-nil)
      ])

-- Two agent lines in a row, both meant, as a file writes them for rules that two agents share: the
-- second one ends the group, and none of the rules below it is taken.
pub shared_group_lost :
    (agent a b : Bytes) (ls : List Bytes) (out : Rules)
    → IsAgentLine a
    → IsAgentLine b
    → agent_matches agent (trim_space a) ≡ true
    → agent_matches agent (trim_space b) ≡ true
    → All IsOther ls
    → scan_all agent (record { in_block = false; out = out }) (a ∷ b ∷ ls)
      ≡ record { in_block = false; out = out }
unfolding scan_all paths_of
shared_group_lost agent a b ls out ha hb ma mb hs =
    ap (λ st. scan_all agent st (b ∷ ls))
      (scan_group agent a [] (record { in_block = false; out = out }) ha tt)
    ∙ scan_group agent b ls _ hb hs
    ∙ rw (ma, mb, append-nil, append-nil)
