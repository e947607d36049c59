-- ===== src/Graph/Query/Laws.antt =====
-- Keys and relations in the graph.
use relentless_bookworm.Base.{
  ◌≡◌, refl, sym, ap, ◌∙◌, true, ◌++◌, if◌then◌else◌, if_elim, Bytes, codes,
}
use relentless_bookworm.Text.{bytes_eq, replace_all, to_upper}
use relentless_bookworm.Text.Laws.{bytes_eq_sound}
use relentless_bookworm.Graph.Query.{NodeLabel, relation_type}

abbrev plain_type : (Bytes → Bytes) → Bytes → Bytes
plain_type unicode input = to_upper unicode (replace_all input b'-' (codes "_"))

-- A relation's type is its name in upper case with underscores; so it is for the names that the
-- code lists, which need no cases of their own.
pub relation_type_plain :
    (unicode : Bytes → Bytes) (input : Bytes)
    → relation_type unicode input ≡ to_upper unicode (replace_all input b'-' (codes "_"))
unfolding relation_type to_upper replace_all
relation_type_plain unicode input =
    if_elim (λ t. t ≡ plain_type unicode input) (bytes_eq input (codes "book_author")) _ _
      (λ e. listed (codes "book_author") e refl)
      (λ _.
        if_elim (λ t. t ≡ plain_type unicode input) (bytes_eq input (codes "book_work")) _ _
          (λ e. listed (codes "book_work") e refl)
          (λ _.
            if_elim (λ t. t ≡ plain_type unicode input) (bytes_eq input (codes "work_author")) _ _
              (λ e. listed (codes "work_author") e refl)
              (λ _.
                if_elim (λ t. t ≡ plain_type unicode input) (bytes_eq input (codes "book_subject"))
                  _ _ (λ e. listed (codes "book_subject") e refl)
                  (λ _.
                    if_elim (λ t. t ≡ plain_type unicode input)
                      (bytes_eq input (codes "work_subject")) _ _
                      (λ e. listed (codes "work_subject") e refl)
                      (λ _.
                        if_elim (λ t. t ≡ plain_type unicode input)
                          (bytes_eq input (codes "search_work")) _ _
                          (λ e. listed (codes "search_work") e refl) (λ _. refl))))))
  where
    listed :
        {t : Bytes} (name : Bytes)
        → bytes_eq input name ≡ true
        → t ≡ plain_type unicode name
        → t ≡ plain_type unicode input
    listed name e p = p ∙ ap (plain_type unicode) (sym (bytes_eq_sound input name e))

-- The key of a node, from its label and value.
abbrev key_of : NodeLabel → Bytes
key_of n = if bytes_eq n.label (codes "Subject") then codes "subject:" ++ n.value else n.value
