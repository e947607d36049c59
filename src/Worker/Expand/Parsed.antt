-- ===== src/Worker/Expand/Parsed.antt =====
-- What a parsed page is expanded to.
use relentless_bookworm.Base.{
  ◌≡◌, ◌≢◌, subst, false, Option, none, some, List, [], ◌∷◌, if_elim, Bytes, All, All-append,
  Bool-cases, inl, inr,
}
use relentless_bookworm.Text.{bytes_eq}
use relentless_bookworm.Text.Laws.{bytes_eq_iff}
use relentless_bookworm.Result.{Result, ok, err, ◌>>=◌}
use relentless_bookworm.Models.{AuthorNode, Node, book, work, author}
use relentless_bookworm.Ol.Parser.{
  Decoder, or_bad_json, keep_keys, parse_book_node, parse_work_node, parse_author_node, parse_node,
  parse_typed, edition_key, work_key, author_key,
}
use relentless_bookworm.Worker.Expand.Plan.{Step, link, visit, key_plan, subject_plan, node_plan}

-- An edge joins two keys that are not empty.
abbrev pub HasEnds : Step → Type 0
HasEnds (link from to relation) = (from ≢ []) × (to ≢ [])
HasEnds (visit url) = Unit

-- A predicate of the result, if there is one.
abbrev pub Ensures {ℓ} : {A : Type ℓ} → (A → Type 0) → Result A → Type 0
Ensures Q (ok a) = Q a
Ensures Q (err e) = Unit

Ensures-or_bad_json {ℓ κ} :
    {A : Type ℓ} {B : Type κ} (Q : B → Type 0) (o : Option A) (f : A → Result B)
    → ((a : A) → Ensures Q (f a))
    → Ensures Q (or_bad_json o >>= f)
Ensures-or_bad_json Q none f h = tt
Ensures-or_bad_json Q (some a) f h = h a

-- A node that is handed on as one of the three types.
Ensures-node {ℓ} :
    {A : Type ℓ} (Q : Option Node → Type 0) (wrap : A → Option Node) (r : Result A)
    → Ensures (λ a. Q (wrap a)) r
    → Ensures Q (r >>= (λ a. ok (wrap a)))
Ensures-node Q wrap (ok a) h = h
Ensures-node Q wrap (err e) h = tt

keep_keys-All : (keys : List Bytes) → All (λ k. k ≢ []) (keep_keys keys)
unfolding keep_keys
keep_keys-All [] = tt
keep_keys-All (key ∷ keys) = elim (Bool-cases (bytes_eq key [])) [
  | inl e ↦ rw e (keep_keys-All keys)
  | inr e ↦ rw e ((λ z. cc ((bytes_eq_iff key []).1 z, e)), keep_keys-All keys)
]

key_plan-HasEnds :
    (from relation : Bytes) (keys : List Bytes)
    → from ≢ []
    → All (λ k. k ≢ []) keys
    → All HasEnds (key_plan from relation keys)
unfolding key_plan
key_plan-HasEnds from relation [] f h = tt
key_plan-HasEnds from relation (k ∷ ks) f h =
    ((f, h.0), (tt, key_plan-HasEnds from relation ks f h.1))

subject_plan-HasEnds :
    (from relation : Bytes) (ss : List Bytes)
    → from ≢ []
    → All HasEnds (subject_plan from relation ss)
unfolding subject_plan
subject_plan-HasEnds from relation [] f = tt
subject_plan-HasEnds from relation (s ∷ ss) f =
    (tt, ((f, λ e. cc), subject_plan-HasEnds from relation ss f))

module _ (decode : Decoder) (body : Bytes) where
  not_empty : (key : Bytes) → bytes_eq key [] ≡ false → key ≢ []
  not_empty key e z = cc ((bytes_eq_iff key []).1 z, e)

  parse_book_node-HasEnds :
      Ensures (λ n. All HasEnds (node_plan (some (book n)))) (parse_book_node decode body)
  unfolding parse_book_node node_plan key_plan subject_plan
  parse_book_node-HasEnds = Ensures-or_bad_json _ (decode.edition body) _ λ p.
      if_elim (λ n. All HasEnds (node_plan (some (book n)))) (bytes_eq p.key []) _ _ (λ _. tt)
        (λ e.
          let f = not_empty p.key e in
          All-append HasEnds _ _
            (key_plan-HasEnds p.key _ (keep_keys p.authors) f (keep_keys-All p.authors))
            (All-append HasEnds _ _
              (key_plan-HasEnds p.key _ (keep_keys p.works) f (keep_keys-All p.works))
              (subject_plan-HasEnds p.key _ p.subjects f)))

  parse_work_node-HasEnds :
      Ensures (λ n. All HasEnds (node_plan (some (work n)))) (parse_work_node decode body)
  unfolding parse_work_node node_plan key_plan subject_plan
  parse_work_node-HasEnds = Ensures-or_bad_json _ (decode.work_payload body) _ λ p.
      if_elim (λ n. All HasEnds (node_plan (some (work n)))) (bytes_eq p.key []) _ _ (λ _. tt)
        (λ e.
          let f = not_empty p.key e in
          All-append HasEnds _ _
            (key_plan-HasEnds p.key _ (keep_keys p.authors) f (keep_keys-All p.authors))
            (subject_plan-HasEnds p.key _ p.subjects f))

  author-HasEnds : (n : AuthorNode) → All HasEnds (node_plan (some (author n)))
  unfolding node_plan
  author-HasEnds n = if_elim (All HasEnds) (bytes_eq n.name []) _ _ (λ _. tt) (λ _. (tt, tt))

  typed-HasEnds :
      (key : Bytes) → Ensures (λ n. All HasEnds (node_plan n)) (parse_typed decode body key)
  unfolding parse_typed node_plan
  typed-HasEnds key =
      if_elim (Ensures λ n. All HasEnds (node_plan n)) (bytes_eq key edition_key) _ _
        (λ _.
          Ensures-node (λ n. All HasEnds (node_plan n)) (λ n. some (book n))
            (parse_book_node decode body) parse_book_node-HasEnds)
        (λ _.
          if_elim (Ensures λ n. All HasEnds (node_plan n)) (bytes_eq key work_key) _ _
            (λ _.
              Ensures-node (λ n. All HasEnds (node_plan n)) (λ n. some (work n))
                (parse_work_node decode body) parse_work_node-HasEnds)
            (λ _.
              if_elim (Ensures λ n. All HasEnds (node_plan n)) (bytes_eq key author_key) _ _
                (λ _.
                  Ensures-node (λ n. All HasEnds (node_plan n)) (λ n. some (author n))
                    (parse_author_node decode body) (authors (parse_author_node decode body)))
                (λ _. tt)))
    where
      authors : (r : Result AuthorNode) → Ensures (λ n. All HasEnds (node_plan (some (author n)))) r
      authors (ok n) = author-HasEnds n
      authors (err e) = tt

  -- Whatever page is parsed, each edge of the plan of its node joins two keys that are not empty:
  -- references without a key are left out, and a page without a key has no edges.
  pub parse_node-HasEnds :
      (n : Option Node) → parse_node decode body ≡ ok n → All HasEnds (node_plan n)
  unfolding parse_node
  parse_node-HasEnds n e =
      subst (Ensures λ m. All HasEnds (node_plan m)) e
        (Ensures-or_bad_json _ (decode.envelope body) (parse_typed decode body) typed-HasEnds)
