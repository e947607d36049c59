-- ===== src/Worker/Expand/Plan.antt =====
-- What the expansion of a node is meant to publish, as a list of steps, and that the code performs
-- the list from the front until a write fails.
use mathlib.Core.Path.{fun_ext, ap₂}
use relentless_bookworm.Base.{
  ◌≡◌, refl, sym, ap, ◌∙◌, inl, inr, Option, none, some, List, [], ◌∷◌, ◌++◌, if◌then◌else◌, Bytes,
  codes, Bool-cases,
}
use relentless_bookworm.Text.{bytes_eq}
use relentless_bookworm.Result.{Result, ok, err}
use relentless_bookworm.Models.{CrawlJob, Node, book, work, author, SearchDoc}
use relentless_bookworm.Ol.Client.{search_subject_url, search_author_url}
use relentless_bookworm.Worker.State.{Env, Config, World, Exec, pure, then_do, ◌>>◌}
use relentless_bookworm.Worker.Publish.{publish_edge, enqueue_url_to_frontier}
use relentless_bookworm.Worker.Expand.{ol_url, search_docs, key_loop, subject_loop, expand_node}

-- One message: an edge, or a job for a URL.
pub data Step : Type 0 where
  link : Bytes → Bytes → Bytes → Step
  visit : Bytes → Step

unfoldable pub key_plan : Bytes → Bytes → List Bytes → List Step
key_plan from relation [] = []
key_plan from relation (key ∷ keys) =
    link from key relation ∷ visit (ol_url key) ∷ key_plan from relation keys

unfoldable pub subject_plan : Bytes → Bytes → List Bytes → List Step
subject_plan from relation [] = []
subject_plan from relation (s ∷ ss) =
    visit (search_subject_url s)
    ∷ link from (codes "subject:" ++ s) relation
    ∷ subject_plan from relation ss

-- A node's edges go to its authors, its works and its subjects; each target is visited too.
unfoldable pub node_plan : Option Node → List Step
unfolding key_plan subject_plan
node_plan none = []
node_plan (some (book n)) =
    key_plan n.key (codes "book_author") n.authors
    ++ (key_plan n.key (codes "book_work") n.works
        ++ subject_plan n.key (codes "book_subject") n.subjects)
node_plan (some (work n)) =
    key_plan n.key (codes "work_author") n.authors
    ++ subject_plan n.key (codes "work_subject") n.subjects
node_plan (some (author n)) =
    if bytes_eq n.name [] then [] else visit (search_author_url n.name) ∷ []

-- The documents of a search that have a key.
unfoldable pub search_plan : Bytes → List SearchDoc → List Step
search_plan from [] = []
search_plan from (d ∷ ds) =
    (if bytes_eq d.key []
      then []
      else visit (ol_url d.key) ∷ link from d.key (codes "search_work") ∷ [])
    ++ search_plan from ds

module _ (env : Env) (cfg : Config) (job : CrawlJob) where
  unfoldable pub perform_step : Step → Exec (Unit {0})
  unfolding publish_edge enqueue_url_to_frontier
  perform_step (link from to relation) = publish_edge env cfg job from to relation
  perform_step (visit url) = enqueue_url_to_frontier env cfg job url

  unfoldable pub perform : List Step → Exec (Unit {0})
  perform [] = pure tt
  perform (s ∷ ss) = let rest = perform ss in do perform_step s; rest

  then_do_assoc :
      (r : Result (Unit {0})) (w : World) (f g : Exec (Unit {0}))
      → then_do (then_do r w (λ _. f)).0 (then_do r w (λ _. f)).1 (λ _. g)
        ≡ then_do r w (λ _ v. then_do (f v).0 (f v).1 (λ _. g))
  then_do_assoc (ok u) w f g = refl
  then_do_assoc (err e) w f g = refl

  perform-append :
      (xs ys : List Step) (w : World) → perform (xs ++ ys) w ≡ (perform xs >> perform ys) w
  unfolding perform
  perform-append [] ys w = refl
  perform-append (x ∷ xs) ys w =
      ap (λ k. (perform_step x >> k) w) (fun_ext (perform-append xs ys))
      ∙ sym (then_do_assoc (perform_step x w).0 (perform_step x w).1 (perform xs) (perform ys))

  key_loop-plan :
      (from relation : Bytes) (keys : List Bytes)
      → key_loop env cfg job from relation keys ≡ perform (key_plan from relation keys)
  unfolding key_loop perform perform_step key_plan
  key_loop-plan from relation [] = refl
  key_loop-plan from relation (key ∷ keys) =
      ap
        (λ rest.
          publish_edge env cfg job from key relation
          >> (enqueue_url_to_frontier env cfg job (ol_url key) >> rest))
        (key_loop-plan from relation keys)

  subject_loop-plan :
      (from relation : Bytes) (ss : List Bytes)
      → subject_loop env cfg job from relation ss ≡ perform (subject_plan from relation ss)
  unfolding subject_loop perform perform_step subject_plan
  subject_loop-plan from relation [] = refl
  subject_loop-plan from relation (s ∷ ss) =
      ap
        (λ rest.
          enqueue_url_to_frontier env cfg job (search_subject_url s)
          >> (publish_edge env cfg job from (codes "subject:" ++ s) relation >> rest))
        (subject_loop-plan from relation ss)

  then_do-pure : (r : Result (Unit {0})) (w : World) → then_do r w (λ _. pure tt) ≡ (r, w)
  then_do-pure (ok u) w = refl
  then_do-pure (err e) w = refl

  -- Expanding a node performs its plan, in every world: in the plan's order, with the plan's edges
  -- and URLs, and stopping where the plan stops.
  pub expand_node-plan :
      (node : Option Node) (w : World) → expand_node env cfg job node w ≡ perform (node_plan node) w
  unfolding expand_node node_plan
  expand_node-plan none w = unfold perform in refl
  expand_node-plan (some (book n)) w =
      ap (λ k. k w)
        (ap₂ (λ a b. a >> b) (key_loop-plan n.key (codes "book_author") n.authors)
          (ap₂ (λ b c. b >> c) (key_loop-plan n.key (codes "book_work") n.works)
            (subject_loop-plan n.key (codes "book_subject") n.subjects)))
      ∙ ap (λ k. (perform (key_plan n.key (codes "book_author") n.authors) >> k) w)
          (sym (fun_ext (perform-append (key_plan n.key (codes "book_work") n.works) _)))
      ∙ sym (perform-append (key_plan n.key (codes "book_author") n.authors) _ w)
  expand_node-plan (some (work n)) w =
      ap (λ k. k w)
        (ap₂ (λ a b. a >> b) (key_loop-plan n.key (codes "work_author") n.authors)
          (subject_loop-plan n.key (codes "work_subject") n.subjects))
      ∙ sym (perform-append (key_plan n.key (codes "work_author") n.authors) _ w)
  expand_node-plan (some (author n)) w = elim (Bool-cases (bytes_eq n.name [])) [
    | inl e ↦ unfold perform in rw e
    | inr e ↦
        unfold perform perform_step in
        rw e (
          sym (then_do-pure (enqueue_url_to_frontier env cfg job (search_author_url n.name) w).0 _))
  ]

  -- The loop over the documents of a search performs its plan, which visits and links the
  -- documents that have a key, in order.
  pub search_docs-plan :
      (docs : List SearchDoc) → search_docs env cfg job docs ≡ perform (search_plan job.url docs)
  unfolding search_docs search_plan perform perform_step
  search_docs-plan [] = refl
  search_docs-plan (d ∷ ds) = elim (Bool-cases (bytes_eq d.key [])) [
    | inl e ↦ rw e (search_docs-plan ds)
    | inr e ↦ rw e (
        ap
          (λ rest.
            enqueue_url_to_frontier env cfg job (ol_url d.key)
            >> (publish_edge env cfg job job.url d.key (codes "search_work") >> rest))
          (search_docs-plan ds))
  ]
