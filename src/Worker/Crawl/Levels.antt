-- ===== src/Worker/Crawl/Levels.antt =====
-- How many jobs are pending at each level, as a list of numbers that falls in a well-founded order.
use mathlib.Core.WellFounded.{Acc}
use relentless_bookworm.Base.{
  ℕ, zero, suc, ◌+◌, ◌-◌, ◌≤◌, ◌<◌, ◌≡◌, refl, ap, subst, sym, ◌∙◌, ◌⊎◌, inl, inr, List, [], ◌∷◌,
  ◌++◌, arith, ◌==◌, if◌then◌else◌, All, length, Bool-cases,
}
use relentless_bookworm.Models.{CrawlJob}

-- The lexicographic order on lists of one length: the first number that differs falls.
abbrev pub Falls : List ℕ → List ℕ → Type 0
Falls [] ns = ⊥
Falls (m ∷ ms) [] = ⊥
Falls (m ∷ ms) (n ∷ ns) = ((m < n) × (length ms ≡ length ns)) ⊎ ((m ≡ n) × Falls ms ns)

Falls-length : (ms ns : List ℕ) → Falls ms ns → length ms ≡ length ns
Falls-length [] ns h = absurd h
Falls-length (m ∷ ms) [] h = absurd h
Falls-length (m ∷ ms) (n ∷ ns) (inl (l, e)) = ap suc e
Falls-length (m ∷ ms) (n ∷ ns) (inr (e, f)) = ap suc (Falls-length ms ns f)

Acc-first :
    (n : ℕ) (ns : List ℕ)
    → ((m : ℕ) (ms : List ℕ) → m < n → length ms ≡ length ns → Acc Falls (m ∷ ms))
    → ((ms : List ℕ) → Falls ms ns → Acc Falls (n ∷ ms))
    → Acc Falls (n ∷ ns)
Acc-first n ns smaller same = Acc.intro (n ∷ ns) below
  where
    below : (ms : List ℕ) → Falls ms (n ∷ ns) → Acc Falls ms
    below [] f = absurd f
    below (m ∷ ms) (inl (l, e)) = smaller m ms l e
    below (m ∷ ms) (inr (e, f)) = subst (λ k. Acc Falls (k ∷ ms)) (sym e) (same ms f)

Acc-cons :
    (k : ℕ)
    → ((ms : List ℕ) → length ms ≡ k → Acc Falls ms)
    → (b n : ℕ) → n < b
    → (ns : List ℕ) → Acc Falls ns
    → length ns ≡ k
    → Acc Falls (n ∷ ns)
Acc-cons k ih zero n h ns a e = absurd (omega arith)
Acc-cons k ih (suc b) n h ns (Acc.intro _ smaller) e =
    Acc-first n ns (λ m ms l q. Acc-cons k ih b m (omega arith) ms (ih ms (q ∙ e)) (q ∙ e))
      (λ ms f. Acc-cons k ih (suc b) n h ms (smaller ms f) (Falls-length ms ns f ∙ e))

-- No list of numbers falls for ever.
pub Acc-length : (k : ℕ) (ns : List ℕ) → length ns ≡ k → Acc Falls ns
Acc-length zero [] e = Acc.intro [] none_below
  where
    none_below : (ms : List ℕ) → Falls ms [] → Acc Falls ms
    none_below [] f = absurd f
    none_below (m ∷ ms) f = absurd f
Acc-length zero (n ∷ ns) e = absurd (omega arith)
Acc-length (suc k) [] e = absurd (omega arith)
Acc-length (suc k) (n ∷ ns) e =
    Acc-cons k (Acc-length k) (suc n) n (omega arith) ns (Acc-length k ns (omega arith))
      (omega arith)

-- The levels that a job has left, below the limit of d.
abbrev pub left : ℕ → CrawlJob → ℕ
left d job = d - job.depth

-- How many jobs have just r levels left.
unfoldable at_level : ℕ → ℕ → List CrawlJob → ℕ
at_level d r [] = 0
at_level d r (j ∷ js) = (if left d j == r then 1 else 0) + at_level d r js

-- The numbers of the levels from r on downwards.
unfoldable pub counts : ℕ → ℕ → List CrawlJob → List ℕ
unfolding at_level
counts d zero js = at_level d zero js ∷ []
counts d (suc r) js = at_level d (suc r) js ∷ counts d r js

length-counts : (d r : ℕ) (js ks : List CrawlJob) → length (counts d r js) ≡ length (counts d r ks)
unfolding counts
length-counts d zero js ks = refl
length-counts d (suc r) js ks = ap suc (length-counts d r js ks)

at_level-append :
    (d r : ℕ) (xs ys : List CrawlJob) → at_level d r (xs ++ ys) ≡ at_level d r xs + at_level d r ys
unfolding at_level
at_level-append d r [] ys = omega arith
at_level-append d r (x ∷ xs) ys = omega (arith, at_level-append d r xs ys)

-- Jobs that have fewer levels left than r.
at_level-none : (d r : ℕ) (js : List CrawlJob) → All (λ j. left d j < r) js → at_level d r js ≡ 0
unfolding at_level
at_level-none d r [] h = refl
at_level-none d r (j ∷ js) h = ground (arith, at_level-none d r js h.1, h.0)

module _ (d : ℕ) (xs : List CrawlJob) (job : CrawlJob) (ys new : List CrawlJob)
    (lower : All (λ j. left d j < left d job) new) where
  at_level-new : (r : ℕ) → left d job ≤ r → at_level d r new ≡ 0
  at_level-new r h = at_level-none d r new (weaken new lower)
    where
      weaken :
          (js : List CrawlJob) → All (λ j. left d j < left d job) js → All (λ j. left d j < r) js
      weaken [] a = tt
      weaken (j ∷ js) a = (omega (arith, a.0), weaken js a.1)

  at_level-before :
      (r : ℕ)
      → at_level d r (xs ++ job ∷ ys)
        ≡ at_level d r xs + (if left d job == r then 1 else 0) + at_level d r ys
  unfolding at_level
  at_level-before r = omega (arith, at_level-append d r xs (job ∷ ys))

  at_level-after :
      (r : ℕ)
      → left d job ≤ r
      → at_level d r (xs ++ (ys ++ new)) ≡ at_level d r xs + at_level d r ys
  at_level-after r h =
      omega
        (arith, at_level-append d r xs (ys ++ new), at_level-append d r ys new, at_level-new r h)

  -- A job gives way to jobs with fewer levels left: the numbers fall.
  pub counts-Falls :
      (r : ℕ)
      → left d job ≤ r
      → Falls (counts d r (xs ++ (ys ++ new))) (counts d r (xs ++ job ∷ ys))
  unfolding counts
  counts-Falls zero h = inl (ground (arith, at_level-after zero h, at_level-before zero), refl)
  counts-Falls (suc r) h = elim (Bool-cases (left d job == suc r)) [
    | inl here ↦ inl (
      ground (arith, at_level-after (suc r) h, at_level-before (suc r)),
      length-counts d r (xs ++ (ys ++ new)) (xs ++ job ∷ ys),
    )
    | inr below ↦ inr (
      ground (arith, at_level-after (suc r) h, at_level-before (suc r)),
      counts-Falls r (ground arith),
    )
  ]
