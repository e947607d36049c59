-- ===== src/Worker/Histogram/Laws.antt =====
-- What the histograms show of the durations that were observed.
use relentless_bookworm.Base.{
  ℕ, zero, suc, ◌+◌, ◌≤◌, ◌≡◌, refl, sym, ap, ◌∙◌, ℤ, pos, negsuc, some, List, [], ◌∷◌, ◌++◌, arith,
  leb, if◌then◌else◌, Bool-cases, inl, inr, length, Bytes, codes,
}
use relentless_bookworm.Worker.Histogram.{
  u64, Histogram, zeros, new_histogram, bucket_index, add_one, observe_latency, bound_text,
  bucket_line, join, sum_and_count, bucket_lines, append_histogram,
}

-- The durations that count: a time.Since that is not positive is left out.
unfoldable pub positive : List ℤ → List ℕ
positive [] = []
positive (negsuc n ∷ ds) = positive ds
positive (pos zero ∷ ds) = positive ds
positive (pos (suc n) ∷ ds) = suc n ∷ positive ds

-- How many of the durations do not pass the bound, and those that pass it.
unfoldable pub at_most : ℕ → List ℕ → ℕ
at_most b [] = 0
at_most b (d ∷ ds) = let rest = at_most b ds in if leb d b then suc rest else rest

above : ℕ → List ℕ → List ℕ
above b [] = []
above b (d ∷ ds) = let rest = above b ds in if leb d b then rest else d ∷ rest

abbrev pub sum : List ℕ → ℕ
sum [] = 0
sum (d ∷ ds) = d + sum ds

-- The last duration first.
unfoldable pub observe_all : List ℕ → List ℤ → Histogram
unfolding observe_latency new_histogram
observe_all buckets [] = new_histogram buckets
observe_all buckets (d ∷ ds) = observe_latency buckets d (observe_all buckets ds)

-- For each bucket the number of durations in it.
tally : List ℕ → List ℕ → List ℕ
tally [] ds = u64 (length ds) ∷ []
tally (b ∷ bs) ds = u64 (at_most b ds) ∷ tally bs (above b ds)

tally-cons :
    (bs : List ℕ) (d : ℕ) (ds : List ℕ)
    → tally bs (d ∷ ds) ≡ add_one (bucket_index bs d) (tally bs ds)
unfolding tally add_one bucket_index at_most above
tally-cons [] d ds = ground arith
tally-cons (b ∷ bs) d ds = elim (Bool-cases (leb d b)) [
  | inl within ↦ rw within (ground arith)
  | inr past ↦ rw past (ap (λ (l : List ℕ). u64 (at_most b ds) ∷ l) (tally-cons bs d (above b ds)))
]

tally-nil : (bs : List ℕ) → tally bs [] ≡ zeros bs
unfolding tally at_most above
tally-nil [] = refl
tally-nil (b ∷ bs) = ap (λ (l : List ℕ). 0 ∷ l) (tally-nil bs)

-- The state of a histogram, from the durations.
record Shows (bs : List ℕ) (ds : List ℕ) (h : Histogram) : Type 0 where
  counts : h.counts ≡ tally bs ds
  sum_ns : h.sum_ns ≡ u64 (sum ds)
  count : h.count ≡ u64 (length ds)

observe_all-Shows : (bs : List ℕ) (ds : List ℤ) → Shows bs (positive ds) (observe_all bs ds)
unfolding observe_all positive
observe_all-Shows bs [] = record { counts = sym (tally-nil bs); sum_ns = refl; count = refl }
observe_all-Shows bs (negsuc n ∷ ds) = observe_all-Shows bs ds
observe_all-Shows bs (pos zero ∷ ds) = observe_all-Shows bs ds
observe_all-Shows bs (pos (suc n) ∷ ds) =
    let h = observe_all-Shows bs ds in
    record {
      counts =
          ap (add_one (bucket_index bs (suc n))) h.counts
          ∙ sym (tally-cons bs (suc n) (positive ds));
      sum_ns = ground (arith, h.sum_ns);
      count = ground (arith, h.count);
    }

-- Ascending, and not below a.
abbrev pub AscendingFrom : ℕ → List ℕ → Type 0
AscendingFrom a [] = Unit
AscendingFrom a (b ∷ bs) = (a ≤ b) × AscendingFrom b bs

module _ (a b : ℕ) (le : a ≤ b) where
  at_most-above : (ds : List ℕ) → at_most a ds + at_most b (above a ds) ≡ at_most b ds
  unfolding at_most above
  at_most-above [] = omega arith
  at_most-above (d ∷ ds) = ground (arith, at_most-above ds)

  above-above : (ds : List ℕ) → above b (above a ds) ≡ above b ds
  unfolding above
  above-above [] = refl
  above-above (d ∷ ds) = ground (arith, above-above ds)

length-above : (a : ℕ) (ds : List ℕ) → at_most a ds + length (above a ds) ≡ length ds
unfolding at_most above
length-above a [] = omega arith
length-above a (d ∷ ds) = ground (arith, length-above a ds)

-- The lines that are meant: at each bound, how many durations do not pass it, and in the end all.
unfoldable pub expected_lines : ℕ → Bytes → List ℕ → List ℕ → Bytes
expected_lines decimals name [] ds = bucket_line name (codes "+Inf") (u64 (length ds))
expected_lines decimals name (b ∷ bs) ds =
    bucket_line name (bound_text decimals b) (u64 (at_most b ds))
    ++ expected_lines decimals name bs ds

bucket_lines-tally :
    (decimals : ℕ) (name : Bytes) (bs ds : List ℕ) (a : ℕ)
    → AscendingFrom a bs
    → bucket_lines decimals name bs (tally bs (above a ds)) (u64 (at_most a ds))
      ≡ some (expected_lines decimals name bs ds)
unfolding bucket_lines tally expected_lines
bucket_lines-tally decimals name [] ds a h =
    ap (λ (n : ℕ). some (bucket_line name (codes "+Inf") n)) (omega (arith, length-above a ds))
bucket_lines-tally decimals name (b ∷ bs) ds a h =
    let line = λ (n : ℕ) (l : List ℕ).
      join (some (bucket_line name (bound_text decimals b) n))
        (bucket_lines decimals name bs l n) in
    let e : u64 (u64 (at_most a ds) + u64 (at_most b (above a ds))) ≡ u64 (at_most b ds) =
      omega (arith, at_most-above a b h.0 ds) in
    ap (λ (n : ℕ). line n (tally bs (above b (above a ds)))) e
    ∙ ap (λ (l : List ℕ). line (u64 (at_most b ds)) (tally bs l)) (above-above a b h.0 ds)
    ∙ ap (join (some (bucket_line name (bound_text decimals b) (u64 (at_most b ds)))))
        (bucket_lines-tally decimals name bs ds b h.1)

above-positive :
    (ds : List ℤ) → (above 0 (positive ds) ≡ positive ds) × (at_most 0 (positive ds) ≡ 0)
unfolding above at_most positive
above-positive [] = (refl, refl)
above-positive (negsuc n ∷ ds) = above-positive ds
above-positive (pos zero ∷ ds) = above-positive ds
above-positive (pos (suc n) ∷ ds) = ground (arith, above-positive ds)

-- The text of a histogram, after any durations at all: at each bound it has the number of durations
-- that do not pass the bound, at +Inf and as the count the number of all, and then their sum, with
-- each number modulo 2^64. Durations that are not positive are left out throughout. The bounds
-- have to ascend; no index is out of range.
pub append_histogram-observe_all :
    (seconds_text : ℕ → Bytes) (decimals : ℕ) (name : Bytes) (bs : List ℕ) (ds : List ℤ)
    → AscendingFrom 0 bs
    → append_histogram seconds_text decimals name bs (observe_all bs ds)
      ≡ some (
          expected_lines decimals name bs (positive ds)
          ++ sum_and_count seconds_text name (u64 (sum (positive ds))) (u64 (length (positive ds))))
unfolding append_histogram
append_histogram-observe_all seconds_text decimals name bs ds h =
    let k = observe_all-Shows bs ds in
    let z = above-positive ds in
    let lines = bucket_lines decimals name bs in
    let e : lines (observe_all bs ds).counts 0
        ≡ some (expected_lines decimals name bs (positive ds)) =
      ap (λ (l : List ℕ). lines l 0) k.counts
      ∙ ap (λ (n : ℕ). lines (tally bs (positive ds)) (u64 n)) (sym z.1)
      ∙ ap (λ (l : List ℕ). lines (tally bs l) (u64 (at_most 0 (positive ds)))) (sym z.0)
      ∙ bucket_lines-tally decimals name bs (positive ds) 0 h in
    rw (e, k.sum_ns, k.count)
