-- ===== src/Worker/Histogram.antt =====
-- cmd/worker/worker_metrics.go: the histograms of fetch and commit latencies, as they are kept and
-- as they are written for Prometheus. Durations and bounds are nanoseconds. The source compares
-- seconds as floats; up to 5 s, a duration that is a whole number of nanoseconds compares with
-- these bounds as the numbers do.
pub mod Laws
use relentless_bookworm.Base.{
  ℕ, zero, suc, ◌+◌, ◌-◌, ◌*◌, ◌/◌, ◌%◌, ◌^◌, ℤ, pos, negsuc, Bool, Option, none, some, List, [],
  ◌∷◌, ◌++◌, leb, if◌then◌else◌, Bytes, codes,
}
use relentless_bookworm.Text.Decimal.{decimal}

abbrev pub u64 : ℕ → ℕ
u64 n = n % 2 ^ 64

-- 0.05, 0.1, 0.25, 0.5, 1, 2 and 5 seconds
abbrev pub fetch_latency_buckets : List ℕ
fetch_latency_buckets =
    50000000 ∷ 100000000 ∷ 250000000 ∷ 500000000 ∷ 1000000000 ∷ 2000000000 ∷ 5000000000 ∷ []

-- 0.001, 0.005, 0.01, 0.025, 0.05, 0.1, 0.25, 0.5 and 1 second
abbrev pub commit_latency_buckets : List ℕ
commit_latency_buckets =
    1000000 ∷ 5000000 ∷ 10000000 ∷ 25000000 ∷ 50000000 ∷ 100000000 ∷ 250000000 ∷ 500000000
    ∷ 1000000000 ∷ []

-- The counts of the buckets, with one more for +Inf.
pub record Histogram : Type 0 where
  pub counts : List ℕ
  pub sum_ns : ℕ
  pub count : ℕ

abbrev zeros : List ℕ → List ℕ
zeros [] = 0 ∷ []
zeros (b ∷ bs) = 0 ∷ zeros bs

unfoldable pub new_histogram : List ℕ → Histogram
new_histogram buckets = record { counts = zeros buckets; sum_ns = 0; count = 0 }

-- The loop of the observers: the first bucket whose bound is not passed, or the last one.
unfoldable pub bucket_index : List ℕ → ℕ → ℕ
bucket_index [] duration = 0
bucket_index (b ∷ bs) duration =
    let rest = bucket_index bs duration in if leb duration b then 0 else suc rest

-- atomic.AddUint64(&counts[i], 1). There is a count for each index that is used.
unfoldable pub add_one : ℕ → List ℕ → List ℕ
add_one i [] = []
add_one zero (c ∷ cs) = u64 (c + 1) ∷ cs
add_one (suc i) (c ∷ cs) = c ∷ add_one i cs

-- observeFetchLatency and observeCommitLatency, which differ in the buckets only
unfoldable pub observe_latency : List ℕ → ℤ → Histogram → Histogram
unfolding bucket_index add_one
observe_latency buckets (negsuc n) h = h
observe_latency buckets (pos zero) h = h
observe_latency buckets (pos (suc n)) h = record {
  counts = add_one (bucket_index buckets (suc n)) h.counts;
  sum_ns = u64 (h.sum_ns + suc n);
  count = u64 (h.count + 1);
}

-- The digits of n, as many as the first argument says: the last ones, and zeros in front.
unfoldable pub last_digits : ℕ → ℕ → Bytes
last_digits zero n = []
last_digits (suc k) n = last_digits k (n / 10) ++ (b'0' + n % 10) ∷ []

-- `%.2f` and `%.3f` of a bound, which has no more decimals.
unfoldable pub bound_text : ℕ → ℕ → Bytes
unfolding last_digits decimal
bound_text decimals ns =
    decimal (ns / 10 ^ 9) ++ b'.' ∷ last_digits decimals (ns % 10 ^ 9 / 10 ^ (9 - decimals))

abbrev pub bucket_line : Bytes → Bytes → ℕ → Bytes
bucket_line name le n =
    name ++ (codes "_bucket{le=\"" ++ (le ++ (codes "\"} " ++ (decimal n ++ 10 ∷ []))))

-- Two texts behind one another, if both are there.
abbrev pub join : Option Bytes → Option Bytes → Option Bytes
join none t = none
join (some s) none = none
join (some s) (some t) = some (s ++ t)

-- The loop of appendHistogram and its +Inf bucket; `none` is an index out of range.
unfoldable pub bucket_lines : ℕ → Bytes → List ℕ → List ℕ → ℕ → Option Bytes
bucket_lines decimals name buckets [] cumulative = none
bucket_lines decimals name [] (c ∷ cs) cumulative =
    some (bucket_line name (codes "+Inf") (u64 (cumulative + c)))
bucket_lines decimals name (b ∷ bs) (c ∷ cs) cumulative =
    join (some (bucket_line name (bound_text decimals b) (u64 (cumulative + c))))
      (bucket_lines decimals name bs cs (u64 (cumulative + c)))

abbrev pub sum_and_count : (ℕ → Bytes) → Bytes → ℕ → ℕ → Bytes
sum_and_count seconds_text name sum_ns count =
    name
    ++ (codes "_sum "
        ++ (seconds_text sum_ns ++ 10 ∷ (name ++ (codes "_count " ++ (decimal count ++ 10 ∷ [])))))

-- `%.6f` of a number of nanoseconds as seconds, by way of floats, is an argument.
unfoldable pub append_histogram : (ℕ → Bytes) → ℕ → Bytes → List ℕ → Histogram → Option Bytes
append_histogram seconds_text decimals name buckets h =
    join (bucket_lines decimals name buckets h.counts 0)
      (some (sum_and_count seconds_text name h.sum_ns h.count))
