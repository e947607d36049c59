-- ===== src/Commit/Arrival.antt =====
-- The order in which messages come to the coordinator does not matter for what it has committed.
use relentless_bookworm.Base.{
  ℕ, ◌+◌, ◌≤◌, ◌<◌, ◌≡◌, sym, ap, ◌∙◌, Bool, true, List, [], arith, length,
}
use relentless_bookworm.Commit.{Message, new_commit_coordinator, flush, run}
use relentless_bookworm.Commit.InOrder.{offsets, upfrom}
use relentless_bookworm.Commit.Sequence.{first_offset, commits_in_order}
use relentless_bookworm.Commit.Held.{has}
use relentless_bookworm.Commit.Complete.{commits_complete}
use relentless_bookworm.Commit.Missing.{committed_came, has-upfrom_inside}

-- The committed offsets of partition q, in the order of the commits.
abbrev pub committed_offsets : (ℕ → Message → Bool) → List Message → ℕ → List ℕ
committed_offsets accepts ms q = offsets q (run accepts new_commit_coordinator ms).committed

committed_upfrom :
    (accepts : ℕ → Message → Bool) (ms : List Message) (q : ℕ)
    → committed_offsets accepts ms q
      ≡ upfrom (first_offset q ms) (length (committed_offsets accepts ms q))
unfolding flush
committed_upfrom accepts ms q = commits_in_order accepts ms [] q

all_came :
    (accepts : ℕ → Message → Bool) (ms : List Message) (q i : ℕ)
    → i < length (committed_offsets accepts ms q)
    → has (first_offset q ms + i) (offsets q ms) ≡ true
unfolding flush
all_came accepts ms q i l =
    let o = first_offset q ms + i in
    committed_came accepts ms [] q o (
      ap (has o) (committed_upfrom accepts ms q)
      ∙ has-upfrom_inside o (first_offset q ms) (length (committed_offsets accepts ms q))
          (omega arith) (omega (arith, l)))

no_more :
    (accepts accepts' : ℕ → Message → Bool) (ms ns : List Message) (q : ℕ)
    → ((n : ℕ) (m : Message) → accepts' n m ≡ true)
    → first_offset q ms ≡ first_offset q ns
    → ((o : ℕ) → has o (offsets q ms) ≡ has o (offsets q ns))
    → length (committed_offsets accepts ms q) ≤ length (committed_offsets accepts' ns q)
no_more accepts accepts' ms ns q always first same =
    commits_complete accepts' ns q (length (committed_offsets accepts ms q)) always (λ i l.
      ap (λ (f : ℕ). has (f + i) (offsets q ns)) (sym first)
      ∙ sym (same (first_offset q ms + i))
      ∙ all_came accepts ms q i l)

-- What is committed of a partition does not hang on the order in which jobs end, nor on how often a
-- message comes in: of two runs whose readers accept all commits, in which the partition's first
-- message is the same and the same offsets came in, both commit the same offsets, in the same order.
pub arrival_order_irrelevant :
    (accepts accepts' : ℕ → Message → Bool) (ms ns : List Message) (q : ℕ)
    → ((n : ℕ) (m : Message) → accepts n m ≡ true)
    → ((n : ℕ) (m : Message) → accepts' n m ≡ true)
    → first_offset q ms ≡ first_offset q ns
    → ((o : ℕ) → has o (offsets q ms) ≡ has o (offsets q ns))
    → offsets q (run accepts new_commit_coordinator ms).committed
      ≡ offsets q (run accepts' new_commit_coordinator ns).committed
arrival_order_irrelevant accepts accepts' ms ns q always always' first same =
    let n = length (committed_offsets accepts ms q) in
    let k = length (committed_offsets accepts' ns q) in
    let e : n ≡ k = omega (
      arith,
      no_more accepts accepts' ms ns q always' first same,
      no_more accepts' accepts ns ms q always (sym first) (λ o. sym (same o)),
    ) in
    committed_upfrom accepts ms q
    ∙ ap (λ (f : ℕ). upfrom f n) first
    ∙ ap (upfrom (first_offset q ns)) e
    ∙ sym (committed_upfrom accepts' ns q)
