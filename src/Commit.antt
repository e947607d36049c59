-- ===== src/Commit.antt =====
-- cmd/worker/commit_coordinator.go: completed messages are buffered per partition and committed in
-- offset order. The kafka reader is a parameter: `accepts n m` says whether the n-th call of
-- `CommitMessages`, made on the message m, succeeds. Only the goroutine of `run` reads or writes
-- the two maps, so what others do while `commitNext` lets go of the lock does not touch them.
pub mod Keeps
pub mod View
pub mod InOrder
pub mod Sequence
pub mod Drain
pub mod Held
pub mod Complete
pub mod Early
pub mod Gauge
pub mod Missing
pub mod Arrival
use relentless_bookworm.Base.{
  ℕ, zero, suc, ◌+◌, ◌-◌, ◌≡◌, Bool, true, false, Option, none, some, List, [], ◌∷◌, ◌++◌,
  if◌then◌else◌, Bytes, length, Bool-cases, Option-cases, inl, inr,
}
use relentless_bookworm.Map.{Map, lookup, insert, delete}

-- The fields of kafka.Message that the program reads.
pub record Message : Type 0 where
  pub partition : ℕ
  pub offset : ℕ
  pub value : Bytes

-- The coordinator with its two gauges, and what the reader has seen of it: the messages whose
-- commit succeeded, in order, and the number of calls.
pub record Coordinator : Type 0 where
  pub next_offset : Map ℕ
  pub pending : Map (Map Message)
  pub pending_total : ℕ
  pub commit_errors : ℕ
  pub committed : List Message
  pub calls : ℕ

unfoldable pub new_commit_coordinator : Coordinator
new_commit_coordinator = record {
  next_offset = [];
  pending = [];
  pending_total = 0;
  commit_errors = 0;
  committed = [];
  calls = 0;
}

-- `c.pending[p]`; a nil map reads as the empty one
abbrev pub or_empty : Option (Map Message) → Map Message
or_empty none = []
or_empty (some b) = b

unfoldable pub slot : Coordinator → ℕ → Map Message
slot c p = or_empty (lookup p c.pending)

-- `c.nextOffset[p]`; a missing key reads as 0
abbrev pub or_zero : Option ℕ → ℕ
or_zero none = 0
or_zero (some n) = n

unfoldable pub next_of : Coordinator → ℕ → ℕ
next_of c p = or_zero (lookup p c.next_offset)

abbrev keep_first : Option ℕ → ℕ → Map ℕ → ℕ → Map ℕ
keep_first none p m off = insert p off m
keep_first (some n) p m off = m

unfoldable pub enqueue : Coordinator → Message → Coordinator
unfolding slot
enqueue c m = record c {
  pending = insert m.partition (insert m.offset m (slot c m.partition)) c.pending;
  pending_total = c.pending_total + 1;
  next_offset = keep_first (lookup m.partition c.next_offset) m.partition c.next_offset m.offset;
}

-- The state after a commit that failed: the message is buffered again.
unfoldable pub requeue : Coordinator → ℕ → ℕ → Message → Coordinator
requeue c p next m = record c {
  pending = insert p (insert next m (delete next (slot c p))) c.pending;
  pending_total = c.pending_total - 1 + 1;
  commit_errors = c.commit_errors + 1;
  calls = c.calls + 1;
}

-- The state after a commit that succeeded.
unfoldable pub advance : Coordinator → ℕ → ℕ → Message → Coordinator
advance c p next m = record c {
  pending = insert p (delete next (slot c p)) c.pending;
  pending_total = c.pending_total - 1;
  next_offset = insert p (next + 1) c.next_offset;
  committed = c.committed ++ m ∷ [];
  calls = c.calls + 1;
}

module _ (accepts : ℕ → Message → Bool) where
  attempt : Option Message → Coordinator → ℕ → ℕ → Coordinator × Bool
  attempt none c p next = (c, false)
  attempt (some m) c p next =
      if accepts c.calls m then (advance c p next m, true) else (requeue c p next m, false)

  unfoldable pub commit_next : Coordinator → ℕ → Coordinator × Bool
  unfolding attempt
  commit_next c p = attempt (lookup (next_of c p) (slot c p)) c p (next_of c p)

  -- `for c.commitNext(…) {}`, on fuel
  unfoldable pub drain_loop : ℕ → Coordinator → ℕ → Coordinator
  drain_loop zero c p = c
  drain_loop (suc fuel) c p =
      let (c', more) = commit_next c p in elim more [ true ↦ drain_loop fuel c' p | false ↦ c' ]

  -- One round for each buffered message of the partition, and one that finds none.
  unfoldable pub drain : Coordinator → ℕ → Coordinator
  drain c p = drain_loop (suc (length (slot c p))) c p

  -- Go ranges over `c.pending` in an order of its own choice: the order is an argument.
  unfoldable pub flush : Coordinator → List ℕ → Coordinator
  flush c [] = c
  flush c (p ∷ ps) = flush (drain c p) ps

  -- One round of `run`.
  unfoldable pub receive : Coordinator → Message → Coordinator
  receive c m = drain (enqueue c m) m.partition

  unfoldable pub run : Coordinator → List Message → Coordinator
  run c [] = c
  run c (m ∷ ms) = run (receive c m) ms

  -- A case rule: the three ways in which `commitNext` ends.
  pub commit_next_cases {ℓ} :
      (P : Coordinator × Bool → Type ℓ) (c : Coordinator) (p : ℕ)
      → (lookup (next_of c p) (slot c p) ≡ none → P (c, false))
      → ((m : Message)
          → lookup (next_of c p) (slot c p) ≡ some m
          → accepts c.calls m ≡ true
          → P (advance c p (next_of c p) m, true))
      → ((m : Message)
          → lookup (next_of c p) (slot c p) ≡ some m
          → accepts c.calls m ≡ false
          → P (requeue c p (next_of c p) m, false))
      → P (commit_next c p)
  unfolding commit_next
  commit_next_cases P c p missing done failed =
      elim (Option-cases (lookup (next_of c p) (slot c p))) [
        | inl e ↦ rw (e, commit_next) (missing e)
        | inr (m, e) ↦ elim (Bool-cases (accepts c.calls m)) [
          | inl a ↦ rw (e, commit_next) (rw a (done m e a))
          | inr a ↦ rw (e, commit_next) (rw a (failed m e a))
        ]
      ]
