-- ===== src/Commit/Complete.antt =====
-- Which messages are committed when the reader accepts all commits.
use relentless_bookworm.Base.{
  ℕ, ◌+◌, ◌≤◌, ◌<◌, ◌≡◌, refl, subst, ap, Bool, true, none, List, [], ◌∷◌, arith, ◌⊎◌, ◌==◌, ==_iff,
  length, Bool-cases, inl, inr,
}
use relentless_bookworm.Map.{lookup}
use relentless_bookworm.Commit.{
  Message, Coordinator, new_commit_coordinator, slot, next_of, enqueue, drain, receive, run,
}
use relentless_bookworm.Commit.Keeps.{drain_keeps}
use relentless_bookworm.Commit.View.{buffered, next?-enqueue, buffered-enqueue, next_of-some}
use relentless_bookworm.Commit.InOrder.{offsets, length-upfrom, InOrder, IsFresh}
use relentless_bookworm.Commit.Sequence.{first_offset, run-IsFresh, new-IsFresh}
use relentless_bookworm.Commit.Drain.{drain_all, commit_next_elsewhere}
use relentless_bookworm.Commit.Held.{has, run_holds}

-- The next offset of the partition is not buffered.
abbrev pub IsDrained : ℕ → Coordinator → Type 0
IsDrained q c = buffered c q (next_of c q) ≡ none

module _ (accepts : ℕ → Message → Bool) (always : (n : ℕ) (m : Message) → accepts n m ≡ true) where
  receive-IsDrained :
      (q : ℕ) (c : Coordinator) (m : Message) → IsDrained q c → IsDrained q (receive accepts c m)
  unfolding receive next_of
  receive-IsDrained q c m h = elim (Bool-cases (m.partition == q)) [
    | inl same ↦
        subst (λ r. IsDrained r (receive accepts c m)) ((==_iff m.partition q).0 same)
          (drain_all accepts always (enqueue c m) m.partition)
    | inr other ↦
        let e =
          drain_keeps accepts _ m.partition
            (commit_next_elsewhere accepts m.partition q (enqueue c m) other) (enqueue c m)
            ((λ o. refl), refl) in
        ground (
          arith,
          e.1,
          e.0 (next_of (drain accepts (enqueue c m) m.partition) q),
          next?-enqueue c m q,
          buffered-enqueue c m q (next_of c q),
        )
  ]

  run-IsDrained :
      (q : ℕ) (c : Coordinator) (ms : List Message) → IsDrained q c → IsDrained q (run accepts c ms)
  unfolding run
  run-IsDrained q c [] h = h
  run-IsDrained q c (m ∷ ms) h =
      run-IsDrained q (receive accepts c m) ms (receive-IsDrained q c m h)

new-IsDrained : (q : ℕ) → IsDrained q new_commit_coordinator
unfolding new_commit_coordinator slot lookup
new-IsDrained q = refl

-- If the reader accepts every commit, then the offsets of a partition that are consecutive from
-- its first message on, and all came in, are all committed, in whatever order they came in.
pub commits_complete :
    (accepts : ℕ → Message → Bool) (ms : List Message) (q k : ℕ)
    → ((n : ℕ) (m : Message) → accepts n m ≡ true)
    → ((i : ℕ) → i < k → has (first_offset q ms + i) (offsets q ms) ≡ true)
    → k ≤ length (offsets q (run accepts new_commit_coordinator ms).committed)
unfolding has
commits_complete accepts ms q k always received =
    complete (run-IsFresh accepts q new_commit_coordinator ms (new-IsFresh q))
  where
    end : Coordinator
    end = run accepts new_commit_coordinator ms

    complete :
        ((offsets q ms ≡ []) × IsFresh q end) ⊎ InOrder (first_offset q ms) q end
        → k ≤ length (offsets q end.committed)
    complete (inl (nothing, _)) = ground (arith, received 0)
    complete (inr h) = ground (
      arith,
      ap length h.sequence,
      length-upfrom (first_offset q ms) h.count,
      next_of-some end q (first_offset q ms + h.count) h.next,
      received h.count,
      run_holds accepts q (first_offset q ms + h.count) new_commit_coordinator ms,
      run-IsDrained accepts always q new_commit_coordinator ms (new-IsDrained q),
    )
