-- ===== src/Commit/Sequence.antt =====
-- The commits of one partition, over a run and the final flush.
use relentless_bookworm.Base.{
  ℕ, ◌≡◌, refl, sym, ap, ◌∙◌, Bool, List, [], ◌∷◌, ◌⊎◌, ◌==◌, length, Bool-cases, inl, inr,
}
use relentless_bookworm.Map.{lookup}
use relentless_bookworm.Commit.{
  Message, Coordinator, new_commit_coordinator, slot, receive, flush, run,
}
use relentless_bookworm.Commit.Keeps.{run_keeps, flush_keeps, receive_keeps}
use relentless_bookworm.Commit.InOrder.{
  offsets, upfrom, length-upfrom, InOrder, IsFresh, enqueue-InOrder, commit_next-InOrder,
  commit_next-IsFresh, enqueue-IsFresh, enqueue-starts,
}

abbrev head_or_zero : List ℕ → ℕ
head_or_zero [] = 0
head_or_zero (x ∷ xs) = x

-- The offset of the first message of partition q.
unfoldable pub first_offset : ℕ → List Message → ℕ
first_offset q ms = head_or_zero (offsets q ms)

pub new-IsFresh : (q : ℕ) → IsFresh q new_commit_coordinator
unfolding new_commit_coordinator slot lookup offsets
new-IsFresh q = record {
  keyed = record { at = λ p o m e. cc };
  unknown = refl;
  nothing = refl;
  empty = λ o. refl;
}

module _ (accepts : ℕ → Message → Bool) where
  pub run-InOrder :
      (s q : ℕ) (c : Coordinator) (ms : List Message)
      → InOrder s q c
      → InOrder s q (run accepts c ms)
  run-InOrder s q =
      run_keeps accepts (InOrder s q) (commit_next-InOrder accepts s q) (enqueue-InOrder s q)

  -- After some messages a partition is either untouched or in order from its first message on.
  pub run-IsFresh :
      (q : ℕ) (c : Coordinator) (ms : List Message)
      → IsFresh q c
      → ((offsets q ms ≡ []) × IsFresh q (run accepts c ms))
        ⊎ InOrder (first_offset q ms) q (run accepts c ms)
  unfolding run offsets first_offset
  run-IsFresh q c [] h = inl (refl, h)
  run-IsFresh q c (m ∷ ms) h = elim (Bool-cases (m.partition == q)) [
    | inl same ↦ inr (
        rw same (
          run-InOrder m.offset q (receive accepts c m) ms (
            receive_keeps accepts (InOrder m.offset q) (commit_next-InOrder accepts m.offset q) c m
              (enqueue-starts q c m same h))))
    | inr other ↦ rw other (
        run-IsFresh q (receive accepts c m) ms (
          receive_keeps accepts (IsFresh q) (commit_next-IsFresh accepts q) c m
            (enqueue-IsFresh q c m other h)))
  ]

InOrder-sequence :
    (s q : ℕ) (c : Coordinator)
    → InOrder s q c
    → offsets q c.committed ≡ upfrom s (length (offsets q c.committed))
InOrder-sequence s q c h =
    h.sequence
    ∙ ap (upfrom s) (sym (length-upfrom s h.count))
    ∙ ap (λ (l : List ℕ). upfrom s (length l)) (sym h.sequence)

-- Whatever messages come in and in whatever order, however the reader answers, and in whatever
-- order the final flush takes the partitions: the successful commits of each partition are
-- consecutive offsets, in ascending order and without a gap or a repetition, and they begin with
-- the offset of the first message of the partition that came in.
pub commits_in_order :
    (accepts : ℕ → Message → Bool) (ms : List Message) (ps : List ℕ) (q : ℕ)
    → let c = flush accepts (run accepts new_commit_coordinator ms) ps in
      offsets q c.committed ≡ upfrom (first_offset q ms) (length (offsets q c.committed))
unfolding upfrom
commits_in_order accepts ms ps q = elim (run-IsFresh accepts q _ ms (new-IsFresh q)) [
  | inl (_, h) ↦
      rw
        (flush_keeps accepts (IsFresh q) (commit_next-IsFresh accepts q)
          (run accepts new_commit_coordinator ms) ps h).nothing
        refl
  | inr h ↦ InOrder-sequence _ q _ (
      flush_keeps accepts (InOrder (first_offset q ms) q)
        (commit_next-InOrder accepts (first_offset q ms) q) _ ps h)
]
