-- ===== src/Commit/Early.antt =====
-- A message whose offset lies before the first one that came in of its partition.
use relentless_bookworm.Base.{
  ℕ, zero, suc, ◌+◌, ◌<◌, ◌≡◌, ◌≢◌, refl, subst, Bool, true, false, none, List, [], ◌∷◌, arith,
  ◌==◌, ◌&&◌, ==_iff, Bool-cases, inl, inr,
}
use relentless_bookworm.Commit.{
  Message, Coordinator, new_commit_coordinator, next_of, enqueue, commit_next, receive, flush, run,
  commit_next_cases,
}
use relentless_bookworm.Commit.Keeps.{run_keeps, flush_keeps, receive_keeps}
use relentless_bookworm.Commit.View.{
  buffered, buffered-enqueue, buffered-advance, buffered-requeue, next_of-some,
}
use relentless_bookworm.Commit.InOrder.{
  offsets, upfrom, InOrder, IsFresh, enqueue-InOrder, commit_next-InOrder, enqueue-starts,
  commit_next-IsFresh, enqueue-IsFresh,
}
use relentless_bookworm.Commit.Sequence.{first_offset, commits_in_order, new-IsFresh}
use relentless_bookworm.Commit.Held.{has}

has-upfrom : (o s n : ℕ) → o < s → has o (upfrom s n) ≡ false
unfolding has upfrom
has-upfrom o s zero h = refl
has-upfrom o s (suc n) h = ground (arith, has-upfrom o (s + 1) n)

-- Partition q is in order from s on, and the offset o before s is buffered.
record IsStuck (s q o : ℕ) (c : Coordinator) : Type 0 where
  order : InOrder s q c
  before : o < s
  kept : buffered c q o ≢ none

enqueue-IsStuck :
    (s q o : ℕ) (c : Coordinator) (m : Message) → IsStuck s q o c → IsStuck s q o (enqueue c m)
enqueue-IsStuck s q o c m h = record {
  order = enqueue-InOrder s q c m h.order;
  before = h.before;
  kept = ground (arith, buffered-enqueue c m q o);
}

enqueue-IsStuck_self :
    (s q o : ℕ) (c : Coordinator) (m : Message)
    → (m.partition == q) ≡ true
    → (m.offset == o) ≡ true
    → o < s
    → InOrder s q c
    → IsStuck s q o (enqueue c m)
enqueue-IsStuck_self s q o c m p r b h = record {
  order = enqueue-InOrder s q c m h;
  before = b;
  kept = rw (buffered-enqueue, p, r) (λ e. cc);
}

commit_next-IsStuck :
    (accepts : ℕ → Message → Bool) (s q o p : ℕ) (c : Coordinator)
    → IsStuck s q o c
    → IsStuck s q o (commit_next accepts c p).0
commit_next-IsStuck accepts s q o p c h =
    commit_next_cases accepts (λ r. InOrder s q r.0 → IsStuck s q o r.0) c p (λ _ _. h)
      (λ m e _ k. record {
        order = k;
        before = h.before;
        kept = ground (
          arith,
          ==_iff p q,
          buffered-advance c p (next_of c p) m q o,
          next_of-some c q (s + h.order.count) h.order.next,
        );
      })
      (λ m e _ k. record {
        order = k;
        before = h.before;
        kept = ground (arith, buffered-requeue c p (next_of c p) m q o);
      })
      (commit_next-InOrder accepts s q p c h.order)

module _ (accepts : ℕ → Message → Bool) (s q o : ℕ) where
  run-IsStuck :
      (c : Coordinator) (ms : List Message) → IsStuck s q o c → IsStuck s q o (run accepts c ms)
  run-IsStuck =
      run_keeps accepts (IsStuck s q o) (commit_next-IsStuck accepts s q o) (enqueue-IsStuck s q o)

  run_sticks :
      (c : Coordinator) (ms : List Message)
      → o < s
      → has o (offsets q ms) ≡ true
      → InOrder s q c
      → IsStuck s q o (run accepts c ms)
  unfolding run offsets has
  run_sticks c [] b h k = cc
  run_sticks c (m ∷ ms) b h k = elim (Bool-cases (m.partition == q && m.offset == o)) [
    | inl hit ↦ run-IsStuck (receive accepts c m) ms (
        receive_keeps accepts (IsStuck s q o) (commit_next-IsStuck accepts s q o) c m
          (enqueue-IsStuck_self s q o c m (ground arith) (ground arith) b k))
    | inr miss ↦ run_sticks (receive accepts c m) ms b (ground arith) (
        receive_keeps accepts (InOrder s q) (commit_next-InOrder accepts s q) c m
          (enqueue-InOrder s q c m k))
  ]

  run_sticks_fresh :
      (c : Coordinator) (ms : List Message)
      → s ≡ first_offset q ms
      → o < s
      → has o (offsets q ms) ≡ true
      → IsFresh q c
      → IsStuck s q o (run accepts c ms)
  unfolding run offsets first_offset has
  run_sticks_fresh c [] f b h k = cc
  run_sticks_fresh c (m ∷ ms) f b h k = elim (Bool-cases (m.partition == q)) [
    | inr other ↦ run_sticks_fresh (receive accepts c m) ms (ground arith) b (ground arith) (
        receive_keeps accepts (IsFresh q) (commit_next-IsFresh accepts q) c m
          (enqueue-IsFresh q c m other k))
    | inl same ↦ run_sticks (receive accepts c m) ms b (ground arith) (
        receive_keeps accepts (InOrder s q) (commit_next-InOrder accepts s q) c m
          (subst (λ n. InOrder n q (enqueue c m)) (ground arith) (enqueue-starts q c m same k)))
  ]

-- The first message of a partition that completes fixes where its sequence starts, also when
-- messages of lower offset are still worked on. When those complete they are buffered for good:
-- no later message and no final flush commits them.
pub early_never_committed :
    (accepts : ℕ → Message → Bool) (ms : List Message) (ps : List ℕ) (q o : ℕ)
    → has o (offsets q ms) ≡ true
    → o < first_offset q ms
    → let c = flush accepts (run accepts new_commit_coordinator ms) ps in
      (buffered c q o ≢ none) × (has o (offsets q c.committed) ≡ false)
early_never_committed accepts ms ps q o came before = (
  (flush_keeps accepts (IsStuck (first_offset q ms) q o)
      (commit_next-IsStuck accepts (first_offset q ms) q o) _ ps
      (run_sticks_fresh accepts (first_offset q ms) q o new_commit_coordinator ms refl before came
        (new-IsFresh q))).kept,
  rw commits_in_order (has-upfrom o (first_offset q ms) _ before),
)
