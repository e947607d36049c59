-- ===== src/Commit/Missing.antt =====
-- Messages that do not come in.
use relentless_bookworm.Base.{
  Bool-cases, inl, inr, ℕ, zero, suc, ◌+◌, ◌≤◌, ◌<◌, ◌≡◌, refl, Bool, true, false, none, List, [],
  ◌∷◌, ◌++◌, arith, ◌==◌, ◌||◌, ◌&&◌, ==_iff, length,
}
use relentless_bookworm.Map.{lookup}
use relentless_bookworm.Commit.{
  Message, Coordinator, new_commit_coordinator, slot, next_of, enqueue, commit_next, receive, flush,
  run, commit_next_cases,
}
use relentless_bookworm.Commit.Keeps.{flush_keeps, receive_keeps}
use relentless_bookworm.Commit.View.{
  buffered, buffered-enqueue, buffered-advance, buffered-requeue, committed-enqueue,
  committed-advance, committed-requeue,
}
use relentless_bookworm.Commit.InOrder.{
  offsets, upfrom, IsKeyed, enqueue-IsKeyed, commit_next-IsKeyed, offsets-snoc,
}
use relentless_bookworm.Commit.Sequence.{first_offset, commits_in_order, new-IsFresh}
use relentless_bookworm.Commit.Held.{has}

-- The offset o of partition q is neither buffered nor committed.
record IsAbsent (q o : ℕ) (c : Coordinator) : Type 0 where
  keyed : IsKeyed c
  not_buffered : buffered c q o ≡ none
  not_committed : has o (offsets q c.committed) ≡ false

has-snoc : (o x : ℕ) (xs : List ℕ) → has o (xs ++ x ∷ []) ≡ (has o xs || x == o)
unfolding has
has-snoc o x [] = ground arith
has-snoc o x (y ∷ ys) = ground (arith, has-snoc o x ys)

pub has-upfrom_inside : (o s n : ℕ) → s ≤ o → o < s + n → has o (upfrom s n) ≡ true
unfolding has upfrom
has-upfrom_inside o s zero h k = absurd (omega arith)
has-upfrom_inside o s (suc n) h k = ground (arith, has-upfrom_inside o (s + 1) n)

enqueue-IsAbsent :
    (q o : ℕ) (c : Coordinator) (m : Message)
    → (m.partition == q && m.offset == o) ≡ false
    → IsAbsent q o c
    → IsAbsent q o (enqueue c m)
enqueue-IsAbsent q o c m other h = record {
  keyed = enqueue-IsKeyed c m h.keyed;
  not_buffered = ground (arith, buffered-enqueue c m q o, h.not_buffered);
  not_committed = rw committed-enqueue h.not_committed;
}

commit_next-IsAbsent :
    (accepts : ℕ → Message → Bool) (q o p : ℕ) (c : Coordinator)
    → IsAbsent q o c
    → IsAbsent q o (commit_next accepts c p).0
commit_next-IsAbsent accepts q o p c h =
    commit_next_cases accepts (λ r. IsKeyed r.0 → IsAbsent q o r.0) c p (λ _ _. h)
      (λ m e _ k. record {
        keyed = k;
        not_buffered = ground (arith, buffered-advance c p (next_of c p) m q o, h.not_buffered);
        not_committed = ground (
          arith,
          committed-advance c p (next_of c p) m,
          offsets-snoc q c.committed m,
          has-snoc o m.offset (offsets q c.committed),
          h.keyed.at p (next_of c p) m e,
          ==_iff m.partition q,
          ==_iff m.offset o,
          h.not_buffered,
          h.not_committed,
        );
      })
      (λ m e _ k. record {
        keyed = k;
        not_buffered = ground (
          arith,
          ==_iff p q,
          ==_iff (next_of c p) o,
          buffered-requeue c p (next_of c p) m q o,
          h.not_buffered,
        );
        not_committed = rw committed-requeue h.not_committed;
      })
      (commit_next-IsKeyed accepts p c h.keyed)

module _ (accepts : ℕ → Message → Bool) (q o : ℕ) where
  run-IsAbsent :
      (c : Coordinator) (ms : List Message)
      → has o (offsets q ms) ≡ false
      → IsAbsent q o c
      → IsAbsent q o (run accepts c ms)
  unfolding run offsets has
  run-IsAbsent c [] n h = h
  run-IsAbsent c (m ∷ ms) n h = run-IsAbsent (receive accepts c m) ms (ground arith) (
      receive_keeps accepts (IsAbsent q o) (commit_next-IsAbsent accepts q o) c m
        (enqueue-IsAbsent q o c m (ground arith) h))

new-IsAbsent : (q o : ℕ) → IsAbsent q o new_commit_coordinator
unfolding new_commit_coordinator slot lookup offsets has
new-IsAbsent q o = record {
  keyed = (new-IsFresh q).keyed;
  not_buffered = refl;
  not_committed = refl;
}

absent_not_committed :
    (accepts : ℕ → Message → Bool) (ms : List Message) (ps : List ℕ) (q o : ℕ)
    → has o (offsets q ms) ≡ false
    → has o (offsets q (flush accepts (run accepts new_commit_coordinator ms) ps).committed) ≡ false
absent_not_committed accepts ms ps q o missing =
    (flush_keeps accepts (IsAbsent q o) (commit_next-IsAbsent accepts q o)
      (run accepts new_commit_coordinator ms) ps
      (run-IsAbsent accepts q o new_commit_coordinator ms missing (new-IsAbsent q o))).not_committed

-- What is committed came in.
pub committed_came :
    (accepts : ℕ → Message → Bool) (ms : List Message) (ps : List ℕ) (q o : ℕ)
    → has o (offsets q (flush accepts (run accepts new_commit_coordinator ms) ps).committed) ≡ true
    → has o (offsets q ms) ≡ true
committed_came accepts ms ps q o c = elim (Bool-cases (has o (offsets q ms))) [
  | inl came ↦ came
  | inr missing ↦ let n = absent_not_committed accepts ms ps q o missing in cc
]

-- A message that did not come in holds back its partition: however the reader answers, and also in
-- the final flush, no offset from its own on is committed. (It is one behind the first that came.)
pub missing_holds_back :
    (accepts : ℕ → Message → Bool) (ms : List Message) (ps : List ℕ) (q o : ℕ)
    → has o (offsets q ms) ≡ false
    → first_offset q ms ≤ o
    → first_offset q ms
        + length (offsets q (flush accepts (run accepts new_commit_coordinator ms) ps).committed)
      ≤ o
missing_holds_back accepts ms ps q o missing behind = ground (
  arith,
  commits_in_order accepts ms ps q,
  has-upfrom_inside o (first_offset q ms)
      (length (offsets q (flush accepts (run accepts new_commit_coordinator ms) ps).committed)),
  absent_not_committed accepts ms ps q o missing,
)
