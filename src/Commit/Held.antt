-- ===== src/Commit/Held.antt =====
-- Where a message is that came in: before the next offset, or in the buffer.
use relentless_bookworm.Base.{
  ℕ, ◌<◌, ◌≡◌, ◌≢◌, Bool, true, false, none, List, [], ◌∷◌, arith, ◌⊎◌, ◌==◌, ◌||◌, ==_iff,
  Bool-cases, inl, inr,
}
use relentless_bookworm.Commit.{
  Message, Coordinator, next_of, enqueue, commit_next, receive, run, commit_next_cases,
}
use relentless_bookworm.Commit.Keeps.{run_keeps, receive_keeps}
use relentless_bookworm.Commit.View.{
  buffered, next?-enqueue, buffered-enqueue, next?-advance, buffered-advance, next?-requeue,
  buffered-requeue,
}
use relentless_bookworm.Commit.InOrder.{offsets}

-- The offset lies before the next one to commit, or its message is buffered.
abbrev pub Held : ℕ → ℕ → Coordinator → Type 0
Held q o c = (o < next_of c q) ⊎ (buffered c q o ≢ none)

enqueue-Held : (q o : ℕ) (c : Coordinator) (m : Message) → Held q o c → Held q o (enqueue c m)
unfolding next_of
enqueue-Held q o c m h = ground (arith, next?-enqueue c m q, buffered-enqueue c m q o)

enqueue-Held_self :
    (q o : ℕ) (c : Coordinator) (m : Message)
    → (m.partition == q) ≡ true
    → (m.offset == o) ≡ true
    → Held q o (enqueue c m)
enqueue-Held_self q o c m p r = inr (rw (buffered-enqueue, p, r) (λ e. cc))

commit_next-Held :
    (accepts : ℕ → Message → Bool) (q o p : ℕ) (c : Coordinator)
    → Held q o c
    → Held q o (commit_next accepts c p).0
unfolding next_of
commit_next-Held accepts q o p c h =
    commit_next_cases accepts (λ r. Held q o r.0) c p (λ _. h)
      (λ m e a. ground (
        arith,
        ==_iff p q,
        next?-advance c p (next_of c p) m q,
        buffered-advance c p (next_of c p) m q o,
      ))
      (λ m e a.
        ground
          (arith, next?-requeue c p (next_of c p) m q, buffered-requeue c p (next_of c p) m q o))

unfoldable pub has : ℕ → List ℕ → Bool
has o [] = false
has o (x ∷ xs) = x == o || has o xs

module _ (accepts : ℕ → Message → Bool) where
  pub run-Held :
      (q o : ℕ) (c : Coordinator) (ms : List Message) → Held q o c → Held q o (run accepts c ms)
  run-Held q o = run_keeps accepts (Held q o) (commit_next-Held accepts q o) (enqueue-Held q o)

  -- Every message that came in lies before the next offset to commit, or is buffered.
  pub run_holds :
      (q o : ℕ) (c : Coordinator) (ms : List Message)
      → has o (offsets q ms) ≡ true
      → Held q o (run accepts c ms)
  unfolding run offsets has
  run_holds q o c [] h = cc
  run_holds q o c (m ∷ ms) h = elim (Bool-cases (m.partition == q)) [
    | inr other ↦ run_holds q o (receive accepts c m) ms (ground arith)
    | inl same ↦ elim (Bool-cases (m.offset == o)) [
      | inl hit ↦ run-Held q o (receive accepts c m) ms (
          receive_keeps accepts (Held q o) (commit_next-Held accepts q o) c m
            (enqueue-Held_self q o c m same hit))
      | inr miss ↦ run_holds q o (receive accepts c m) ms (ground arith)
    ]
  ]
