-- ===== src/Commit/Drain.antt =====
-- How the drain loop ends.
use relentless_bookworm.Base.{
  ℕ, zero, suc, ◌+◌, ◌<◌, ◌≡◌, ◌≢◌, refl, subst, ◌∙◌, Bool, true, false, none, some, arith, ◌⊎◌,
  ◌==◌, ==_refl, length, inl, inr,
}
use relentless_bookworm.Map.{lookup, lookup-insert, length-delete-lt}
use relentless_bookworm.Commit.{
  Message, Coordinator, slot, or_empty, next_of, requeue, advance, commit_next, drain_loop, drain,
  commit_next_cases,
}
use relentless_bookworm.Commit.Keeps.{drain_keeps}
use relentless_bookworm.Commit.View.{
  buffered, next?, next?-advance, buffered-advance, next?-requeue, buffered-requeue,
}

slot-advance :
    (c : Coordinator) (p next : ℕ) (m : Message)
    → lookup next (slot c p) ≡ some m
    → length (slot (advance c p next m) p) < length (slot c p)
unfolding advance slot
slot-advance c p next m h =
    rw (lookup-insert, ==_refl) (length-delete-lt next m (or_empty (lookup p c.pending)) h)

commit_errors-advance :
    (c : Coordinator) (p next : ℕ) (m : Message)
    → (advance c p next m).commit_errors ≡ c.commit_errors
unfolding advance
commit_errors-advance c p next m = refl

commit_errors-requeue :
    (c : Coordinator) (p next : ℕ) (m : Message)
    → (requeue c p next m).commit_errors ≡ c.commit_errors + 1
unfolding requeue
commit_errors-requeue c p next m = refl

next_of-requeue :
    (c : Coordinator) (p next : ℕ) (m : Message) → next_of (requeue c p next m) p ≡ next_of c p
unfolding next_of requeue
next_of-requeue c p next m = refl

-- How a drain of partition p that began with `errors` failed commits may end, in d.
abbrev pub Ended : ℕ → Coordinator → ℕ → Type 0
Ended errors d p =
    ((buffered d p (next_of d p) ≡ none) × (d.commit_errors ≡ errors))
    ⊎ ((buffered d p (next_of d p) ≢ none) × (d.commit_errors ≡ errors + 1))

module _ (accepts : ℕ → Message → Bool) where
  drain_loop_ends :
      (p fuel : ℕ) (c : Coordinator)
      → length (slot c p) < fuel
      → Ended c.commit_errors (drain_loop accepts fuel c p) p
  unfolding drain_loop
  drain_loop_ends p zero c h = elim h [ ]
  drain_loop_ends p (suc fuel) c h =
      commit_next_cases accepts
        (λ r.
          Ended c.commit_errors (elim r.1 [ true ↦ drain_loop accepts fuel r.0 p | false ↦ r.0 ]) p)
        c p (λ e. inl (e, refl))
        (λ m e a.
          subst (λ n. Ended n (drain_loop accepts fuel (advance c p (next_of c p) m) p) p)
            (commit_errors-advance c p (next_of c p) m)
            (drain_loop_ends p fuel (advance c p (next_of c p) m)
              (omega (arith, slot-advance c p (next_of c p) m e))))
        (λ m e a. inr (
          rw (next_of-requeue, buffered-requeue, ==_refl, ==_refl) (λ q. cc),
          commit_errors-requeue c p (next_of c p) m,
        ))

  -- A drain, on the fuel that it is given, always ends as the source's loop does: either the next
  -- offset of the partition is not buffered and no commit failed, or it is buffered still and
  -- exactly one commit of the drain failed.
  pub drain_ends : (c : Coordinator) (p : ℕ) → Ended c.commit_errors (drain accepts c p) p
  unfolding drain
  drain_ends c p = drain_loop_ends p _ c (omega arith)

  -- With a reader that accepts everything no commit fails.
  commit_next_errors :
      (always : (n : ℕ) (m : Message) → accepts n m ≡ true) (errors p : ℕ) (c : Coordinator)
      → c.commit_errors ≡ errors
      → (commit_next accepts c p).0.commit_errors ≡ errors
  commit_next_errors always errors p c h =
      commit_next_cases accepts (λ r. r.0.commit_errors ≡ errors) c p (λ _. h)
        (λ m e a. commit_errors-advance c p (next_of c p) m ∙ h) (λ m e a. cc (always c.calls m))

  pub drain_all :
      (always : (n : ℕ) (m : Message) → accepts n m ≡ true) (c : Coordinator) (p : ℕ)
      → let d = drain accepts c p in buffered d p (next_of d p) ≡ none
  drain_all always c p = elim (drain_ends c p) [
    | inl (e, _) ↦ e
    | inr (_, more) ↦ absurd (
        omega (
          arith,
          drain_keeps accepts (λ d. d.commit_errors ≡ c.commit_errors) p
              (commit_next_errors always c.commit_errors p) c refl,
        ))
  ]

  -- Work on partition p leaves partition q alone.
  pub commit_next_elsewhere :
      (p q : ℕ) (b : Coordinator)
      → (p == q) ≡ false
      → (c : Coordinator) → ((o : ℕ) → buffered c q o ≡ buffered b q o) × (next? c q ≡ next? b q)
      → ((o : ℕ) → buffered (commit_next accepts c p).0 q o ≡ buffered b q o)
        × (next? (commit_next accepts c p).0 q ≡ next? b q)
  commit_next_elsewhere p q b other c h =
      commit_next_cases accepts
        (λ r. ((o : ℕ) → buffered r.0 q o ≡ buffered b q o) × (next? r.0 q ≡ next? b q)) c p
        (λ _. h)
        (λ m e a. (
          λ o. ground (arith, buffered-advance c p (next_of c p) m q o, h.0 o),
          ground (arith, next?-advance c p (next_of c p) m q),
        ))
        (λ m e a. (
          λ o. ground (arith, buffered-requeue c p (next_of c p) m q o, h.0 o),
          rw next?-requeue h.1,
        ))
