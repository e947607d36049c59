-- ===== src/Commit/Keeps.antt =====
-- Induction rules: what one step of the coordinator keeps, its loops keep.
use relentless_bookworm.Base.{ℕ, zero, suc, Bool, List, [], ◌∷◌, Bool-cases, inl, inr}
use relentless_bookworm.Commit.{
  Message, Coordinator, enqueue, commit_next, drain_loop, drain, flush, receive, run,
}

module _ {ℓ} (accepts : ℕ → Message → Bool) (P : Coordinator → Type ℓ) where
  drain_loop_keeps :
      (p : ℕ)
      → ((c : Coordinator) → P c → P (commit_next accepts c p).0)
      → (fuel : ℕ) (c : Coordinator) → P c
      → P (drain_loop accepts fuel c p)
  unfolding drain_loop
  drain_loop_keeps p step zero c h = h
  drain_loop_keeps p step (suc fuel) c h = elim (Bool-cases (commit_next accepts c p).1) [
    | inl e ↦ rw (e, drain_loop) (drain_loop_keeps p step fuel _ (step c h))
    | inr e ↦ rw (e, drain_loop) (step c h)
  ]

  pub drain_keeps :
      (p : ℕ)
      → ((c : Coordinator) → P c → P (commit_next accepts c p).0)
      → (c : Coordinator) → P c
      → P (drain accepts c p)
  unfolding drain
  drain_keeps p step c h = drain_loop_keeps p step _ c h

  pub flush_keeps :
      ((p : ℕ) (c : Coordinator) → P c → P (commit_next accepts c p).0)
      → (c : Coordinator) (ps : List ℕ) → P c
      → P (flush accepts c ps)
  unfolding flush
  flush_keeps step c [] h = h
  flush_keeps step c (p ∷ ps) h =
      flush_keeps step (drain accepts c p) ps (drain_keeps p (step p) c h)

  pub receive_keeps :
      ((p : ℕ) (c : Coordinator) → P c → P (commit_next accepts c p).0)
      → (c : Coordinator) (m : Message) → P (enqueue c m)
      → P (receive accepts c m)
  unfolding receive
  receive_keeps step c m h = drain_keeps m.partition (step m.partition) (enqueue c m) h

  pub run_keeps :
      ((p : ℕ) (c : Coordinator) → P c → P (commit_next accepts c p).0)
      → ((c : Coordinator) (m : Message) → P c → P (enqueue c m))
      → (c : Coordinator) (ms : List Message) → P c
      → P (run accepts c ms)
  unfolding run
  run_keeps step add c [] h = h
  run_keeps step add c (m ∷ ms) h =
      run_keeps step add (receive accepts c m) ms (receive_keeps step c m (add c m h))
