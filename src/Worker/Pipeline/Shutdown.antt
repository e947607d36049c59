-- ===== src/Worker/Pipeline/Shutdown.antt =====
-- How a worker process may fail to shut down, and how sends may pile up.
use relentless_bookworm.Base.{
  ℕ, zero, suc, ◌≤◌, ◌<◌, ◌≡◌, refl, inl, true, false, List, [], ◌∷◌, ◌++◌, arith, length,
  length-append,
}
use relentless_bookworm.Commit.{Message}
use relentless_bookworm.Worker.Pipeline.{
  nothing_to_do, new_job, sends, System, init, Step, fetch, start, give_up, pass, pass_over, finish,
  send, hand_over, send_on_closed, receive, cancel, coordinator_returns, run_returns, close, Steps,
  here, next, Reach,
}

-- A job's goroutine calls `wg.Done()` before it sends its message. So `main` may close the channel in
-- between, and the send panics: with any semaphore and channel, a worker that gets one job and then a
-- signal can come to that, with its message not received.
pub send_may_panic :
    (slots capacity : ℕ) (m : Message)
    → 0 < slots
    → (s : System) × Reach slots capacity s
      × (s.panicked ≡ true)
      × (s.received ≡ [])
      × (s.fetched ≡ m ∷ [])
send_may_panic slots capacity m h = (
  _,
  next _
      (next _
        (next _
          (next _
            (next _ (next _ (next _ here (fetch m new_job refl refl)) (start m refl h refl))
              (cancel refl))
            (finish [] m [] refl refl))
          (run_returns refl refl refl))
        (close refl refl refl refl))
      (send_on_closed [] m [] refl refl refl),
  refl,
  refl,
  refl,
)

abbrev piled : List Message → System
piled ms = record init { sending = ms; fetched = ms }

Reach-piled : (slots capacity : ℕ) (ms : List Message) → 0 < slots → Reach slots capacity (piled ms)
Reach-piled slots capacity [] h = here
Reach-piled slots capacity (m ∷ ms) h =
    next _
      (next _ (next _ (Reach-piled slots capacity ms h) (fetch m new_job refl refl))
        (start m refl h refl))
      (finish [] m [] refl refl)

-- A job gives its slot back before its send. So the semaphore does not bound the goroutines: while
-- the coordinator is busy with one commit, any messages at all may stand at their send at once,
-- with a single slot, and no job is running.
pub sends_pile_up :
    (slots capacity : ℕ) (ms : List Message)
    → 0 < slots
    → (s : System) × Reach slots capacity s
      × (s.sending ≡ ms)
      × (s.running ≡ [])
      × (s.coordinating ≡ true)
sends_pile_up slots capacity ms h = (piled ms, Reach-piled slots capacity ms h, refl, refl, refl)

-- The dispatcher is at a send, the channel is full, and the coordinator has returned.
pub record IsHung (m : Message) (capacity : ℕ) (s : System) : Type 0 where
  pub at_send : s.dispatcher ≡ sends m
  pub full : length s.channel ≡ capacity
  pub gone : s.coordinating ≡ false

module _ (slots capacity : ℕ) (m : Message) where
  Step-IsHung : (s t : System) → Step slots capacity s t → IsHung m capacity s → IsHung m capacity t
  Step-IsHung s t (fetch m v d e) h = ground arith
  Step-IsHung s t (start n d l e) h = ground arith
  Step-IsHung s t (give_up n d c e) h = ground arith
  Step-IsHung s t (pass n d l e) h = absurd (omega (arith, h.full))
  Step-IsHung s t (pass_over n d r c e) h = ground arith
  Step-IsHung s t (finish xs n ys r e) h = ground arith
  Step-IsHung s t (send xs n ys r c l e) h = absurd (omega (arith, h.full))
  Step-IsHung s t (hand_over xs n ys r c k a e) h = ground arith
  Step-IsHung s t (send_on_closed xs n ys r c e) h = ground arith
  Step-IsHung s t (receive n rest r c e) h = ground arith
  Step-IsHung s t (cancel e) h = ground arith
  Step-IsHung s t (coordinator_returns a c e) h = ground arith
  Step-IsHung s t (run_returns d c e) h = ground arith
  Step-IsHung s t (close d r c e) h = ground arith

  Steps-IsHung :
      (s : System) {t : System}
      → Steps slots capacity s t
      → IsHung m capacity s
      → IsHung m capacity t
  Steps-IsHung s here h = h
  Steps-IsHung s (next {t = u} t r st) h = Step-IsHung u t st (Steps-IsHung s r h)

  abbrev filled : List Message → List Message → System
  filled ms fs = record init { channel = ms; fetched = fs }

  -- A channel with k messages that had nothing to do.
  Reach-filled :
      (k : ℕ)
      → k ≤ capacity
      → (ms : List Message) × (fs : List Message) × (length ms ≡ k)
        × Reach slots capacity (filled ms fs)
  Reach-filled zero h = ([], [], refl, here)
  Reach-filled (suc k) h =
      let (ms, fs, e, r) = Reach-filled k (omega arith) in
      (
        ms ++ m ∷ [],
        m ∷ fs,
        omega (arith, length-append ms (m ∷ []), e),
        next _ (next _ r (fetch m nothing_to_do refl refl)) (pass m refl (omega (arith, e)) refl),
      )

  -- The coordinator returns on a signal while others still send to it. With any semaphore and
  -- channel a worker process can come to a state in which `run` stands at its send with the
  -- channel full; and whatever happens from there on, `run` never returns: the process hangs.
  pub shutdown_may_hang :
      (s : System) × Reach slots capacity s
      × (s.cancelled ≡ true)
      × ((t : System) → Steps slots capacity s t → t.dispatcher ≡ sends m)
  shutdown_may_hang =
      let (ms, fs, e, r) = Reach-filled capacity (omega arith) in
      let s = record (filled ms (m ∷ fs)) {
        dispatcher = sends m;
        cancelled = true;
        coordinating = false;
      } in
      (
        s,
        next s (next _ (next _ r (fetch m nothing_to_do refl refl)) (cancel refl))
            (coordinator_returns refl (inl refl) refl),
        refl,
        λ t st. (Steps-IsHung s st (record { at_send = refl; full = e; gone = refl })).at_send,
      )
