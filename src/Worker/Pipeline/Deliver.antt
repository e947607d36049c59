-- ===== src/Worker/Pipeline/Deliver.antt =====
-- What a worker process promises of its messages.
use relentless_bookworm.Base.{ℕ, ◌≡◌, refl, Bool, true, false, ◌&&◌, List, [], ◌∷◌, arith, ◌==◌}
use relentless_bookworm.Commit.{Message, flush}
use relentless_bookworm.Commit.InOrder.{offsets}
use relentless_bookworm.Commit.Held.{has}
use relentless_bookworm.Commit.Missing.{committed_came}
use relentless_bookworm.Worker.Pipeline.{System, Reach, coordinator}
use relentless_bookworm.Worker.Pipeline.Sound.{count, held, Reach-Placed}

-- The message has this partition and offset.
abbrev pub has_place : ℕ → ℕ → Message → Bool
has_place q o m = m.partition == q && m.offset == o

count-has :
    (q o : ℕ) (ms : List Message) → count (has_place q o) ms ≡ 0 → has o (offsets q ms) ≡ false
unfolding has offsets
count-has q o [] h = refl
count-has q o (m ∷ ms) h = ground (arith, count-has q o ms)

-- A message is committed only when its work is done, in every state of a worker process, however the
-- reader answers, and also in the final flush: if an offset of a partition is committed, and was
-- fetched once, then its message is not with the loop of `run`, no job that it started is running
-- or before its send, and it was not given up.
pub committed_is_done :
    (slots capacity : ℕ) (accepts : ℕ → Message → Bool) (ps : List ℕ) (s : System) (q o : ℕ)
    → Reach slots capacity s
    → count (has_place q o) s.fetched ≡ 1
    → has o (offsets q (flush accepts (coordinator accepts s) ps).committed) ≡ true
    → (count (has_place q o) (held s.dispatcher) ≡ 0)
      × (count (has_place q o) s.running ≡ 0)
      × (count (has_place q o) s.sending ≡ 0)
      × (count (has_place q o) s.dropped ≡ 0)
committed_is_done slots capacity accepts ps s q o r once c = ground (
  arith,
  committed_came accepts s.received ps q o c,
  count-has q o s.received,
  Reach-Placed slots capacity s r (has_place q o),
)
