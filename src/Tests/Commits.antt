-- ===== src/Tests/Commits.antt =====
-- Runs of the commit coordinator.
use relentless_bookworm.Base.{
  ℕ, Bool, zero, suc, ◌+◌, ◌≤◌, ◌<◌, ◌≡◌, ◌≢◌, refl, true, false, none, List, [], ◌∷◌, length,
  arith,
}
use relentless_bookworm.Map.{insert, delete, lookup}
use relentless_bookworm.Commit.{
  Message, new_commit_coordinator, flush, run, receive, enqueue, drain, drain_loop, commit_next,
  slot, next_of, advance, requeue,
}
use relentless_bookworm.Commit.View.{buffered}
use relentless_bookworm.Commit.InOrder.{offsets, upfrom}
use relentless_bookworm.Commit.Sequence.{first_offset, commits_in_order}
use relentless_bookworm.Commit.Held.{has}
use relentless_bookworm.Commit.Complete.{commits_complete}
use relentless_bookworm.Commit.Missing.{missing_holds_back}
use relentless_bookworm.Commit.Arrival.{arrival_order_irrelevant}
use relentless_bookworm.Commit.Gauge.{HasDrift, present, new-HasDrift, receive-HasDrift}
use relentless_bookworm.Commit.Early.{early_never_committed}
use relentless_bookworm.Tests.Fixtures.{at, always}

-- 4, 6 and 5 complete in this order: all are committed, in the order of the offsets.
abbrev some_messages : List Message
some_messages = at 4 ∷ at 6 ∷ at 5 ∷ []

three_committed :
    offsets 0 (run always new_commit_coordinator some_messages).committed ≡ 4 ∷ 5 ∷ 6 ∷ []
unfolding run offsets new_commit_coordinator receive drain drain_loop commit_next lookup slot
    enqueue insert next_of advance delete
three_committed = refl

commits_in_order_example :
    offsets 0 (flush always (run always new_commit_coordinator some_messages) (0 ∷ [])).committed
    ≡ upfrom (first_offset 0 some_messages) (
        length (
          offsets 0
            (flush always (run always new_commit_coordinator some_messages) (0 ∷ [])).committed))
commits_in_order_example = commits_in_order always some_messages (0 ∷ []) 0

received : (i : ℕ) → i < 3 → has (first_offset 0 some_messages + i) (offsets 0 some_messages) ≡ true
unfolding has offsets first_offset
received zero h = refl
received (suc zero) h = refl
received (suc (suc zero)) h = refl
received (suc (suc (suc i))) h = absurd (omega arith)

commits_complete_example :
    3 ≤ length (offsets 0 (run always new_commit_coordinator some_messages).committed)
commits_complete_example = commits_complete always some_messages 0 3 (λ n m. refl) received

seven_missing : has 7 (offsets 0 some_messages) ≡ false
unfolding has offsets
seven_missing = refl

first_is_four : first_offset 0 some_messages ≤ 7
unfolding first_offset offsets
first_is_four = omega arith

missing_holds_back_example :
    first_offset 0 some_messages
      + length (
          offsets 0
            (flush always (run always new_commit_coordinator some_messages) (0 ∷ [])).committed)
    ≤ 7
missing_holds_back_example =
    missing_holds_back always some_messages (0 ∷ []) 0 7 seven_missing first_is_four

-- 3 completes behind 5.
abbrev late : List Message
late = at 5 ∷ at 3 ∷ []

late_came : has 3 (offsets 0 late) ≡ true
unfolding has offsets
late_came = refl

late_is_lower : 3 < first_offset 0 late
unfolding first_offset offsets
late_is_lower = omega arith

early_never_committed_example :
    let c = flush always (run always new_commit_coordinator late) (0 ∷ []) in
    (buffered c 0 3 ≢ none) × (has 3 (offsets 0 c.committed) ≡ false)
early_never_committed_example =
    early_never_committed always late (0 ∷ []) 0 3 late_came late_is_lower

-- The same messages, 6 once more, and in another order.
abbrev other_order : List Message
other_order = at 4 ∷ at 5 ∷ at 6 ∷ at 6 ∷ []

same_offsets : (o : ℕ) → has o (offsets 0 some_messages) ≡ has o (offsets 0 other_order)
unfolding has offsets
same_offsets o = ground arith

same_first : first_offset 0 some_messages ≡ first_offset 0 other_order
unfolding first_offset offsets
same_first = refl

arrival_order_irrelevant_example :
    offsets 0 (run always new_commit_coordinator some_messages).committed
    ≡ offsets 0 (run always new_commit_coordinator other_order).committed
arrival_order_irrelevant_example =
    arrival_order_irrelevant always always some_messages other_order 0 (λ n m. refl) (λ n m. refl)
      same_first same_offsets

-- The reader accepts no commit.
abbrev never : ℕ → Message → Bool
never n m = false

first_waits :
    HasDrift
      (present (buffered new_commit_coordinator 0 4) + 0)
      (receive never new_commit_coordinator (at 4))
first_waits = receive-HasDrift never 0 new_commit_coordinator (at 4) new-HasDrift

receive-HasDrift_example :
    let c = receive never new_commit_coordinator (at 4) in
    HasDrift
      (present (buffered c 0 4) + (present (buffered new_commit_coordinator 0 4) + 0))
      (receive never c (at 4))
receive-HasDrift_example =
    receive-HasDrift never (present (buffered new_commit_coordinator 0 4) + 0)
      (receive never new_commit_coordinator (at 4)) (at 4) first_waits

-- So the gauge is one ahead.
ahead_by_one :
    let c = receive never new_commit_coordinator (at 4) in
    present (buffered c 0 4) + (present (buffered new_commit_coordinator 0 4) + 0) ≡ 1
unfolding buffered new_commit_coordinator receive drain drain_loop commit_next lookup slot enqueue
    insert next_of advance delete requeue
ahead_by_one = refl
