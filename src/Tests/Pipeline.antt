-- ===== src/Tests/Pipeline.antt =====
-- The goroutines of a worker, at small semaphores and channels.
use relentless_bookworm.Base.{ℕ, some, ◌≤◌, ◌≡◌, refl, true, [], ◌∷◌, arith, ◌<◌, length, ◌+◌}
use relentless_bookworm.Map.{lookup, insert, delete}
use relentless_bookworm.Commit.{
  flush, run, receive, enqueue, drain, commit_next, advance, new_commit_coordinator, drain_loop,
  next_of,
}
use relentless_bookworm.Commit.InOrder.{offsets}
use relentless_bookworm.Commit.Held.{has}
use relentless_bookworm.Worker.Dispatch.{dispatch_message}
use relentless_bookworm.Worker.Pipeline.{
  System, init, sends, nothing_to_do, new_job, fetch, start, finish, pass_over, Steps, here, next,
  Reach, coordinator,
}
use relentless_bookworm.Worker.Pipeline.Sound.{
  count, held, IsSound, Placed, Reach-IsSound, Reach-Placed,
}
use relentless_bookworm.Worker.Pipeline.Deliver.{has_place, committed_is_done}
use relentless_bookworm.Worker.Pipeline.Finish.{IsQuiet, can_finish, quiet_commits}
use relentless_bookworm.Commit.Sequence.{first_offset}
use relentless_bookworm.Worker.Pipeline.Shutdown.{send_may_panic, shutdown_may_hang}
use relentless_bookworm.Worker.Pipeline.Outcome.{Simulated, dispatch_message-Simulated}
use relentless_bookworm.Tests.Fixtures.{at, always, a_job, an_env, a_config, a_world}

-- The first message had nothing to do and is with the coordinator, the second one's job is done and
-- it stands at its send.
abbrev two_messages : System
two_messages = record init { received = at 0 ∷ []; sending = at 1 ∷ []; fetched = at 1 ∷ at 0 ∷ [] }

two_messages_reached : Reach 1 2 two_messages
two_messages_reached =
    next _
      (next _
        (next _
          (next _ (next _ here (fetch (at 0) nothing_to_do refl refl))
            (pass_over (at 0) refl refl refl refl))
          (fetch (at 1) new_job refl refl))
        (start (at 1) refl (omega arith) refl))
      (finish [] (at 1) [] refl refl)

Reach-IsSound_example : IsSound 1 2 two_messages
Reach-IsSound_example = Reach-IsSound 1 2 two_messages two_messages_reached

Reach-Placed_example : Placed two_messages
Reach-Placed_example = Reach-Placed 1 2 two_messages two_messages_reached

can_finish_example :
    (t : System) × Steps 1 2 two_messages t
    × IsQuiet t
    × (t.fetched ≡ at 1 ∷ at 0 ∷ [])
    × (t.dropped ≡ [])
can_finish_example = can_finish 1 2 two_messages (omega arith) refl refl

-- One message, which had nothing to do.
abbrev one_message : System
one_message = record init { received = at 4 ∷ []; fetched = at 4 ∷ [] }

one_message_reached : Reach 1 2 one_message
one_message_reached =
    next _ (next _ here (fetch (at 4) nothing_to_do refl refl))
      (pass_over (at 4) refl refl refl refl)

one_message_fetched :
    (i : ℕ) → i < 1 → 0 < count (has_place 0 (first_offset 0 (at 4 ∷ []) + i)) (at 4 ∷ [])
unfolding first_offset offsets
one_message_fetched i h = ground arith

quiet_commits_example : 1 ≤ length (offsets 0 (coordinator always one_message).committed)
quiet_commits_example =
    quiet_commits 1 2 always one_message 0 1 one_message_reached
      (record {
        nothing_held = refl;
        nothing_runs = refl;
        nothing_sends = refl;
        nothing_buffered = refl;
      })
      (λ n m. refl) one_message_fetched (λ i h. refl)

first_committed :
    has 0 (offsets 0 (flush always (coordinator always two_messages) (0 ∷ [])).committed) ≡ true
unfolding has offsets flush run receive enqueue drain commit_next drain_loop lookup insert
    new_commit_coordinator next_of advance delete
first_committed = refl

committed_is_done_example :
    (count (has_place 0 0) (held two_messages.dispatcher) ≡ 0)
    × (count (has_place 0 0) two_messages.running ≡ 0)
    × (count (has_place 0 0) two_messages.sending ≡ 0)
    × (count (has_place 0 0) two_messages.dropped ≡ 0)
committed_is_done_example =
    committed_is_done 1 2 always (0 ∷ []) two_messages 0 0 two_messages_reached refl first_committed

send_may_panic_example :
    (s : System) × Reach 5 10 s × (s.panicked ≡ true) × (s.received ≡ []) × (s.fetched ≡ at 0 ∷ [])
send_may_panic_example = send_may_panic 5 10 (at 0) (omega arith)

shutdown_may_hang_example :
    (s : System) × Reach 5 10 s
    × (s.cancelled ≡ true)
    × ((t : System) → Steps 5 10 s t → t.dispatcher ≡ sends (at 0))
shutdown_may_hang_example = shutdown_may_hang 5 10 (at 0)

-- The message that stands at FetchMessage has the key of no job that was seen before.
dispatch_message-Simulated_example :
    Simulated an_env
      (at 0)
      (some a_job)
      1
      2
      init
      a_world
      (dispatch_message an_env a_config (at 0) a_world)
dispatch_message-Simulated_example =
    dispatch_message-Simulated an_env a_config (at 0) 1 2 init a_world refl refl (omega arith)
      (omega arith) (λ e. cc)
