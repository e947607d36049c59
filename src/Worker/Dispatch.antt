-- ===== src/Worker/Dispatch.antt =====
-- dispatchMessage and processJobAsync: one message from the frontier, up to its commit. A job runs
-- in a goroutine of its own; each function here is what one goroutine does, from the world that it
-- starts in.
pub mod Commits
pub mod Once
pub mod Lost
pub mod Refused
pub mod Effects
use relentless_bookworm.Base.{
  ℕ, zero, suc, ◌+◌, ◌-◌, Bool, true, false, not, ◌&&◌, ◌||◌, Option, none, some, List, [], ◌∷◌,
  ◌++◌, if◌then◌else◌, Bytes, codes,
}
use relentless_bookworm.Text.{bytes_eq, contains}
use relentless_bookworm.Result.{Error, Result, ok, err, store_failed, context_done}
use relentless_bookworm.Models.{CrawlJob, Node}
use relentless_bookworm.Commit.{Message}
use relentless_bookworm.Worker.State.{Env, Config, World, Exec, pure, fail, then_do, ◌>>=◌}
use relentless_bookworm.Worker.Publish.{publish_result, publish_dlq}
use relentless_bookworm.Worker.Expand.{publish_edges_and_frontier}
use relentless_bookworm.Worker.Fetch.{handle_job_with_retry}

unfoldable pub dedupe_key_for_job : CrawlJob → Bytes
dedupe_key_for_job job =
    if contains job.url (codes "/authors/")
    then codes "visited:author:" ++ job.url
    else if contains job.url (codes "/books/")
    then codes "visited:book:" ++ job.url
    else codes "visited:work:" ++ job.url

-- A key that redis holds; keys expire after the TTL, which is left out.
unfoldable pub holds : List Bytes → Bytes → Bool
holds [] key = false
holds (k ∷ ks) key = bytes_eq k key || holds ks key

-- SETNX: whether the key is new.
unfoldable pub set_nx : Env → Bytes → Exec Bool
unfolding holds
set_nx env key w =
    if not (env.store_answers w.tick)
    then (err store_failed, record w { tick = w.tick + 1 })
    else if holds w.visited key
    then (ok false, record w { tick = w.tick + 1 })
    else (ok true, record w { tick = w.tick + 1; visited = key ∷ w.visited })

-- `w.commitCh <- msg`
abbrev pub send_commit : Message → World → World
send_commit msg w = record w { commits = w.commits ++ msg ∷ []; sent_at = w.sent_at ++ w.tick ∷ [] }

-- How dispatchMessage ends: it returns (an error is only logged), or it starts a goroutine.
pub data Dispatched : Type 0 where
  returned : Result (Unit {0}) → Dispatched
  started : CrawlJob → Dispatched

module _ (env : Env) (cfg : Config) (msg : Message) where
  -- The deferred function: it runs however the goroutine ends.
  unfoldable pub release : World → World
  release w = send_commit msg (record w { in_flight = w.in_flight - 1; slots = w.slots - 1 })

  -- `if publishCtx.Err() != nil { return }` before the next part.
  abbrev unless_expired : (World → World) → World → World
  unless_expired next w = if env.expired w.tick then w else next w

  -- The publish phase behind the dead letter; what the calls return is only logged.
  unfoldable pub publish_phase : CrawlJob → Option Node → World → World
  publish_phase job node = unless_expired λ w.
      unless_expired (λ v. (publish_edges_and_frontier env cfg job node v).1)
        (publish_result env cfg job node w).1

  -- From the result of the job on. On an error the node is nil.
  unfoldable pub after_job : CrawlJob → Result (Option Node) × World → World
  unfolding publish_phase
  after_job job (ok node, w) =
      publish_phase job node (record w { jobs_success = w.jobs_success + 1 })
  after_job job (err e, w) =
      publish_phase job none
        (publish_dlq env cfg job e (record w { jobs_failed = w.jobs_failed + 1 })).1

  unfoldable pub process_job_async : CrawlJob → World → World
  unfolding after_job release
  process_job_async job w = release (after_job job (handle_job_with_retry env cfg job w))

  -- Waiting for a slot of the semaphore, or for the end of the context: `expired` is the case that
  -- the select takes.
  unfoldable pub take_slot : CrawlJob → World → Dispatched × World
  take_slot job w =
      if env.expired w.tick
      then (returned (err context_done), record w { tick = w.tick + 1 })
      else (
        started job,
        record w { tick = w.tick + 1; slots = w.slots + 1; in_flight = w.in_flight + 1 },
      )

  unfoldable pub after_set_nx : CrawlJob → Result Bool × World → Dispatched × World
  unfolding take_slot
  after_set_nx job (err e, w) = (returned (err e), w)
  after_set_nx job (ok false, w) =
      (returned (ok tt), send_commit msg (record w { jobs_skipped = w.jobs_skipped + 1 }))
  after_set_nx job (ok true, w) = take_slot job w

  unfoldable pub after_unmarshal : Option CrawlJob → World → Dispatched × World
  unfolding after_set_nx set_nx
  after_unmarshal none w = (returned (ok tt), send_commit msg w)
  after_unmarshal (some job) w =
      after_set_nx job
        (set_nx env (dedupe_key_for_job job) (record w { jobs_received = w.jobs_received + 1 }))

  unfoldable pub dispatch_message : World → Dispatched × World
  unfolding after_unmarshal
  dispatch_message = after_unmarshal (env.unmarshal_job msg.value)
