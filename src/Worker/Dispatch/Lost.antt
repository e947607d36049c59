-- ===== src/Worker/Dispatch/Lost.antt =====
-- Messages that dispatchMessage gives up.
use relentless_bookworm.Base.{◌+◌, ◌≡◌, refl, true, false, some, List, [], ◌∷◌, ◌++◌, Bytes}
use relentless_bookworm.Text.Laws.{bytes_eq_refl}
use relentless_bookworm.Result.{ok, err, context_done}
use relentless_bookworm.Models.{CrawlJob}
use relentless_bookworm.Commit.{Message}
use relentless_bookworm.Worker.State.{Env, Config, World}
use relentless_bookworm.Worker.Dispatch.{
  dedupe_key_for_job, holds, send_commit, returned, dispatch_message,
}

holds_self : (key : Bytes) (ks : List Bytes) → holds (key ∷ ks) key ≡ true
unfolding holds
holds_self key ks = rw (bytes_eq_refl key)

module _ (env : Env) (cfg : Config) (msg : Message) (job : CrawlJob) (w : World) where
  after_set_nx_given_up :
      env.unmarshal_job msg.value ≡ some job
      → env.store_answers w.tick ≡ true
      → holds w.visited (dedupe_key_for_job job) ≡ false
      → env.expired (w.tick + 1) ≡ true
      → dispatch_message env cfg msg w ≡ (
        returned (err context_done),
        record w {
          tick = w.tick + 1 + 1;
          jobs_received = w.jobs_received + 1;
          visited = dedupe_key_for_job job ∷ w.visited;
        },
      )
  unfolding dispatch_message
  after_set_nx_given_up e a n x = rw (e, dispatch_message) (rw a (rw n (rw x)))

  after_set_nx_duplicate :
      env.unmarshal_job msg.value ≡ some job
      → env.store_answers w.tick ≡ true
      → holds w.visited (dedupe_key_for_job job) ≡ true
      → dispatch_message env cfg msg w ≡ (
        returned (ok tt),
        send_commit msg (record w {
          tick = w.tick + 1;
          jobs_received = w.jobs_received + 1;
          jobs_skipped = w.jobs_skipped + 1;
        }),
      )
  unfolding dispatch_message
  after_set_nx_duplicate e a n = rw (e, dispatch_message) (rw a (rw n))

module _ (env : Env) (cfg : Config) (msg : Message) (job : CrawlJob) (w : World) where
  -- A job whose key is set, but which gets no slot before the worker stops, is given up for good:
  -- the message is not committed, and when it is delivered again it is taken for a duplicate and
  -- committed, and the job is not started.
  pub redelivered_lost :
      env.unmarshal_job msg.value ≡ some job
      → env.store_answers w.tick ≡ true
      → holds w.visited (dedupe_key_for_job job) ≡ false
      → env.expired (w.tick + 1) ≡ true
      → env.store_answers (w.tick + 1 + 1) ≡ true
      → let first = dispatch_message env cfg msg w in
        let again = dispatch_message env cfg msg first.1 in
        (first.0 ≡ returned (err context_done))
        × (first.1.commits ≡ w.commits)
        × (again.0 ≡ returned (ok tt))
        × (again.1.commits ≡ w.commits ++ msg ∷ [])
  redelivered_lost e a n x b =
      let v = record w {
        tick = w.tick + 1 + 1;
        jobs_received = w.jobs_received + 1;
        visited = dedupe_key_for_job job ∷ w.visited;
      } in
      let twice =
        after_set_nx_duplicate env cfg msg job v e b
          (holds_self (dedupe_key_for_job job) w.visited) in
      rw (after_set_nx_given_up env cfg msg job w e a n x) (rw twice (refl, refl, refl, refl))
