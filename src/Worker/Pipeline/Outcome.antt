-- ===== src/Worker/Pipeline/Outcome.antt =====
-- dispatchMessage against the steps of the loop of `run`.
use relentless_bookworm.Base.{
  ℕ, ◌+◌, ◌<◌, ◌≡◌, refl, sym, ap, arith, ◌⊎◌, inl, inr, true, false, not, Option, none, some, [],
  ◌∷◌, ◌++◌, length, if_elim,
}
use relentless_bookworm.Result.{ok, err, store_failed, context_done}
use relentless_bookworm.Models.{CrawlJob}
use relentless_bookworm.Commit.{Message}
use relentless_bookworm.Worker.State.{Env, Config, World}
use relentless_bookworm.Worker.Dispatch.{
  Dispatched, returned, started, dedupe_key_for_job, holds, set_nx, take_slot, after_set_nx,
  after_unmarshal, dispatch_message,
}
use relentless_bookworm.Worker.Pipeline.{
  System, Dispatcher, fetching, unanswered, nothing_to_do, new_job, fetch, start, give_up, pass,
  Steps, here, next,
}

-- The three states that `run` may fetch its next message in: the message is in the channel, it runs
-- in a goroutine, or it is given up.
abbrev pub committed : Message → System → System
committed m s = record s {
  dispatcher = fetching;
  channel = s.channel ++ m ∷ [];
  fetched = m ∷ s.fetched;
}

abbrev pub runs : Message → System → System
runs m s = record s { dispatcher = fetching; running = m ∷ s.running; fetched = m ∷ s.fetched }

abbrev pub given_up : Message → System → System
given_up m s = record s { dispatcher = fetching; dropped = m ∷ s.dropped; fetched = m ∷ s.fetched }

-- The message holds no job, or one whose key redis has. It is sent as a commit.
abbrev pub PassedBy :
    Env → Message → Option CrawlJob → System → World → System → Dispatched × World → Type 0
PassedBy env msg j s w t (d, v) =
    ((j ≡ none)
      ⊎ ((job : CrawlJob) × (j ≡ some job)
          × (env.store_answers w.tick ≡ true)
          × (holds w.visited (dedupe_key_for_job job) ≡ true)))
    × (d ≡ returned (ok tt))
    × (v.commits ≡ w.commits ++ msg ∷ [])
    × (v.visited ≡ w.visited)
    × (t ≡ committed msg s)

-- The message holds a job whose key is new, and the context has not ended. Just that job is started.
abbrev pub IsStarted :
    Env → Message → Option CrawlJob → System → World → System → Dispatched × World → Type 0
IsStarted env msg j s w t (d, v) =
    (job : CrawlJob) × (j ≡ some job)
    × (env.store_answers w.tick ≡ true)
    × (holds w.visited (dedupe_key_for_job job) ≡ false)
    × (env.expired (w.tick + 1) ≡ false)
    × (d ≡ started job)
    × (v.commits ≡ w.commits)
    × (v.visited ≡ dedupe_key_for_job job ∷ w.visited)
    × (t ≡ runs msg s)

-- The message holds a job, and redis does not answer, or the context ends. Nothing is sent.
abbrev pub IsDropped :
    Env → Message → Option CrawlJob → System → World → System → Dispatched × World → Type 0
IsDropped env msg j s w t (d, v) =
    (job : CrawlJob) × (j ≡ some job)
    × (((env.store_answers w.tick ≡ false)
          × (v.visited ≡ w.visited)
          × (d ≡ returned (err store_failed)))
        ⊎ ((env.store_answers w.tick ≡ true)
            × (holds w.visited (dedupe_key_for_job job) ≡ false)
            × (env.expired (w.tick + 1) ≡ true)
            × (v.visited ≡ dedupe_key_for_job job ∷ w.visited)
            × (d ≡ returned (err context_done))))
    × (v.commits ≡ w.commits)
    × (t ≡ given_up msg s)

-- The steps that do what dispatchMessage did, from `s` on, given the job in the message.
abbrev pub Simulated :
    Env → Message → Option CrawlJob → ℕ → ℕ → System → World → Dispatched × World → Type 0
Simulated env msg j slots capacity s w r =
    (t : System) × Steps slots capacity s t
    × (length t.running ≡ r.1.slots)
    × (PassedBy env msg j s w t r ⊎ (IsStarted env msg j s w t r ⊎ IsDropped env msg j s w t r))

module _ (env : Env) (cfg : Config) (msg : Message) (slots capacity : ℕ) (s : System) (w : World)
    (at_fetch : s.dispatcher ≡ fetching) (same_slots : length s.running ≡ w.slots)
    (room : length s.channel < capacity) where
  pass-Steps : Steps slots capacity s (committed msg s)
  pass-Steps =
      next _ (next _ here (fetch msg nothing_to_do at_fetch refl)) (pass msg refl room refl)

  drop-Steps : Steps slots capacity s (given_up msg s)
  drop-Steps = next _ here (
      fetch msg unanswered at_fetch (
        ap
          (λ (d : Dispatcher). record s {
            dispatcher = d;
            dropped = msg ∷ s.dropped;
            fetched = msg ∷ s.fetched;
          })
          (sym at_fetch)))

  module _ (slot : length s.running < slots)
      (ends : env.expired (w.tick + 1) ≡ true → s.cancelled ≡ true) where
    job-Simulated :
        (job : CrawlJob)
        → Simulated env msg (some job) slots capacity s w (after_unmarshal env cfg msg (some job) w)
    unfolding after_unmarshal after_set_nx set_nx take_slot
    job-Simulated job =
        if_elim (λ r. P (after_set_nx env cfg msg job r)) (not (env.store_answers w.tick)) _ _
          (λ bad. (
            given_up msg s,
            drop-Steps,
            same_slots,
            inr (inr (job, refl, inl (ground arith, refl, refl), refl, refl)),
          ))
          (λ good.
            if_elim (λ r. P (after_set_nx env cfg msg job r))
              (holds w.visited (dedupe_key_for_job job)) _ _
              (λ seen. (
                committed msg s,
                pass-Steps,
                same_slots,
                inl (inr (job, refl, ground arith, seen), refl, refl, refl, refl),
              ))
              (λ new.
                if_elim P (env.expired (w.tick + 1)) _ _
                  (λ x. (
                    given_up msg s,
                    next _ (next _ here (fetch msg new_job at_fetch refl))
                        (give_up msg refl (ends x) refl),
                    same_slots,
                    inr (inr (job, refl, inr (ground arith, new, x, refl, refl), refl, refl)),
                  ))
                  (λ x. (
                    runs msg s,
                    next _ (next _ here (fetch msg new_job at_fetch refl))
                        (start msg refl slot refl),
                    omega arith,
                    inr (inl (job, refl, ground arith, new, x, refl, refl, refl, refl)),
                  ))))
      where
        P : Dispatched × World → Type 0
        P = Simulated env msg (some job) slots capacity s w

    -- dispatchMessage is simulated by steps of the loop of `run` that start at FetchMessage and come
    -- back to it, where the semaphore has a slot and the channel has room, as many slots are taken as
    -- jobs run, and the context ends only if the worker is told to stop; as many are taken as jobs run
    -- afterwards too. There are three outcomes, each under a condition that excludes the others. A
    -- message with no job, or with one whose key redis has, is sent to the coordinator and in the
    -- channel. A job whose key is new has its key set, and just this job is started and holds the
    -- message's slot, with nothing sent. And if redis does not answer, or the context ends at the
    -- semaphore, the error is returned and the message is dropped: it is neither
    -- sent nor started, but in the second case its key is set.
    pub dispatch_message-Simulated :
        Simulated env msg
          (env.unmarshal_job msg.value)
          slots
          capacity
          s
          w
          (dispatch_message env cfg msg w)
    unfolding dispatch_message after_unmarshal
    dispatch_message-Simulated = by_job (env.unmarshal_job msg.value)
      where
        by_job :
            (j : Option CrawlJob)
            → Simulated env msg j slots capacity s w (after_unmarshal env cfg msg j w)
        by_job none =
            (committed msg s, pass-Steps, same_slots, inl (inl refl, refl, refl, refl, refl))
        by_job (some job) = job-Simulated job
