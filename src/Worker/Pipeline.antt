-- ===== src/Worker/Pipeline.antt =====
-- The goroutines of a worker process, interleaved: `main`, which calls `run` and shuts down, the
-- jobs with their slots of the semaphore, and the commit coordinator behind the channel `commitCh`.
-- A step is what one of them does between two points where it may wait for another. What a job
-- does before it ends is in Worker.Dispatch, and what the coordinator makes of a message in Commit.
pub mod Sound
pub mod Shutdown
pub mod Deliver
pub mod Finish
pub mod Outcome
use relentless_bookworm.Base.{
  ℕ, ◌+◌, ◌<◌, ◌≡◌, ◌⊎◌, Bool, true, false, Option, none, some, List, [], ◌∷◌, ◌++◌, if◌then◌else◌,
  length,
}
use relentless_bookworm.Result.{Result, ok, err}
use relentless_bookworm.Models.{CrawlJob}
use relentless_bookworm.Commit.{Message, Coordinator, new_commit_coordinator, run}
use relentless_bookworm.Worker.State.{Env, World}
use relentless_bookworm.Worker.Dispatch.{dedupe_key_for_job, set_nx}

-- What dispatchMessage finds out about a message before it waits for anything: redis does not
-- answer; there is nothing to do (no job in it, or one seen before); or there is a new job.
pub data Verdict : Type 0 where
  unanswered : Verdict
  nothing_to_do : Verdict
  new_job : Verdict

-- Where the loop of `run` stands: at FetchMessage, at `commitCh <- msg`, at the semaphore, or behind
-- its return.
pub data Dispatcher : Type 0 where
  fetching : Dispatcher
  sends : Message → Dispatcher
  waits : Message → Dispatcher
  returned : Dispatcher

-- The messages by where they are: `running` hold a slot, and WaitGroup counts them; `sending` have
-- given back the slot and called `wg.Done()`, and stand at `commitCh <- msg`. `fetched`, `dropped`
-- and `received` only grow: what FetchMessage returned, what dispatchMessage returned an error
-- for, and what the coordinator took.
pub record System : Type 0 where
  pub dispatcher : Dispatcher
  pub running : List Message
  pub sending : List Message
  pub channel : List Message
  pub received : List Message
  pub dropped : List Message
  pub fetched : List Message
  pub cancelled : Bool
  pub closed : Bool
  pub coordinating : Bool
  pub panicked : Bool

abbrev pub init : System
init = record {
  dispatcher = fetching;
  running = [];
  sending = [];
  channel = [];
  received = [];
  dropped = [];
  fetched = [];
  cancelled = false;
  closed = false;
  coordinating = true;
  panicked = false;
}

-- dispatchMessage up to where it may wait.
abbrev pub take_message : Message → Verdict → System → System
take_message m unanswered s = record s { fetched = m ∷ s.fetched; dropped = m ∷ s.dropped }
take_message m nothing_to_do s = record s { fetched = m ∷ s.fetched; dispatcher = sends m }
take_message m new_job s = record s { fetched = m ∷ s.fetched; dispatcher = waits m }

-- `slots` is the capacity of the semaphore, and `capacity` that of the channel.
pub data Step (slots capacity : ℕ) (s t : System) : Type 0 where
  fetch :
      (m : Message) (v : Verdict)
      → s.dispatcher ≡ fetching
      → t ≡ take_message m v s
      → Step slots capacity s t
  start :
      (m : Message)
      → s.dispatcher ≡ waits m
      → length s.running < slots
      → t ≡ record s { dispatcher = fetching; running = m ∷ s.running }
      → Step slots capacity s t
  give_up :
      (m : Message)
      → s.dispatcher ≡ waits m
      → s.cancelled ≡ true
      → t ≡ record s { dispatcher = fetching; dropped = m ∷ s.dropped }
      → Step slots capacity s t
  pass :
      (m : Message)
      → s.dispatcher ≡ sends m
      → length s.channel < capacity
      → t ≡ record s { dispatcher = fetching; channel = s.channel ++ m ∷ [] }
      → Step slots capacity s t
  pass_over :
      (m : Message)
      → s.dispatcher ≡ sends m
      → s.channel ≡ []
      → s.coordinating ≡ true
      → t ≡ record s { dispatcher = fetching; received = s.received ++ m ∷ [] }
      → Step slots capacity s t
  -- the deferred function of processJobAsync, up to its send
  finish :
      (xs : List Message) (m : Message) (ys : List Message)
      → s.running ≡ xs ++ m ∷ ys
      → t ≡ record s { running = xs ++ ys; sending = m ∷ s.sending }
      → Step slots capacity s t
  send :
      (xs : List Message) (m : Message) (ys : List Message)
      → s.sending ≡ xs ++ m ∷ ys
      → s.closed ≡ false
      → length s.channel < capacity
      → t ≡ record s { sending = xs ++ ys; channel = s.channel ++ m ∷ [] }
      → Step slots capacity s t
  hand_over :
      (xs : List Message) (m : Message) (ys : List Message)
      → s.sending ≡ xs ++ m ∷ ys
      → s.closed ≡ false
      → s.channel ≡ []
      → s.coordinating ≡ true
      → t ≡ record s { sending = xs ++ ys; received = s.received ++ m ∷ [] }
      → Step slots capacity s t
  send_on_closed :
      (xs : List Message) (m : Message) (ys : List Message)
      → s.sending ≡ xs ++ m ∷ ys
      → s.closed ≡ true
      → t ≡ record s { panicked = true }
      → Step slots capacity s t
  receive :
      (m : Message) (rest : List Message)
      → s.channel ≡ m ∷ rest
      → s.coordinating ≡ true
      → t ≡ record s { channel = rest; received = s.received ++ m ∷ [] }
      → Step slots capacity s t
  -- a signal
  cancel : t ≡ record s { cancelled = true } → Step slots capacity s t
  -- the select of the coordinator's `run`: the context has ended, or the channel is closed
  coordinator_returns :
      s.coordinating ≡ true
      → (s.cancelled ≡ true) ⊎ ((s.closed ≡ true) × (s.channel ≡ []))
      → t ≡ record s { coordinating = false }
      → Step slots capacity s t
  run_returns :
      s.dispatcher ≡ fetching
      → s.cancelled ≡ true
      → t ≡ record s { dispatcher = returned }
      → Step slots capacity s t
  -- `wg.Wait(); close(commitCh)`
  close :
      s.dispatcher ≡ returned
      → s.running ≡ []
      → s.closed ≡ false
      → t ≡ record s { closed = true }
      → Step slots capacity s t

pub data Steps (slots capacity : ℕ) (s : System) : System → Type 0 where
  here : Steps slots capacity s s
  next :
      {t : System} (u : System)
      → Steps slots capacity s t
      → Step slots capacity t u
      → Steps slots capacity s u

-- A state that a worker process can come to.
abbrev pub Reach : ℕ → ℕ → System → Type 0
Reach slots capacity s = Steps slots capacity init s

-- The coordinator's state, given how the reader answers.
abbrev pub coordinator : (ℕ → Message → Bool) → System → Coordinator
coordinator accepts s = run accepts new_commit_coordinator s.received
