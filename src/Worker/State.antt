-- ===== src/Worker/State.antt =====
-- The fields of `worker`, the outside as an environment, and what the worker leaves behind.
use relentless_bookworm.Base.{ℤ, ℕ, Bool, Option, List, Bytes}
use relentless_bookworm.Result.{Error, Result, ok, err}
use relentless_bookworm.Models.{CrawlJob, CrawlResult, CrawlFailure, Edge}
use relentless_bookworm.Ol.Client.{Response}
use relentless_bookworm.Ol.Robots.{Rules}
use relentless_bookworm.Ol.Parser.{Decoder}
use relentless_bookworm.Commit.{Message}
use relentless_bookworm.Worker.Histogram.{Histogram}

-- What the packages outside the repository answer. Calls to them are numbered by the world's tick,
-- so an answer may change from call to call. Decoding JSON and net/url are functions.
pub record Env : Type 0 where
  -- kafka.Writer.WriteMessages succeeds
  pub writes : ℕ → Bool
  -- the redis client answers
  pub store_answers : ℕ → Bool
  -- net/http
  pub send : ℕ → Bytes → Result Response
  -- ctx.Done() of the job or of its publish phase
  pub expired : ℕ → Bool
  pub now : ℕ → ℕ
  -- what time.Since gives at the end of a fetch
  pub elapsed : ℕ → ℤ
  pub unmarshal_job : Bytes → Option CrawlJob
  -- encoding/json, for the structs of a page
  pub decode : Decoder
  pub url_path : Bytes → Option Bytes

-- The settings. A writer that is nil is `false`; so are no limits 0, also where the source has a
-- negative number. Durations are nanoseconds.
pub record Config : Type 0 where
  pub results_writer : Bool
  pub edges_writer : Bool
  pub frontier_writer : Bool
  pub dlq_writer : Bool
  pub max_depth : ℕ
  pub retry_max : ℕ
  pub retry_base : ℕ
  pub retry_max_delay : ℕ
  pub robots : Option Rules

-- What has happened: the messages of each topic by the value that is marshalled (its key is the
-- session), the keys in redis, the URLs that were asked for, the waits between attempts, the
-- messages sent to the commit coordinator, each with the number of calls that were made before it
-- was sent, the slots of the semaphore that are taken, and the counters.
pub record World : Type 0 where
  pub tick : ℕ
  pub results : List CrawlResult
  pub edges : List Edge
  pub frontier : List CrawlJob
  pub dlq : List CrawlFailure
  pub visited : List Bytes
  pub fetched : List Bytes
  pub waits : List ℕ
  pub commits : List Message
  pub sent_at : List ℕ
  pub slots : ℕ
  pub in_flight : ℕ
  pub jobs_received : ℕ
  pub jobs_skipped : ℕ
  pub jobs_success : ℕ
  pub jobs_failed : ℕ
  pub rate_limit_hits : ℕ
  pub fetch_latency : Histogram

abbrev pub Exec {ℓ} : Type ℓ → Type ℓ
Exec A = World → Result A × World

abbrev pub then_do {ℓ κ} :
    {A : Type ℓ} {B : Type κ} → Result A → World → (A → World → Result B × World) → Result B × World
then_do (ok a) w f = f a w
then_do (err e) w f = (err e, w)

infixl 5 ◌>>=◌ ◌>>◌
abbrev pub ◌>>=◌ {ℓ κ} :
    {A : Type ℓ} {B : Type κ}
    → (World → Result A × World)
    → (A → World → Result B × World)
    → World
    → Result B × World
◌>>=◌ m f w = let (r, w') = m w in then_do r w' f

abbrev pub ◌>>◌ {ℓ κ} :
    {A : Type ℓ} {B : Type κ}
    → (World → Result A × World)
    → (World → Result B × World)
    → World
    → Result B × World
m >> k = m >>= λ _. k

abbrev pub pure {ℓ} : {A : Type ℓ} → A → Exec A
pure a w = (ok a, w)

abbrev pub fail {ℓ} : {A : Type ℓ} → Error → Exec A
fail e w = (err e, w)
