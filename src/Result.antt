-- ===== src/Result.antt =====
-- Go's `(value, error)` results. The errors that the program makes or passes on; what their texts
-- say is not modelled, but for the status that an error of FetchJSONWithClient carries.
use relentless_bookworm.Base.{ℕ, Bytes}

pub data Error : Type 0 where
  -- http.Client.Do, and reading the body
  transport : Error
  -- "unexpected status %d for %s"
  unexpected_status : ℕ → Error
  -- url.Parse
  bad_url : Error
  -- json.Unmarshal
  bad_json : Error
  -- "robots.txt disallows path %s"
  robots_disallows : Bytes → Error
  -- kafka.Writer.WriteMessages
  write_failed : Error
  -- redis
  store_failed : Error
  -- neo4j
  graph_failed : Error
  -- ctx.Err()
  context_done : Error

pub data Result {ℓ} (A : Type ℓ) : Type ℓ where
  ok : A → Result A
  err : Error → Result A

infixl 5 ◌>>=◌
abbrev pub ◌>>=◌ {ℓ κ} : {A : Type ℓ} {B : Type κ} → Result A → (A → Result B) → Result B
ok a >>= f = f a
err e >>= f = err e
