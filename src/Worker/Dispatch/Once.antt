-- ===== src/Worker/Dispatch/Once.antt =====
-- Which jobs are started.
use relentless_bookworm.Base.{
  ◌+◌, ◌≡◌, ◌≢◌, Bool, true, false, not, Option, none, some, List, [], ◌∷◌, arith, if_elim, Bytes,
  All,
}
use relentless_bookworm.Text.Laws.{bytes_eq_refl}
use relentless_bookworm.Result.{Result}
use relentless_bookworm.Models.{CrawlJob}
use relentless_bookworm.Commit.{Message}
use relentless_bookworm.Worker.State.{Env, Config, World}
use relentless_bookworm.Worker.Dispatch.{
  dedupe_key_for_job, holds, Dispatched, returned, started, after_set_nx, after_unmarshal,
  dispatch_message,
}

-- The dedupe key determines the URL.
pub dedupe_key_for_job-injective :
    (a b : CrawlJob) → dedupe_key_for_job a ≡ dedupe_key_for_job b → a.url ≡ b.url
unfolding dedupe_key_for_job
dedupe_key_for_job-injective a b h = ground arith

-- Nor do jobs of one URL have different keys.
same_key : (a b : CrawlJob) → a.url ≡ b.url → dedupe_key_for_job a ≡ dedupe_key_for_job b
unfolding dedupe_key_for_job
same_key a b e = ground arith

-- Every key that was held is held.
abbrev pub Grows : World → World → Type 0
Grows v w = (key : Bytes) → holds v.visited key ≡ true → holds w.visited key ≡ true

-- A job is started only if its key is new, and the key is held from then on.
abbrev pub StartsNew : Dispatched → World → World → Type 0
StartsNew (returned r) v w = Unit
StartsNew (started job) v w =
    (holds v.visited (dedupe_key_for_job job) ≡ false)
    × (holds w.visited (dedupe_key_for_job job) ≡ true)

holds_more : (ks : List Bytes) (k j : Bytes) → holds ks j ≡ true → holds (k ∷ ks) j ≡ true
unfolding holds
holds_more ks k j h = ground arith

holds_self : (ks : List Bytes) (k : Bytes) → holds (k ∷ ks) k ≡ true
unfolding holds
holds_self ks k = rw bytes_eq_refl

module _ (env : Env) (cfg : Config) (msg : Message) where
  dispatch-StartsNew :
      (w : World)
      → StartsNew (dispatch_message env cfg msg w).0 w (dispatch_message env cfg msg w).1
        × Grows w (dispatch_message env cfg msg w).1
  unfolding dispatch_message
  dispatch-StartsNew w = unmarshalled (env.unmarshal_job msg.value)
    where
      unmarshalled :
          (j : Option CrawlJob)
          → StartsNew (after_unmarshal env cfg msg j w).0 w (after_unmarshal env cfg msg j w).1
            × Grows w (after_unmarshal env cfg msg j w).1
      unmarshalled none = (tt, λ k h. h)
      unmarshalled (some job) =
          if_elim
            (λ (r : Result Bool × World).
              StartsNew (after_set_nx env cfg msg job r).0 w (after_set_nx env cfg msg job r).1
              × Grows w (after_set_nx env cfg msg job r).1)
            (not (env.store_answers w.tick)) _ _ (λ _. (tt, λ k h. h))
            (λ _.
              if_elim
                (λ (r : Result Bool × World).
                  StartsNew (after_set_nx env cfg msg job r).0 w (after_set_nx env cfg msg job r).1
                  × Grows w (after_set_nx env cfg msg job r).1)
                (holds w.visited (dedupe_key_for_job job)) _ _ (λ _. (tt, λ k h. h))
                (λ new.
                  if_elim (λ (r : Dispatched × World). StartsNew r.0 w r.1 × Grows w r.1)
                    (env.expired (w.tick + 1)) _ _
                    (λ _. (tt, holds_more w.visited (dedupe_key_for_job job)))
                    (λ _. (
                      (new, holds_self w.visited (dedupe_key_for_job job)),
                      holds_more w.visited (dedupe_key_for_job job),
                    ))))

abbrev pub add_started : Dispatched → List CrawlJob → List CrawlJob
add_started (returned r) js = js
add_started (started j) js = j ∷ js

-- What a worker process sees, from a first world on, with the jobs that it started, the last one
-- first: its own calls of dispatchMessage, on any messages and in any order, and between them
-- whatever its goroutines and other processes do, who only add keys.
pub data Run (env : Env) (cfg : Config) (v : World) : List CrawlJob → World → Type 0 where
  begin : Run env cfg v [] v
  elsewhere :
      {js : List CrawlJob} {w : World} (u : World)
      → Run env cfg v js w
      → Grows w u
      → Run env cfg v js u
  dispatched :
      {js ks : List CrawlJob} {w u : World} (msg : Message)
      → Run env cfg v js w
      → u ≡ (dispatch_message env cfg msg w).1
      → ks ≡ add_started (dispatch_message env cfg msg w).0 js
      → Run env cfg v ks u

abbrev AllHeld : World → List CrawlJob → Type 0
AllHeld w js = All (λ j. holds w.visited (dedupe_key_for_job j) ≡ true) js

-- The URLs differ from one another.
abbrev pub UrlsDistinct : List CrawlJob → Type 0
UrlsDistinct [] = Unit
UrlsDistinct (j ∷ js) = All (λ k. j.url ≢ k.url) js × UrlsDistinct js

AllHeld-Grows : (v w : World) (js : List CrawlJob) → Grows v w → AllHeld v js → AllHeld w js
AllHeld-Grows v w [] g h = tt
AllHeld-Grows v w (j ∷ js) g h = (g _ h.0, AllHeld-Grows v w js g h.1)

new_url :
    (w : World) (j : CrawlJob) (js : List CrawlJob)
    → holds w.visited (dedupe_key_for_job j) ≡ false
    → AllHeld w js
    → All (λ k. j.url ≢ k.url) js
new_url w j [] n h = tt
new_url w j (k ∷ js) n h = (λ e. cc (n, h.0, same_key j k e), new_url w j js n h.1)

add_started-distinct :
    (d : Dispatched) (js : List CrawlJob) (w u : World)
    → StartsNew d w u
    → Grows w u
    → AllHeld w js × UrlsDistinct js
    → AllHeld u (add_started d js) × UrlsDistinct (add_started d js)
add_started-distinct (returned r) js w u s g h = (AllHeld-Grows w u js g h.0, h.1)
add_started-distinct (started j) js w u s g h =
    ((s.1, AllHeld-Grows w u js g h.0), (new_url w j js s.0 h.0, h.1))

Run-distinct :
    (env : Env) (cfg : Config) (v : World) {js : List CrawlJob} {w : World}
    → Run env cfg v js w
    → AllHeld w js × UrlsDistinct js
Run-distinct env cfg v begin = (tt, tt)
Run-distinct env cfg v (elsewhere {js = js} {w = w} u r g) =
    let h = Run-distinct env cfg v r in (AllHeld-Grows w u js g h.0, h.1)
Run-distinct env cfg v (dispatched {js = js} {ks = ks} {w = w} {u = u} msg r e f) =
    let s = dispatch-StartsNew env cfg msg w in
    rw (e, f)
      (add_started-distinct (dispatch_message env cfg msg w).0 js w _ s.0 s.1
        (Run-distinct env cfg v r))

-- In any run of a worker, beside other workers on the same redis, the jobs that are started have
-- different URLs: no URL is crawled twice while the keys live.
pub started-UrlsDistinct :
    (env : Env) (cfg : Config) (v w : World) (js : List CrawlJob)
    → Run env cfg v js w
    → UrlsDistinct js
started-UrlsDistinct env cfg v w js r = (Run-distinct env cfg v r).1
