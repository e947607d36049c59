-- ===== src/Worker/Fetch/Retry.antt =====
-- The attempts at one job: how often, and with which waits between them.
use relentless_bookworm.Base.{
  ℕ, zero, suc, ◌+◌, ◌*◌, ◌≤◌, ◌≡◌, refl, ◌∙◌, sym, ap, ◌⊎◌, true, false, Option, List, [], ◌∷◌,
  ◌++◌, append-nil, append_assoc, ltb, leb, ◌&&◌, arith, if◌then◌else◌, inl, inr, if_elim, length,
  All,
}
use relentless_bookworm.Result.{Result, ok, err, context_done}
use relentless_bookworm.Models.{CrawlJob, Node}
use relentless_bookworm.Worker.State.{Env, Config, World}
use relentless_bookworm.Worker.Frame.{Same}
use relentless_bookworm.Worker.Fetch.{
  handle_job, capped, back_off, on_error, retry_loop, handle_job_with_retry,
}
use relentless_bookworm.Worker.Fetch.Attempt.{handle_job-Same, handle_job-fetches}

-- A wait under a maximum; 0 stands for none.
abbrev pub limit : ℕ → ℕ → ℕ
limit zero d = d
limit (suc m) d = if leb d (suc m) then d else suc m

-- The waits that n failing attempts call for: the delay doubles from wait to wait, each under the
-- maximum; there are none if there is no delay.
unfoldable pub schedule : ℕ → ℕ → ℕ → List ℕ
schedule max zero delay = []
schedule max (suc left) delay =
    let rest = schedule max left (delay * 2) in if ltb 0 delay then limit max delay ∷ rest else []

capped-limit : (cfg : Config) (d : ℕ) → capped cfg d ≡ limit cfg.retry_max_delay d
capped-limit cfg d = by cfg.retry_max_delay
  where
    by : (m : ℕ) → (if ltb 0 m && ltb m d then m else d) ≡ limit m d
    by zero = ground arith
    by (suc m) = ground arith

limit_double : (max a b : ℕ) → limit max a ≡ limit max b → limit max (a * 2) ≡ limit max (b * 2)
limit_double zero a b h = ground (arith, h)
limit_double (suc m) a b h = ground (arith, h)

schedule_alike :
    (max n a b : ℕ)
    → limit max a ≡ limit max b
    → ltb 0 a ≡ ltb 0 b
    → schedule max n a ≡ schedule max n b
unfolding schedule
schedule_alike max zero a b h e = refl
schedule_alike max (suc n) a b h e =
    let ih = schedule_alike max n (a * 2) (b * 2) (limit_double max a b h) (ground (arith, e)) in
    rw (e, h, ih)

limit_again : (max d : ℕ) → limit max (limit max d) ≡ limit max d
limit_again zero d = refl
limit_again (suc m) d = ground arith

limit_positive : (max d : ℕ) → ltb 0 (limit max d * 2) ≡ ltb 0 (d * 2)
limit_positive zero d = refl
limit_positive (suc m) d = ground arith

schedule_none : (max n delay : ℕ) → ltb 0 delay ≡ false → schedule max n delay ≡ []
unfolding schedule
schedule_none max zero delay e = refl
schedule_none max (suc n) delay e = rw e

-- After a wait the schedule goes on as from the delay that the wait was made from.
schedule_some :
    (cfg : Config) (n delay : ℕ)
    → ltb 0 delay ≡ true
    → schedule cfg.retry_max_delay (suc n) delay
      ≡ capped cfg delay ∷ schedule cfg.retry_max_delay n (capped cfg delay * 2)
unfolding schedule
schedule_some cfg n delay e =
    let max = cfg.retry_max_delay in
    rw (
      e,
      capped-limit cfg delay,
      schedule_alike max n (limit max delay * 2) (delay * 2)
          (limit_double max (limit max delay) delay (limit_again max delay))
          (limit_positive max delay),
    )

schedule_limited : (max n delay : ℕ) → All (λ d. (max ≡ 0) ⊎ (d ≤ max)) (schedule max n delay)
unfolding schedule
schedule_limited max zero delay = tt
schedule_limited zero (suc n) delay = ground (arith, schedule_limited zero n (delay * 2))
schedule_limited (suc m) (suc n) delay = ground (arith, schedule_limited (suc m) n (delay * 2))

length-schedule : (max n delay : ℕ) → length (schedule max n delay) ≤ n
unfolding schedule
length-schedule max zero delay = omega arith
length-schedule max (suc n) delay = ground (arith, length-schedule max n (delay * 2))

-- What the attempts at a job leave: they waited by the schedule of n waits, from its front on, and
-- they end with a node, with the schedule used up, or with the end of the job's context.
pub record Attempted (cfg : Config) (n delay : ℕ) (v : World) (r : Result (Option Node) × World)
    : Type 0 where
  pub waited : List ℕ
  pub left : List ℕ
  pub waits : r.1.waits ≡ v.waits ++ waited
  pub split : waited ++ left ≡ schedule cfg.retry_max_delay n delay
  pub fetches : length r.1.fetched ≤ length v.fetched + n + 1
  pub outcome : ((node : Option Node) × (r.0 ≡ ok node)) ⊎ (left ≡ []) ⊎ (r.0 ≡ err context_done)
  pub commits : r.1.commits ≡ v.commits
  pub in_flight : r.1.in_flight ≡ v.in_flight
  pub slots : r.1.slots ≡ v.slots
  pub sent_at : r.1.sent_at ≡ v.sent_at
  pub visited : r.1.visited ≡ v.visited

module _ (env : Env) (cfg : Config) (job : CrawlJob) where
  module _ (n delay : ℕ) (v w : World) (same : Same v w)
      (one : length w.fetched ≤ length v.fetched + 1) where
    attempt_ok : (node : Option Node) → Attempted cfg n delay v (ok node, w)
    attempt_ok node = record {
      waited = [];
      left = schedule cfg.retry_max_delay n delay;
      waits = same.waits ∙ sym (append-nil v.waits);
      split = refl;
      fetches = omega (arith, one);
      outcome = inl (node, refl);
      commits = same.commits;
      in_flight = same.in_flight;
      slots = same.slots;
      sent_at = same.sent_at;
      visited = same.visited;
    }

    -- A zero delay: the next attempt follows at once.
    attempt_at_once :
        (r : Result (Option Node) × World)
        → ltb 0 delay ≡ false
        → Attempted cfg n delay w r
        → Attempted cfg (suc n) delay v r
    attempt_at_once r e a = record {
      waited = a.waited;
      left = a.left;
      waits = rw (a.waits, same.waits);
      split =
          a.split
          ∙ schedule_none cfg.retry_max_delay n delay e
          ∙ sym (schedule_none cfg.retry_max_delay (suc n) delay e);
      fetches = omega (arith, a.fetches, one);
      outcome = a.outcome;
      commits = a.commits ∙ same.commits;
      in_flight = a.in_flight ∙ same.in_flight;
      slots = a.slots ∙ same.slots;
      sent_at = a.sent_at ∙ same.sent_at;
      visited = a.visited ∙ same.visited;
    }

    attempt_stopped :
        (tick : ℕ)
        → ltb 0 delay ≡ true
        → Attempted cfg
            (suc n)
            delay
            v
            (err context_done, record w { waits = w.waits ++ capped cfg delay ∷ []; tick = tick })
    attempt_stopped tick e = record {
      waited = capped cfg delay ∷ [];
      left = schedule cfg.retry_max_delay n (capped cfg delay * 2);
      waits = rw same.waits;
      split = sym (schedule_some cfg n delay e);
      fetches = omega (arith, one);
      outcome = inr (inr refl);
      commits = same.commits;
      in_flight = same.in_flight;
      slots = same.slots;
      sent_at = same.sent_at;
      visited = same.visited;
    }

    attempt_slept :
        (tick : ℕ) (r : Result (Option Node) × World)
        → ltb 0 delay ≡ true
        → Attempted cfg n
            (capped cfg delay * 2)
            (record w { waits = w.waits ++ capped cfg delay ∷ []; tick = tick })
            r
        → Attempted cfg (suc n) delay v r
    attempt_slept tick r e a = record {
      waited = capped cfg delay ∷ a.waited;
      left = a.left;
      waits = a.waits ∙ rw (same.waits, append_assoc);
      split = ap (λ l. capped cfg delay ∷ l) a.split ∙ sym (schedule_some cfg n delay e);
      fetches = omega (arith, a.fetches, one);
      outcome = a.outcome;
      commits = a.commits ∙ same.commits;
      in_flight = a.in_flight ∙ same.in_flight;
      slots = a.slots ∙ same.slots;
      sent_at = a.sent_at ∙ same.sent_at;
      visited = a.visited ∙ same.visited;
    }

    attempt_again :
        ((d : ℕ) (u : World) → Attempted cfg n d u (retry_loop env cfg job n d u))
        → Attempted cfg (suc n) delay v (back_off env cfg job (retry_loop env cfg job n) delay w)
    attempt_again ih =
        if_elim (Attempted cfg (suc n) delay v) (ltb 0 delay) _ _
          (λ e.
            if_elim (Attempted cfg (suc n) delay v) (env.expired w.tick) _ _
              (λ _. attempt_stopped (w.tick + 1) e)
              (λ _. attempt_slept (w.tick + 1) _ e (ih (capped cfg delay * 2) _)))
          (λ e. attempt_at_once _ e (ih delay w))

  attempt_next :
      (n delay : ℕ) (v : World) (r : Result (Option Node) × World)
      → Same v r.1
      → length r.1.fetched ≤ length v.fetched + 1
      → ((d : ℕ) (u : World) → Attempted cfg n d u (retry_loop env cfg job n d u))
      → Attempted cfg
          (suc n)
          delay
          v
          (on_error env cfg job r.0 r.1 (back_off env cfg job (retry_loop env cfg job n) delay))
  attempt_next n delay v (ok node, w) same one ih = attempt_ok (suc n) delay v w same one node
  attempt_next n delay v (err e, w) same one ih = attempt_again n delay v w same one ih

  attempt_last :
      (delay : ℕ) (v : World) (r : Result (Option Node) × World)
      → Same v r.1
      → length r.1.fetched ≤ length v.fetched + 1
      → Attempted cfg 0 delay v r
  unfolding schedule
  attempt_last delay v r same one = record {
    waited = [];
    left = [];
    waits = same.waits ∙ sym (append-nil v.waits);
    split = refl;
    fetches = omega (arith, one);
    outcome = inr (inl refl);
    commits = same.commits;
    in_flight = same.in_flight;
    slots = same.slots;
    sent_at = same.sent_at;
    visited = same.visited;
  }

  retry_loop-Attempted :
      (n delay : ℕ) (v : World) → Attempted cfg n delay v (retry_loop env cfg job n delay v)
  unfolding retry_loop
  retry_loop-Attempted zero delay v =
      attempt_last delay v (handle_job env cfg job v) (handle_job-Same env cfg job v)
        (handle_job-fetches env cfg job v)
  retry_loop-Attempted (suc n) delay v =
      attempt_next n delay v (handle_job env cfg job v) (handle_job-Same env cfg job v)
        (handle_job-fetches env cfg job v) (retry_loop-Attempted n)

  pub handle_job_with_retry-Attempted :
      (v : World)
      → Attempted cfg cfg.retry_max cfg.retry_base v (handle_job_with_retry env cfg job v)
  unfolding handle_job_with_retry
  handle_job_with_retry-Attempted v = retry_loop-Attempted cfg.retry_max cfg.retry_base v

-- A job's attempts end: they ask for retryMax + 1 URLs at most. The waits between them are a front
-- part of the schedule that doubles the delay from wait to wait, each under the maximum; there are
-- retryMax of them at most, and none is longer than a maximum that is set. If the attempts end with
-- no result, all of the schedule was waited for, or the context of the job ended.
pub retry_bounded :
    (env : Env) (cfg : Config) (job : CrawlJob) (v : World)
    → Attempted cfg cfg.retry_max cfg.retry_base v (handle_job_with_retry env cfg job v)
      × (length (schedule cfg.retry_max_delay cfg.retry_max cfg.retry_base) ≤ cfg.retry_max)
      × All
          (λ d. (cfg.retry_max_delay ≡ 0) ⊎ (d ≤ cfg.retry_max_delay))
          (schedule cfg.retry_max_delay cfg.retry_max cfg.retry_base)
retry_bounded env cfg job v = (
  handle_job_with_retry-Attempted env cfg job v,
  length-schedule cfg.retry_max_delay cfg.retry_max cfg.retry_base,
  schedule_limited cfg.retry_max_delay cfg.retry_max cfg.retry_base,
)
