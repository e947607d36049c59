-- ===== src/Worker/Pipeline/Sound.antt =====
-- What holds in every state of a worker process.
use relentless_bookworm.Base.{
  ℕ, ◌+◌, ◌≤◌, ◌≡◌, ap, ◌∙◌, Bool, true, List, [], ◌∷◌, ◌++◌, arith, if◌then◌else◌, length,
  length-append,
}
use relentless_bookworm.Commit.{Message}
use relentless_bookworm.Worker.Pipeline.{
  unanswered, nothing_to_do, new_job, Dispatcher, fetching, sends, waits, returned, System, init,
  Step, fetch, start, give_up, pass, pass_over, finish, send, hand_over, send_on_closed, receive,
  cancel, coordinator_returns, run_returns, close, Steps, here, next, Reach,
}

-- How many of the messages are picked by p.
abbrev one : (Message → Bool) → Message → ℕ
one p m = if p m then 1 else 0

abbrev pub count : (Message → Bool) → List Message → ℕ
count p [] = 0
count p (m ∷ ms) = one p m + count p ms

count-append :
    (p : Message → Bool) (xs ys : List Message) → count p (xs ++ ys) ≡ count p xs + count p ys
count-append p [] ys = omega arith
count-append p (x ∷ xs) ys = omega (arith, count-append p xs ys)

count-between :
    (p : Message → Bool) (l xs : List Message) (m : Message) (ys : List Message)
    → l ≡ xs ++ m ∷ ys
    → count p l ≡ one p m + count p (xs ++ ys)
count-between p l xs m ys e =
    ap (count p) e ∙ omega (arith, count-append p xs (m ∷ ys), count-append p xs ys)

length-between :
    (l xs : List Message) (m : Message) (ys : List Message)
    → l ≡ xs ++ m ∷ ys
    → length l ≡ length (xs ++ ys) + 1
length-between l xs m ys e =
    ap length e ∙ omega (arith, length-append xs (m ∷ ys), length-append xs ys)

-- The message that the loop of `run` is busy with.
abbrev pub held : Dispatcher → List Message
held fetching = []
held (sends m) = m ∷ []
held (waits m) = m ∷ []
held returned = []

-- The limits, and what closing means: no more slots are held than there are, the channel is not
-- overfull, and when it is closed `run` has returned and no job holds a slot.
pub record IsSound (slots capacity : ℕ) (s : System) : Type 0 where
  pub slots_held : length s.running ≤ slots
  pub buffered : length s.channel ≤ capacity
  pub run_over : s.closed ≡ true → (s.dispatcher ≡ returned) × (s.running ≡ [])
  pub told : s.dispatcher ≡ returned → s.cancelled ≡ true
  pub cause : s.panicked ≡ true → s.closed ≡ true

-- Every message that was fetched is at exactly one place, however one picks them out.
abbrev pub Placed : System → Type 0
Placed s =
    (p : Message → Bool)
    → count p s.fetched
      ≡ count p (held s.dispatcher)
        + count p s.running
        + count p s.sending
        + count p s.channel
        + count p s.received
        + count p s.dropped

module _ (slots capacity : ℕ) (s t : System) where
  Step-IsSound : Step slots capacity s t → IsSound slots capacity s → IsSound slots capacity t
  Step-IsSound (fetch m unanswered d e) h = ground arith
  Step-IsSound (fetch m nothing_to_do d e) h = ground arith
  Step-IsSound (fetch m new_job d e) h = ground arith
  Step-IsSound (start m d l e) h = ground arith
  Step-IsSound (give_up m d c e) h = ground arith
  Step-IsSound (pass m d l e) h = ground (arith, length-append s.channel (m ∷ []))
  Step-IsSound (pass_over m d n c e) h = ground arith
  Step-IsSound (finish xs m ys r e) h = ground (arith, length-between s.running xs m ys r)
  Step-IsSound (send xs m ys r c l e) h = ground (arith, length-append s.channel (m ∷ []))
  Step-IsSound (hand_over xs m ys r c n a e) h = ground arith
  Step-IsSound (send_on_closed xs m ys r c e) h = ground arith
  Step-IsSound (receive m rest r c e) h = ground arith
  Step-IsSound (cancel e) h = ground arith
  Step-IsSound (coordinator_returns a c e) h = ground arith
  Step-IsSound (run_returns d c e) h = ground arith
  Step-IsSound (close d r c e) h = ground arith

  Step-Placed : Step slots capacity s t → Placed s → Placed t
  Step-Placed (fetch m unanswered d e) h p = ground (arith, h p)
  Step-Placed (fetch m nothing_to_do d e) h p = ground (arith, h p)
  Step-Placed (fetch m new_job d e) h p = ground (arith, h p)
  Step-Placed (start m d l e) h p = ground (arith, h p)
  Step-Placed (give_up m d c e) h p = ground (arith, h p)
  Step-Placed (pass m d l e) h p = ground (arith, h p, count-append p s.channel (m ∷ []))
  Step-Placed (pass_over m d n c e) h p = ground (arith, h p, count-append p s.received (m ∷ []))
  Step-Placed (finish xs m ys r e) h p = ground (arith, h p, count-between p s.running xs m ys r)
  Step-Placed (send xs m ys r c l e) h p =
      ground (arith, h p, count-between p s.sending xs m ys r, count-append p s.channel (m ∷ []))
  Step-Placed (hand_over xs m ys r c n a e) h p =
      ground (arith, h p, count-between p s.sending xs m ys r, count-append p s.received (m ∷ []))
  Step-Placed (send_on_closed xs m ys r c e) h p = ground (arith, h p)
  Step-Placed (receive m rest r c e) h p = ground (arith, h p, count-append p s.received (m ∷ []))
  Step-Placed (cancel e) h p = ground (arith, h p)
  Step-Placed (coordinator_returns a c e) h p = ground (arith, h p)
  Step-Placed (run_returns d c e) h p = ground (arith, h p)
  Step-Placed (close d r c e) h p = ground (arith, h p)

module _ (slots capacity : ℕ) where
  Reach-Keeps :
      (P : System → Type 0)
      → P init
      → ((s t : System) → Step slots capacity s t → P s → P t)
      → (s : System) → Reach slots capacity s
      → P s
  Reach-Keeps P first keep s r = steps r
    where
      steps : {t : System} → Steps slots capacity init t → P t
      steps here = first
      steps (next {t = u} t r st) = keep u t st (steps r)

  init-IsSound : IsSound slots capacity init
  init-IsSound = ground arith

  -- In every state that a worker process comes to, whatever the order of the goroutines' steps, no
  -- more jobs run than there are slots, and the channel holds no more than its capacity. When it
  -- is closed, `run` has returned after a signal and no job holds a slot; only then can a send
  -- panic.
  pub Reach-IsSound : (s : System) → Reach slots capacity s → IsSound slots capacity s
  Reach-IsSound = Reach-Keeps (IsSound slots capacity) init-IsSound (Step-IsSound slots capacity)

  -- No message is lost or doubled between the goroutines: in every state that a worker process comes
  -- to, a message that was fetched is at exactly one place as often as it was fetched: with the
  -- loop of `run`, with a running job, at its send, in the channel, with the coordinator, or given
  -- up by dispatchMessage.
  pub Reach-Placed : (s : System) → Reach slots capacity s → Placed s
  Reach-Placed = Reach-Keeps Placed (λ p. omega arith) (Step-Placed slots capacity)
