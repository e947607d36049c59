-- ===== src/Worker/Pipeline/Finish.antt =====
-- How the work that was begun is finished and committed.
use relentless_bookworm.Base.{
  ℕ, ◌+◌, ◌≤◌, ◌<◌, ◌≡◌, refl, sym, subst, Bool, true, false, List, [], ◌∷◌, ◌++◌, arith, length,
  Bool-cases, inl, inr,
}
use relentless_bookworm.Commit.{Message}
use relentless_bookworm.Commit.InOrder.{offsets}
use relentless_bookworm.Commit.Held.{has}
use relentless_bookworm.Commit.Sequence.{first_offset}
use relentless_bookworm.Commit.Complete.{commits_complete}
use relentless_bookworm.Worker.Pipeline.{
  Dispatcher, fetching, sends, waits, returned, System, start, finish, pass_over, hand_over,
  receive, Steps, here, next, Reach, coordinator,
}
use relentless_bookworm.Worker.Pipeline.Sound.{count, held, Reach-Placed}
use relentless_bookworm.Worker.Pipeline.Deliver.{has_place}

Steps-append :
    {slots capacity : ℕ} (r s : System) {t : System}
    → Steps slots capacity r s
    → Steps slots capacity s t
    → Steps slots capacity r t
Steps-append r s a here = a
Steps-append r s a (next u b st) = next u (Steps-append r s a b) st

-- No message is on its way: not with the loop of `run`, not with a job, not in the channel.
pub record IsQuiet (s : System) : Type 0 where
  pub nothing_held : held s.dispatcher ≡ []
  pub nothing_runs : s.running ≡ []
  pub nothing_sends : s.sending ≡ []
  pub nothing_buffered : s.channel ≡ []

-- What becomes of the sends when the jobs of rs end, and what was received behind ms.
abbrev ended : List Message → List Message → List Message
ended [] ss = ss
ended (m ∷ rs) ss = ended rs (m ∷ ss)

abbrev behind : List Message → List Message → List Message
behind rv [] = rv
behind rv (m ∷ ms) = behind (rv ++ m ∷ []) ms

-- While nobody shuts down.
abbrev working : System → System
working s = record s { closed = false; coordinating = true }

module _ (slots capacity : ℕ) where
  finish_all :
      (rs ss : List Message) (s : System)
      → Steps slots capacity
          (record (working s) { running = rs; sending = ss })
          (record (working s) { running = []; sending = ended rs ss })
  finish_all [] ss s = here
  finish_all (m ∷ rs) ss s =
      Steps-append _ (record (working s) { running = rs; sending = m ∷ ss })
        (next _ here (finish [] m rs refl refl)) (finish_all rs (m ∷ ss) s)

  receive_all :
      (ms rv : List Message) (s : System)
      → Steps slots capacity
          (record (working s) { channel = ms; received = rv })
          (record (working s) { channel = []; received = behind rv ms })
  receive_all [] rv s = here
  receive_all (m ∷ ms) rv s =
      Steps-append _ (record (working s) { channel = ms; received = rv ++ m ∷ [] })
        (next _ here (receive m ms refl refl refl)) (receive_all ms (rv ++ m ∷ []) s)

  send_all :
      (ss rv : List Message) (s : System)
      → Steps slots capacity
          (record (working s) { sending = ss; channel = []; received = rv })
          (record (working s) { sending = []; channel = []; received = behind rv ss })
  send_all [] rv s = here
  send_all (m ∷ ss) rv s =
      Steps-append _ (record (working s) { sending = ss; channel = []; received = rv ++ m ∷ [] })
        (next _ here (hand_over [] m ss refl refl refl refl refl)) (send_all ss (rv ++ m ∷ []) s)

  -- All jobs end, and all their messages are received.
  abbrev settled : System → System
  settled s = record (working s) {
    running = [];
    sending = [];
    channel = [];
    received = behind (behind s.received s.channel) (ended s.running s.sending);
  }

  settle : (s : System) → Steps slots capacity (working s) (settled s)
  settle s =
      let ss = ended s.running s.sending in
      let a = record (working s) { running = []; sending = ss } in
      let rv = behind s.received s.channel in
      Steps-append (working s) a (finish_all s.running s.sending s) (
        Steps-append a (record a { channel = []; received = rv })
          (receive_all s.channel s.received a) (send_all ss rv a))

  -- What becomes of s when all of its work is done, with no further message.
  abbrev Finished : System → Type 0
  Finished s =
      (t : System) × Steps slots capacity s t
      × IsQuiet t
      × (t.fetched ≡ s.fetched)
      × (t.dropped ≡ s.dropped)

  quiet :
      (d : Dispatcher) (rv : List Message) (s : System)
      → held d ≡ []
      → IsQuiet (record (settled s) { dispatcher = d; received = rv })
  quiet d rv s h = record {
    nothing_held = h;
    nothing_runs = refl;
    nothing_sends = refl;
    nothing_buffered = refl;
  }

  finish_open :
      (d : Dispatcher) (s : System) → 0 < slots → Finished (record (working s) { dispatcher = d })
  finish_open fetching s h =
      let u = record s { dispatcher = fetching } in
      (settled u, settle u, quiet _ _ u refl, refl, refl)
  finish_open returned s h =
      let u = record s { dispatcher = returned } in
      (settled u, settle u, quiet _ _ u refl, refl, refl)
  finish_open (sends m) s h =
      let u = record s { dispatcher = sends m } in
      (
        record (settled u) { dispatcher = fetching; received = (settled u).received ++ m ∷ [] },
        next _ (settle u) (pass_over m refl refl refl refl),
        quiet _ _ u refl,
        refl,
        refl,
      )
  finish_open (waits m) s h =
      let u = record s { dispatcher = waits m } in
      let v = record (settled u) { dispatcher = fetching; running = m ∷ [] } in
      (
        settled v,
        Steps-append _ v (next _ (settle u) (start m refl h refl)) (settle v),
        quiet _ _ v refl,
        refl,
        refl,
      )

  -- The goroutines do not block one another: from every state in which the coordinator has not
  -- returned and the channel is open, whatever jobs run, messages are at their send, and the
  -- channel holds, there are steps that fetch nothing and give up nothing, to a state with no
  -- message on its way.
  pub can_finish :
      (s : System)
      → 0 < slots
      → s.closed ≡ false
      → s.coordinating ≡ true
      → (t : System) × Steps slots capacity s t
        × IsQuiet t
        × (t.fetched ≡ s.fetched)
        × (t.dropped ≡ s.dropped)
  can_finish s h o a =
      subst (λ b. Finished (record s { closed = b })) (sym o)
        (subst (λ b. Finished (record s { closed = false; coordinating = b })) (sym a)
          (finish_open s.dispatcher s h))

has-count :
    (q o : ℕ) (ms : List Message) → has o (offsets q ms) ≡ false → count (has_place q o) ms ≡ 0
unfolding has offsets
has-count q o [] h = refl
has-count q o (m ∷ ms) h = ground (arith, has-count q o ms)

-- When no message is on its way any more and the reader accepts all commits, everything that is
-- consecutive from the first message on that came to the coordinator is committed: if of a
-- partition the k offsets from there on were all fetched, and none of them given up, then k offsets
-- at least are committed, in whatever order the jobs went.
pub quiet_commits :
    (slots capacity : ℕ) (accepts : ℕ → Message → Bool) (s : System) (q k : ℕ)
    → Reach slots capacity s
    → IsQuiet s
    → ((n : ℕ) (m : Message) → accepts n m ≡ true)
    → ((i : ℕ) → i < k → 0 < count (has_place q (first_offset q s.received + i)) s.fetched)
    → ((i : ℕ) → i < k → count (has_place q (first_offset q s.received + i)) s.dropped ≡ 0)
    → k ≤ length (offsets q (coordinator accepts s).committed)
quiet_commits slots capacity accepts s q k r z always came kept =
    commits_complete accepts s.received q k always received
  where
    received : (i : ℕ) → i < k → has (first_offset q s.received + i) (offsets q s.received) ≡ true
    received i l =
        let o = first_offset q s.received + i in
        let p = Reach-Placed slots capacity s r (has_place q o) in
        elim (Bool-cases (has o (offsets q s.received))) [
          | inl it ↦ it
          | inr missing ↦ ground (
            arith,
            p,
            came i l,
            kept i l,
            has-count q o s.received missing,
            z.nothing_held,
            z.nothing_runs,
            z.nothing_sends,
            z.nothing_buffered,
          )
        ]
