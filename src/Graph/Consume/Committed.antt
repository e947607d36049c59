-- ===== src/Graph/Consume/Committed.antt =====
-- What is committed, counted and lost by the loops.
use relentless_bookworm.Base.{
  ◌+◌, ◌≡◌, refl, sym, ap, ◌∙◌, ◌≤◌, Bool, true, false, ◌||◌, none, some, List, [], ◌∷◌, ◌++◌,
  arith, if◌then◌else◌, if_elim, length, Option-cases, inl, inr, Bytes, append-nil, append_assoc,
}
use relentless_bookworm.Text.{bytes_eq}
use relentless_bookworm.Result.{Result, ok, err}
use relentless_bookworm.Models.{Edge}
use relentless_bookworm.Commit.{Message}
use relentless_bookworm.Graph.Query.{Statement, build_edge_query}
use relentless_bookworm.Graph.Consume.{
  Received, edition_result, work_result, author_result, other_result, Outside, Writer, run_write,
  write_received, write_result, write_edge, after_write, consume_one, consume, consume_results,
  consume_edges,
}

-- What a write leaves alone, and what it adds: nothing, or one statement.
record Wrote (w : Writer) (r : Result (Unit {0}) × Writer) : Type 0 where
  committed : r.1.committed ≡ w.committed
  received : r.1.received ≡ w.received
  failed : r.1.failed ≡ w.failed
  written : r.1.written ≡ w.written

-- Some of a list, in its order.
pub data Subsequence : List Message → List Message → Type 0 where
  nothing : Subsequence [] []
  kept : {xs ys : List Message} (m : Message) → Subsequence xs ys → Subsequence (m ∷ xs) (m ∷ ys)
  skipped : {xs ys : List Message} (m : Message) → Subsequence xs ys → Subsequence xs (m ∷ ys)

-- What a loop leaves that took the messages ms, from w on: each message is counted as received, and
-- as failed or written; some of those written are committed, in the order of ms.
pub record Consumed (w : Writer) (ms : List Message) (v : Writer) : Type 0 where
  pub done : List Message
  pub order : Subsequence done ms
  pub committed : v.committed ≡ w.committed ++ done
  pub received : v.received ≡ w.received + length ms
  pub counted : v.failed + v.written ≡ w.failed + w.written + length ms
  pub bound : w.written + length done ≤ v.written

Consumed-cons :
    (w v u : Writer) (m : Message) (ms done : List Message)
    → Subsequence done (m ∷ [])
    → v.committed ≡ w.committed ++ done
    → v.received ≡ w.received + 1
    → v.failed + v.written ≡ w.failed + w.written + 1
    → w.written + length done ≤ v.written
    → Consumed v ms u
    → Consumed w (m ∷ ms) u
Consumed-cons w v u m ms _ (kept _ nothing) c r f b h = record {
  done = m ∷ h.done;
  order = kept m h.order;
  committed = h.committed ∙ rw (c, append_assoc);
  received = ground (arith, r, h.received);
  counted = ground (arith, f, h.counted);
  bound = ground (arith, b, h.bound);
}
Consumed-cons w v u m ms _ (skipped _ nothing) c r f b h = record {
  done = h.done;
  order = skipped m h.order;
  committed = h.committed ∙ rw (c, append-nil);
  received = ground (arith, r, h.received);
  counted = ground (arith, f, h.counted);
  bound = ground (arith, b, h.bound);
}

module _ (out : Outside) where
  run_write-Wrote : (s : Statement) (w : Writer) → Wrote w (run_write out s w)
  unfolding run_write
  run_write-Wrote s w = ground arith

  same : (r : Result (Unit {0})) (w : Writer) → Wrote w (r, w)
  same r w = record { committed = refl; received = refl; failed = refl; written = refl }

  unless_empty :
      (b : Bool) (s : Statement) (w : Writer)
      → Wrote w (if b then (ok tt, w) else run_write out s w)
  unless_empty b s w = if_elim (Wrote w) b _ _ (λ _. same (ok tt) w) (λ _. run_write-Wrote s w)

  write_received-Wrote :
      (session_id : Bytes) (r : Received) (w : Writer) → Wrote w (write_received out session_id r w)
  unfolding write_received
  write_received-Wrote session_id (edition_result none) w = same _ w
  write_received-Wrote session_id (edition_result (some n)) w = unless_empty _ _ w
  write_received-Wrote session_id (work_result none) w = same _ w
  write_received-Wrote session_id (work_result (some n)) w = unless_empty _ _ w
  write_received-Wrote session_id (author_result none) w = same _ w
  write_received-Wrote session_id (author_result (some n)) w = unless_empty _ _ w
  write_received-Wrote session_id other_result w = same _ w

  write_edge-Wrote : (payload : Bytes) (w : Writer) → Wrote w (write_edge out payload w)
  unfolding write_edge
  write_edge-Wrote payload w = elim (Option-cases (out.edge payload)) [
    | inl e ↦ rw (e, write_edge) (same _ w)
    | inr (a, e) ↦ rw (e, write_edge) (unless_empty _ _ w)
  ]

  write_result-Wrote : (payload : Bytes) (w : Writer) → Wrote w (write_result out payload w)
  unfolding write_result
  write_result-Wrote payload w = elim (Option-cases (out.result payload)) [
    | inl e ↦ rw (e, write_result) (same _ w)
    | inr ((session_id, r), e) ↦ rw (e, write_result) (write_received-Wrote session_id r w)
  ]

  module _ (write : Bytes → Writer → Result (Unit {0}) × Writer)
      (frame : (payload : Bytes) (w : Writer) → Wrote w (write payload w)) where
    consume-Consumed : (w : Writer) (ms : List Message) → Consumed w ms (consume out write w ms)
    unfolding consume consume_one
    consume-Consumed w [] = record {
      done = [];
      order = nothing;
      committed = sym (append-nil w.committed);
      received = omega arith;
      counted = omega arith;
      bound = omega arith;
    }
    consume-Consumed w (m ∷ ms) =
        round (write m.value (record w { received = w.received + 1 }))
          (frame m.value (record w { received = w.received + 1 }))
          (consume-Consumed (consume_one out write w m) ms)
      where
        round :
            (r : Result (Unit {0}) × Writer)
            → Wrote (record w { received = w.received + 1 }) r
            → Consumed (after_write out m r) ms (consume out write (after_write out m r) ms)
            → Consumed w (m ∷ ms) (consume out write (after_write out m r) ms)
        round (err e, v) h c =
            Consumed-cons w _ _ m ms [] (skipped m nothing) (h.committed ∙ sym (append-nil _))
              h.received (ground (arith, h.failed, h.written)) (ground (arith, h.written)) c
        round (ok u, v) h c =
            if_elim
              (λ (x : Writer).
                Consumed x ms (consume out write x ms)
                → Consumed w (m ∷ ms) (consume out write x ms))
              (out.commits v.commits) _ _
              (λ _ d.
                Consumed-cons w _ _ m ms (m ∷ []) (kept m nothing)
                  (ap (λ (l : List Message). l ++ m ∷ []) h.committed) h.received
                  (ground (arith, h.failed, h.written)) (ground (arith, h.written)) d)
              (λ _ d.
                Consumed-cons w _ _ m ms [] (skipped m nothing)
                  (h.committed ∙ sym (append-nil w.committed)) h.received
                  (ground (arith, h.failed, h.written)) (ground (arith, h.written)) d)
              c

  -- Both loops account for every message they take: it is counted as received once, and once as
  -- failed or as written; the messages that are committed are some of those taken, in order, and
  -- no more than those written.
  pub consume_both-Consumed :
      (w : Writer) (ms : List Message)
      → Consumed w ms (consume_results out w ms) × Consumed w ms (consume_edges out w ms)
  unfolding consume_results consume_edges
  consume_both-Consumed w ms = (
    consume-Consumed (write_result out) write_result-Wrote w ms,
    consume-Consumed (write_edge out) write_edge-Wrote w ms,
  )

  write_edge_run :
      (payload : Bytes) (e : Edge) (w : Writer)
      → out.edge payload ≡ some e
      → (bytes_eq e.from [] || bytes_eq e.to []) ≡ false
      → write_edge out payload w ≡ run_write out (build_edge_query out.unicode e) w
  unfolding write_edge
  write_edge_run payload e w h k = rw (h, write_edge) (rw k)

  -- When the transaction of an edge fails and that of the next edge succeeds, the next message is
  -- committed and the failed one is not: it is passed over, and not tried again.
  pub failed_passed_over :
      (w : Writer) (m n : Message) (a b : Edge)
      → out.edge m.value ≡ some a
      → (bytes_eq a.from [] || bytes_eq a.to []) ≡ false
      → out.edge n.value ≡ some b
      → (bytes_eq b.from [] || bytes_eq b.to []) ≡ false
      → out.runs w.runs ≡ false
      → out.runs (w.runs + 1) ≡ true
      → out.commits w.commits ≡ true
      → let v = consume_edges out w (m ∷ n ∷ []) in
        (v.committed ≡ w.committed ++ n ∷ [])
        × (v.statements ≡ w.statements ++ build_edge_query out.unicode b ∷ [])
        × (v.failed ≡ w.failed + 1)
  unfolding consume_edges consume consume_one run_write
  failed_passed_over w m n a b e f g h r s c =
      rw (write_edge_run m.value a _ e f)
        (rw r (rw (write_edge_run n.value b _ g h) (rw s (rw c (refl, refl, refl)))))
