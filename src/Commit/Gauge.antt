-- ===== src/Commit/Gauge.antt =====
-- The gauge workerCommitPendingTotal against the number of messages that are buffered.
use relentless_bookworm.Base.{
  ℕ, ◌+◌, ◌<◌, ◌≡◌, refl, Bool, Option, none, some, [], ◌∷◌, arith, ◌==◌, ==_iff, length,
  Bool-cases, inl, inr,
}
use relentless_bookworm.Map.{Map, lookup, insert, delete, lookup-insert, lookup-delete}
use relentless_bookworm.Commit.{
  Message, Coordinator, new_commit_coordinator, slot, or_empty, next_of, enqueue, requeue, advance,
  commit_next, receive, commit_next_cases,
}
use relentless_bookworm.Commit.Keeps.{receive_keeps}
use relentless_bookworm.Commit.View.{buffered}

module _ {ℓ} {V : Type ℓ} where
  abbrev pub IsUnique : Map V → Type ℓ
  IsUnique [] = Unit
  IsUnique ((j, w) ∷ m) = (lookup j m ≡ none) × IsUnique m

  insert-IsUnique : (k : ℕ) (v : V) (m : Map V) → IsUnique m → IsUnique (insert k v m)
  unfolding insert lookup
  insert-IsUnique k v [] u = (refl, tt)
  insert-IsUnique k v ((j, w) ∷ m) u =
      ground (arith, insert-IsUnique k v m u.1, lookup-insert k j v m)

  delete-IsUnique : (k : ℕ) (m : Map V) → IsUnique m → IsUnique (delete k m)
  unfolding delete lookup
  delete-IsUnique k [] u = tt
  delete-IsUnique k ((j, w) ∷ m) u = ground (arith, delete-IsUnique k m u.1, lookup-delete k j m)

  -- 1 for a key that is there already.
  abbrev pub present : Option V → ℕ
  present none = 0
  present (some v) = 1

  abbrev absent : Option V → ℕ
  absent none = 1
  absent (some v) = 0

  length-insert :
      (k : ℕ) (v : V) (m : Map V) → length (insert k v m) ≡ length m + absent (lookup k m)
  unfolding insert lookup
  length-insert k v [] = ground arith
  length-insert k v ((j, w) ∷ m) = ground (arith, length-insert k v m)

  length-delete :
      (k : ℕ) (m : Map V) → IsUnique m → length (delete k m) + 1 ≡ length m + absent (lookup k m)
  unfolding delete lookup
  length-delete k [] u = ground arith
  length-delete k ((j, w) ∷ m) u = ground (arith, length-delete k m u.1, ==_iff j k)

-- The number of buffered messages, over all partitions.
unfoldable pub size : Map (Map Message) → ℕ
size [] = 0
size ((p, b) ∷ m) = length b + size m

size-insert :
    (p : ℕ) (b : Map Message) (m : Map (Map Message))
    → size (insert p b m) + length (or_empty (lookup p m)) ≡ size m + length b
unfolding size insert lookup
size-insert p b [] = ground arith
size-insert p b ((j, x) ∷ m) = ground (arith, size-insert p b m)

-- Taking a buffered message out and putting it back.
size-requeue :
    (p k : ℕ) (v : Message) (b : Map Message) (m : Map (Map Message))
    → or_empty (lookup p m) ≡ b
    → IsUnique b
    → lookup k b ≡ some v
    → (size (insert p (insert k v (delete k b)) m) ≡ size m) × (0 < size m)
size-requeue p k v b m s u h = ground (
  arith,
  length-delete k b u,
  lookup-delete k k b,
  length-insert k v (delete k b),
  size-insert p (insert k v (delete k b)) m,
  size-insert p [] m,
)

-- The gauge is ahead of the buffered messages by `drift`.
pub record HasDrift (drift : ℕ) (c : Coordinator) : Type 0 where
  pub unique : (p : ℕ) → IsUnique (slot c p)
  pub total : c.pending_total ≡ size c.pending + drift

IsUnique-insert :
    (p : ℕ) (b : Map Message) (m : Map (Map Message))
    → IsUnique b
    → ((q : ℕ) → IsUnique (or_empty (lookup q m)))
    → (q : ℕ) → IsUnique (or_empty (lookup q (insert p b m)))
IsUnique-insert p b m u h q = elim (Bool-cases (p == q)) [
  | inl e ↦ rw (lookup-insert, e) u
  | inr e ↦ rw (lookup-insert, e) (h q)
]

enqueue-HasDrift :
    (d : ℕ) (c : Coordinator) (m : Message)
    → HasDrift d c
    → HasDrift (present (buffered c m.partition m.offset) + d) (enqueue c m)
unfolding enqueue slot
enqueue-HasDrift d c m h = record {
  unique =
      IsUnique-insert m.partition _ c.pending (insert-IsUnique m.offset m _ (h.unique m.partition))
        h.unique;
  total = ground (
    arith,
    h.total,
    length-insert m.offset m (slot c m.partition),
    size-insert m.partition (insert m.offset m (slot c m.partition)) c.pending,
  );
}

commit_next-HasDrift :
    (accepts : ℕ → Message → Bool) (d p : ℕ) (c : Coordinator)
    → HasDrift d c
    → HasDrift d (commit_next accepts c p).0
unfolding advance requeue slot
commit_next-HasDrift accepts d p c h =
    commit_next_cases accepts (λ r. HasDrift d r.0) c p (λ _. h)
      (λ m e _. record {
        unique =
            IsUnique-insert p _ c.pending (delete-IsUnique (next_of c p) _ (h.unique p)) h.unique;
        total = ground (
          arith,
          h.total,
          length-delete (next_of c p) (slot c p) (h.unique p),
          size-insert p (delete (next_of c p) (slot c p)) c.pending,
        );
      })
      (λ m e _. record {
        unique =
            IsUnique-insert p _ c.pending
              (insert-IsUnique (next_of c p) m _ (delete-IsUnique (next_of c p) _ (h.unique p)))
              h.unique;
        total =
            let e' = size-requeue p (next_of c p) m (slot c p) c.pending refl (h.unique p) e in
            omega (arith, e'.0, e'.1, h.total);
      })

pub new-HasDrift : HasDrift 0 new_commit_coordinator
unfolding new_commit_coordinator slot lookup size
new-HasDrift = record { unique = λ p. tt; total = refl }

-- The gauge stays ahead of the buffered messages by the same number over a round of `run`, through
-- all commits and failed commits, unless the message that comes in is buffered already, at its
-- partition and offset: then the gauge is ahead by one more, for good.
pub receive-HasDrift :
    (accepts : ℕ → Message → Bool) (d : ℕ) (c : Coordinator) (m : Message)
    → HasDrift d c
    → HasDrift (present (buffered c m.partition m.offset) + d) (receive accepts c m)
receive-HasDrift accepts d c m h =
    receive_keeps accepts (HasDrift (present (buffered c m.partition m.offset) + d))
      (commit_next-HasDrift accepts _) c m (enqueue-HasDrift d c m h)
