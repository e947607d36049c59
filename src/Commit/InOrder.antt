-- ===== src/Commit/InOrder.antt =====
-- The commits of one partition, over a single state change.
use relentless_bookworm.Base.{
  ℕ, zero, suc, ◌+◌, ◌≡◌, refl, ap, Bool, true, false, none, some, List, [], ◌∷◌, ◌++◌, arith, ◌==◌,
  ==_iff, if◌then◌else◌, length, Bool-cases, inl, inr,
}
use relentless_bookworm.Commit.{
  Message, Coordinator, next_of, enqueue, advance, commit_next, commit_next_cases,
}
use relentless_bookworm.Commit.View.{
  buffered, next?, next?-enqueue, buffered-enqueue, next?-advance, buffered-advance, next?-requeue,
  buffered-requeue, committed-enqueue, committed-advance, committed-requeue, next_of-some,
}

-- The offsets of one partition's messages, in the list's order.
unfoldable pub offsets : ℕ → List Message → List ℕ
offsets p [] = []
offsets p (m ∷ ms) = if m.partition == p then m.offset ∷ offsets p ms else offsets p ms

-- n consecutive numbers from s on.
unfoldable pub upfrom : ℕ → ℕ → List ℕ
upfrom s zero = []
upfrom s (suc n) = s ∷ upfrom (s + 1) n

pub length-upfrom : (s n : ℕ) → length (upfrom s n) ≡ n
unfolding upfrom
length-upfrom s zero = refl
length-upfrom s (suc n) = ap suc (length-upfrom (s + 1) n)

pub upfrom-snoc : (s n : ℕ) → upfrom s n ++ (s + n) ∷ [] ≡ upfrom s (n + 1)
unfolding upfrom
upfrom-snoc s zero = ground arith
upfrom-snoc s (suc n) = ground (arith, upfrom-snoc (s + 1) n)

pub offsets-snoc :
    (p : ℕ) (ms : List Message) (m : Message)
    → offsets p (ms ++ m ∷ [])
      ≡ (if m.partition == p then offsets p ms ++ m.offset ∷ [] else offsets p ms)
unfolding offsets
offsets-snoc p [] m = refl
offsets-snoc p (x ∷ ms) m = ground (arith, offsets-snoc p ms m)

-- A buffered message stands under its own partition and offset.
pub record IsKeyed (c : Coordinator) : Type 0 where
  pub at : (p o : ℕ) (m : Message) → buffered c p o ≡ some m → (m.partition ≡ p) × (m.offset ≡ o)

pub enqueue-IsKeyed : (c : Coordinator) (m : Message) → IsKeyed c → IsKeyed (enqueue c m)
enqueue-IsKeyed c m h = record {
  at = λ p o x e. ground (arith, buffered-enqueue c m p o, h.at p o x);
}

pub commit_next-IsKeyed :
    (accepts : ℕ → Message → Bool) (p : ℕ) (c : Coordinator)
    → IsKeyed c
    → IsKeyed (commit_next accepts c p).0
commit_next-IsKeyed accepts p c h =
    commit_next_cases accepts (λ r. IsKeyed r.0) c p (λ _. h)
      (λ m e _. record {
        at = λ q o x b. ground (arith, buffered-advance c p (next_of c p) m q o, h.at q o x);
      })
      (λ m e _. record {
        at = λ q o x b.
            ground
              (arith, buffered-requeue c p (next_of c p) m q o, h.at q o x, h.at p (next_of c p) m);
      })

-- The commits of partition q are k consecutive offsets from s on, and the next one comes after.
pub record InOrder (s q : ℕ) (c : Coordinator) : Type 0 where
  pub keyed : IsKeyed c
  pub count : ℕ
  pub next : next? c q ≡ some (s + count)
  pub sequence : offsets q c.committed ≡ upfrom s count

-- Nothing of partition q was seen yet.
pub record IsFresh (q : ℕ) (c : Coordinator) : Type 0 where
  pub keyed : IsKeyed c
  pub unknown : next? c q ≡ none
  pub nothing : offsets q c.committed ≡ []
  pub empty : (o : ℕ) → buffered c q o ≡ none

pub enqueue-InOrder :
    (s q : ℕ) (c : Coordinator) (m : Message) → InOrder s q c → InOrder s q (enqueue c m)
enqueue-InOrder s q c m h = record {
  keyed = enqueue-IsKeyed c m h.keyed;
  count = h.count;
  next = ground (arith, next?-enqueue c m q);
  sequence = rw committed-enqueue h.sequence;
}

advance-InOrder :
    (s q p : ℕ) (c : Coordinator) (m : Message)
    → InOrder s q c
    → buffered c p (next_of c p) ≡ some m
    → IsKeyed (advance c p (next_of c p) m)
    → InOrder s q (advance c p (next_of c p) m)
advance-InOrder s q p c m h e k = elim (Bool-cases (p == q)) [
  | inl same ↦ record {
    keyed = k;
    count = h.count + 1;
    next = ground (
      arith,
      next?-advance c p (next_of c p) m q,
      next_of-some c q (s + h.count) h.next,
      ==_iff p q,
    );
    sequence = ground (
      arith,
      committed-advance c p (next_of c p) m,
      offsets-snoc q c.committed m,
      upfrom-snoc s h.count,
      next_of-some c q (s + h.count) h.next,
      h.keyed.at p (next_of c p) m e,
    );
  }
  | inr other ↦ record {
    keyed = k;
    count = h.count;
    next = ground (arith, next?-advance c p (next_of c p) m q);
    sequence = ground (
      arith,
      committed-advance c p (next_of c p) m,
      offsets-snoc q c.committed m,
      h.keyed.at p (next_of c p) m e,
    );
  }
]

pub commit_next-InOrder :
    (accepts : ℕ → Message → Bool) (s q p : ℕ) (c : Coordinator)
    → InOrder s q c
    → InOrder s q (commit_next accepts c p).0
commit_next-InOrder accepts s q p c h =
    commit_next_cases accepts (λ r. IsKeyed r.0 → InOrder s q r.0) c p (λ _ _. h)
      (λ m e _. advance-InOrder s q p c m h e)
      (λ m e _ k. record {
        keyed = k;
        count = h.count;
        next = rw next?-requeue h.next;
        sequence = rw committed-requeue h.sequence;
      })
      (commit_next-IsKeyed accepts p c h.keyed)

-- A partition that nothing was seen of has nothing to commit.
pub commit_next-IsFresh :
    (accepts : ℕ → Message → Bool) (q p : ℕ) (c : Coordinator)
    → IsFresh q c
    → IsFresh q (commit_next accepts c p).0
commit_next-IsFresh accepts q p c h =
    commit_next_cases accepts (λ r. IsKeyed r.0 → IsFresh q r.0) c p (λ _ _. h)
      (λ m e _ k. record {
        keyed = k;
        unknown =
            ground (arith, next?-advance c p (next_of c p) m q, ==_iff p q, h.empty (next_of c p));
        nothing = ground (
          arith,
          committed-advance c p (next_of c p) m,
          offsets-snoc q c.committed m,
          h.keyed.at p (next_of c p) m e,
          h.empty (next_of c p),
        );
        empty = λ o. ground (arith, buffered-advance c p (next_of c p) m q o, h.empty o);
      })
      (λ m e _ k. record {
        keyed = k;
        unknown = rw next?-requeue h.unknown;
        nothing = rw committed-requeue h.nothing;
        empty = λ o. ground (
          arith,
          buffered-requeue c p (next_of c p) m q o,
          ==_iff p q,
          h.empty o,
          h.empty (next_of c p),
        );
      })
      (commit_next-IsKeyed accepts p c h.keyed)

pub enqueue-IsFresh :
    (q : ℕ) (c : Coordinator) (m : Message)
    → (m.partition == q) ≡ false
    → IsFresh q c
    → IsFresh q (enqueue c m)
enqueue-IsFresh q c m other h = record {
  keyed = enqueue-IsKeyed c m h.keyed;
  unknown = ground (arith, next?-enqueue c m q);
  nothing = rw committed-enqueue h.nothing;
  empty = λ o. ground (arith, buffered-enqueue c m q o, h.empty o);
}

-- The first message of a partition fixes where its sequence starts.
pub enqueue-starts :
    (q : ℕ) (c : Coordinator) (m : Message)
    → (m.partition == q) ≡ true
    → IsFresh q c
    → InOrder m.offset q (enqueue c m)
unfolding upfrom
enqueue-starts q c m same h = record {
  keyed = enqueue-IsKeyed c m h.keyed;
  count = 0;
  next = ground (arith, next?-enqueue c m q);
  sequence = rw committed-enqueue h.nothing;
}
