-- ===== src/Commit/View.antt =====
-- What each state change does to one partition's next offset and buffer.
use relentless_bookworm.Base.{
  ℕ, ◌+◌, ◌≡◌, refl, Bool, true, false, Option, none, some, [], ◌∷◌, ◌++◌, arith, ◌==◌,
  if◌then◌else◌, ==_iff, ap, Bool-cases, inl, inr,
}
use relentless_bookworm.Map.{Map, lookup, insert, lookup-insert, lookup-delete}
use relentless_bookworm.Commit.{
  Message, Coordinator, slot, next_of, or_empty, enqueue, requeue, advance,
}

-- The buffered message at an offset of a partition.
abbrev pub buffered : Coordinator → ℕ → ℕ → Option Message
buffered c p o = lookup o (slot c p)

abbrev pub next? : Coordinator → ℕ → Option ℕ
next? c p = lookup p c.next_offset

abbrev pub first_of : Option ℕ → ℕ → ℕ
first_of none n = n
first_of (some k) n = k

pub next?-enqueue :
    (c : Coordinator) (m : Message) (q : ℕ)
    → next? (enqueue c m) q
      ≡ (if m.partition == q then some (first_of (next? c q) m.offset) else next? c q)
unfolding enqueue
next?-enqueue c m q = ground (arith, lookup-insert m.partition q m.offset c.next_offset)

or_empty-insert :
    (p q : ℕ) (b : Map Message) (m : Map (Map Message))
    → or_empty (lookup q (insert p b m)) ≡ (if p == q then b else or_empty (lookup q m))
or_empty-insert p q b m = ground (arith, lookup-insert p q b m)

-- Writing one offset of one partition's buffer, in the form that the state changes have.
lookup-slot :
    (p q o : ℕ) (b : Map Message) (m : Map (Map Message))
    → lookup o (or_empty (lookup q (insert p b m)))
      ≡ (if p == q then lookup o b else lookup o (or_empty (lookup q m)))
lookup-slot p q o b m = elim (Bool-cases (p == q)) [
  | inl e ↦ rw (or_empty-insert, e)
  | inr e ↦ rw (or_empty-insert, e)
]

-- A test on a partition that the value tested for may stand in for.
at_self :
    {A : Type 0} (p q : ℕ) (f : ℕ → A) (x : A)
    → (if p == q then f p else x) ≡ (if p == q then f q else x)
at_self p q f x = elim (Bool-cases (p == q)) [
  | inl e ↦ rw e (ap f ((==_iff p q).0 e))
  | inr e ↦ rw e
]

if_if :
    {A : Type 0} (b : Bool) (x y z : A)
    → (if b then x else if b then y else z) ≡ (if b then x else z)
if_if true x y z = refl
if_if false x y z = refl

pub buffered-enqueue :
    (c : Coordinator) (m : Message) (q o : ℕ)
    → buffered (enqueue c m) q o ≡ (
        if m.partition == q
        then (if m.offset == o then some m else buffered c q o)
        else buffered c q o)
unfolding enqueue slot
buffered-enqueue c m q o =
    rw (lookup-slot, lookup-insert m.offset o m)
      (at_self m.partition q
        (λ r. if m.offset == o then some m else lookup o (or_empty (lookup r c.pending))) _)

pub committed-enqueue : (c : Coordinator) (m : Message) → (enqueue c m).committed ≡ c.committed
unfolding enqueue
committed-enqueue c m = refl

module _ (c : Coordinator) (p next : ℕ) (m : Message) (q : ℕ) where
  pub next?-advance : next? (advance c p next m) q ≡ (if p == q then some (next + 1) else next? c q)
  unfolding advance
  next?-advance = lookup-insert p q (next + 1) c.next_offset

  pub buffered-advance :
      (o : ℕ)
      → buffered (advance c p next m) q o
        ≡ (if p == q then (if next == o then none else buffered c q o) else buffered c q o)
  unfolding advance slot
  buffered-advance o =
      rw (lookup-slot, lookup-delete)
        (at_self p q (λ r. if next == o then none else lookup o (or_empty (lookup r c.pending))) _)

  pub next?-requeue : next? (requeue c p next m) q ≡ next? c q
  unfolding requeue
  next?-requeue = refl

  pub buffered-requeue :
      (o : ℕ)
      → buffered (requeue c p next m) q o
        ≡ (if p == q then (if next == o then some m else buffered c q o) else buffered c q o)
  unfolding requeue slot
  buffered-requeue o =
      rw (lookup-slot, lookup-insert next o m, lookup-delete)
        (rw (if_if (next == o) (some m)) (
          at_self p q (λ r. if next == o then some m else lookup o (or_empty (lookup r c.pending)))
            _))

  pub committed-advance : (advance c p next m).committed ≡ c.committed ++ m ∷ []
  unfolding advance
  committed-advance = refl

  pub committed-requeue : (requeue c p next m).committed ≡ c.committed
  unfolding requeue
  committed-requeue = refl

pub next_of-some : (c : Coordinator) (p n : ℕ) → next? c p ≡ some n → next_of c p ≡ n
unfolding next_of
next_of-some c p n h = rw h

pub next_of-none : (c : Coordinator) (p : ℕ) → next? c p ≡ none → next_of c p ≡ 0
unfolding next_of
next_of-none c p h = rw h
