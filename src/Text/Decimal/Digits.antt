-- ===== src/Text/Decimal/Digits.antt =====
-- The digits of a decimal text.
use relentless_bookworm.Base.{
  ℕ, zero, suc, ◌+◌, ◌/◌, ◌%◌, ◌≤◌, ◌≡◌, refl, ◌∙◌, some, [], ◌∷◌, arith, ltb, Bool-cases, inl, inr,
  Bytes, All,
}
use relentless_bookworm.Text.Decimal.{decimal, push_digits, digits_value, digits_value-push_digits}

pub digits_value-decimal : (n : ℕ) → digits_value 0 (decimal n) ≡ some n
unfolding decimal
digits_value-decimal n =
    digits_value-push_digits (suc n) n [] (omega arith) ∙ unfold digits_value in refl

abbrev pub IsDigit : ℕ → Type 0
IsDigit c = (b'0' ≤ c) × (c ≤ b'9')

push_digits-All :
    (fuel n : ℕ) (acc : Bytes) → All IsDigit acc → All IsDigit (push_digits fuel n acc)
unfolding push_digits
push_digits-All zero n acc h = h
push_digits-All (suc fuel) n acc h = elim (Bool-cases (ltb n 10)) [
  | inl last ↦ rw last ((omega arith, ground arith), h)
  | inr more ↦ rw more (push_digits-All fuel (n / 10) ((b'0' + n % 10) ∷ acc) (omega arith, h))
]

pub decimal-All : (n : ℕ) → All IsDigit (decimal n)
unfolding decimal
decimal-All n = push_digits-All (suc n) n [] tt
