-- ===== src/Text/Decimal.antt =====
-- Numbers as texts: `%d` of fmt, and Atoi of strconv, where an int has 64 bits.
pub mod Digits
use relentless_bookworm.Base.{
  ℕ, zero, suc, ◌+◌, ◌-◌, ◌*◌, ◌/◌, ◌%◌, ◌^◌, ◌<◌, ◌≡◌, refl, ◌∙◌, ℤ, pos, negsuc, Bool, true,
  false, ◌&&◌, Option, none, some, List, [], ◌∷◌, ◌++◌, arith, ltb, leb, ◌==◌, if◌then◌else◌,
  Bool-cases, inl, inr, Bytes,
}

-- The digits of n in front of `acc`; a fuel above n is enough.
unfoldable pub push_digits : ℕ → ℕ → Bytes → Bytes
push_digits zero n acc = acc
push_digits (suc fuel) n acc =
    let rest = push_digits fuel (n / 10) ((b'0' + n % 10) ∷ acc) in
    if ltb n 10 then (b'0' + n) ∷ acc else rest

unfoldable pub decimal : ℕ → Bytes
unfolding push_digits
decimal n = push_digits (suc n) n []

-- A text of digits behind a number.
unfoldable pub digits_value : ℕ → Bytes → Option ℕ
digits_value n [] = some n
digits_value n (c ∷ s) =
    let rest = digits_value (n * 10 + (c - b'0')) s in
    if leb b'0' c && leb c b'9' then rest else none

unfoldable pub unsigned : Bytes → Option ℕ
unfolding digits_value
unsigned [] = none
unsigned (c ∷ s) = digits_value 0 (c ∷ s)

abbrev non_negative : Option ℕ → Option ℤ
non_negative none = none
non_negative (some n) = if ltb n (2 ^ 63) then some (pos n) else none

abbrev negated : Option ℕ → Option ℤ
negated none = none
negated (some zero) = some (pos 0)
negated (some (suc n)) = if ltb n (2 ^ 63) then some (negsuc n) else none

unfoldable pub atoi : Bytes → Option ℤ
unfolding unsigned
atoi [] = none
atoi (c ∷ s) =
    if c == b'-'
    then negated (unsigned s)
    else if c == b'+'
    then non_negative (unsigned s)
    else non_negative (unsigned (c ∷ s))

pub digits_value-push_digits :
    (fuel n : ℕ) (acc : Bytes)
    → n < fuel
    → digits_value 0 (push_digits fuel n acc) ≡ digits_value n acc
unfolding digits_value push_digits
digits_value-push_digits zero n acc h = elim h [ ]
digits_value-push_digits (suc fuel) n acc h =
    ground (arith, digits_value-push_digits fuel (n / 10) ((b'0' + n % 10) ∷ acc))

-- The text begins with a digit.
abbrev StartsWithDigit : Bytes → Type 0
StartsWithDigit [] = ⊥
StartsWithDigit (c ∷ s) = (leb b'0' c && leb c b'9') ≡ true

push_digits-StartsWithDigit :
    (fuel n : ℕ) (acc : Bytes) → n < fuel → StartsWithDigit (push_digits fuel n acc)
unfolding push_digits
push_digits-StartsWithDigit zero n acc h = elim h [ ]
push_digits-StartsWithDigit (suc fuel) n acc h = elim (Bool-cases (ltb n 10)) [
  | inl last ↦ rw last (ground arith)
  | inr more ↦
      rw more (push_digits-StartsWithDigit fuel (n / 10) ((b'0' + n % 10) ∷ acc) (ground arith))
]

atoi-digits :
    (s : Bytes) (n : ℕ)
    → StartsWithDigit s
    → digits_value 0 s ≡ some n
    → n < 2 ^ 63
    → atoi s ≡ some (pos n)
unfolding atoi
atoi-digits [] n d e h = absurd d
atoi-digits (c ∷ s) n d e h = ground arith

-- A number that fits an int is read back from its decimal text.
pub atoi-decimal : (n : ℕ) → n < 2 ^ 63 → atoi (decimal n) ≡ some (pos n)
unfolding decimal
atoi-decimal n h =
    atoi-digits (push_digits (suc n) n []) n
      (push_digits-StartsWithDigit (suc n) n [] (omega arith))
      (digits_value-push_digits (suc n) n [] (omega arith) ∙ unfold digits_value in refl) h
