-- ===== src/Exposition/Laws.antt =====
-- Reading the numbers of a page.
use relentless_bookworm.Base.{
  ℕ, zero, suc, ◌%◌, ◌^◌, ◌≡◌, ◌≢◌, refl, ap, ◌∙◌, Bool, true, ◌&&◌, not, Option, none, some, List,
  [], ◌∷◌, ◌++◌, append_assoc, arith, ◌==◌, if◌then◌else◌, Bytes, All, length,
}
use relentless_bookworm.Text.Query.{has_byte, has_byte-All}
use relentless_bookworm.Text.Decimal.{decimal, digits_value}
use relentless_bookworm.Text.Decimal.Digits.{IsDigit, digits_value-decimal, decimal-All}
use relentless_bookworm.Exposition.{sample_line, sample_lines}

-- A reader: the text up to the next byte c, and what is behind it.
unfoldable pub until : ℕ → Bytes → Option (Bytes × Bytes)
until c [] = none
until c (d ∷ s) =
    if d == c
    then some ([], s)
    else elim (until c s) [ none ↦ none | some (a, b) ↦ some (d ∷ a, b) ]

until-append : (c : ℕ) (a b : Bytes) → All (λ d. d ≢ c) a → until c (a ++ c ∷ b) ≡ some (a, b)
unfolding until
until-append c [] b h = ground arith
until-append c (d ∷ a) b h = rw (until-append c a b h.1) (ground (arith, h.0))

abbrev bind {ℓ κ} : {A : Type ℓ} {B : Type κ} → Option A → (A → Option B) → Option B
bind none f = none
bind (some a) f = f a

-- A reader of k samples, with what is behind them.
unfoldable pub read_samples : ℕ → Bytes → Option (List (Bytes × ℕ) × Bytes)
unfolding until digits_value
read_samples zero s = some ([], s)
read_samples (suc k) s = bind (until b' ' s) λ named. bind (until 10 named.1) λ line.
    bind (digits_value 0 line.0)
      λ n. bind (read_samples k line.1) λ more. some ((named.0, n) ∷ more.0, more.1)

-- The numbers as they are shown.
abbrev pub wrapped : List (Bytes × ℕ) → List (Bytes × ℕ)
wrapped [] = []
wrapped ((name, n) ∷ rest) = (name, n % 2 ^ 64) ∷ wrapped rest

-- A name has no space.
abbrev pub IsName : Bytes × ℕ → Type 0
IsName sample = All (λ c. c ≢ b' ') sample.0

-- A test for that.
unfoldable pub plain_names : List (Bytes × ℕ) → Bool
unfolding has_byte
plain_names [] = true
plain_names (x ∷ xs) = not (has_byte b' ' x.0) && plain_names xs

pub plain_names-All : (xs : List (Bytes × ℕ)) → plain_names xs ≡ true → All IsName xs
unfolding plain_names
plain_names-All [] h = tt
plain_names-All (x ∷ xs) h =
    (has_byte-All x.0 b' ' (ground arith), plain_names-All xs (ground arith))

digits_no_newline : (s : Bytes) → All IsDigit s → All (λ c. c ≢ 10) s
digits_no_newline [] h = tt
digits_no_newline (c ∷ s) h = (omega arith, digits_no_newline s h.1)

sample_lines-cons :
    (name : Bytes) (n : ℕ) (more : List (Bytes × ℕ)) (rest : Bytes)
    → sample_lines ((name, n) ∷ more) ++ rest
      ≡ name ++ b' ' ∷ (decimal (n % 2 ^ 64) ++ 10 ∷ (sample_lines more ++ rest))
unfolding sample_lines
sample_lines-cons name n more rest =
    let d = decimal (n % 2 ^ 64) in
    append_assoc (sample_line name n) (sample_lines more) rest
    ∙ append_assoc name (b' ' ∷ (d ++ 10 ∷ [])) (sample_lines more ++ rest)
    ∙ ap (λ (l : Bytes). name ++ b' ' ∷ l) (append_assoc d (10 ∷ []) (sample_lines more ++ rest))

-- Every sample of a page is read back, in order, its number modulo 2^64, and what follows the samples
-- is left for the rest of the page.
pub read_samples-sample_lines :
    (samples : List (Bytes × ℕ)) (rest : Bytes)
    → All IsName samples
    → read_samples (length samples) (sample_lines samples ++ rest) ≡ some (wrapped samples, rest)
unfolding read_samples sample_lines
read_samples-sample_lines [] rest h = refl
read_samples-sample_lines ((name, n) ∷ more) rest h =
    ap (read_samples (suc (length more))) (sample_lines-cons name n more rest)
    ∙ rw (
      until-append b' ' name (decimal (n % 2 ^ 64) ++ 10 ∷ (sample_lines more ++ rest)) h.0,
      until-append 10 (decimal (n % 2 ^ 64)) (sample_lines more ++ rest)
          (digits_no_newline (decimal (n % 2 ^ 64)) (decimal-All (n % 2 ^ 64))),
      digits_value-decimal (n % 2 ^ 64),
      read_samples-sample_lines more rest h.1,
    )
