-- ===== src/Exposition.antt =====
-- The pages for Prometheus: replies of the /metrics handlers, and lines with a name and a number.
pub mod Laws
use relentless_bookworm.Base.{
  ℕ, ◌+◌, ◌%◌, ◌^◌, Bool, true, false, Option, none, some, List, [], ◌∷◌, ◌++◌, if◌then◌else◌,
  Bytes, codes,
}
use relentless_bookworm.Text.{bytes_eq}
use relentless_bookworm.Text.Decimal.{decimal}

-- The status, and the body if it is no error text.
pub record Page : Type 0 where
  pub status_code : ℕ
  pub body : Bytes

-- `if r.Method != http.MethodGet { http.Error(…); return }`, with the body to be written else
unfoldable pub only_get : Bytes → Bytes → Page
only_get method body =
    if bytes_eq method (codes "GET")
    then record { status_code = 200; body = body }
    else record { status_code = 405; body = codes "method not allowed\n" }

-- "name %d\n", of a uint64
abbrev pub sample_line : Bytes → ℕ → Bytes
sample_line name n = name ++ (b' ' ∷ (decimal (n % 2 ^ 64) ++ 10 ∷ []))

unfoldable pub sample_lines : List (Bytes × ℕ) → Bytes
sample_lines [] = []
sample_lines ((name, n) ∷ rest) = sample_line name n ++ sample_lines rest
