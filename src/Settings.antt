-- ===== src/Settings.antt =====
-- common/helper.go: settings from the environment. `getenv` is os.Getenv, which gives the empty text
-- for a variable that is not set.
use relentless_bookworm.Base.{ℤ, Option, none, some, if◌then◌else◌, Bytes, []}
use relentless_bookworm.Text.{bytes_eq}
use relentless_bookworm.Text.Decimal.{atoi}

unfoldable pub get_env : (Bytes → Bytes) → Bytes → Bytes → Bytes
get_env getenv key fallback = if bytes_eq (getenv key) [] then fallback else getenv key

-- `parse` is time.ParseDuration.
unfoldable pub parse_duration : (Bytes → Option ℤ) → Bytes → ℤ → ℤ
parse_duration parse value fallback = elim (parse value) [ none ↦ fallback | some d ↦ d ]

unfoldable pub parse_int : Bytes → ℤ → ℤ
parse_int value fallback = elim (atoi value) [ none ↦ fallback | some n ↦ n ]
