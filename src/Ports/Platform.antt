-- ===== src/Ports/Platform.antt =====
-- Dates and digests. A `Date` is its time value in milliseconds after 1970, `none` if invalid.
-- The text of a date and the digest of a token are the platform's.
use pausemesh.Prelude.{ℕ, ◌+◌, ◌≤◌, ◌≡◌, Bool, false, Option, none, some, leb, ltb, if◌then◌else◌}
use pausemesh.Prelude.Text.{Text}

abbrev pub Date : Type 0
Date = Option ℕ

-- The largest time value of the language.
abbrev pub max_time : ℕ
max_time = 8_640_000_000_000_000

-- `new Date(milliseconds)`
abbrev pub date_of : ℕ → Date
date_of milliseconds = if leb milliseconds max_time then some milliseconds else none

-- `new Date(now.getTime() + milliseconds)`
abbrev pub date_plus : Date → ℕ → Date
date_plus none milliseconds = none
date_plus (some t) milliseconds = date_of (t + milliseconds)

-- `left <= right` and `left < right` on time values, false where one is not a number.
abbrev pub date_le : Date → Date → Bool
date_le (some s) (some t) = leb s t
date_le _ _ = false

abbrev pub date_lt : Date → Date → Bool
date_lt (some s) (some t) = ltb s t
date_lt _ _ = false

pub record Platform : Type 0 where
  -- `date.toISOString()` of a valid date, and `Date.parse`
  pub iso_text : ℕ → Text
  pub parse_date : Text → Date
  -- `tokenIssuer.hash(token)`
  pub hash_token : Text → Text
  -- the inverse law of the language's dates
  pub parse_date-iso_text : (t : ℕ) → t ≤ max_time → parse_date (iso_text t) ≡ some t
