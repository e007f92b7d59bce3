-- ===== src/Js/Date.antt =====
-- `Date`. An instant is counted in milliseconds from the earliest date that JavaScript represents,
-- 8,640,000,000,000,000 ms before 1970, so that every valid date is a native number.
use vsn_voice_ai.Prelude.{ℕ, ◌≤◌, ◌≡◌, Bool, false, Option, some, leb, ltb, if◌then◌else◌}
use vsn_voice_ai.Js.Text.{Text}
use vsn_voice_ai.Js.Result.{Result, ok, err}

abbrev pub max_time : ℕ
max_time = 17_280_000_000_000_000

-- The language's conversions between instants and texts, `none` for `NaN`, with the one documented
-- fact that the code relies on: a printed date parses to its instant.
pub record Dates : Type 0 where
  pub to_iso : ℕ → Text
  pub parse : Text → Option ℕ
  pub parse-to_iso : (t : ℕ) → t ≤ max_time → parse (to_iso t) ≡ some t

-- `new Date(t).toISOString()`, which throws past the last date
abbrev pub to_iso_string : {E : Type 0} → Dates → E → ℕ → Result E Text
to_iso_string d range_error t = if leb t max_time then ok (d.to_iso t) else err range_error

-- Comparisons of numbers, false where one is `NaN`.
abbrev pub before : Option ℕ → Option ℕ → Bool
before (some a) (some b) = ltb a b
before _ _ = false

abbrev pub at_or_after : Option ℕ → Option ℕ → Bool
at_or_after (some a) (some b) = leb b a
at_or_after _ _ = false
