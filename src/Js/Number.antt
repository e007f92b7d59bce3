-- ===== src/Js/Number.antt =====
-- JavaScript numbers, as far as the sources look at them: an integral value, a finite value strictly
-- between an integer and the next, an infinity, or `NaN`.
use vsn_voice_ai.Prelude.{ℕ, suc, ◌+◌, ◌-◌, ◌*◌, Bool, false, ◌&&◌, List, [], ◌∷◌, leb, all}

-- `negsuc n` is -(n + 1).
pub data ℤ : Type 0 where
  pos : ℕ → ℤ
  negsuc : ℕ → ℤ

pub data Number : Type 0 where
  int : ℤ → Number
  between : ℤ → Number
  infinity : Bool → Number
  nan : Number

abbrev pub max_safe_integer : ℕ
max_safe_integer = 9_007_199_254_740_991

-- `Number.isSafeInteger(x)`
abbrev pub is_safe_integer : Number → Bool
is_safe_integer (int (pos n)) = leb n max_safe_integer
is_safe_integer (int (negsuc n)) = leb (suc n) max_safe_integer
is_safe_integer _ = false

-- `/^\d+$/` of a text that is not empty
abbrev pub is_decimal : List ℕ → Bool
is_decimal s = all (λ c. leb b'0' c && leb c b'9') s

-- The number that decimal digits stand for, read from the left.
unfoldable pub decimal : ℕ → List ℕ → ℕ
decimal n [] = n
decimal n (c ∷ s) = decimal (n * 10 + (c - b'0')) s
