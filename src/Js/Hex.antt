-- ===== src/Js/Hex.antt =====
-- `Buffer.from(text, 'hex')`: bytes up to the first pair that is not two hexadecimal digits.
use vsn_voice_ai.Prelude.{
  ℕ, ◌+◌, ◌-◌, ◌*◌, ◌≡◌, refl, ◌&&◌, Option, none, some, List, [], ◌∷◌, leb, if◌then◌else◌,
}
use vsn_voice_ai.Js.Text.{Text, text}

unfoldable pub hex_digit : ℕ → Option ℕ
hex_digit c =
    if leb b'0' c && leb c b'9'
    then some (c - b'0')
    else if leb b'a' c && leb c b'f'
    then some (c - b'a' + 10)
    else if leb b'A' c && leb c b'F'
    then some (c - b'A' + 10)
    else none

abbrev pub byte_before : Option ℕ → Option ℕ → List ℕ → List ℕ
byte_before (some hi) (some lo) rest = (hi * 16 + lo) ∷ rest
byte_before _ _ rest = []

unfoldable pub hex_bytes : Text → List ℕ
unfolding hex_digit
hex_bytes (a ∷ b ∷ s) = byte_before (hex_digit a) (hex_digit b) (hex_bytes s)
hex_bytes _ = []

hex_bytes_example : hex_bytes (text "0aFFx1") ≡ 10 ∷ 255 ∷ []
unfolding hex_bytes
hex_bytes_example = refl
