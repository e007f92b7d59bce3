-- ===== src/DesktopLink/Controller/Patterns.antt =====
-- desktop-link.controller.ts: the patterns of exchange tokens and record ids.
use vsn_voice_ai.Prelude.{
  ℕ, ◌≡◌, refl, Bool, true, false, ◌&&◌, ◌||◌, List, [], ◌∷◌, ◌++◌, leb, ◌==◌, length, all,
}
use vsn_voice_ai.Js.Text.{Text, text}

-- `/^[A-Za-z0-9_-]{43}$/`
abbrev pub is_base64url : ℕ → Bool
is_base64url c =
    leb b'A' c && leb c b'Z'
    || leb b'a' c && leb c b'z'
    || leb b'0' c && leb c b'9'
    || c == b'_'
    || c == b'-'

unfoldable pub is_exchange_token : Text → Bool
is_exchange_token s = length s == 43 && all is_base64url s

-- A pattern of fixed length: one class for each place.
unfoldable pub matches : List (ℕ → Bool) → Text → Bool
matches [] [] = true
matches (p ∷ ps) (c ∷ s) = p c && matches ps s
matches _ _ = false

abbrev hex : ℕ → Bool
hex c = leb b'0' c && leb c b'9' || leb b'a' c && leb c b'f' || leb b'A' c && leb c b'F'

abbrev dash : ℕ → Bool
dash c = c == b'-'

abbrev variant : ℕ → Bool
variant c = c == b'8' || c == b'9' || c == b'a' || c == b'b' || c == b'A' || c == b'B'

abbrev hex4 : List (ℕ → Bool)
hex4 = hex ∷ hex ∷ hex ∷ hex ∷ []

-- The pattern of a version 4 UUID, without regard to case.
abbrev record_id_pattern : List (ℕ → Bool)
record_id_pattern =
    hex4
    ++ (hex4
        ++ (dash
            ∷ (hex4
                ++ (dash
                    ∷ (λ c. c == b'4')
                    ∷ hex
                    ∷ hex
                    ∷ hex
                    ∷ dash
                    ∷ variant
                    ∷ hex
                    ∷ hex
                    ∷ hex
                    ∷ dash
                    ∷ (hex4 ++ (hex4 ++ hex4))))))

unfoldable pub is_record_id : Text → Bool
unfolding matches
is_record_id s = matches record_id_pattern s

is_record_id_example : is_record_id (text "3F2504E0-4f89-41d3-9a0c-0305e82c3301") ≡ true
unfolding is_record_id
is_record_id_example = refl

is_record_id_other_version : is_record_id (text "3f2504e0-4f89-11d3-9a0c-0305e82c3301") ≡ false
unfolding is_record_id
is_record_id_other_version = refl
