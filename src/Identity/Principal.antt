-- ===== src/Identity/Principal.antt =====
-- authenticated-principal.ts.
use vsn_voice_ai.Prelude.{ℕ, Bool, true, false, ◌&&◌, ◌||◌, Option, none, some, leb, length}
use vsn_voice_ai.Js.Text.{Text, text, text_eq, trim}
use vsn_voice_ai.Js.Value
use vsn_voice_ai.Js.Value.{Value, obj, as_text, is_undefined}

abbrev pub max_identifier_length : ℕ
max_identifier_length = 128

pub record AuthenticatedPrincipal : Type 0 where
  pub subject_id : Text
  pub session_id : Option Text

-- `value.length >= 1 && value.length <= maximum && value.trim() === value`
unfoldable pub is_bounded_identifier : Text → ℕ → Bool
is_bounded_identifier s maximum = leb 1 (length s) && leb (length s) maximum && text_eq (trim s) s

abbrev pub is_bounded_value : Option Text → ℕ → Bool
is_bounded_value none maximum = false
is_bounded_value (some s) maximum = is_bounded_identifier s maximum

unfoldable pub is_canonical_identifier : Value → Bool
is_canonical_identifier v = is_bounded_value (as_text v) max_identifier_length

-- `assertAuthenticatedPrincipal(principal)` returns, for a value of any type
unfoldable pub is_authenticated_principal : Value → Bool
unfolding is_canonical_identifier
is_authenticated_principal (obj fs) =
    is_canonical_identifier (Value.get fs (text "subjectId"))
    && (is_undefined (Value.get fs (text "sessionId"))
        || is_canonical_identifier (Value.get fs (text "sessionId")))
is_authenticated_principal _ = false

-- The same on a principal of the declared type.
abbrev pub is_valid_session : Option Text → Bool
is_valid_session none = true
is_valid_session (some s) = is_bounded_identifier s max_identifier_length

unfoldable pub is_valid_principal : AuthenticatedPrincipal → Bool
is_valid_principal p =
    is_bounded_identifier p.subject_id max_identifier_length && is_valid_session p.session_id
