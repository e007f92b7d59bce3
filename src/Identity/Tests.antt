-- ===== src/Identity/Tests.antt =====
-- trusted-principal-resolver.ts on one candidate.
pub mod Tokens
pub mod Environments
use vsn_voice_ai.Prelude.{◌≡◌, refl, true, none}
use vsn_voice_ai.Js.Text.{text, text_eq, trim}
use vsn_voice_ai.Js.Value
use vsn_voice_ai.Js.Value.{Value, str, obj, field, end}
use vsn_voice_ai.Js.Result.{ok}
use vsn_voice_ai.Identity.Principal.{
  is_valid_principal, is_authenticated_principal, is_canonical_identifier, is_bounded_identifier,
}
use vsn_voice_ai.Identity.Trusted.{
  resolve_trusted_principal, resolve_trusted_principal-is_valid_principal,
}

abbrev candidate : Value
candidate = obj (field (text "subjectId") (str (text "ann")) end)
