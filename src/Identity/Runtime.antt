-- ===== src/Identity/Runtime.antt =====
-- runtime-trusted-principal-resolver.ts: the OIDC configuration from the environment. JSON.parse and
-- the URL parser are parameters, `none` where they throw.
pub mod Configured
use vsn_voice_ai.Prelude.{
  ℕ, ◌≤◌, ◌≡◌, refl, ◌↔◌, ◌⊎◌, inl, inr, Bool, true, false, ◌&&◌, ◌||◌, not, Option, none, some,
  List, ltb, length, if◌then◌else◌, arith, Option-cases, Bool-cases, [],
}
use vsn_voice_ai.Js.Text.{Text, text, text_eq, text_eq_iff, trim}
use vsn_voice_ai.Js.Number.{int, pos, decimal, is_decimal}
use vsn_voice_ai.Js.Url.{Url, is_loopback_host, is_empty}
use vsn_voice_ai.Js.Value.{Value, Fields}
use vsn_voice_ai.Js.Result.{Result, ok, err, ◌>>=◌, Result-cases}
use vsn_voice_ai.Identity.Oidc.{VerificationKey, VerifierConfig}
use vsn_voice_ai.Identity.Oidc.Jwks.{
  ConfigurationError, PublicKey, parse_oidc_jwks, validate_clock_skew_seconds,
  max_clock_skew_seconds, issuer_not_a_url, issuer_with_extras, issuer_not_https, invalid_audience,
  clock_skew_not_digits, partial_configuration, invalid_json,
}
use vsn_voice_ai.Identity.Oidc.KeySets.{IsKeySet, parse_oidc_jwks-IsKeySet}
use mathlib.Core.Option.{get_or}

abbrev pub default_clock_skew_seconds : ℕ
default_clock_skew_seconds = 60

-- The variables that are read: VSN_OIDC_ISSUER, VSN_OIDC_AUDIENCE, VSN_OIDC_JWKS_JSON,
-- VSN_OIDC_CLOCK_SKEW_SECONDS and VSN_ENV.
pub record Environment : Type 0 where
  pub issuer : Option Text
  pub audience : Option Text
  pub jwks_json : Option Text
  pub clock_skew : Option Text
  pub environment : Option Text

abbrev pub is_production : Option Text → Bool
is_production none = false
is_production (some e) = text_eq e (text "production")

-- The tests of a parsed issuer.
abbrev pub is_secure : Option Text → Url → Bool
is_secure environment url =
    text_eq url.protocol (text "https:")
    || text_eq url.protocol (text "http:")
      && is_loopback_host url.hostname
      && not (is_production environment)

abbrev pub check_issuer : Option Text → Text → Option Url → Result ConfigurationError Text
check_issuer environment value none = err issuer_not_a_url
check_issuer environment value (some url) =
    if not
      (is_empty url.username && is_empty url.password && is_empty url.search && is_empty url.hash)
    then err issuer_with_extras
    else if is_secure environment url
    then ok value
    else err issuer_not_https

unfoldable pub parse_audience : Text → Result ConfigurationError Text
parse_audience value =
    if is_empty value || ltb 512 (length value) || not (text_eq (trim value) value)
    then err invalid_audience
    else ok value

unfoldable pub parse_clock_skew : Option Text → Result ConfigurationError ℕ
parse_clock_skew none = ok default_clock_skew_seconds
parse_clock_skew (some value) =
    if is_empty value
    then ok default_clock_skew_seconds
    else if is_decimal value
    then validate_clock_skew_seconds (int (pos (decimal 0 value)))
    else err clock_skew_not_digits

-- `(env[key] ?? \'\').length > 0`
abbrev pub is_present : Option Text → Bool
is_present none = false
is_present (some s) = not (is_empty s)

module _ {K : Type 0} (parse_json : Text → Option Value) (parse_url : Text → Option Url)
    (create_public_key : Fields → Option (PublicKey K)) where
  -- The configuration past the parsing of the JWKS.
  abbrev pub configure : Environment → Option Value → Result ConfigurationError (VerifierConfig K)
  configure env none = err invalid_json
  configure env (some jwks) = do
    issuer ← check_issuer env.environment (get_or env.issuer []) (parse_url (get_or env.issuer []))
    audience ← parse_audience (get_or env.audience [])
    keys ← parse_oidc_jwks create_public_key jwks
    skew ← parse_clock_skew env.clock_skew
    ok (record { issuer = issuer; audience = audience; keys = keys; clock_skew_seconds = skew })

  unfoldable pub load_optional_oidc_verifier_config :
      Environment → Result ConfigurationError (Option (VerifierConfig K))
  unfolding parse_audience parse_clock_skew
  load_optional_oidc_verifier_config env =
      if not (is_present env.issuer || is_present env.audience || is_present env.jwks_json)
      then ok none
      else if not (is_present env.issuer && is_present env.audience && is_present env.jwks_json)
      then err partial_configuration
      else configure env (parse_json (get_or env.jwks_json [])) >>= λ c. ok (some c)
