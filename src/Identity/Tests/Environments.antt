-- ===== src/Identity/Tests/Environments.antt =====
-- runtime-trusted-principal-resolver.ts on a partial environment.
use vsn_voice_ai.Prelude.{◌≡◌, refl, ◌↔◌, ◌⊎◌, ℕ, false, ◌||◌, Option, none, some, []}
use vsn_voice_ai.Js.Text.{Text, text}
use vsn_voice_ai.Js.Url.{Url}
use vsn_voice_ai.Js.Value.{Value, Fields}
use vsn_voice_ai.Js.Result.{ok, err}
use vsn_voice_ai.Identity.Oidc.{VerifierConfig}
use vsn_voice_ai.Identity.Oidc.Jwks.{ConfigurationError, PublicKey, partial_configuration}
use vsn_voice_ai.Identity.Runtime.{Environment, is_present, load_optional_oidc_verifier_config}
use vsn_voice_ai.Identity.Runtime.Configured.{
  IsConfigured, load_optional_oidc_verifier_config-IsConfigured,
}

abbrev no_json : Text → Option Value
no_json s = none

abbrev no_url : Text → Option Url
no_url s = none

abbrev no_key : Fields → Option (PublicKey ℕ)
no_key jwk = none

abbrev issuer_only : Environment
issuer_only = record {
  issuer = some (text "https://idp");
  audience = none;
  jwks_json = some [];
  clock_skew = none;
  environment = none;
}

partial_refused :
    load_optional_oidc_verifier_config no_json no_url no_key issuer_only ≡ err partial_configuration
unfolding load_optional_oidc_verifier_config
partial_refused = refl

load_optional_oidc_verifier_config-IsConfigured_example :
    ((load_optional_oidc_verifier_config no_json no_url no_key issuer_only ≡ ok none) ↔ (
      is_present issuer_only.issuer
        || is_present issuer_only.audience
        || is_present issuer_only.jwks_json
      ≡ false))
    × (((e : ConfigurationError) × (load_optional_oidc_verifier_config no_json no_url no_key
              issuer_only
            ≡ err e))
        ⊎ (load_optional_oidc_verifier_config no_json no_url no_key issuer_only ≡ ok none)
        ⊎ ((c : VerifierConfig ℕ) × (load_optional_oidc_verifier_config no_json no_url no_key
                issuer_only
              ≡ ok (some c))
            × IsConfigured no_json no_url no_key issuer_only c))
load_optional_oidc_verifier_config-IsConfigured_example =
    load_optional_oidc_verifier_config-IsConfigured no_json no_url no_key issuer_only
