-- ===== src/Identity/Runtime/Configured.antt =====
-- runtime-trusted-principal-resolver.ts: the configurations that are loaded.
use vsn_voice_ai.Prelude.{
  ℕ, ◌≤◌, ◌≡◌, refl, ap, ◌∙◌, ◌↔◌, ◌⊎◌, inl, inr, true, false, ◌&&◌, ◌||◌, Option, none, some,
  arith, Bool-cases, [],
}
use vsn_voice_ai.Js.Text.{Text, text_eq_iff, trim}
use vsn_voice_ai.Js.Number.{Number, int, pos, decimal, is_decimal}
use vsn_voice_ai.Js.Url.{Url, is_empty}
use vsn_voice_ai.Js.Value.{Value, Fields}
use vsn_voice_ai.Js.Result.{Result, ok, err, Result-cases}
use vsn_voice_ai.Identity.Oidc.{VerifierConfig}
use vsn_voice_ai.Identity.Oidc.Jwks.{
  ConfigurationError, PublicKey, parse_oidc_jwks, validate_clock_skew_seconds,
  max_clock_skew_seconds, partial_configuration,
}
use vsn_voice_ai.Identity.Oidc.KeySets.{IsKeySet, parse_oidc_jwks-IsKeySet}
use vsn_voice_ai.Identity.Runtime.{
  Environment, is_present, is_secure, check_issuer, parse_audience, parse_clock_skew, configure,
  load_optional_oidc_verifier_config,
}
use mathlib.Core.Option.{get_or}

check_issuer-ok :
    (environment : Option Text) (value : Text) (o : Option Url) (s : Text)
    → check_issuer environment value o ≡ ok s
    → (url : Url) × (o ≡ some url)
      × (is_secure environment url ≡ true)
      × (is_empty url.username ≡ true)
      × (is_empty url.password ≡ true)
      × (s ≡ value)
check_issuer-ok environment value none s h = ground arith
check_issuer-ok environment value (some url) s h =
    (url, refl, ground arith, ground arith, ground arith, ground arith)

validate_clock_skew_seconds_bound :
    (n : Number) (k : ℕ) → validate_clock_skew_seconds n ≡ ok k → k ≤ max_clock_skew_seconds
unfolding validate_clock_skew_seconds
validate_clock_skew_seconds_bound n k h = ground arith

parse_clock_skew_bound :
    (o : Option Text) (k : ℕ) → parse_clock_skew o ≡ ok k → k ≤ max_clock_skew_seconds
unfolding parse_clock_skew
parse_clock_skew_bound none k h = ground arith
parse_clock_skew_bound (some s) k h = elim (Bool-cases (is_empty s)) [
  | inl empty ↦ ground arith
  | inr given ↦ elim (Bool-cases (is_decimal s)) [
    | inl digits ↦ validate_clock_skew_seconds_bound (int (pos (decimal 0 s))) k (ground arith)
    | inr other ↦ ground arith
  ]
]

module _ {K : Type 0} (parse_json : Text → Option Value) (parse_url : Text → Option Url)
    (create_public_key : Fields → Option (PublicKey K)) where
  -- A complete configuration: every setting is the environment's, and safe.
  pub record IsConfigured (env : Environment) (c : VerifierConfig K) : Type 0 where
    pub complete :
        is_present env.issuer && is_present env.audience && is_present env.jwks_json ≡ true
    pub url : Url
    pub issuer : c.issuer ≡ get_or env.issuer []
    pub issuer_url : parse_url c.issuer ≡ some url
    pub secure : is_secure env.environment url ≡ true
    pub no_credentials : (is_empty url.username ≡ true) × (is_empty url.password ≡ true)
    pub audience : c.audience ≡ get_or env.audience []
    pub trimmed : trim c.audience ≡ c.audience
    pub keys : IsKeySet create_public_key c.keys
    pub skew : c.clock_skew_seconds ≤ max_clock_skew_seconds

  abbrev load : Environment → Result ConfigurationError (Option (VerifierConfig K))
  load = load_optional_oidc_verifier_config parse_json parse_url create_public_key

  configure-IsConfigured :
      (env : Environment) (o : Option Value) (c : VerifierConfig K)
      → is_present env.issuer && is_present env.audience && is_present env.jwks_json ≡ true
      → configure parse_json parse_url create_public_key env o ≡ ok c
      → IsConfigured env c
  unfolding parse_audience
  configure-IsConfigured env none c complete h = ground arith
  configure-IsConfigured env (some jwks) c complete h =
      elim (Result-cases
        (check_issuer env.environment (get_or env.issuer []) (parse_url (get_or env.issuer [])))) [
          | inr (e, bad) ↦ ground arith
          | inl (issuer, checked) ↦ elim (Result-cases (parse_oidc_jwks create_public_key jwks)) [
            | inr (e, bad) ↦ ground arith
            | inl (keys, parsed) ↦ elim (Result-cases (parse_clock_skew env.clock_skew)) [
              | inr (e, bad) ↦ ground arith
              | inl (skew, bounded) ↦
                  let (url, found, secure, no_user, no_password, same) =
                    check_issuer-ok env.environment (get_or env.issuer [])
                      (parse_url (get_or env.issuer [])) issuer checked in
                  let same_issuer : c.issuer ≡ get_or env.issuer [] = ground (arith, same) in
                  let same_keys : c.keys ≡ keys = ground arith in
                  let same_skew : c.clock_skew_seconds ≡ skew = ground arith in
                  record {
                    complete = complete;
                    url = url;
                    issuer = same_issuer;
                    issuer_url = ap parse_url same_issuer ∙ found;
                    secure = secure;
                    no_credentials = (no_user, no_password);
                    audience = ground arith;
                    trimmed = ground (arith, text_eq_iff (trim c.audience) c.audience);
                    keys =
                        rw same_keys (parse_oidc_jwks-IsKeySet create_public_key jwks keys parsed);
                    skew = rw same_skew (parse_clock_skew_bound env.clock_skew skew bounded);
                  }
            ]
          ]
        ]

  -- Without any of the three settings there is no configuration, and only then: the rest fail, or load
  -- a configuration of all three, with an https issuer or, outside production, a local one, without
  -- credentials, with a trimmed audience, an acceptable key set, and at most 300 seconds of skew.
  pub load_optional_oidc_verifier_config-IsConfigured :
      (env : Environment)
      → ((load env ≡ ok none)
          ↔ (is_present env.issuer || is_present env.audience || is_present env.jwks_json ≡ false))
        × (((e : ConfigurationError) × (load env ≡ err e))
            ⊎ (load env ≡ ok none)
            ⊎ ((c : VerifierConfig K) × (load env ≡ ok (some c)) × IsConfigured env c))
  unfolding load_optional_oidc_verifier_config
  load_optional_oidc_verifier_config-IsConfigured env =
      elim (Bool-cases
        (is_present env.issuer || is_present env.audience || is_present env.jwks_json)) [
          | inr absent ↦ ((λ h. absent, λ h. ground arith), inr (inl (ground arith)))
          | inl some_given ↦
              elim (Bool-cases
                (is_present env.issuer && is_present env.audience && is_present env.jwks_json)) [
                  | inr partial ↦ (
                    (λ h. ground arith, λ h. ground arith),
                    inl (partial_configuration, ground arith),
                  )
                  | inl complete ↦
                      elim (Result-cases (
                        configure parse_json parse_url create_public_key env
                          (parse_json (get_or env.jwks_json [])))) [
                            | inr (e, bad) ↦
                                ((λ h. ground arith, λ h. ground arith), inl (e, ground arith))
                            | inl (c, good) ↦ (
                              (λ h. ground arith, λ h. ground arith),
                              inr (
                                  inr (
                                    c,
                                    ground arith,
                                    configure-IsConfigured env
                                        (parse_json (get_or env.jwks_json [])) c complete good,
                                  )),
                            )
                          ]
                ]
        ]
