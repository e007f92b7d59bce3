-- ===== src/Identity/Oidc/Claims.antt =====
-- oidc-bearer-token-resolver.ts: the claims that principalFromClaims accepts.
use vsn_voice_ai.Prelude.{
  ℕ, ◌+◌, ◌/◌, ◌<◌, ◌≡◌, ◌↔◌, inl, inr, Bool, true, ◌||◌, Option, some, arith, Option-cases,
}
use vsn_voice_ai.Js.Text.{Text, text, text_eq_iff}
use vsn_voice_ai.Js.Value
use vsn_voice_ai.Js.Value.{Value, undefined, num, str, arr, obj, Fields, as_text, is_undefined}
use vsn_voice_ai.Identity.Principal.{
  AuthenticatedPrincipal, is_canonical_identifier, is_valid_principal,
}
use vsn_voice_ai.Identity.Oidc.{
  SignatureAlgorithm, VerifierConfig, numeric_date, is_past_if_any, is_text, audience_matches,
  principal_from_claims,
}

is_text_iff : (v : Value) (t : Text) → (is_text v t ≡ true) ↔ (v ≡ str t)
is_text_iff (str s) t = ground (arith, text_eq_iff s t)
is_text_iff v t = ground arith

module _ {K : Type 0} (config : VerifierConfig K) (now_ms : ℕ) where
  -- The claims of a principal: of the issuer and the audience, not expired, and begun, up to the skew
  -- of the clocks.
  pub record AreClaimsOf (p : AuthenticatedPrincipal) (claims : Fields) : Type 0 where
    pub expires : ℕ
    pub issuer : Value.get claims (text "iss") ≡ str config.issuer
    pub audience : audience_matches (Value.get claims (text "aud")) config.audience ≡ true
    pub dated : numeric_date (Value.get claims (text "exp")) ≡ some expires
    pub unexpired : now_ms / 1000 < expires + config.clock_skew_seconds
    pub begun :
        is_past_if_any config.clock_skew_seconds (Value.get claims (text "nbf")) (now_ms / 1000)
        ≡ true
    pub issued :
        is_past_if_any config.clock_skew_seconds (Value.get claims (text "iat")) (now_ms / 1000)
        ≡ true
    pub subject : Value.get claims (text "sub") ≡ str p.subject_id
    pub session : as_text (Value.get claims (text "sid")) ≡ p.session_id
    pub valid : is_valid_principal p ≡ true
    pub session_text :
        (is_undefined (Value.get claims (text "sid"))
          || is_canonical_identifier (Value.get claims (text "sid")))
        ≡ true

module _ {K : Type 0} (json_of : Text → Option Value)
    (verify_signature : SignatureAlgorithm → K → Text → Text → Option Bool)
    (config : VerifierConfig K) (now_ms : ℕ) where
  pub principal_from_claims-AreClaimsOf :
      (claims : Fields) (p : AuthenticatedPrincipal)
      → principal_from_claims json_of verify_signature config now_ms claims ≡ some p
      → AreClaimsOf config now_ms p claims
  unfolding principal_from_claims is_canonical_identifier is_valid_principal
  principal_from_claims-AreClaimsOf claims p h =
      elim (Option-cases (numeric_date (Value.get claims (text "exp")))) [
        | inl undated ↦ ground arith
        | inr (e, dated) ↦ record {
          expires = e;
          issuer = ground (arith, is_text_iff (Value.get claims (text "iss")) config.issuer);
          audience = ground arith;
          dated = dated;
          unexpired = ground arith;
          begun = ground arith;
          issued = ground arith;
          subject = ground arith;
          session = ground arith;
          valid = ground arith;
          session_text = ground arith;
        }
      ]

  pub AreClaimsOf-principal_from_claims :
      (claims : Fields) (p : AuthenticatedPrincipal)
      → AreClaimsOf config now_ms p claims
      → principal_from_claims json_of verify_signature config now_ms claims ≡ some p
  unfolding principal_from_claims is_canonical_identifier is_valid_principal
  AreClaimsOf-principal_from_claims claims p h =
      ground (arith, is_text_iff (Value.get claims (text "iss")) config.issuer)
