-- ===== src/Identity/Oidc/Resolved.antt =====
-- oidc-bearer-token-resolver.ts behind trusted-principal-resolver.ts.
use vsn_voice_ai.Prelude.{
  ℕ, ◌≡◌, refl, inl, inr, Bool, true, Option, none, some, arith, Option-cases,
}
use vsn_voice_ai.Js.Text.{Text, text, text_eq}
use vsn_voice_ai.Js.Value
use vsn_voice_ai.Js.Value.{Value, undefined, null, str, obj, field, end, Fields}
use vsn_voice_ai.Js.Result.{ok}
use vsn_voice_ai.Identity.Principal.{
  AuthenticatedPrincipal, is_valid_principal, is_authenticated_principal, is_canonical_identifier,
}
use vsn_voice_ai.Identity.Trusted.{
  TrustedPrincipalResolution, authenticated, unauthenticated, resolve_trusted_principal,
}
use vsn_voice_ai.Identity.Oidc.{SignatureAlgorithm, VerifierConfig, extract_bearer_token, resolve}
use vsn_voice_ai.Identity.Oidc.Verified.{IsTokenOf, verify_iff}

-- What the resolver's promise holds: the principal as an object, or `null`.
abbrev pub session_fields : Option Text → Fields
session_fields none = end
session_fields (some s) = field (text "sessionId") (str s) end

abbrev pub principal_value : Option AuthenticatedPrincipal → Value
principal_value none = null
principal_value (some p) =
    obj (field (text "subjectId") (str p.subject_id) (session_fields p.session_id))

-- The answer to a request whose resolver gave the principal, if any.
abbrev pub resolution_of : Option AuthenticatedPrincipal → TrustedPrincipalResolution
resolution_of none = unauthenticated
resolution_of (some p) = authenticated p

resolve_trusted_principal-principal_value :
    (o : Option AuthenticatedPrincipal)
    → ((p : AuthenticatedPrincipal) → o ≡ some p → is_valid_principal p ≡ true)
    → resolve_trusted_principal (ok (principal_value o)) ≡ resolution_of o
unfolding resolve_trusted_principal is_authenticated_principal is_canonical_identifier
    is_valid_principal Value.get text_eq
resolve_trusted_principal-principal_value none valid = refl
resolve_trusted_principal-principal_value (some p) valid =
    let its_valid = valid p refl in
    elim (Option-cases p.session_id) [
      | inl no_session ↦ ground arith
      | inr (t, session) ↦ ground arith
    ]

module _ {K : Type 0} (json_of : Text → Option Value)
    (verify_signature : SignatureAlgorithm → K → Text → Text → Option Bool)
    (config : VerifierConfig K) (now_ms : ℕ) where
  resolve-is_valid_principal :
      (header : Option Text) (p : AuthenticatedPrincipal)
      → resolve json_of verify_signature config now_ms header ≡ some p
      → is_valid_principal p ≡ true
  unfolding resolve
  resolve-is_valid_principal header p h = elim (Option-cases (extract_bearer_token header)) [
    | inl missing ↦ ground arith
    | inr (token, found) ↦
        let is_token : IsTokenOf json_of verify_signature config now_ms p token =
          (verify_iff json_of verify_signature config now_ms token p).0 (ground arith) in
        is_token.claimed.valid
  ]

  -- A request to the OIDC resolver is never unavailable: its principal is the one that the token's
  -- verification gave, and without one it is unauthenticated.
  pub resolve_trusted_principal-resolve :
      (header : Option Text)
      → resolve_trusted_principal
          (ok (principal_value (resolve json_of verify_signature config now_ms header)))
        ≡ resolution_of (resolve json_of verify_signature config now_ms header)
  resolve_trusted_principal-resolve header =
      resolve_trusted_principal-principal_value
        (resolve json_of verify_signature config now_ms header) (resolve-is_valid_principal header)
