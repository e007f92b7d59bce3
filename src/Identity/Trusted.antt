-- ===== src/Identity/Trusted.antt =====
-- trusted-principal-resolver.ts. A resolver either returns a value or throws.
use vsn_voice_ai.Prelude.{◌≡◌, true, none, [], if◌then◌else◌, arith}
use vsn_voice_ai.Js.Text.{text}
use vsn_voice_ai.Js.Value
use vsn_voice_ai.Js.Value.{Value, null, obj, as_text}
use vsn_voice_ai.Js.Result.{Result, ok, err}
use vsn_voice_ai.Identity.Principal.{
  AuthenticatedPrincipal, is_authenticated_principal, is_valid_principal,
}
use mathlib.Core.Option.{get_or}

pub data TrustedPrincipalResolution : Type 0 where
  authenticated : AuthenticatedPrincipal → TrustedPrincipalResolution
  unauthenticated unavailable : TrustedPrincipalResolution

-- The copy that is made of a candidate that passed the assertion.
abbrev pub principal_of : Value → AuthenticatedPrincipal
principal_of (obj fs) = record {
  subject_id = get_or (as_text (Value.get fs (text "subjectId"))) [];
  session_id = as_text (Value.get fs (text "sessionId"));
}
principal_of _ = record { subject_id = []; session_id = none }

unfoldable pub resolve_trusted_principal : Result (Unit {0}) Value → TrustedPrincipalResolution
resolve_trusted_principal (err e) = unavailable
resolve_trusted_principal (ok null) = unauthenticated
resolve_trusted_principal (ok candidate) =
    if is_authenticated_principal candidate
    then authenticated (principal_of candidate)
    else unavailable

-- Whatever a resolver returns, an authenticated principal has valid identifiers.
pub resolve_trusted_principal-is_valid_principal :
    (r : Result (Unit {0}) Value) (p : AuthenticatedPrincipal)
    → resolve_trusted_principal r ≡ authenticated p
    → is_valid_principal p ≡ true
unfolding resolve_trusted_principal is_authenticated_principal is_valid_principal
resolve_trusted_principal-is_valid_principal (err e) p h = cc
resolve_trusted_principal-is_valid_principal (ok (obj fs)) p h = ground arith
resolve_trusted_principal-is_valid_principal (ok v) p h = ground arith
