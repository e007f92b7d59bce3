-- ===== src/Identity/Tests/Tokens.antt =====
-- oidc-bearer-token-resolver.ts on one key set and one token.
use vsn_voice_ai.Prelude.{ℕ, ◌≡◌, refl, Bool, Option, none, some, [], ◌∷◌, arith, if◌then◌else◌}
use vsn_voice_ai.Js.Text.{Text, text, text_eq, trim, includes}
use vsn_voice_ai.Js.Number.{int, pos}
use vsn_voice_ai.Js.Value
use vsn_voice_ai.Js.Value.{Value, num, str, arr, nil, cons, obj, field, end, Fields}
use vsn_voice_ai.Identity.Principal.{
  AuthenticatedPrincipal, is_canonical_identifier, is_bounded_identifier, is_valid_principal,
}
use vsn_voice_ai.Identity.Oidc.{
  SignatureAlgorithm, rs256, VerificationKey, VerifierConfig, is_segment, decode_segment_json,
  split_dots, numeric_date, audience_matches, of_algorithm, find_kid, select_key, verify,
}
use vsn_voice_ai.Identity.Oidc.Jwks.{
  PublicKey, parse_oidc_jwks, parse_keys, parse_key, lacks_kid, algorithm_for_jwk, has_any,
}
use vsn_voice_ai.Identity.Oidc.Verified.{verify_iff}
use vsn_voice_ai.Identity.Oidc.KeySets.{IsKeySet, parse_oidc_jwks-IsKeySet}

abbrev ann : AuthenticatedPrincipal
ann = record { subject_id = text "ann"; session_id = none }

abbrev token_header : Fields
token_header = field (text "alg") (str (text "RS256")) (field (text "kid") (str (text "k1")) end)

abbrev token_claims : Fields
token_claims = field (text "iss") (str (text "idp")) (
    field (text "aud") (str (text "api"))
      (field (text "exp") (num (int (pos 5000))) (field (text "sub") (str (text "ann")) end)))

-- The segment `h` is the header, any other the claims.
abbrev json_of : Text → Option Value
json_of s = if text_eq s (text "h") then some (obj token_header) else some (obj token_claims)

abbrev signed_s : SignatureAlgorithm → ℕ → Text → Text → Option Bool
signed_s alg key input signature = some (text_eq signature (text "s"))

abbrev its_key : VerificationKey ℕ
its_key = record { kid = some (text "k1"); alg = rs256; key = 7 }

abbrev config : VerifierConfig ℕ
config = record {
  issuer = text "idp";
  audience = text "api";
  keys = its_key ∷ [];
  clock_skew_seconds = 60;
}

verify_iff_example : verify json_of signed_s config 1000000 (text "h.p.s") ≡ some ann
unfolding split_dots decode_segment_json is_segment includes Value.keys Value.get text_eq select_key
    of_algorithm find_kid audience_matches numeric_date is_valid_principal is_bounded_identifier
    is_canonical_identifier trim
verify_iff_example = (verify_iff json_of signed_s config 1000000 (text "h.p.s") ann).1 (record {
  header = text "h";
  payload = text "p";
  signature = text "s";
  fields = token_header;
  alg = rs256;
  key = its_key;
  claims = token_claims;
  bounded = omega arith;
  parts = refl;
  header_json = refl;
  not_critical = refl;
  algorithm = refl;
  named = refl;
  selected = refl;
  segment = refl;
  signed = refl;
  payload_json = refl;
  claimed = record {
    expires = 5000;
    issuer = refl;
    audience = refl;
    dated = refl;
    unexpired = omega arith;
    begun = refl;
    issued = refl;
    subject = refl;
    session = refl;
    valid = refl;
    session_text = refl;
  };
})

-- A set of one RSA key.
abbrev key_set : Value
key_set = obj (
    field (text "keys")
      (arr (
        cons
          (obj (field (text "kty") (str (text "RSA")) (field (text "kid") (str (text "k1")) end)))
          nil))
      end)

abbrev create_seven : Fields → Option (PublicKey ℕ)
create_seven jwk = some (record { key = 7; modulus_length = 2048 })

parse_oidc_jwks-IsKeySet_example : IsKeySet create_seven (its_key ∷ [])
unfolding parse_oidc_jwks parse_keys parse_key lacks_kid algorithm_for_jwk has_any includes
    Value.items Value.keys Value.get text_eq
parse_oidc_jwks-IsKeySet_example = parse_oidc_jwks-IsKeySet create_seven key_set (its_key ∷ []) refl
