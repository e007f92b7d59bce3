-- ===== src/Identity/Oidc/Jwks.antt =====
-- oidc-bearer-token-resolver.ts: parseOidcJwks. The key that node:crypto makes of a JWK is a
-- parameter, `none` where it throws, with the modulus length of its details.
use vsn_voice_ai.Prelude.{
  ℕ, Bool, true, false, ◌&&◌, ◌||◌, not, Option, none, some, List, [], ◌∷◌, ltb, ◌==◌, length,
  is_some, if◌then◌else◌,
}
use vsn_voice_ai.Js.Text.{Text, text, includes}
use vsn_voice_ai.Js.Number.{Number, int, pos, is_safe_integer}
use vsn_voice_ai.Js.Value
use vsn_voice_ai.Js.Value.{Value, undefined, str, arr, obj, Fields, as_text, is_undefined}
use vsn_voice_ai.Js.Result
use vsn_voice_ai.Js.Result.{Result, ok, err}
use vsn_voice_ai.Identity.Oidc.{
  SignatureAlgorithm, rs256, es256, same_algorithm, VerificationKey, is_text, has_text,
}

-- The messages of OidcConfigurationError.
pub data ConfigurationError : Type 0 where
  not_a_key_set number_of_keys entry_not_an_object private_key not_for_signatures :
      ConfigurationError
  not_for_verification invalid_kid duplicate_kid wrong_rsa wrong_ec unknown_type :
      ConfigurationError
  invalid_key short_key kid_required clock_skew_out_of_range : ConfigurationError
  issuer_not_a_url issuer_with_extras issuer_not_https invalid_audience : ConfigurationError
  clock_skew_not_digits partial_configuration invalid_json : ConfigurationError

abbrev pub max_jwks_keys : ℕ
max_jwks_keys = 16

abbrev pub max_clock_skew_seconds : ℕ
max_clock_skew_seconds = 300

-- A public key and the length of its modulus, zero if it has none.
pub record PublicKey (K : Type 0) : Type 0 where
  pub key : K
  pub modulus_length : ℕ

-- `value !== undefined && value !== expected`, negated
abbrev pub is_text_if_any : Value → Text → Bool
is_text_if_any v t = is_undefined v || is_text v t

unfoldable pub algorithm_for_jwk : Fields → Result ConfigurationError SignatureAlgorithm
algorithm_for_jwk jwk =
    if is_text (Value.get jwk (text "kty")) (text "RSA")
    then (if is_text_if_any (Value.get jwk (text "alg")) (text "RS256")
        then ok rs256
        else err wrong_rsa)
    else if is_text (Value.get jwk (text "kty")) (text "EC")
    then (if is_text (Value.get jwk (text "crv")) (text "P-256")
          && is_text_if_any (Value.get jwk (text "alg")) (text "ES256")
        then ok es256
        else err wrong_ec)
    else err unknown_type

-- Some of the names is a key of the object.
unfoldable pub has_any : List Text → List Text → Bool
has_any ks [] = false
has_any ks (n ∷ ns) = includes ks n || has_any ks ns

abbrev pub private_fields : List Text
private_fields =
    text "d" ∷ text "p" ∷ text "q" ∷ text "dp" ∷ text "dq" ∷ text "qi" ∷ text "oth" ∷ text "k" ∷ []

abbrev pub may_verify : Value → Bool
may_verify undefined = true
may_verify (arr vs) = has_text (Value.items vs) (text "verify")
may_verify _ = false

-- The kid of an entry that is absent, or a text of 1 to 256 code units.
abbrev pub kid_of : Value → Result ConfigurationError (Option Text)
kid_of undefined = ok none
kid_of (str s) = if length s == 0 || ltb 256 (length s) then err invalid_kid else ok (some s)
kid_of _ = err invalid_kid

abbrev pub is_new_kid : List Text → Option Text → Bool
is_new_kid seen none = true
is_new_kid seen (some s) = not (includes seen s)

abbrev pub add_kid : Option Text → List Text → List Text
add_kid none seen = seen
add_kid (some s) seen = s ∷ seen

module _ {K : Type 0} (create_public_key : Fields → Option (PublicKey K)) where
  -- `createPublicKey` and the test of the modulus.
  abbrev pub checked_key :
      Option Text
      → SignatureAlgorithm
      → Option (PublicKey K)
      → Result ConfigurationError (VerificationKey K)
  checked_key kid alg none = err invalid_key
  checked_key kid alg (some k) =
      if same_algorithm alg rs256 && ltb k.modulus_length 2048
      then err short_key
      else ok (record { kid = kid; alg = alg; key = k.key })

  -- One round of the `map`, with the kids seen so far.
  unfoldable pub parse_key : List Text → Value → Result ConfigurationError (VerificationKey K)
  unfolding algorithm_for_jwk has_any
  parse_key seen (obj jwk) =
      Result.◌>>◌ (Result.guard (not (has_any (Value.keys jwk) private_fields)) private_key) (
        Result.◌>>◌
          (Result.guard (is_text_if_any (Value.get jwk (text "use")) (text "sig"))
            not_for_signatures)
          (Result.◌>>◌
            (Result.guard (may_verify (Value.get jwk (text "key_ops"))) not_for_verification)
            (Result.◌>>=◌ (kid_of (Value.get jwk (text "kid"))) λ kid.
              Result.◌>>◌ (Result.guard (is_new_kid seen kid) duplicate_kid) (
                Result.◌>>=◌ (algorithm_for_jwk jwk)
                  λ alg. checked_key kid alg (create_public_key jwk)))))
  parse_key seen _ = err entry_not_an_object

  unfoldable pub parse_keys :
      List Text → List Value → Result ConfigurationError (List (VerificationKey K))
  unfolding parse_key
  parse_keys seen [] = ok []
  parse_keys seen (v ∷ vs) =
      Result.◌>>=◌ (parse_key seen v)
        λ k. Result.◌>>=◌ (parse_keys (add_kid k.kid seen) vs) λ ks. ok (k ∷ ks)

  unfoldable pub lacks_kid : List (VerificationKey K) → Bool
  lacks_kid [] = false
  lacks_kid (k ∷ ks) = not (is_some k.kid) || lacks_kid ks

  abbrev pub check_kids :
      List (VerificationKey K) → Result ConfigurationError (List (VerificationKey K))
  check_kids ks = if ltb 1 (length ks) && lacks_kid ks then err kid_required else ok ks

  abbrev pub parse_entries : Value → Result ConfigurationError (List (VerificationKey K))
  parse_entries (arr vs) =
      if length (Value.items vs) == 0 || ltb max_jwks_keys (length (Value.items vs))
      then err number_of_keys
      else Result.◌>>=◌ (parse_keys [] (Value.items vs)) λ ks. check_kids ks
  parse_entries _ = err not_a_key_set

  unfoldable pub parse_oidc_jwks : Value → Result ConfigurationError (List (VerificationKey K))
  unfolding parse_keys lacks_kid
  parse_oidc_jwks (obj document) = parse_entries (Value.get document (text "keys"))
  parse_oidc_jwks _ = err not_a_key_set

-- A safe integer between the bounds; a negative one is below the smaller.
unfoldable pub validate_clock_skew_seconds : Number → Result ConfigurationError ℕ
validate_clock_skew_seconds (int (pos n)) =
    if not (is_safe_integer (int (pos n))) || ltb max_clock_skew_seconds n
    then err clock_skew_out_of_range
    else ok n
validate_clock_skew_seconds _ = err clock_skew_out_of_range
