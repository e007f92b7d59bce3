-- ===== src/Identity/Oidc.antt =====
-- oidc-bearer-token-resolver.ts: OidcBearerTokenVerifier and the resolver. Parameters are the decoding
-- of a base64url segment as JSON (`none` where it throws), and the verification of a signature by a
-- key of node:crypto (`none` where it throws). The clock's reading is in milliseconds since 1970.
pub mod Jwks
pub mod Claims
pub mod Verified
pub mod KeySets
pub mod Selection
pub mod Resolved
use vsn_voice_ai.Prelude.{
  ℕ, ◌+◌, ◌/◌, suc, Bool, true, false, ◌&&◌, ◌||◌, not, Option, none, some, List, [], ◌∷◌, ◌++◌,
  leb, ltb, ◌==◌, length, all, if◌then◌else◌,
}
use vsn_voice_ai.Js.Text.{Text, text, text_eq, includes}
use vsn_voice_ai.Js.Number.{int, between, pos}
use vsn_voice_ai.Js.Value
use vsn_voice_ai.Js.Value.{Value, undefined, num, str, arr, obj, Fields, as_text, is_undefined}
use vsn_voice_ai.Identity.Principal.{AuthenticatedPrincipal, is_canonical_identifier}
use mathlib.Core.Option.{get_or}

abbrev pub max_bearer_token_length : ℕ
max_bearer_token_length = 8192

pub data SignatureAlgorithm : Type 0 where
  rs256 es256 : SignatureAlgorithm

abbrev pub same_algorithm : SignatureAlgorithm → SignatureAlgorithm → Bool
same_algorithm rs256 rs256 = true
same_algorithm es256 es256 = true
same_algorithm _ _ = false

pub record VerificationKey (K : Type 0) : Type 0 where
  pub kid : Option Text
  pub alg : SignatureAlgorithm
  pub key : K

pub record VerifierConfig (K : Type 0) : Type 0 where
  pub issuer : Text
  pub audience : Text
  pub keys : List (VerificationKey K)
  pub clock_skew_seconds : ℕ

-- `[A-Za-z0-9_-]`
abbrev pub is_base64url : ℕ → Bool
is_base64url c =
    leb b'A' c && leb c b'Z'
    || leb b'a' c && leb c b'z'
    || leb b'0' c && leb c b'9'
    || c == b'_'
    || c == b'-'

-- `/^[A-Za-z0-9_-]+$/`
unfoldable pub is_segment : Text → Bool
is_segment s = ltb 0 (length s) && all is_base64url s

unfoldable pub decode_segment_json : (Text → Option Value) → Text → Value
unfolding is_segment
decode_segment_json json_of s = if is_segment s then get_or (json_of s) undefined else undefined

-- The text after a prefix, if it begins so.
unfoldable pub after_prefix : Text → Text → Option Text
after_prefix [] s = some s
after_prefix (c ∷ p) (d ∷ s) = if c == d then after_prefix p s else none
after_prefix (c ∷ p) [] = none

abbrev pub bounded_token : Option Text → Option Text
bounded_token none = none
bounded_token (some t) =
    if ltb 0 (length t)
      && all (λ c. is_base64url c || c == b'.') t
      && leb (length t) max_bearer_token_length
    then some t
    else none

-- `extractBearerToken`, of the request's authorization header
unfoldable pub extract_bearer_token : Option Text → Option Text
unfolding after_prefix
extract_bearer_token none = none
extract_bearer_token (some header) = bounded_token (after_prefix (text "Bearer ") header)

abbrev prepend : ℕ → List Text → List Text
prepend c [] = (c ∷ []) ∷ []
prepend c (s ∷ ss) = (c ∷ s) ∷ ss

-- `token.split('.')`
unfoldable pub split_dots : Text → List Text
split_dots [] = [] ∷ []
split_dots (c ∷ s) = if c == b'.' then [] ∷ split_dots s else prepend c (split_dots s)

-- `isNumericDate`. An integer is below such a number exactly when it is below the number's ceiling.
unfoldable pub numeric_date : Value → Option ℕ
numeric_date (num (int (pos n))) = some n
numeric_date (num (between (pos n))) = some (suc n)
numeric_date _ = none

-- `isNumericDate(exp) && exp > nowSeconds - skew`
abbrev pub is_later : ℕ → Option ℕ → ℕ → Bool
is_later skew none now = false
is_later skew (some at) now = ltb now (at + skew)

-- `isNumericDate(v) && v <= nowSeconds + skew`
abbrev pub is_past : ℕ → Option ℕ → ℕ → Bool
is_past skew none now = false
is_past skew (some at) now = leb at (now + skew)

abbrev pub is_past_if_any : ℕ → Value → ℕ → Bool
is_past_if_any skew v now = is_undefined v || is_past skew (numeric_date v) now

abbrev pub is_text : Value → Text → Bool
is_text (str s) t = text_eq s t
is_text _ t = false

unfoldable pub all_texts : List Value → Bool
all_texts [] = true
all_texts (str s ∷ vs) = all_texts vs
all_texts (_ ∷ vs) = false

unfoldable pub has_text : List Value → Text → Bool
has_text [] t = false
has_text (v ∷ vs) t = is_text v t || has_text vs t

unfoldable pub audience_matches : Value → Text → Bool
unfolding all_texts has_text
audience_matches (str s) audience = text_eq s audience
audience_matches (arr vs) audience =
    ltb 0 (length (Value.items vs))
    && all_texts (Value.items vs)
    && has_text (Value.items vs) audience
audience_matches _ audience = false

-- The `alg` of a header, if it is one of the two.
abbrev pub algorithm_of : Value → Option SignatureAlgorithm
algorithm_of v =
    if is_text v (text "RS256")
    then some rs256
    else if is_text v (text "ES256")
    then some es256
    else none

-- `kid !== undefined && typeof kid !== 'string'`, negated
abbrev pub is_optional_text : Value → Bool
is_optional_text undefined = true
is_optional_text (str s) = true
is_optional_text _ = false

module _ {K : Type 0} where
  -- `keys.filter((key) => key.alg === alg)`
  unfoldable pub of_algorithm :
      SignatureAlgorithm → List (VerificationKey K) → List (VerificationKey K)
  of_algorithm alg [] = []
  of_algorithm alg (k ∷ ks) =
      if same_algorithm k.alg alg then k ∷ of_algorithm alg ks else of_algorithm alg ks

  abbrev pub has_kid : Text → VerificationKey K → Bool
  has_kid kid k = elim k.kid [ none ↦ false | some s ↦ text_eq s kid ]

  -- `candidates.find((key) => key.kid === kid)`
  unfoldable pub find_kid : Text → List (VerificationKey K) → Option (VerificationKey K)
  find_kid kid [] = none
  find_kid kid (k ∷ ks) = if has_kid kid k then some k else find_kid kid ks

  -- The one candidate of a set of one key.
  abbrev pub only_key :
      List (VerificationKey K) → List (VerificationKey K) → Option (VerificationKey K)
  only_key (k ∷ []) (c ∷ []) = some c
  only_key _ _ = none

  unfoldable pub select_key :
      List (VerificationKey K) → SignatureAlgorithm → Option Text → Option (VerificationKey K)
  unfolding of_algorithm find_kid
  select_key keys alg none = only_key keys (of_algorithm alg keys)
  select_key keys alg (some kid) = find_kid kid (of_algorithm alg keys)

  module _ (json_of : Text → Option Value)
      (verify_signature : SignatureAlgorithm → K → Text → Text → Option Bool)
      (config : VerifierConfig K) (now_ms : ℕ) where
    -- The tests of `principalFromClaims`.
    unfoldable pub are_valid_claims : Fields → Bool
    unfolding numeric_date audience_matches
    are_valid_claims claims =
        is_text (Value.get claims (text "iss")) config.issuer
        && audience_matches (Value.get claims (text "aud")) config.audience
        && is_later config.clock_skew_seconds (numeric_date (Value.get claims (text "exp")))
            (now_ms / 1000)
        && is_past_if_any config.clock_skew_seconds (Value.get claims (text "nbf")) (now_ms / 1000)
        && is_past_if_any config.clock_skew_seconds (Value.get claims (text "iat")) (now_ms / 1000)
        && is_canonical_identifier (Value.get claims (text "sub"))
        && (is_undefined (Value.get claims (text "sid"))
            || is_canonical_identifier (Value.get claims (text "sid")))

    unfoldable pub principal_from_claims : Fields → Option AuthenticatedPrincipal
    unfolding are_valid_claims
    principal_from_claims claims =
        if are_valid_claims claims
        then some (record {
          subject_id = get_or (as_text (Value.get claims (text "sub"))) [];
          session_id = as_text (Value.get claims (text "sid"));
        })
        else none

    -- The end of `verify`, for the decoded payload.
    abbrev pub verify_claims : Value → Option AuthenticatedPrincipal
    verify_claims (obj claims) = principal_from_claims claims
    verify_claims _ = none

    -- `verify` past the selection of the key.
    abbrev pub verify_signed :
        Text
        → Text
        → Text
        → SignatureAlgorithm
        → Option (VerificationKey K)
        → Option AuthenticatedPrincipal
    verify_signed header payload signature alg none = none
    verify_signed header payload signature alg (some k) =
        if is_segment signature
          && get_or (verify_signature alg k.key (header ++ (b'.' ∷ payload)) signature) false
        then verify_claims (decode_segment_json json_of payload)
        else none

    abbrev pub verify_algorithm :
        Text → Text → Text → Fields → Option SignatureAlgorithm → Option AuthenticatedPrincipal
    verify_algorithm header payload signature fs none = none
    verify_algorithm header payload signature fs (some alg) =
        if is_optional_text (Value.get fs (text "kid"))
        then verify_signed header payload signature alg
            (select_key config.keys alg (as_text (Value.get fs (text "kid"))))
        else none

    -- `verify` past the decoding of the header.
    abbrev pub verify_header : Text → Text → Text → Value → Option AuthenticatedPrincipal
    verify_header header payload signature (obj fs) =
        if includes (Value.keys fs) (text "crit")
        then none
        else verify_algorithm header payload signature fs (algorithm_of (Value.get fs (text "alg")))
    verify_header header payload signature _ = none

    abbrev pub verify_parts : List Text → Option AuthenticatedPrincipal
    verify_parts (header ∷ payload ∷ signature ∷ []) =
        verify_header header payload signature (decode_segment_json json_of header)
    verify_parts _ = none

    unfoldable pub verify : Text → Option AuthenticatedPrincipal
    unfolding principal_from_claims select_key decode_segment_json
    verify token =
        if length token == 0 || ltb max_bearer_token_length (length token)
        then none
        else verify_parts (split_dots token)

    unfoldable pub resolve : Option Text → Option AuthenticatedPrincipal
    resolve header = elim (extract_bearer_token header) [ none ↦ none | some t ↦ verify t ]
