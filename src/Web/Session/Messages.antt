-- ===== src/Web/Session/Messages.antt =====
-- apps/web/lib/web-session.ts: requests, responses and the values in them: the login's transaction,
-- the session and the token endpoint's answer. A time is in milliseconds since 1970; `infinity true` is
-- the positive infinity.
use vsn_voice_ai.Prelude.{
  ℕ, suc, ◌+◌, Bool, false, ◌&&◌, ◌||◌, not, Option, none, some, List, [], ◌∷◌, ◌++◌, map, leb, ltb,
  ◌==◌, length, all, if◌then◌else◌,
}
use Prim.Native.Nat.{min}
use vsn_voice_ai.Js.Text.{Text, text, text_eq}
use vsn_voice_ai.Js.Url.{is_empty}
use vsn_voice_ai.Js.Number.{Number, int, between, infinity, nan, pos, negsuc}
use vsn_voice_ai.Js.Value
use vsn_voice_ai.Js.Value.{Value, Fields, undefined, num, str, obj, field, end, as_text}
use vsn_voice_ai.Js.Result.{Result, ok}
use vsn_voice_ai.Web.Proxy.{Stream, is_alphanumeric, lower, read_chunks}
use vsn_voice_ai.Web.Session.{WebSessionConfig, login_transaction_cookie, max_session_ttl_seconds}
use vsn_voice_ai.Web.Session.Cookies.{clear_cookie}

-- What the code reads of a request: `code` and `state` of its query, its URL's origin and its headers
-- `cookie`, `sec-fetch-site` and `origin`.
pub record WebRequest : Type 0 where
  pub code : Option Text
  pub state : Option Text
  pub url_origin : Text
  pub cookie : Option Text
  pub fetch_site : Option Text
  pub origin : Option Text

-- A response without a body that is not stored, with the cookies that it sets.
pub record WebResponse : Type 0 where
  pub status : ℕ
  pub location : Option Text
  pub cookies : List Text

pub record LoginTransaction : Type 0 where
  pub state : Text
  pub verifier : Text
  pub created_at : Number

-- The arguments of `fetch`; the form is a body of URLSearchParams, posted without following redirects.
pub record TokenRequest : Type 0 where
  pub url : Text
  pub authorization : Option Text
  pub form : List (Text × Text)

pub record TokenResponse : Type 0 where
  pub status : ℕ
  pub body : Option Stream

abbrev pub redirect_response : Text → List Text → ℕ → WebResponse
redirect_response location cookies status = record {
  status = status;
  location = some location;
  cookies = cookies;
}

-- BEARER_TOKEN_PATTERN
unfoldable pub is_bearer_text : Text → Bool
is_bearer_text t =
    not (is_empty t) && all (λ c. is_alphanumeric c || c == b'_' || c == b'.' || c == b'-') t

abbrev pub version : Value
version = num (int (pos 1))

abbrev pub is_version : Value → Bool
is_version (num (int (pos n))) = n == 1
is_version _ = false

abbrev pub transaction_fields : Text → Text → ℕ → Fields
transaction_fields state verifier created_at = field (text "v") version (
    field (text "state") (str state) (
      field (text "verifier") (str verifier)
        (field (text "createdAt") (num (int (pos created_at))) end)))

abbrev pub session_fields : Text → ℕ → Fields
session_fields access_token expires_at = field (text "v") version (
    field (text "accessToken") (str access_token)
      (field (text "expiresAt") (num (int (pos expires_at))) end))

-- The fields of an object; those that the code reads of another value are undefined.
abbrev pub fields_of : Value → Fields
fields_of (obj fs) = fs
fields_of _ = end

abbrev transaction_of : Value → Option Text → Option Text → Value → Option LoginTransaction
transaction_of v (some state) (some verifier) (num created_at) =
    if is_version v
    then some (record { state = state; verifier = verifier; created_at = created_at })
    else none
transaction_of _ _ _ _ = none

-- `isLoginTransaction`, with the transaction that it finds.
unfoldable pub login_transaction : Value → Option LoginTransaction
login_transaction value =
    let fs = fields_of value in
    transaction_of (Value.get fs (text "v")) (as_text (Value.get fs (text "state")))
      (as_text (Value.get fs (text "verifier"))) (Value.get fs (text "createdAt"))

-- `now - at > limit`
abbrev pub is_older : ℕ → Number → ℕ → Bool
is_older now (int (pos c)) limit = ltb (c + limit) now
is_older now (int (negsuc c)) limit = ltb limit (now + suc c)
is_older now (between (pos c)) limit = leb (suc c + limit) now
is_older now (between (negsuc c)) limit = leb limit (now + c)
is_older now (infinity positive) limit = not positive
is_older now nan limit = false

-- `now < at`
abbrev pub is_ahead : ℕ → Number → Bool
is_ahead now (int (pos c)) = ltb now c
is_ahead now (between (pos c)) = leb now c
is_ahead now (infinity positive) = positive
is_ahead now _ = false

-- `Math.floor(x)` of a value that is a finite number above 0
abbrev pub positive_floor : Value → Option ℕ
positive_floor (num (int (pos (suc n)))) = some (suc n)
positive_floor (num (between (pos n))) = some n
positive_floor _ = none

unfoldable pub read_bounded_text : Option Stream → Result (Unit {0}) (Option (List ℕ))
read_bounded_text none = ok (some [])
read_bounded_text (some body) = read_chunks 65_536 [] body

abbrev pub is_bearer_type : Option Text → Bool
is_bearer_type none = false
is_bearer_type (some s) = text_eq (map lower s) (text "bearer")

abbrev pub grant_of : Option Text → Bool → Option ℕ → Option (Text × ℕ)
grant_of (some token) bearer (some seconds) =
    if not (is_empty token) && not (ltb 8192 (length token)) && is_bearer_text token && bearer
    then some (token, min seconds max_session_ttl_seconds)
    else none
grant_of _ _ _ = none

-- The access token of a token response with its `ttl`, if the response is valid.
unfoldable pub granted : Value → Option (Text × ℕ)
unfolding is_bearer_text
granted payload =
    let fs = fields_of payload in
    grant_of (as_text (Value.get fs (text "access_token")))
      (is_bearer_type (as_text (Value.get fs (text "token_type"))))
      (positive_floor (Value.get fs (text "expires_in")))

unfoldable pub login_failed : WebSessionConfig → WebResponse
login_failed config =
    redirect_response (config.public_origin ++ text "/?login=failed")
      (clear_cookie login_transaction_cookie ∷ []) 302
