-- ===== src/Web/Session.antt =====
-- apps/web/lib/web-session.ts: the configuration of the login and the session. The URL parser, the
-- printing of a parsed URL and the bytes that base64url digits stand for are parameters.
pub mod Configured
pub mod Cookies
pub mod Sealing
pub mod Messages
pub mod Login
pub mod Requests
pub mod Tests
use vsn_voice_ai.Prelude.{
  ℕ, suc, Bool, true, false, ◌&&◌, ◌||◌, not, Option, none, some, List, [], ◌∷◌, ltb, leb, ◌==◌,
  length, all, if◌then◌else◌,
}
use vsn_voice_ai.Js.Text.{Text, text, text_eq, trim, includes}
use vsn_voice_ai.Js.Split.{split}
use vsn_voice_ai.Js.Url.{Url, is_loopback_host, is_empty}
use vsn_voice_ai.Identity.Oidc.{is_base64url}
use mathlib.Core.Option.{get_or}

abbrev pub session_cookie : Text
session_cookie = text "__Host-vsn_session"

abbrev pub login_transaction_cookie : Text
login_transaction_cookie = text "__Host-vsn_oidc_tx"

abbrev pub login_transaction_ttl_seconds : ℕ
login_transaction_ttl_seconds = 600

abbrev pub max_session_ttl_seconds : ℕ
max_session_ttl_seconds = 28_800

abbrev pub max_cookie_value_length : ℕ
max_cookie_value_length = 3_800

pub record WebSessionConfig : Type 0 where
  pub authorization_endpoint : Text
  pub token_endpoint : Text
  pub client_id : Text
  pub client_secret : Option Text
  pub redirect_uri : Text
  pub public_origin : Text
  pub scope : Text
  pub session_key : List ℕ

pub data WebSessionConfigResult : Type 0 where
  configured : WebSessionConfig → WebSessionConfigResult
  not_configured invalid : WebSessionConfigResult

abbrev pub required_keys : List Text
required_keys =
    text "VSN_WEB_OIDC_AUTHORIZATION_ENDPOINT"
    ∷ text "VSN_WEB_OIDC_TOKEN_ENDPOINT"
    ∷ text "VSN_WEB_OIDC_CLIENT_ID"
    ∷ text "VSN_WEB_OIDC_REDIRECT_URI"
    ∷ text "VSN_WEB_SESSION_SECRET"
    ∷ []

-- `secure` and the tests after it, of a parsed URL.
unfoldable pub is_endpoint : Url → Bool → Bool
is_endpoint url allow_query =
    (text_eq url.protocol (text "https:")
      || text_eq url.protocol (text "http:") && is_loopback_host url.hostname)
    && is_empty url.username
    && is_empty url.password
    && is_empty url.hash
    && (allow_query || is_empty url.search)

abbrev pub endpoint_of : Option Url → Bool → Option Url
endpoint_of none allow_query = none
endpoint_of (some url) allow_query = if is_endpoint url allow_query then some url else none

-- `[\x21\x23-\x5B\x5D-\x7E]`
abbrev pub is_scope_character : ℕ → Bool
is_scope_character c = c == 0x21 || leb 0x23 c && leb c 0x5B || leb 0x5D c && leb c 0x7E

abbrev pub is_scope_token : Text → Bool
is_scope_token s = not (is_empty s) && all is_scope_character s

-- The pattern of a scope: tokens with one space between two of them.
unfoldable pub is_scope : Text → Bool
is_scope s = all is_scope_token (split b' ' s) && includes (split b' ' s) (text "openid")

-- `/^[A-Za-z0-9_-]+$/`
unfoldable pub is_base64url_text : Text → Bool
is_base64url_text s = not (is_empty s) && all is_base64url s

abbrev secret_of : Text → Option Text
secret_of s = if ltb 0 (length s) then some s else none

module _ (parse_url : Text → Option Url) (href : Url → Text) (decode : Text → List ℕ)
    (env : Text → Option Text) where
  -- `env[key] ?? ''`
  abbrev pub value_of : Text → Text
  value_of key = get_or (env key) []

  -- `present.length`
  unfoldable pub present_count : List Text → ℕ
  present_count [] = 0
  present_count (key ∷ ks) =
      if ltb 0 (length (value_of key)) then suc (present_count ks) else present_count ks

  unfoldable pub parse_endpoint : Text → Bool → Option Url
  parse_endpoint value allow_query = endpoint_of (parse_url value) allow_query

  abbrev pub scope_setting : Text
  scope_setting = get_or (env (text "VSN_WEB_OIDC_SCOPE")) (text "openid")

  -- Past the endpoints.
  abbrev pub with_endpoints : Option Url → Option Url → Option Url → WebSessionConfigResult
  with_endpoints (some authorization) (some token) (some redirect) =
      if not (text_eq redirect.pathname (text "/auth/callback"))
        || ltb 256 (length (value_of (text "VSN_WEB_OIDC_CLIENT_ID")))
        || not (
            text_eq (trim (value_of (text "VSN_WEB_OIDC_CLIENT_ID")))
              (value_of (text "VSN_WEB_OIDC_CLIENT_ID")))
        || not (is_scope scope_setting)
        || not (is_base64url_text (value_of (text "VSN_WEB_SESSION_SECRET")))
        || not (length (decode (value_of (text "VSN_WEB_SESSION_SECRET"))) == 32)
      then invalid
      else configured (record {
        authorization_endpoint = href authorization;
        token_endpoint = href token;
        client_id = value_of (text "VSN_WEB_OIDC_CLIENT_ID");
        client_secret = secret_of (value_of (text "VSN_WEB_OIDC_CLIENT_SECRET"));
        redirect_uri = href redirect;
        public_origin = redirect.origin;
        scope = scope_setting;
        session_key = decode (value_of (text "VSN_WEB_SESSION_SECRET"));
      })
  with_endpoints _ _ _ = invalid

  unfoldable pub load_web_session_config : WebSessionConfigResult
  unfolding parse_endpoint present_count is_scope
  load_web_session_config =
      if present_count required_keys == 0 && is_empty (value_of (text "VSN_WEB_OIDC_CLIENT_SECRET"))
      then not_configured
      else if not (present_count required_keys == 5)
      then invalid
      else with_endpoints
          (parse_endpoint (value_of (text "VSN_WEB_OIDC_AUTHORIZATION_ENDPOINT")) true)
          (parse_endpoint (value_of (text "VSN_WEB_OIDC_TOKEN_ENDPOINT")) false)
          (parse_endpoint (value_of (text "VSN_WEB_OIDC_REDIRECT_URI")) false)
