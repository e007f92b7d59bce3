-- ===== src/Web/Session/Tests.antt =====
-- apps/web/lib/web-session.ts on small data.
pub mod Sealed
use vsn_voice_ai.Prelude.{
  ℕ, ◌≡◌, refl, ◌⊎◌, inl, Bool, true, false, Option, none, some, List, [], ◌∷◌, ◌++◌, arith, length,
  if◌then◌else◌,
}
use vsn_voice_ai.Js.Text.{Text, text, text_eq, trim, includes, skip_white_space}
use vsn_voice_ai.Js.Map
use vsn_voice_ai.Js.Split.{split}
use vsn_voice_ai.Js.Url.{Url}
use vsn_voice_ai.Js.Value.{Value}
use vsn_voice_ai.Js.Result.{ok}
use vsn_voice_ai.Js.Exec.{Exec, pure}
use vsn_voice_ai.Web.Proxy.{UriEncoding, chunk, done}
use vsn_voice_ai.Web.Session.{
  WebSessionConfig, configured, session_cookie, login_transaction_cookie, required_keys,
  present_count, load_web_session_config, is_endpoint, is_scope, is_base64url_text, parse_endpoint,
}
use vsn_voice_ai.Web.Session.Configured.{IsConfigured, load_web_session_config-IsConfigured}
use vsn_voice_ai.Web.Session.Cookies.{read_cookie, decimal_text, serialize_cookie, clear_cookie}
use vsn_voice_ai.Web.Session.Cookies.Headers.{cookie_header, read_cookie-cookie_header}
use vsn_voice_ai.Web.Session.Sealing.{unseal_value, seal_value, unseal_value-seal_value}
use vsn_voice_ai.Web.Session.Messages.{
  WebRequest, TokenRequest, TokenResponse, session_fields, transaction_fields, login_failed,
}
use vsn_voice_ai.Web.Session.Login.{
  LoginTools, begin_login, complete_login, payload_of, with_payload, token_request,
}
use vsn_voice_ai.Web.Session.Login.Callback.{IsCompletion, begin_login-complete_login}
use vsn_voice_ai.Web.Session.Login.Granted.{IsLoginOutcome, complete_login-IsLoginOutcome}
use vsn_voice_ai.Web.Session.Tests.Sealed.{plain_sealing}

abbrev two_cookies : List (Text × Text)
two_cookies = (text "a", text "b=c") ∷ (session_cookie, text "xyz") ∷ []

cleared : clear_cookie (text "x") ≡ text "x=; Path=/; Max-Age=0; HttpOnly; Secure; SameSite=Lax"
unfolding clear_cookie decimal_text
cleared = refl

lasting :
    serialize_cookie (text "x") (text "y") 28_800
    ≡ text "x=y; Path=/; Max-Age=28800; HttpOnly; Secure; SameSite=Lax"
unfolding serialize_cookie decimal_text
lasting = refl

abbrev pub tools : LoginTools
tools = record {
  sealing = plain_sealing;
  uri = record { encode = λ s. s; encode-unreserved = λ s h. refl };
  set_params = λ url params. url ++ text "?" ++ cookie_header params;
  utf8 = λ s. s;
  base64 = λ bytes. bytes;
  sha256 = λ s. 1 ∷ 2 ∷ [];
}

abbrev pub config : WebSessionConfig
config = record {
  authorization_endpoint = text "https://idp/a";
  token_endpoint = text "https://idp/t";
  client_id = text "web";
  client_secret = none;
  redirect_uri = text "https://app/auth/callback";
  public_origin = text "https://app";
  scope = text "openid";
  session_key = [];
}

abbrev pub vector : List ℕ
vector = 1 ∷ 2 ∷ 3 ∷ 4 ∷ 5 ∷ 6 ∷ 7 ∷ 8 ∷ 9 ∷ 10 ∷ 11 ∷ 12 ∷ []

abbrev begun : ℕ
begun = 1_000

abbrev state_bytes : List ℕ
state_bytes = 21 ∷ []

abbrev its_seal : Text
its_seal = seal_value plain_sealing [] vector (
    Value.obj (
      transaction_fields (plain_sealing.encode state_bytes) (plain_sealing.encode state_bytes)
        begun))

-- The identity provider sends the browser back.
abbrev returned : WebRequest
returned = record {
  code = some (text "c1");
  state = some (plain_sealing.encode state_bytes);
  url_origin = text "https://app";
  cookie = some (cookie_header ((login_transaction_cookie, its_seal) ∷ []));
  fetch_site = none;
  origin = none;
}

-- A token endpoint that does not grant.
abbrev refusing : TokenRequest → Exec (List TokenRequest) (Unit {0}) TokenResponse
refusing u sent = (ok (record { status = 400; body = none }), u ∷ sent)

begin_login-complete_login_example :
    ((begin_login tools config state_bytes state_bytes vector begun).cookies
      ≡ serialize_cookie login_transaction_cookie its_seal 600 ∷ [])
    × IsCompletion tools config
        (plain_sealing.encode state_bytes)
        (plain_sealing.encode state_bytes)
        vector
        begun
        returned
        5_000
        refusing
        vector
        []
unfolding Map.get text_eq seal_value
begin_login-complete_login_example =
    begin_login-complete_login tools config state_bytes state_bytes vector begun returned 5_000
      refusing vector []
      (record {
        cookies = (login_transaction_cookie, its_seal) ∷ [];
        are = (record { named = refl; name = refl; no_equals = refl; value = refl }, tt);
        sent = refl;
        found = refl;
        vector = refl;
        safe = omega arith;
        short = omega arith;
      })

complete_login-IsLoginOutcome_example :
    IsLoginOutcome tools config vector 5_000 refl
      (omega arith)
      refusing
      returned
      []
      (complete_login tools config refusing returned vector 5_000 [])
complete_login-IsLoginOutcome_example =
    complete_login-IsLoginOutcome tools config vector 5_000 refl (omega arith) refusing returned []

abbrev settings : List (Text × Text)
settings =
    (text "VSN_WEB_OIDC_AUTHORIZATION_ENDPOINT", text "https://idp/a")
    ∷ (text "VSN_WEB_OIDC_TOKEN_ENDPOINT", text "https://idp/t")
    ∷ (text "VSN_WEB_OIDC_CLIENT_ID", text "web")
    ∷ (text "VSN_WEB_OIDC_REDIRECT_URI", text "https://app/auth/callback")
    ∷ (text "VSN_WEB_SESSION_SECRET", text "AAAA")
    ∷ []

abbrev env : Text → Option Text
env key = Map.get settings key

abbrev parse_url : Text → Option Url
parse_url s = some (record {
  protocol = text "https:";
  hostname = text "app";
  username = [];
  password = [];
  pathname = text "/auth/callback";
  search = [];
  hash = [];
  origin = text "https://app";
})

abbrev href : Url → Text
href url = url.origin ++ url.pathname

-- 32 bytes, whatever the digits.
abbrev key_bytes : Text → List ℕ
key_bytes s = vector ++ vector ++ (1 ∷ 2 ∷ 3 ∷ 4 ∷ 5 ∷ 6 ∷ 7 ∷ 8 ∷ [])

abbrev loaded : WebSessionConfig
loaded = record {
  authorization_endpoint = text "https://app/auth/callback";
  token_endpoint = text "https://app/auth/callback";
  client_id = text "web";
  client_secret = none;
  redirect_uri = text "https://app/auth/callback";
  public_origin = text "https://app";
  scope = text "openid";
  session_key = key_bytes [];
}

load_web_session_config-IsConfigured_example :
    IsConfigured parse_url href key_bytes env loaded
    × (present_count parse_url href key_bytes env required_keys ≡ 5)
unfolding load_web_session_config parse_endpoint present_count is_scope is_endpoint
    is_base64url_text split Map.get text_eq trim includes
load_web_session_config-IsConfigured_example =
    load_web_session_config-IsConfigured parse_url href key_bytes env loaded refl
