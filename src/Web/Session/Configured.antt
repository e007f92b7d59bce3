-- ===== src/Web/Session/Configured.antt =====
-- apps/web/lib/web-session.ts: the configurations that loadWebSessionConfig makes.
use vsn_voice_ai.Prelude.{
  ℕ, ◌≤◌, ◌≡◌, refl, ap, ◌∙◌, inl, inr, Bool, true, false, Option, none, some, List, length, all,
  arith, Bool-cases, Option-cases,
}
use vsn_voice_ai.Js.Text.{Text, text, text_eq, text_eq_iff, trim, includes}
use vsn_voice_ai.Js.Split.{split}
use vsn_voice_ai.Js.Url.{Url}
use vsn_voice_ai.Web.Session.{
  WebSessionConfig, configured, required_keys, is_endpoint, is_scope_token, is_scope, value_of,
  present_count, parse_endpoint, with_endpoints, load_web_session_config,
}

module _ (parse_url : Text → Option Url) (href : Url → Text) (decode : Text → List ℕ)
    (env : Text → Option Text) where
  -- A setting that parses as an endpoint's URL.
  pub record IsEndpoint (key : Text) (allow_query : Bool) (printed : Text) : Type 0 where
    pub url : Url
    pub parsed : parse_url (value_of parse_url href decode env key) ≡ some url
    pub safe : is_endpoint url allow_query ≡ true
    pub same : printed ≡ href url

  endpoint_parsed :
      (key : Text) (allow_query : Bool) (url : Url)
      → parse_endpoint parse_url href decode env
          (value_of parse_url href decode env key)
          allow_query
        ≡ some url
      → (parse_url (value_of parse_url href decode env key) ≡ some url)
        × (is_endpoint url allow_query ≡ true)
  unfolding parse_endpoint
  endpoint_parsed key allow_query url h =
      elim (Option-cases (parse_url (value_of parse_url href decode env key))) [
        | inl fails ↦ ground arith
        | inr (u, parsed) ↦ elim (Bool-cases (is_endpoint u allow_query)) [
          | inl safe ↦ let same : u ≡ url = ground arith in (parsed ∙ ap some same, ground arith)
          | inr unsafe ↦ ground arith
        ]
      ]

  endpoint :
      (key : Text) (allow_query : Bool) (url : Url) (printed : Text)
      → parse_endpoint parse_url href decode env
          (value_of parse_url href decode env key)
          allow_query
        ≡ some url
      → printed ≡ href url
      → IsEndpoint key allow_query printed
  endpoint key allow_query url printed h same = record {
    url = url;
    parsed = (endpoint_parsed key allow_query url h).0;
    safe = (endpoint_parsed key allow_query url h).1;
    same = same;
  }

  abbrev setting : Text → Text
  setting = value_of parse_url href decode env

  -- Every setting is the environment's, and safe.
  pub record IsConfigured (c : WebSessionConfig) : Type 0 where
    pub authorization :
        IsEndpoint (text "VSN_WEB_OIDC_AUTHORIZATION_ENDPOINT") true c.authorization_endpoint
    pub token : IsEndpoint (text "VSN_WEB_OIDC_TOKEN_ENDPOINT") false c.token_endpoint
    pub redirect : IsEndpoint (text "VSN_WEB_OIDC_REDIRECT_URI") false c.redirect_uri
    pub callback_path : redirect.url.pathname ≡ text "/auth/callback"
    pub origin : c.public_origin ≡ redirect.url.origin
    pub client_id : c.client_id ≡ setting (text "VSN_WEB_OIDC_CLIENT_ID")
    pub short_id : length c.client_id ≤ 256
    pub trimmed_id : trim c.client_id ≡ c.client_id
    pub scopes : all is_scope_token (split b' ' c.scope) ≡ true
    pub has_openid : includes (split b' ' c.scope) (text "openid") ≡ true
    pub key : c.session_key ≡ decode (setting (text "VSN_WEB_SESSION_SECRET"))
    pub key_length : length c.session_key ≡ 32

  with_endpoints-IsConfigured :
      (a k r : Option Url) (c : WebSessionConfig)
      → parse_endpoint parse_url href decode env
          (setting (text "VSN_WEB_OIDC_AUTHORIZATION_ENDPOINT"))
          true
        ≡ a
      → parse_endpoint parse_url href decode env
          (setting (text "VSN_WEB_OIDC_TOKEN_ENDPOINT"))
          false
        ≡ k
      → parse_endpoint parse_url href decode env (setting (text "VSN_WEB_OIDC_REDIRECT_URI")) false
        ≡ r
      → with_endpoints parse_url href decode env a k r ≡ configured c
      → IsConfigured c
  unfolding is_scope endpoint
  with_endpoints-IsConfigured none k r c ea ek er h = ground arith
  with_endpoints-IsConfigured (some a) none r c ea ek er h = ground arith
  with_endpoints-IsConfigured (some a) (some k) none c ea ek er h = ground arith
  with_endpoints-IsConfigured (some a) (some k) (some r) c ea ek er h =
      let path : text_eq r.pathname (text "/auth/callback") ≡ true = ground arith in
      record {
        authorization =
            endpoint (text "VSN_WEB_OIDC_AUTHORIZATION_ENDPOINT") true a _ ea (ground arith);
        token = endpoint (text "VSN_WEB_OIDC_TOKEN_ENDPOINT") false k _ ek (ground arith);
        redirect = endpoint (text "VSN_WEB_OIDC_REDIRECT_URI") false r _ er (ground arith);
        callback_path = (text_eq_iff r.pathname (text "/auth/callback")).0 path;
        origin = ground arith;
        client_id = ground arith;
        short_id = ground arith;
        trimmed_id = ground (arith, text_eq_iff (trim c.client_id) c.client_id);
        scopes = ground arith;
        has_openid = ground arith;
        key = ground arith;
        key_length = ground arith;
      }

  -- A login is configured only with all its settings: https endpoints (or local ones) without
  -- credentials, a callback path, a bounded client id, scopes with `openid`, and a 32-byte key.
  pub load_web_session_config-IsConfigured :
      (c : WebSessionConfig)
      → load_web_session_config parse_url href decode env ≡ configured c
      → IsConfigured c × (present_count parse_url href decode env required_keys ≡ 5)
  unfolding load_web_session_config
  load_web_session_config-IsConfigured c h =
      (with_endpoints-IsConfigured _ _ _ c refl refl refl (ground arith), ground arith)
