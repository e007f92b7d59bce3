-- ===== src/Web/Routes.antt =====
-- apps/web/app: the route handlers of the login and of the proxy. The configurations are those that
-- loadWebSessionConfig and loadApiProxyConfig return.
pub mod Tests
use vsn_voice_ai.Prelude.{
  ℕ, ◌≡◌, refl, sym, ap, subst, ◌∙◌, ◌⊎◌, inl, inr, Bool, true, false, Option, none, some, List, [],
  ◌∷◌, ◌++◌, arith, Bool-cases, Option-cases,
}
use mathlib.Core.Option
use vsn_voice_ai.Js.Text.{Text, text, text_eq, text_eq_iff}
use vsn_voice_ai.Js.Result.{Result, ok, err}
use vsn_voice_ai.Js.Exec.{Exec}
use vsn_voice_ai.Web.Proxy
use vsn_voice_ai.Web.Proxy.{ApiProxyConfig, ApiProxyConfigResult, UriEncoding, Stream}
use vsn_voice_ai.Web.Proxy.Requests.{
  ProxyRequest, UpstreamRequest, UpstreamResponse, Reply, is_get, answer, proxy_api_request,
}
use vsn_voice_ai.Web.Proxy.Sendable.{IsServerToken, IsRefusal}
use vsn_voice_ai.Web.Proxy.Forwarded.{IsAllowed, IsOutcome, proxy_api_request-IsOutcome}
use vsn_voice_ai.Web.Session.{WebSessionConfig, WebSessionConfigResult, configured}
use vsn_voice_ai.Web.Session.Messages.{
  WebRequest, WebResponse, TokenRequest, TokenResponse, redirect_response,
}
use vsn_voice_ai.Web.Session.Login.{LoginTools, begin_login, complete_login}
use vsn_voice_ai.Web.Session.Requests.{
  session_access_token, is_same_origin_mutation, same_site, same_origin, logout,
}

-- A request with all that the handlers read of it.
pub record IncomingRequest : Type 0 where
  pub method : Text
  pub search : Text
  pub content_type : Option Text
  pub body : Option Stream
  pub web : WebRequest

abbrev pub session_config : WebSessionConfigResult → Option WebSessionConfig
session_config (configured config) = some config
session_config _ = none

-- `Response.redirect(new URL(path, request.url), 303)`
abbrev pub see_other : WebRequest → Text → WebResponse
see_other request path = redirect_response (request.url_origin ++ path) [] 303

-- app/auth/login/route.ts
unfoldable pub handle_login :
    LoginTools → WebSessionConfigResult → WebRequest → List ℕ → List ℕ → List ℕ → ℕ → WebResponse
handle_login t (configured config) request state_bytes verifier_bytes iv now =
    begin_login t config state_bytes verifier_bytes iv now
handle_login t _ request state_bytes verifier_bytes iv now =
    see_other request (text "/?login=unavailable")

-- app/auth/callback/route.ts
unfoldable pub handle_callback :
    {D : Type 0}
    → LoginTools
    → WebSessionConfigResult
    → (TokenRequest → Exec D (Unit {0}) TokenResponse)
    → WebRequest
    → List ℕ
    → ℕ
    → D
    → WebResponse × D
handle_callback t (configured config) fetch request iv now d =
    complete_login t config fetch request iv now d
handle_callback t _ fetch request iv now d = (see_other request (text "/?login=unavailable"), d)

-- app/auth/logout/route.ts
unfoldable pub handle_logout : WebSessionConfigResult → WebRequest → WebResponse
handle_logout (configured config) request = logout request config
handle_logout _ request = see_other request (text "/")

abbrev pub access_token : LoginTools → Option WebSessionConfig → WebRequest → ℕ → Option Text
access_token t none request now = none
access_token t (some config) request now = session_access_token t config request now

-- What the proxy reads of a request, with what the dependencies return for it.
abbrev pub proxy_request : LoginTools → Option WebSessionConfig → IncomingRequest → ℕ → ProxyRequest
proxy_request t config request now = record {
  method = request.method;
  search = request.search;
  content_type = request.content_type;
  body = request.body;
  allow_mutation = is_same_origin_mutation request.web (Option.map (λ c. c.public_origin) config);
  access_token = ok (access_token t config request.web now);
}

-- app/v1/[...path]/route.ts
unfoldable pub handle_api :
    {D : Type 0}
    → LoginTools
    → (UpstreamRequest → Exec D (Unit {0}) UpstreamResponse)
    → WebSessionConfigResult
    → ApiProxyConfigResult
    → IncomingRequest
    → List Text
    → ℕ
    → Exec D (Unit {0}) Reply
handle_api t fetch session api request path now =
    proxy_api_request t.uri fetch (proxy_request t (session_config session) request now) path api

-- The browser says that a page of this site sent the request, by Fetch Metadata or else by an origin
-- that is the request's own or the configured one.
abbrev pub IsFromSite : WebRequest → WebSessionConfig → Type 0
IsFromSite request config =
    (request.fetch_site ≡ some (text "same-origin"))
    ⊎ ((o : Text) × (request.fetch_site ≡ none)
        × (request.origin ≡ some o)
        × ((o ≡ request.url_origin) ⊎ (o ≡ config.public_origin)))

same_site-IsFromSite :
    (request : WebRequest) (config : WebSessionConfig) (site origin : Option Text)
    → request.fetch_site ≡ site
    → request.origin ≡ origin
    → is_same_origin_mutation request (some config.public_origin) ≡ true
    → IsFromSite request config
unfolding is_same_origin_mutation
same_site-IsFromSite request config (some site) origin es eo h =
    inl (es ∙ ap some ((text_eq_iff site (text "same-origin")).0 (ground (arith, es))))
same_site-IsFromSite request config none none es eo h = ground arith
same_site-IsFromSite request config none (some o) es eo h = inr (
  o,
  es,
  eo,
  ground (arith, text_eq_iff o request.url_origin, text_eq_iff o config.public_origin),
)

IsServerToken-same :
    (r : ProxyRequest) (a : Option Text) (bearer : Option Text)
    → r.access_token ≡ ok a
    → IsServerToken r bearer
    → bearer ≡ a
IsServerToken-same r a none e h = ground arith
IsServerToken-same r a (some b) e (h, k) = ground arith

module _ {D : Type 0} (t : LoginTools)
    (fetch : UpstreamRequest → Exec D (Unit {0}) UpstreamResponse) (config : WebSessionConfig)
    (api : ApiProxyConfig) (request : IncomingRequest) (path : List Text) (now : ℕ) (d : D) where
  -- What reaches the API for a request: nothing, or one request that is a GET or comes from a page of
  -- this site, with the session's token if there is one and no other.
  abbrev pub IsApiOutcome : Result (Unit {0}) Reply × D → Type 0
  IsApiOutcome x =
      ((r : Result (Unit {0}) Reply) × (x ≡ (r, d)) × IsRefusal r)
      ⊎ ((u : UpstreamRequest) × (x ≡ (ok (answer (fetch u d).0), (fetch u d).1))
          × (u.method ≡ request.method)
          × ((is_get request.method ≡ true) ⊎ IsFromSite request.web config)
          × (u.bearer ≡ session_access_token t config request.web now))

  -- Where a session and the API are configured, a request of the browser reaches the API only as a GET
  -- or from a page of this site, and with no token but the one of the session in its cookie, which is
  -- attached if it lives. Else the proxy answers by itself and sends nothing.
  pub handle_api-IsApiOutcome :
      IsApiOutcome
        (handle_api t fetch (configured config) (Proxy.configured api) request path now d)
  unfolding handle_api
  handle_api-IsApiOutcome =
      let r = proxy_request t (some config) request now in
      elim (proxy_api_request-IsOutcome t.uri fetch api r path d) [
        | inl refused ↦ inl refused
        | inr (u, allowed, sent, bounded) ↦ inr (
          u,
          sent,
          allowed.same_method,
          (elim (allowed.from_this_site) [
            | inl get ↦ inl get
            | inr mutation ↦ inr (
                same_site-IsFromSite request.web config request.web.fetch_site request.web.origin
                  refl refl mutation)
          ]),
          IsServerToken-same r (session_access_token t config request.web now) u.bearer refl
              allowed.bearer,
        )
      ]
