-- ===== src/Web/Proxy/Forwarded.antt =====
-- apps/web/lib/api-proxy.ts: what proxyApiRequest sends, and what it answers.
use vsn_voice_ai.Prelude.{
  ℕ, ◌≤◌, ◌≡◌, refl, ap, ◌⊎◌, inl, inr, true, false, ◌&&◌, not, Option, none, some, List, ◌++◌, ltb,
  length, All, arith, Bool-cases,
}
use vsn_voice_ai.Js.Text.{Text, text, includes}
use vsn_voice_ai.Js.Result.{Result, ok, err, Result-cases}
use vsn_voice_ai.Js.Exec.{Exec}
use vsn_voice_ai.Web.Proxy.{ApiProxyConfig, configured, UriEncoding, build_upstream_path, joined}
use vsn_voice_ai.Web.Proxy.Paths.{IsPlain, build_upstream_path_iff}
use vsn_voice_ai.Web.Proxy.Requests.{
  ProxyRequest, UpstreamRequest, UpstreamResponse, Reply, api_proxy_methods, is_get, answer,
  checked_token, send, send_with_token, request_body, send_path, proxy_api_request,
}
use vsn_voice_ai.Web.Proxy.Replies.{IsBounded, answer-IsBounded}
use vsn_voice_ai.Web.Proxy.Sendable.{
  IsSendable, IsServerToken, IsRefusal, checked_token-IsServerToken, checked_token-IsRefusal,
  request_body-IsSendable, request_body-IsRefusal,
}

-- A request that may be sent upstream for `request`.
pub record IsAllowed (config : ApiProxyConfig) (request : ProxyRequest) (segments : List Text)
    (u : UpstreamRequest) : Type 0 where
  pub method_allowed : includes api_proxy_methods request.method ≡ true
  pub same_method : u.method ≡ request.method
  pub from_this_site : (is_get request.method ≡ true) ⊎ (request.allow_mutation ≡ true)
  pub few : (1 ≤ length segments) × (length segments ≤ 8)
  pub plain : All IsPlain segments
  pub url : u.url ≡ config.api_origin ++ (text "/v1/" ++ joined (λ s. s) segments) ++ request.search
  pub query : length request.search ≤ 2048
  pub body : IsSendable request u.body
  pub bearer : IsServerToken request u.bearer

module _ {D : Type 0} (uri : UriEncoding)
    (fetch : UpstreamRequest → Exec D (Unit {0}) UpstreamResponse) (config : ApiProxyConfig)
    (request : ProxyRequest) (segments : List Text) (d : D) where
  -- Nothing was sent, or one allowed request was, and its answer is the reply.
  abbrev pub IsOutcome : Result (Unit {0}) Reply × D → Type 0
  IsOutcome x =
      ((r : Result (Unit {0}) Reply) × (x ≡ (r, d)) × IsRefusal r)
      ⊎ ((u : UpstreamRequest) × IsAllowed config request segments u
          × (x ≡ (ok (answer (fetch u d).0), (fetch u d).1))
          × IsBounded (answer (fetch u d).0))

  -- What the tests before the body's reading establish.
  pub record IsRouted (path : Text) : Type 0 where
    pub method_allowed : includes api_proxy_methods request.method ≡ true
    pub from_this_site : (is_get request.method ≡ true) ⊎ (request.allow_mutation ≡ true)
    pub built : build_upstream_path uri segments ≡ some path
    pub query : length request.search ≤ 2048

  send_with_token-IsOutcome :
      (path : Text) (body : Option (List ℕ)) (t : Result Reply (Option Text))
      → IsRouted path
      → IsSendable request body
      → checked_token request.access_token ≡ t
      → IsOutcome (send_with_token uri fetch config request path body t d)
  send_with_token-IsOutcome path body (err reply) routed sendable checked =
      inl (ok reply, refl, checked_token-IsRefusal request.access_token reply checked)
  send_with_token-IsOutcome path body (ok token) routed sendable checked =
      let (low, high, plain, same) = (build_upstream_path_iff uri segments path).0 routed.built in
      inr (
        _,
        record {
          method_allowed = routed.method_allowed;
          same_method = refl;
          from_this_site = routed.from_this_site;
          few = (low, high);
          plain = plain;
          url = ap (λ p. config.api_origin ++ p ++ request.search) same;
          query = routed.query;
          body = sendable;
          bearer = checked_token-IsServerToken request token checked;
        },
        refl,
        answer-IsBounded _,
      )

  send_path-IsOutcome :
      (path : Option Text)
      → includes api_proxy_methods request.method ≡ true
      → (is_get request.method ≡ true) ⊎ (request.allow_mutation ≡ true)
      → build_upstream_path uri segments ≡ path
      → IsOutcome (send_path uri fetch config request path d)
  send_path-IsOutcome none allowed safe built = inl (_, refl, tt)
  send_path-IsOutcome (some path) allowed safe built =
      elim (Bool-cases (ltb 2048 (length request.search))) [
        | inl long ↦ rw long (inl (_, refl, tt))
        | inr short ↦ elim (Result-cases (request_body uri fetch request)) [
          | inr (e, failed) ↦ rw (short, failed) (inl (_, refl, tt))
          | inl (err reply, refused) ↦
              rw (short, refused)
                (inl (_, refl, request_body-IsRefusal uri fetch request reply refused))
          | inl (ok body, sends) ↦
              rw (short, sends)
                (send_with_token-IsOutcome path body (checked_token request.access_token)
                  (record {
                    method_allowed = allowed;
                    from_this_site = safe;
                    built = built;
                    query = ground arith;
                  })
                  (request_body-IsSendable uri fetch request body sends) refl)
        ]
      ]

  -- With a configuration, either nothing is sent upstream and the reply is an error of the proxy or
  -- its error is thrown, or exactly one request is sent and its answer is the reply. That request has
  -- an allowed method, the CSRF guard's leave if it is not a GET, the API's origin with `/v1/` and the
  -- plain segments and a bounded query as its URL, at most 64 KiB of JSON as its body, and no token but
  -- the server's. The reply is no redirect and has at most 1 MiB.
  pub proxy_api_request-IsOutcome :
      IsOutcome (proxy_api_request uri fetch request segments (configured config) d)
  unfolding proxy_api_request
  proxy_api_request-IsOutcome = elim (Bool-cases (includes api_proxy_methods request.method)) [
    | inr other ↦ rw other (inl (_, refl, tt))
    | inl allowed ↦ elim (Bool-cases (not (is_get request.method) && not request.allow_mutation)) [
      | inl forbidden ↦ rw (allowed, forbidden) (inl (_, refl, tt))
      | inr safe ↦
          rw (allowed, safe)
            (send_path-IsOutcome (build_upstream_path uri segments) allowed (ground arith) refl)
    ]
  ]

  -- A request with an allowed method and the CSRF guard's leave if it is not a GET, a path that is
  -- built, a bounded query, a body that may be sent and a token that may be attached, if any, is sent,
  -- and its answer is the reply.
  pub proxy_api_request_sent :
      (path : Text) (body : Option (List ℕ)) (token : Option Text)
      → IsRouted path
      → request_body uri fetch request ≡ ok (ok body)
      → checked_token request.access_token ≡ ok token
      → proxy_api_request uri fetch request segments (configured config) d
        ≡ send uri fetch
            (record {
              url = config.api_origin ++ path ++ request.search;
              method = request.method;
              bearer = token;
              body = body;
            })
            d
  unfolding proxy_api_request
  proxy_api_request_sent path body token routed sends attached =
      let allowed = routed.method_allowed in
      let built = routed.built in
      let safe : not (is_get request.method) && not request.allow_mutation ≡ false =
        ground (arith, routed.from_this_site) in
      let short : ltb 2048 (length request.search) ≡ false = ground (arith, routed.query) in
      simp (allowed, safe, built, short, sends, attached)
