-- ===== src/Web/Proxy/Requests.antt =====
-- apps/web/lib/api-proxy.ts: proxyApiRequest.
use vsn_voice_ai.Prelude.{
  ℕ, Bool, ◌&&◌, ◌||◌, not, Option, none, some, List, [], ◌∷◌, ◌++◌, leb, ltb, ◌==◌, length,
  if◌then◌else◌,
}
use vsn_voice_ai.Js.Text.{Text, text, text_eq, includes}
use vsn_voice_ai.Js.Result.{Result, ok, err}
use vsn_voice_ai.Js.Exec.{Exec, pure, lift, ◌>>=◌}
use vsn_voice_ai.Web.Proxy.{
  ApiProxyConfig, ApiProxyConfigResult, configured, UriEncoding, Stream,
  max_proxy_request_body_bytes, max_proxy_response_body_bytes, is_bearer_token, build_upstream_path,
  read_bounded_body, is_json_content_type,
}

-- What the code reads of a request: the method in upper case, the query of its URL with `?`, the
-- content type and the body, and what the dependencies return for it.
pub record ProxyRequest : Type 0 where
  pub method : Text
  pub search : Text
  pub content_type : Option Text
  pub body : Option Stream
  pub allow_mutation : Bool
  pub access_token : Result (Unit {0}) (Option Text)

-- The arguments of `fetch`; the bytes of a body are sent as JSON.
pub record UpstreamRequest : Type 0 where
  pub url : Text
  pub method : Text
  pub bearer : Option Text
  pub body : Option (List ℕ)

pub record UpstreamResponse : Type 0 where
  pub status : ℕ
  pub content_type : Option Text
  pub body : Option Stream

-- A response of `jsonError`, or one with the upstream's status, content type and bytes, if any.
pub data Reply : Type 0 where
  json_error : ℕ → Text → Reply
  forwarded : ℕ → Option Text → Option (List ℕ) → Reply

abbrev pub api_unavailable : Reply
api_unavailable = json_error 503 (text "api_unavailable")

abbrev pub bad_gateway : Reply
bad_gateway = json_error 502 (text "bad_gateway")

abbrev pub api_proxy_methods : List Text
api_proxy_methods = text "GET" ∷ text "POST" ∷ text "PUT" ∷ []

abbrev pub is_get : Text → Bool
is_get method = text_eq method (text "GET")

abbrev pub has_null_body : ℕ → Bool
has_null_body status = status == 204 || status == 205 || status == 304

-- The end of the `try`: `new Response` throws for a status outside 200 to 599.
abbrev pub reply_with : UpstreamResponse → Option (List ℕ) → Reply
reply_with upstream none = bad_gateway
reply_with upstream (some bytes) =
    if ltb upstream.status 200 || ltb 599 upstream.status
    then api_unavailable
    else forwarded upstream.status upstream.content_type
        (if has_null_body upstream.status then none else some bytes)

abbrev pub read_reply : UpstreamResponse → Result (Unit {0}) (Option (List ℕ)) → Reply
read_reply upstream (err e) = api_unavailable
read_reply upstream (ok bytes) = reply_with upstream bytes

-- The `try` after `fetch`, with its `catch`.
unfoldable pub answer : Result (Unit {0}) UpstreamResponse → Reply
answer (err e) = api_unavailable
answer (ok upstream) =
    if leb 300 upstream.status && ltb upstream.status 400
    then bad_gateway
    else read_reply upstream (read_bounded_body upstream.body max_proxy_response_body_bytes)

-- The body to send for the bytes read, or the response that refuses it.
abbrev pub sent_body : Option Text → Option (List ℕ) → Result Reply (Option (List ℕ))
sent_body content_type none = err (json_error 413 (text "payload_too_large"))
sent_body content_type (some []) = ok none
sent_body content_type (some (b ∷ bytes)) =
    if is_json_content_type content_type
    then ok (some (b ∷ bytes))
    else err (json_error 415 (text "unsupported_media_type"))

-- The access token to attach, or the response that refuses it.
abbrev pub checked_token : Result (Unit {0}) (Option Text) → Result Reply (Option Text)
checked_token (err e) = err api_unavailable
checked_token (ok none) = ok none
checked_token (ok (some t)) = if is_bearer_token t then ok (some t) else err api_unavailable

module _ {D : Type 0} (uri : UriEncoding)
    (fetch : UpstreamRequest → Exec D (Unit {0}) UpstreamResponse) where
  -- `fetch` and what follows.
  abbrev pub send : UpstreamRequest → Exec D (Unit {0}) Reply
  send u d = let (r, d') = fetch u d in (ok (answer r), d')

  -- Past the reading of the body.
  abbrev pub send_with_token :
      ApiProxyConfig
      → ProxyRequest
      → Text
      → Option (List ℕ)
      → Result Reply (Option Text)
      → Exec D (Unit {0}) Reply
  send_with_token config request path body (err reply) = pure reply
  send_with_token config request path body (ok token) = send (record {
    url = config.api_origin ++ path ++ request.search;
    method = request.method;
    bearer = token;
    body = body;
  })

  abbrev pub send_body :
      ApiProxyConfig
      → ProxyRequest
      → Text
      → Result Reply (Option (List ℕ))
      → Exec D (Unit {0}) Reply
  send_body config request path (err reply) = pure reply
  send_body config request path (ok body) =
      send_with_token config request path body (checked_token request.access_token)

  -- The reading of the body; an error of the reader is thrown.
  unfoldable pub request_body : ProxyRequest → Result (Unit {0}) (Result Reply (Option (List ℕ)))
  request_body request =
      if is_get request.method
      then ok (ok none)
      else (elim (read_bounded_body request.body max_proxy_request_body_bytes) [
        | err e ↦ err e
        | ok bytes ↦ ok (sent_body request.content_type bytes)
      ])

  abbrev pub send_path : ApiProxyConfig → ProxyRequest → Option Text → Exec D (Unit {0}) Reply
  send_path config request none = pure (json_error 404 (text "not_found"))
  send_path config request (some path) =
      if ltb 2048 (length request.search)
      then pure (json_error 414 (text "uri_too_long"))
      else (lift (request_body request) >>= λ body. send_body config request path body)

  unfoldable pub proxy_api_request :
      ProxyRequest → List Text → ApiProxyConfigResult → Exec D (Unit {0}) Reply
  unfolding request_body answer
  proxy_api_request request segments (configured config) =
      if not (includes api_proxy_methods request.method)
      then pure (json_error 405 (text "method_not_allowed"))
      else if not (is_get request.method) && not request.allow_mutation
      then pure (json_error 403 (text "forbidden"))
      else send_path config request (build_upstream_path uri segments)
  proxy_api_request request segments _ = pure api_unavailable
