-- ===== src/Web/Proxy/Sendable.antt =====
-- apps/web/lib/api-proxy.ts: the bodies and tokens that the proxy sends, and those that it refuses.
use vsn_voice_ai.Prelude.{
  ℕ, ◌≤◌, ◌≡◌, inl, inr, true, false, Option, none, some, List, [], ◌∷◌, length, arith, Bool-cases,
}
use vsn_voice_ai.Js.Text.{Text, text}
use vsn_voice_ai.Js.Result.{Result, ok, err, Result-cases}
use vsn_voice_ai.Js.Exec.{Exec}
use vsn_voice_ai.Web.Proxy.{
  UriEncoding, max_proxy_request_body_bytes, is_bearer_token, read_bounded_body,
  is_json_content_type,
}
use vsn_voice_ai.Web.Proxy.Bodies.{body_bytes, read_bounded_body_iff}
use vsn_voice_ai.Web.Proxy.Requests.{
  ProxyRequest, UpstreamRequest, UpstreamResponse, Reply, json_error, forwarded, api_unavailable,
  is_get, sent_body, checked_token, request_body,
}

-- A body to send: at most 64 KiB, and only as JSON.
abbrev pub IsSendable : ProxyRequest → Option (List ℕ) → Type 0
IsSendable request none = Unit
IsSendable request (some bytes) =
    (is_get request.method ≡ false)
    × (is_json_content_type request.content_type ≡ true)
    × (body_bytes request.body ≡ some bytes)
    × (length bytes ≤ max_proxy_request_body_bytes)

-- A token to attach: the server's, in the form of a bearer token.
abbrev pub IsServerToken : ProxyRequest → Option Text → Type 0
IsServerToken request none = request.access_token ≡ ok none
IsServerToken request (some t) = (request.access_token ≡ ok (some t)) × (is_bearer_token t ≡ true)

-- A reply that the proxy gives by itself, or an error that it throws.
abbrev pub IsRefusal : Result (Unit {0}) Reply → Type 0
IsRefusal (ok (json_error status code)) = Unit
IsRefusal (ok (forwarded status content_type bytes)) = ⊥
IsRefusal (err e) = Unit

pub checked_token-IsServerToken :
    (request : ProxyRequest) (token : Option Text)
    → checked_token request.access_token ≡ ok token
    → IsServerToken request token
checked_token-IsServerToken request token h = elim (Result-cases request.access_token) [
  | inr (e, failed) ↦ ground arith
  | inl (none, none_given) ↦ let e : none ≡ token = ground arith in rw (← e) none_given
  | inl (some t, given) ↦ let e : some t ≡ token = ground arith in rw (← e) (given, ground arith)
]

pub checked_token-IsRefusal :
    (r : Result (Unit {0}) (Option Text)) (reply : Reply)
    → checked_token r ≡ err reply
    → IsRefusal (ok reply)
checked_token-IsRefusal (err e) reply h =
    let s : api_unavailable ≡ reply = ground arith in rw (← s) tt
checked_token-IsRefusal (ok none) reply h = ground arith
checked_token-IsRefusal (ok (some t)) reply h =
    let s : api_unavailable ≡ reply = ground arith in rw (← s) tt

sent_body-IsSendable :
    (request : ProxyRequest) (bytes : Option (List ℕ)) (body : Option (List ℕ))
    → is_get request.method ≡ false
    → read_bounded_body request.body max_proxy_request_body_bytes ≡ ok bytes
    → sent_body request.content_type bytes ≡ ok body
    → IsSendable request body
sent_body-IsSendable request none body mutates read h = ground arith
sent_body-IsSendable request (some []) body mutates read h =
    let e : none ≡ body = ground arith in rw (← e) tt
sent_body-IsSendable request (some (b ∷ bs)) body mutates read h =
    let e : some (b ∷ bs) ≡ body = ground arith in
    let whole = (read_bounded_body_iff request.body max_proxy_request_body_bytes (b ∷ bs)).0 read in
    rw (← e) (mutates, ground arith, whole.0, whole.1)

pub request_body-IsSendable :
    {D : Type 0} (uri : UriEncoding) (fetch : UpstreamRequest → Exec D (Unit {0}) UpstreamResponse)
    (request : ProxyRequest) (body : Option (List ℕ))
    → request_body uri fetch request ≡ ok (ok body)
    → IsSendable request body
unfolding request_body
request_body-IsSendable uri fetch request body h = elim (Bool-cases (is_get request.method)) [
  | inl get ↦ let e : none ≡ body = ground arith in rw (← e) tt
  | inr mutates ↦
      elim (Result-cases (read_bounded_body request.body max_proxy_request_body_bytes)) [
        | inr (e, failed) ↦ ground arith
        | inl (bytes, read) ↦ sent_body-IsSendable request bytes body mutates read (ground arith)
      ]
]

sent_body-IsRefusal :
    (content_type : Option Text) (bytes : Option (List ℕ)) (reply : Reply)
    → sent_body content_type bytes ≡ err reply
    → IsRefusal (ok reply)
sent_body-IsRefusal content_type none reply h =
    let s : json_error 413 (text "payload_too_large") ≡ reply = ground arith in rw (← s) tt
sent_body-IsRefusal content_type (some []) reply h = ground arith
sent_body-IsRefusal content_type (some (b ∷ bs)) reply h =
    let s : json_error 415 (text "unsupported_media_type") ≡ reply = ground arith in rw (← s) tt

pub request_body-IsRefusal :
    {D : Type 0} (uri : UriEncoding) (fetch : UpstreamRequest → Exec D (Unit {0}) UpstreamResponse)
    (request : ProxyRequest) (reply : Reply)
    → request_body uri fetch request ≡ ok (err reply)
    → IsRefusal (ok reply)
unfolding request_body
request_body-IsRefusal uri fetch request reply h = elim (Bool-cases (is_get request.method)) [
  | inl get ↦ ground arith
  | inr mutates ↦
      elim (Result-cases (read_bounded_body request.body max_proxy_request_body_bytes)) [
        | inr (e, failed) ↦ ground arith
        | inl (bytes, read) ↦ sent_body-IsRefusal request.content_type bytes reply (ground arith)
      ]
]
