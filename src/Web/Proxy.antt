-- ===== src/Web/Proxy.antt =====
-- apps/web/lib/api-proxy.ts. Parameters are the URL parser, encodeURIComponent, `fetch`, and what the
-- dependencies return for the request: the CSRF guard's answer and the access token.
pub mod Paths
pub mod Bodies
pub mod Requests
pub mod Replies
pub mod Sendable
pub mod Forwarded
pub mod Tests
use vsn_voice_ai.Prelude.{
  ℕ, ◌+◌, ◌*◌, ◌-◌, ◌≡◌, Bool, true, false, ◌&&◌, ◌||◌, not, Option, none, some, List, [], ◌∷◌,
  ◌++◌, leb, ltb, ◌==◌, length, all, is_some, if◌then◌else◌,
}
use vsn_voice_ai.Js.Text.{Text, text, text_eq, trim, includes, skip_white_space}
use vsn_voice_ai.Js.Url.{Url, is_loopback_host, is_empty}
use vsn_voice_ai.Js.Number.{decimal, is_decimal, int, pos, is_safe_integer}
use vsn_voice_ai.Js.Result
use vsn_voice_ai.Js.Result.{Result, ok, err}
use vsn_voice_ai.Js.Exec.{Exec}
use mathlib.Core.Option.{get_or}

pub record ApiProxyConfig : Type 0 where
  pub api_origin : Text
  pub timeout_ms : ℕ

pub data ApiProxyConfigResult : Type 0 where
  configured : ApiProxyConfig → ApiProxyConfigResult
  not_configured invalid : ApiProxyConfigResult

abbrev pub max_proxy_request_body_bytes : ℕ
max_proxy_request_body_bytes = 65_536

abbrev pub max_proxy_response_body_bytes : ℕ
max_proxy_response_body_bytes = 1_048_576

abbrev pub is_alphanumeric : ℕ → Bool
is_alphanumeric c = leb b'A' c && leb c b'Z' || leb b'a' c && leb c b'z' || leb b'0' c && leb c b'9'

-- `[A-Za-z0-9_~-]`
abbrev pub is_first : ℕ → Bool
is_first c = is_alphanumeric c || c == b'_' || c == b'~' || c == b'-'

-- PATH_SEGMENT_PATTERN
unfoldable pub is_path_segment : Text → Bool
is_path_segment [] = false
is_path_segment (c ∷ s) = is_first c && all (λ d. is_first d || d == b'.') s

-- encodeURIComponent, which leaves letters, digits and the marks `-`, `_`, `.`, `~` as they are.
pub record UriEncoding : Type 0 where
  pub encode : Text → Text
  pub encode-unreserved : (s : Text) → all (λ d. is_first d || d == b'.') s ≡ true → encode s ≡ s

-- BEARER_TOKEN_PATTERN, and the bounds of length
unfoldable pub is_bearer_token : Text → Bool
is_bearer_token t =
    not (length t == 0 || ltb 8192 (length t))
    && all (λ c. is_alphanumeric c || c == b'_' || c == b'.' || c == b'-') t

-- `httpsOrLocal` and the tests after it.
unfoldable pub is_api_origin : Url → Bool
is_api_origin url =
    (text_eq url.protocol (text "https:")
      || text_eq url.protocol (text "http:") && is_loopback_host url.hostname)
    && is_empty url.username
    && is_empty url.password
    && text_eq url.pathname (text "/")
    && is_empty url.search
    && is_empty url.hash

abbrev in_timeout_range : ℕ → Option ℕ
in_timeout_range n =
    if not (is_safe_integer (int (pos n))) || ltb n 1 || ltb 30_000 n then none else some n

-- The timeout, `none` where the configuration is invalid.
unfoldable pub timeout_of : Text → Option ℕ
unfolding decimal
timeout_of raw =
    if is_empty raw
    then some 10_000
    else if is_decimal raw
    then in_timeout_range (decimal 0 raw)
    else none

abbrev pub with_timeout : Text → Option ℕ → ApiProxyConfigResult
with_timeout origin none = invalid
with_timeout origin (some t) = configured (record { api_origin = origin; timeout_ms = t })

abbrev pub config_of : Option Url → Text → ApiProxyConfigResult
config_of none raw_timeout = invalid
config_of (some url) raw_timeout =
    if is_api_origin url then with_timeout url.origin (timeout_of raw_timeout) else invalid

-- `loadApiProxyConfig`, of the two variables of the environment
unfoldable pub load_api_proxy_config :
    (Text → Option Url) → Option Text → Option Text → ApiProxyConfigResult
unfolding is_api_origin timeout_of
load_api_proxy_config parse_url raw_origin raw_timeout =
    if is_empty (get_or raw_origin [])
    then not_configured
    else config_of (parse_url (get_or raw_origin [])) (get_or raw_timeout [])

-- The loop's test of a segment, negated.
abbrev pub is_segment : Text → Bool
is_segment s = not (length s == 0 || ltb 256 (length s) || not (is_path_segment s))

-- `segments.map((segment) => encode(segment)).join('/')`
unfoldable pub joined : (Text → Text) → List Text → Text
joined encode [] = []
joined encode (s ∷ []) = encode s
joined encode (s ∷ t ∷ ss) = encode s ++ (b'/' ∷ joined encode (t ∷ ss))

unfoldable pub build_upstream_path : UriEncoding → List Text → Option Text
unfolding joined
build_upstream_path uri segments =
    if length segments == 0 || ltb 8 (length segments) || not (all is_segment segments)
    then none
    else some (text "/v1/" ++ joined uri.encode segments)

-- A body as its reader gives it: chunks of bytes, then the end or an error.
pub data Stream : Type 0 where
  done broken : Stream
  chunk : List ℕ → Stream → Stream

-- The loop of `readBoundedBody`, with the bytes merged so far; `none` past the limit.
unfoldable pub read_chunks : ℕ → List ℕ → Stream → Result (Unit {0}) (Option (List ℕ))
read_chunks limit read done = ok (some read)
read_chunks limit read broken = err tt
read_chunks limit read (chunk bytes rest) = elim (ltb limit (length read + length bytes)) [
  | true ↦ ok none
  | false ↦ read_chunks limit (read ++ bytes) rest
]

unfoldable pub read_bounded_body : Option Stream → ℕ → Result (Unit {0}) (Option (List ℕ))
unfolding read_chunks
read_bounded_body none limit = ok (some [])
read_bounded_body (some body) limit = read_chunks limit [] body

-- A letter without regard to case.
abbrev pub lower : ℕ → ℕ
lower c = if leb b'A' c && leb c b'Z' then c + 32 else c

-- The text after a prefix, written in lower case, if the text begins with it in any case.
unfoldable pub after_prefix : Text → Text → Option Text
after_prefix [] s = some s
after_prefix (c ∷ p) (d ∷ s) = if c == lower d then after_prefix p s else none
after_prefix (c ∷ p) [] = none

abbrev is_end : Option Text → Bool
is_end none = false
is_end (some s) = is_empty s

-- The optional parameter of the pattern.
abbrev is_charset : Text → Bool
is_charset [] = false
is_charset (c ∷ s) = c == b';' && is_end (after_prefix (text "charset=utf-8") (skip_white_space s))

abbrev is_json_suffix : Option Text → Bool
is_json_suffix none = false
is_json_suffix (some s) = is_empty s || is_charset (skip_white_space s)

unfoldable pub is_json_content_type : Option Text → Bool
unfolding after_prefix skip_white_space
is_json_content_type none = false
is_json_content_type (some value) =
    is_json_suffix (after_prefix (text "application/json") (trim value))
