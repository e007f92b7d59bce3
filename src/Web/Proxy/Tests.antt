-- ===== src/Web/Proxy/Tests.antt =====
-- apps/web/lib/api-proxy.ts on small requests.
use vsn_voice_ai.Prelude.{ℕ, suc, ◌≡◌, refl, true, false, Option, none, some, [], ◌∷◌}
use vsn_voice_ai.Js.Text.{Text, text, text_eq, trim}
use vsn_voice_ai.Js.Result.{ok}
use vsn_voice_ai.Js.Exec.{Exec, pure}
use vsn_voice_ai.Web.Proxy.{
  ApiProxyConfig, UriEncoding, done, chunk, configured, is_json_content_type, is_path_segment,
  build_upstream_path, load_api_proxy_config,
}
use vsn_voice_ai.Js.Url.{Url}
use vsn_voice_ai.Web.Proxy.Requests.{
  ProxyRequest, UpstreamRequest, UpstreamResponse, proxy_api_request,
}
use vsn_voice_ai.Web.Proxy.Forwarded.{IsOutcome, proxy_api_request-IsOutcome}

json_type : is_json_content_type (some (text " Application/JSON ; charset=UTF-8")) ≡ true
unfolding is_json_content_type trim
json_type = refl

other_type : is_json_content_type (some (text "application/jsonp")) ≡ false
unfolding is_json_content_type trim
other_type = refl

abbrev plain_uri : UriEncoding
plain_uri = record { encode = λ s. s; encode-unreserved = λ s h. refl }

abbrev local_url : Text → Option Url
local_url raw = some (record {
  protocol = text "http:";
  hostname = text "localhost";
  username = [];
  password = [];
  pathname = text "/";
  search = [];
  hash = [];
  origin = raw;
})

abbrev local_config : ApiProxyConfig
local_config = record { api_origin = text "http://localhost"; timeout_ms = 250 }

configured_timeout :
    load_api_proxy_config local_url (some (text "http://localhost")) (some (text "250"))
    ≡ configured local_config
unfolding load_api_proxy_config text_eq
configured_timeout = refl

dots_refused : build_upstream_path plain_uri (text "a" ∷ text ".." ∷ []) ≡ none
unfolding build_upstream_path is_path_segment
dots_refused = refl

-- An upstream that counts its requests.
abbrev counted : UpstreamRequest → Exec ℕ (Unit {0}) UpstreamResponse
counted u d = pure (record { status = 200; content_type = none; body = none }) (suc d)

abbrev post : ProxyRequest
post = record {
  method = text "POST";
  search = [];
  content_type = some (text "application/json");
  body = some (chunk (b'{' ∷ b'}' ∷ []) done);
  allow_mutation = true;
  access_token = ok (some (text "a.b"));
}

proxy_api_request-IsOutcome_example :
    IsOutcome plain_uri counted local_config post
      (text "session" ∷ [])
      0
      (proxy_api_request plain_uri counted post (text "session" ∷ []) (configured local_config) 0)
proxy_api_request-IsOutcome_example =
    proxy_api_request-IsOutcome plain_uri counted local_config post (text "session" ∷ []) 0
