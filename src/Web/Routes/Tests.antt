-- ===== src/Web/Routes/Tests.antt =====
-- apps/web/app: a request of another site, and one of this site with a session.
use vsn_voice_ai.Prelude.{ℕ, ◌+◌, ◌≡◌, refl, none, some, [], ◌∷◌}
use vsn_voice_ai.Js.Text.{text, text_eq, includes}
use vsn_voice_ai.Js.Result.{ok}
use vsn_voice_ai.Js.Exec.{Exec}
use vsn_voice_ai.Web.Proxy
use vsn_voice_ai.Web.Proxy.{ApiProxyConfig}
use vsn_voice_ai.Web.Proxy.Requests.{
  UpstreamRequest, UpstreamResponse, json_error, proxy_api_request,
}
use vsn_voice_ai.Web.Session.{configured}
use vsn_voice_ai.Web.Session.Requests.{is_same_origin_mutation}
use vsn_voice_ai.Web.Session.Tests.{tools, config}
use vsn_voice_ai.Web.Routes.{IncomingRequest, handle_api, IsApiOutcome, handle_api-IsApiOutcome}

abbrev local_config : ApiProxyConfig
local_config = record { api_origin = text "http://localhost"; timeout_ms = 250 }

abbrev foreign : IncomingRequest
foreign = record {
  method = text "POST";
  search = [];
  content_type = none;
  body = none;
  web = record {
    code = none;
    state = none;
    url_origin = text "https://app";
    cookie = none;
    fetch_site = some (text "cross-site");
    origin = some (text "https://app");
  };
}

abbrev answering : UpstreamRequest → Exec ℕ (Unit {0}) UpstreamResponse
answering u sent = (ok (record { status = 200; content_type = none; body = none }), sent + 1)

foreign_refused :
    handle_api tools answering
      (configured config)
      (Proxy.configured local_config)
      foreign
      (text "a" ∷ [])
      0
      0
    ≡ (ok (json_error 403 (text "forbidden")), 0)
unfolding handle_api proxy_api_request is_same_origin_mutation text_eq includes
foreign_refused = refl

handle_api-IsApiOutcome_example :
    IsApiOutcome tools answering config local_config foreign (text "a" ∷ []) 0 0 (
      handle_api tools answering
        (configured config)
        (Proxy.configured local_config)
        foreign
        (text "a" ∷ [])
        0
        0)
handle_api-IsApiOutcome_example =
    handle_api-IsApiOutcome tools answering config local_config foreign (text "a" ∷ []) 0 0
