-- ===== src/Web/Session/Requests.antt =====
-- apps/web/lib/web-session.ts: sessionAccessToken, isSameOriginMutation and logout.
use vsn_voice_ai.Prelude.{
  ℕ, Bool, true, false, ◌&&◌, ◌||◌, not, Option, none, some, [], ◌∷◌, ◌++◌, leb, ltb, if◌then◌else◌,
}
use vsn_voice_ai.Js.Text.{Text, text, text_eq}
use vsn_voice_ai.Js.Number.{Number, int, between, infinity, nan, pos, negsuc}
use vsn_voice_ai.Js.Value
use vsn_voice_ai.Js.Value.{Value, num, as_text}
use vsn_voice_ai.Web.Session.{WebSessionConfig, session_cookie}
use vsn_voice_ai.Web.Session.Cookies.{read_cookie, clear_cookie}
use vsn_voice_ai.Web.Session.Sealing.{unseal_value}
use vsn_voice_ai.Web.Session.Messages.{
  WebRequest, WebResponse, redirect_response, is_bearer_text, is_version, fields_of,
}
use vsn_voice_ai.Web.Session.Login.{LoginTools}

-- `at <= now`
abbrev pub is_past : Number → ℕ → Bool
is_past (int (pos c)) now = leb c now
is_past (int (negsuc c)) now = true
is_past (between (pos c)) now = ltb c now
is_past (between (negsuc c)) now = true
is_past (infinity positive) now = not positive
is_past nan now = false

-- The tests of the unsealed fields `v`, `accessToken` and `expiresAt`.
abbrev pub live_token : ℕ → Value → Option Text → Value → Option Text
live_token now v (some token) (num expires_at) =
    if is_version v && is_bearer_text token && not (is_past expires_at now)
    then some token
    else none
live_token now _ _ _ = none

unfoldable pub token_of : ℕ → Value → Option Text
unfolding is_bearer_text
token_of now session =
    let fs = fields_of session in
    live_token now (Value.get fs (text "v")) (as_text (Value.get fs (text "accessToken")))
      (Value.get fs (text "expiresAt"))

module _ (t : LoginTools) (config : WebSessionConfig) where
  abbrev pub token_of_cookie : ℕ → Option Text → Option Text
  token_of_cookie now none = none
  token_of_cookie now (some sealed) =
      token_of now (unseal_value t.sealing config.session_key sealed)

  unfoldable pub session_access_token : WebRequest → ℕ → Option Text
  unfolding token_of
  session_access_token request now = token_of_cookie now (read_cookie request.cookie session_cookie)

abbrev pub is_this_origin : Option Text → Text → Bool
is_this_origin none origin = false
is_this_origin (some o) origin = text_eq origin o

abbrev pub same_origin : Text → Option Text → Option Text → Bool
same_origin url_origin public_origin none = false
same_origin url_origin public_origin (some origin) =
    text_eq origin url_origin || is_this_origin public_origin origin

abbrev pub same_site : WebRequest → Option Text → Option Text → Bool
same_site request public_origin none = same_origin request.url_origin public_origin request.origin
same_site request public_origin (some site) = text_eq site (text "same-origin")

unfoldable pub is_same_origin_mutation : WebRequest → Option Text → Bool
is_same_origin_mutation request public_origin = same_site request public_origin request.fetch_site

unfoldable pub logout : WebRequest → WebSessionConfig → WebResponse
unfolding is_same_origin_mutation
logout request config =
    if not (is_same_origin_mutation request (some config.public_origin))
    then record { status = 403; location = none; cookies = [] }
    else redirect_response (config.public_origin ++ text "/") (clear_cookie session_cookie ∷ []) 303
