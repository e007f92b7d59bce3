-- ===== src/Web/Session/Login.antt =====
-- apps/web/lib/web-session.ts: beginLogin and completeLogin. `fetch`, the setting of query parameters
-- of a URL, SHA-256, UTF-8 and base64 are parameters.
pub mod Callback
pub mod Granted
use vsn_voice_ai.Prelude.{
  ℕ, suc, ◌+◌, ◌*◌, Bool, true, false, ◌&&◌, ◌||◌, not, Option, none, some, List, [], ◌∷◌, ◌++◌,
  map, leb, ltb, ◌==◌, length, all, if◌then◌else◌,
}
use Prim.Native.Nat.{min}
use vsn_voice_ai.Js.Text.{Text, text, text_eq}
use vsn_voice_ai.Js.Url.{is_empty}
use vsn_voice_ai.Js.Number.{Number, int, between, infinity, nan, pos, negsuc}
use vsn_voice_ai.Js.Value
use vsn_voice_ai.Js.Value.{Value, Fields, undefined, num, str, obj, field, end, as_text}
use vsn_voice_ai.Js.Result.{Result, ok, err}
use vsn_voice_ai.Js.Exec.{Exec}
use vsn_voice_ai.Web.Proxy.{Stream, UriEncoding, is_alphanumeric, lower, read_chunks}
use vsn_voice_ai.Web.Session.{
  WebSessionConfig, session_cookie, login_transaction_cookie, login_transaction_ttl_seconds,
  max_session_ttl_seconds, max_cookie_value_length,
}
use vsn_voice_ai.Web.Session.Cookies.{read_cookie, serialize_cookie, clear_cookie}
use vsn_voice_ai.Web.Session.Sealing.{Sealing, seal_value, unseal_value}
use vsn_voice_ai.Web.Session.Messages.{
  WebRequest, WebResponse, LoginTransaction, TokenRequest, TokenResponse, redirect_response,
  is_bearer_text, version, is_version, transaction_fields, session_fields, fields_of,
  login_transaction, is_older, is_ahead, positive_floor, read_bounded_text, is_bearer_type,
  grant_of, granted, login_failed,
}

-- The parameters of both: sealing, encodeURIComponent, the setting of query parameters, the UTF-8
-- bytes of a text, base64 and SHA-256.
pub record LoginTools : Type 0 where
  pub sealing : Sealing
  pub uri : UriEncoding
  pub set_params : Text → List (Text × Text) → Text
  pub utf8 : Text → List ℕ
  pub base64 : List ℕ → Text
  pub sha256 : Text → List ℕ

module _ (t : LoginTools) (config : WebSessionConfig) where
  -- `pkceChallenge`
  abbrev pub pkce_challenge : Text → Text
  pkce_challenge verifier = t.sealing.encode (t.sha256 verifier)

  -- The first three arguments are the random bytes of the state, the verifier and the seal.
  unfoldable pub begin_login : List ℕ → List ℕ → List ℕ → ℕ → WebResponse
  begin_login state_bytes verifier_bytes iv now =
      let state = t.sealing.encode state_bytes in
      let verifier = t.sealing.encode verifier_bytes in
      redirect_response
        (t.set_params config.authorization_endpoint (
          (text "response_type", text "code")
          ∷ (text "client_id", config.client_id)
          ∷ (text "redirect_uri", config.redirect_uri)
          ∷ (text "scope", config.scope)
          ∷ (text "state", state)
          ∷ (text "code_challenge", pkce_challenge verifier)
          ∷ (text "code_challenge_method", text "S256")
          ∷ []))
        (serialize_cookie login_transaction_cookie
            (seal_value t.sealing config.session_key iv
              (obj (transaction_fields state verifier now)))
            login_transaction_ttl_seconds
          ∷ [])
        302

  abbrev pub safe_equal : Text → Text → Bool
  safe_equal left right = text_eq (t.utf8 left) (t.utf8 right)

  abbrev pub unsealed : Option Text → Value
  unsealed none = undefined
  unsealed (some sealed) = unseal_value t.sealing config.session_key sealed

  -- The tests of the callback: the code and the transaction, if they pass.
  abbrev pub checked_callback :
      ℕ → Option Text → Option Text → Option LoginTransaction → Option (Text × LoginTransaction)
  checked_callback now (some code) (some state) (some transaction) =
      if is_empty code
        || ltb 2048 (length code)
        || is_older now transaction.created_at (login_transaction_ttl_seconds * 1000)
        || is_ahead now transaction.created_at
        || not (safe_equal state transaction.state)
      then none
      else some (code, transaction)
  checked_callback _ _ _ _ = none

  unfoldable pub callback : WebRequest → ℕ → Option (Text × LoginTransaction)
  unfolding login_transaction
  callback request now =
      checked_callback now request.code request.state
        (login_transaction (unsealed (read_cookie request.cookie login_transaction_cookie)))

  abbrev pub code_form : Text → Text → List (Text × Text)
  code_form code verifier =
      (text "grant_type", text "authorization_code")
      ∷ (text "code", code)
      ∷ (text "redirect_uri", config.redirect_uri)
      ∷ (text "code_verifier", verifier)
      ∷ []

  abbrev pub authenticated_request : Option Text → List (Text × Text) → TokenRequest
  authenticated_request none form = record {
    url = config.token_endpoint;
    authorization = none;
    form = form ++ ((text "client_id", config.client_id) ∷ []);
  }
  authenticated_request (some secret) form = record {
    url = config.token_endpoint;
    authorization = some (
        text "Basic "
        ++ t.base64 (t.utf8 (t.uri.encode config.client_id ++ text ":" ++ t.uri.encode secret)));
    form = form;
  }

  unfoldable pub token_request : Text → Text → TokenRequest
  token_request code verifier = authenticated_request config.client_secret (code_form code verifier)

  abbrev pub parsed_text : Result (Unit {0}) (Option (List ℕ)) → Option Value
  parsed_text (err e) = none
  parsed_text (ok none) = some undefined
  parsed_text (ok (some bytes)) = t.sealing.parse bytes

  -- The payload, `none` where the `try` ends in a failed login.
  abbrev pub payload_of : Result (Unit {0}) TokenResponse → Option Value
  payload_of (err e) = none
  payload_of (ok response) =
      if response.status == 200 then parsed_text (read_bounded_text response.body) else none

  abbrev pub logged_in : Text → ℕ → WebResponse
  logged_in sealed ttl =
      redirect_response (config.public_origin ++ text "/")
        (clear_cookie login_transaction_cookie ∷ serialize_cookie session_cookie sealed ttl ∷ [])
        302

  -- The end, with the random bytes of the seal.
  abbrev pub start_session : List ℕ → ℕ → Option (Text × ℕ) → WebResponse
  start_session iv now none = login_failed config
  start_session iv now (some (access_token, ttl)) =
      let sealed =
        seal_value t.sealing config.session_key iv
          (obj (session_fields access_token (now + ttl * 1000))) in
      if ltb max_cookie_value_length (length sealed)
      then login_failed config
      else logged_in sealed ttl

  abbrev pub with_payload : List ℕ → ℕ → Option Value → WebResponse
  with_payload iv now none = login_failed config
  with_payload iv now (some payload) = start_session iv now (granted payload)

  module _ {D : Type 0} (fetch : TokenRequest → Exec D (Unit {0}) TokenResponse) where
    abbrev pub exchange : List ℕ → ℕ → Option (Text × LoginTransaction) → D → WebResponse × D
    exchange iv now none d = (login_failed config, d)
    exchange iv now (some (code, transaction)) d =
        let (response, d') = fetch (token_request code transaction.verifier) d in
        (with_payload iv now (payload_of response), d')

    unfoldable pub complete_login : WebRequest → List ℕ → ℕ → D → WebResponse × D
    unfolding callback token_request read_bounded_text granted
    complete_login request iv now d = exchange iv now (callback request now) d
