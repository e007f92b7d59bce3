-- ===== src/Web/Session/Login/Granted.antt =====
-- apps/web/lib/web-session.ts: the sessions that completeLogin starts, and how long they last.
use vsn_voice_ai.Prelude.{
  ℕ, ◌+◌, ◌*◌, ◌≤◌, ◌≡◌, refl, ap, ◌∙◌, ◌⊎◌, inl, inr, Bool, true, Option, none, some, List, leb,
  ltb, length, All, arith, Bool-cases, if◌then◌else◌,
}
use vsn_voice_ai.Js.Text.{Text, text, text_eq}
use vsn_voice_ai.Js.Map
use vsn_voice_ai.Js.Number.{max_safe_integer}
use vsn_voice_ai.Js.Value
use vsn_voice_ai.Js.Value.{Value, obj, as_text}
use vsn_voice_ai.Js.Exec.{Exec}
use vsn_voice_ai.Web.Session.{
  WebSessionConfig, session_cookie, max_session_ttl_seconds, max_cookie_value_length,
}
use vsn_voice_ai.Web.Session.Cookies.{read_cookie}
use vsn_voice_ai.Web.Session.Cookies.Headers.{IsCookie, cookie_header, read_cookie-cookie_header}
use vsn_voice_ai.Web.Session.Sealing.{seal_value, unseal_value-seal_value}
use vsn_voice_ai.Web.Session.Messages.{
  WebRequest, WebResponse, LoginTransaction, TokenRequest, TokenResponse, is_bearer_text,
  session_fields, fields_of, is_bearer_type, positive_floor, grant_of, granted, login_failed,
}
use vsn_voice_ai.Web.Session.Login.{
  LoginTools, callback, token_request, payload_of, logged_in, start_session, with_payload, exchange,
  complete_login,
}
use vsn_voice_ai.Web.Session.Requests.{token_of, session_access_token}

grant_of-inv :
    (token : Option Text) (bearer : Bool) (seconds : Option ℕ) (a : Text) (ttl : ℕ)
    → grant_of token bearer seconds ≡ some (a, ttl)
    → (is_bearer_text a ≡ true) × (ttl ≤ max_session_ttl_seconds)
grant_of-inv (some token) bearer (some seconds) a ttl h = ground arith
grant_of-inv (some token) bearer none a ttl h = ground arith
grant_of-inv none bearer seconds a ttl h = ground arith

granted-inv :
    (payload : Value) (a : Text) (ttl : ℕ)
    → granted payload ≡ some (a, ttl)
    → (is_bearer_text a ≡ true) × (ttl ≤ max_session_ttl_seconds)
unfolding granted
granted-inv payload a ttl h =
    let fs = fields_of payload in
    grant_of-inv (as_text (Value.get fs (text "access_token")))
      (is_bearer_type (as_text (Value.get fs (text "token_type"))))
      (positive_floor (Value.get fs (text "expires_in"))) a ttl h

token_of-session_fields :
    (a : Text) (expires later : ℕ)
    → is_bearer_text a ≡ true
    → token_of later (obj (session_fields a expires)) ≡ (if leb expires later then none else some a)
unfolding token_of Value.get text_eq
token_of-session_fields a expires later h = ground arith

module _ (t : LoginTools) (config : WebSessionConfig) where
  -- A sealed session: any later request that carries it has the token until `expires`, and not from
  -- then on.
  abbrev pub IsSession : Text → Text → ℕ → Type 0
  IsSession sealed token expires =
      (cookies : List (Text × Text)) (request : WebRequest) (later : ℕ)
      → All IsCookie cookies
      → request.cookie ≡ some (cookie_header cookies)
      → Map.get cookies session_cookie ≡ some sealed
      → session_access_token t config request later
        ≡ (if leb expires later then none else some token)

  seal_value-IsSession :
      (iv : List ℕ) (token : Text) (expires : ℕ)
      → length iv ≡ 12
      → expires ≤ max_safe_integer
      → is_bearer_text token ≡ true
      → length (seal_value t.sealing config.session_key iv (obj (session_fields token expires)))
        ≤ max_cookie_value_length
      → IsSession
          (seal_value t.sealing config.session_key iv (obj (session_fields token expires)))
          token
          expires
  unfolding session_access_token
  seal_value-IsSession iv token expires hi safe bearer short cookies request later are sent found =
      let read : read_cookie request.cookie session_cookie ≡ _ =
        ap (λ h. read_cookie h session_cookie) sent
        ∙ read_cookie-cookie_header session_cookie cookies are
        ∙ found in
      rw
        (
          read,
          unseal_value-seal_value t.sealing config.session_key iv (session_fields token expires) hi
              (ground arith) short,
        )
        (token_of-session_fields token expires later bearer)

  -- What a login ends with: a failure, or a session.
  abbrev pub IsLogin : ℕ → WebResponse → Type 0
  IsLogin now r =
      (r ≡ login_failed config)
      ⊎ ((sealed token : Text) × (ttl : ℕ) × (r ≡ logged_in t config sealed ttl)
          × (ttl ≤ max_session_ttl_seconds)
          × (length sealed ≤ max_cookie_value_length)
          × IsSession sealed token (now + ttl * 1000))

  module _ (iv : List ℕ) (now : ℕ) (hi : length iv ≡ 12)
      (safe : now + max_session_ttl_seconds * 1000 ≤ max_safe_integer) where
    start_session-IsLogin :
        (g : Option (Text × ℕ))
        → ((a : Text) (ttl : ℕ)
            → g ≡ some (a, ttl)
            → (is_bearer_text a ≡ true) × (ttl ≤ max_session_ttl_seconds))
        → IsLogin now (start_session t config iv now g)
    start_session-IsLogin none h = inl refl
    start_session-IsLogin (some (a, ttl)) h =
        let (bearer, short) = h a ttl refl in
        let sealed =
          seal_value t.sealing config.session_key iv (obj (session_fields a (now + ttl * 1000))) in
        elim (Bool-cases (ltb max_cookie_value_length (length sealed))) [
          | inl long ↦ rw long (inl refl)
          | inr fits ↦ rw fits (
              inr (
                sealed,
                a,
                ttl,
                refl,
                short,
                ground arith,
                seal_value-IsSession iv a (now + ttl * 1000) hi (omega (arith, safe, short)) bearer
                    (ground arith),
              ))
        ]

    with_payload-IsLogin :
        (payload : Option Value) → IsLogin now (with_payload t config iv now payload)
    with_payload-IsLogin none = inl refl
    with_payload-IsLogin (some payload) =
        start_session-IsLogin (granted payload) (granted-inv payload)

    module _ {D : Type 0} (fetch : TokenRequest → Exec D (Unit {0}) TokenResponse)
        (request : WebRequest) (d : D) where
      -- Nothing was sent and the login failed, or the callback was accepted and its code was exchanged.
      abbrev pub IsLoginOutcome : WebResponse × D → Type 0
      IsLoginOutcome x =
          (x ≡ (login_failed config, d))
          ⊎ ((code : Text) × (transaction : LoginTransaction) × (callback t config request now
                ≡ some (code, transaction))
              × (x.1 ≡ (fetch (token_request t config code transaction.verifier) d).1)
              × IsLogin now x.0)

      exchange-IsLoginOutcome :
          (c : Option (Text × LoginTransaction))
          → callback t config request now ≡ c
          → IsLoginOutcome (exchange t config fetch iv now c d)
      exchange-IsLoginOutcome none h = inl refl
      exchange-IsLoginOutcome (some (code, transaction)) h = inr (
        code,
        transaction,
        h,
        refl,
        with_payload-IsLogin
            (payload_of t config (fetch (token_request t config code transaction.verifier) d).0),
      )

      -- A login fails without a request, or its callback was accepted, one token request with the code
      -- and the transaction's verifier was sent, and it fails or starts a session. A session lasts at
      -- most 8 hours, its cookie is bounded, and requests that carry the cookie have the access token
      -- until the session's end and none from then on. The initialization vector has 12 bytes, and
      -- times are safe integers.
      pub complete_login-IsLoginOutcome :
          IsLoginOutcome (complete_login t config fetch request iv now d)
      unfolding complete_login
      complete_login-IsLoginOutcome = exchange-IsLoginOutcome (callback t config request now) refl
