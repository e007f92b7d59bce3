-- ===== src/Web/Session/Login/Callback.antt =====
-- apps/web/lib/web-session.ts: the callbacks that completeLogin accepts after beginLogin.
use vsn_voice_ai.Prelude.{
  ℕ, ◌+◌, ◌≤◌, ◌≡◌, ◌⊎◌, refl, sym, ap, ◌∙◌, Option, none, some, List, [], ◌∷◌, length, All, arith,
  Option-cases, inl, inr,
}
use vsn_voice_ai.Js.Text.{Text, text_eq, text_eq_iff}
use vsn_voice_ai.Js.Map
use vsn_voice_ai.Js.Number.{int, pos, max_safe_integer}
use vsn_voice_ai.Js.Value
use vsn_voice_ai.Js.Value.{obj}
use vsn_voice_ai.Js.Exec.{Exec}
use vsn_voice_ai.Web.Session.{WebSessionConfig, login_transaction_cookie, max_cookie_value_length}
use vsn_voice_ai.Web.Session.Cookies.{read_cookie, serialize_cookie}
use vsn_voice_ai.Web.Session.Cookies.Headers.{IsCookie, cookie_header, read_cookie-cookie_header}
use vsn_voice_ai.Web.Session.Sealing.{seal_value, unseal_value-seal_value}
use vsn_voice_ai.Web.Session.Messages.{
  WebRequest, LoginTransaction, TokenRequest, TokenResponse, transaction_fields, login_transaction,
  login_failed,
}
use vsn_voice_ai.Web.Session.Login.{
  LoginTools, callback, checked_callback, token_request, payload_of, with_payload, begin_login,
  complete_login,
}

login_transaction-transaction_fields :
    (state verifier : Text) (at : ℕ)
    → login_transaction (obj (transaction_fields state verifier at))
      ≡ some (record { state = state; verifier = verifier; created_at = int (pos at) })
unfolding login_transaction Value.get text_eq
login_transaction-transaction_fields state verifier at = refl

module _ (t : LoginTools) (config : WebSessionConfig) (state verifier : Text) (iv : List ℕ)
    (begun : ℕ) (request : WebRequest) (now : ℕ) where
  -- The cookie of the transaction, sealed.
  abbrev pub transaction_seal : Text
  transaction_seal =
      seal_value t.sealing config.session_key iv (obj (transaction_fields state verifier begun))

  -- The request brings the transaction's cookie.
  pub record CarriesTransaction : Type 0 where
    pub cookies : List (Text × Text)
    pub are : All IsCookie cookies
    pub sent : request.cookie ≡ some (cookie_header cookies)
    pub found : Map.get cookies login_transaction_cookie ≡ some transaction_seal
    pub vector : length iv ≡ 12
    pub safe : begun ≤ max_safe_integer
    pub short : length transaction_seal ≤ max_cookie_value_length

  -- The request brings the code and the transaction's state, in time.
  pub record IsCallback (code : Text) : Type 0 where
    pub given_code : request.code ≡ some code
    pub some_code : 1 ≤ length code
    pub short_code : length code ≤ 2_048
    pub given_state : Text
    pub has_state : request.state ≡ some given_state
    pub same_state : t.utf8 given_state ≡ t.utf8 state
    pub begun_before : begun ≤ now
    pub in_time : now ≤ begun + 600_000

  abbrev its_transaction : LoginTransaction
  its_transaction = record { state = state; verifier = verifier; created_at = int (pos begun) }

  callback-checked :
      CarriesTransaction
      → callback t config request now
        ≡ checked_callback t config now request.code request.state (some its_transaction)
  unfolding callback
  callback-checked c =
      let read : read_cookie request.cookie login_transaction_cookie ≡ some transaction_seal =
        ap (λ h. read_cookie h login_transaction_cookie) c.sent
        ∙ read_cookie-cookie_header login_transaction_cookie c.cookies c.are
        ∙ c.found in
      rw
        (
          read,
          unseal_value-seal_value t.sealing config.session_key iv
              (transaction_fields state verifier begun) c.vector (ground (arith, c.safe)) c.short,
          login_transaction-transaction_fields state verifier begun,
        )
        refl

  checked_callback-inv :
      (code : Text) (x : LoginTransaction) (c s : Option Text)
      → request.code ≡ c
      → request.state ≡ s
      → checked_callback t config now c s (some its_transaction) ≡ some (code, x)
      → IsCallback code × (x ≡ its_transaction)
  checked_callback-inv code x none s ec es h = ground arith
  checked_callback-inv code x (some k) none ec es h = ground arith
  checked_callback-inv code x (some k) (some v) ec es h =
      let same : k ≡ code = ground arith in
      (
        record {
          given_code = ec ∙ ap some same;
          some_code = ground arith;
          short_code = ground arith;
          given_state = v;
          has_state = es;
          same_state = (text_eq_iff (t.utf8 v) (t.utf8 state)).0 (ground arith);
          begun_before = ground arith;
          in_time = ground arith;
        },
        ground arith,
      )

  checked_callback-accepted :
      (code : Text)
      → IsCallback code
      → checked_callback t config now request.code request.state (some its_transaction)
        ≡ some (code, its_transaction)
  checked_callback-accepted code h =
      let same = (text_eq_iff (t.utf8 h.given_state) (t.utf8 state)).1 h.same_state in
      let filled = h.some_code in
      let short = h.short_code in
      let early = h.begun_before in
      let late = h.in_time in rw (h.given_code, h.has_state) (ground (arith, same))

  -- What follows an accepted code, and what any other request ends with.
  module _ {D : Type 0} (fetch : TokenRequest → Exec D (Unit {0}) TokenResponse)
      (session_iv : List ℕ) (d : D) where
    -- The code is sent with the login's verifier, and the answer decides.
    abbrev pub IsSent : Text → Type 0
    IsSent code = complete_login t config fetch request session_iv now d ≡ (
        let (response, d') = fetch (token_request t config code verifier) d in
        (with_payload t config session_iv now (payload_of t config response), d'))

    -- The request is a callback of the login and is completed, or it is none and fails.
    pub IsCompletion : Type 0
    IsCompletion =
        ((code : Text) × IsCallback code × IsSent code)
        ⊎ (((code : Text) → ¬ IsCallback code)
            × (complete_login t config fetch request session_iv now d ≡ (login_failed config, d)))

    complete_login-begun : CarriesTransaction → IsCompletion
    unfolding complete_login IsCompletion
    complete_login-begun c = elim (Option-cases (callback t config request now)) [
      | inl fails ↦ inr (
        λ code h.
            let both = sym fails ∙ callback-checked c ∙ checked_callback-accepted code h in
            ground arith,
        rw fails refl,
      )
      | inr ((code, x), e) ↦
          let (back, same) =
            checked_callback-inv code x request.code request.state refl refl
              (sym (callback-checked c) ∙ e) in
          inl (code, back, rw (e, same) refl)
    ]

-- `beginLogin` sets the cookie of a transaction with the state and verifier of its random bytes. A
-- request that brings it back is completed exactly when it brings a code of 1 to 2048 characters and
-- that state within ten minutes from the begin: the code and the verifier are sent in one token
-- request, whose answer decides. Else the login fails and nothing is sent. This holds for a sealed
-- transaction that fits a cookie, a 12-byte vector and a begin that is a safe integer.
pub begin_login-complete_login :
    {D : Type 0} (t : LoginTools) (config : WebSessionConfig) (state_bytes verifier_bytes : List ℕ)
    (iv : List ℕ) (begun : ℕ) (request : WebRequest) (now : ℕ)
    (fetch : TokenRequest → Exec D (Unit {0}) TokenResponse) (session_iv : List ℕ) (d : D)
    → CarriesTransaction t config
        (t.sealing.encode state_bytes)
        (t.sealing.encode verifier_bytes)
        iv
        begun
        request
        now
    → ((begin_login t config state_bytes verifier_bytes iv begun).cookies
        ≡ serialize_cookie login_transaction_cookie
            (transaction_seal t config
              (t.sealing.encode state_bytes)
              (t.sealing.encode verifier_bytes)
              iv
              begun
              request
              now)
            600
          ∷ [])
      × IsCompletion t config
          (t.sealing.encode state_bytes)
          (t.sealing.encode verifier_bytes)
          iv
          begun
          request
          now
          fetch
          session_iv
          d
unfolding begin_login
begin_login-complete_login t config sb vb iv begun request now fetch session_iv d c = (
  refl,
  complete_login-begun t config (t.sealing.encode sb) (t.sealing.encode vb) iv begun request now
      fetch session_iv d c,
)
