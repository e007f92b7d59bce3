-- ===== src/Web/Proxy/Replies.antt =====
-- apps/web/lib/api-proxy.ts: what an answer of the upstream becomes.
use vsn_voice_ai.Prelude.{
  ℕ, ◌≤◌, ◌<◌, ◌≡◌, ◌⊎◌, inl, inr, false, ◌&&◌, ◌||◌, Option, none, some, List, leb, ltb, length,
  arith, Bool-cases,
}
use vsn_voice_ai.Js.Result.{Result, ok, err, Result-cases}
use vsn_voice_ai.Web.Proxy.{max_proxy_response_body_bytes, read_bounded_body}
use vsn_voice_ai.Web.Proxy.Bodies.{read_bounded_body_iff}
use vsn_voice_ai.Web.Proxy.Requests.{
  UpstreamResponse, Reply, json_error, forwarded, has_null_body, reply_with, answer,
}

-- A status of the upstream that is passed on: a proper one, and no redirect.
pub record IsPassedOn (status : ℕ) : Type 0 where
  pub proper : (200 ≤ status) × (status ≤ 599)
  pub no_redirect : (status < 300) ⊎ (400 ≤ status)

-- What a reply with the upstream's status promises: at most 1 MiB of it.
abbrev pub IsBounded : Reply → Type 0
IsBounded (json_error status code) = Unit
IsBounded (forwarded status content_type none) = IsPassedOn status
IsBounded (forwarded status content_type (some bytes)) =
    IsPassedOn status × (length bytes ≤ max_proxy_response_body_bytes)

reply_with-IsBounded :
    (upstream : UpstreamResponse) (bytes : Option (List ℕ))
    → leb 300 upstream.status && ltb upstream.status 400 ≡ false
    → read_bounded_body upstream.body max_proxy_response_body_bytes ≡ ok bytes
    → IsBounded (reply_with upstream bytes)
reply_with-IsBounded upstream none direct read = tt
reply_with-IsBounded upstream (some bytes) direct read =
    let small =
      ((read_bounded_body_iff upstream.body max_proxy_response_body_bytes bytes).0 read).1 in
    elim (Bool-cases (ltb upstream.status 200 || ltb 599 upstream.status)) [
      | inl improper ↦ rw improper tt
      | inr proper ↦
          let passed : IsPassedOn upstream.status = record {
            proper = (ground arith, ground arith);
            no_redirect = ground arith;
          } in
          elim (Bool-cases (has_null_body upstream.status)) [
            | inl null_body ↦ rw (proper, null_body) passed
            | inr with_body ↦ rw (proper, with_body) (passed, small)
          ]
    ]

pub answer-IsBounded : (r : Result (Unit {0}) UpstreamResponse) → IsBounded (answer r)
unfolding answer
answer-IsBounded (err e) = tt
answer-IsBounded (ok upstream) =
    elim (Bool-cases (leb 300 upstream.status && ltb upstream.status 400)) [
      | inl redirect ↦ rw redirect tt
      | inr direct ↦
          elim (Result-cases (read_bounded_body upstream.body max_proxy_response_body_bytes)) [
            | inl (bytes, read) ↦
                rw (direct, read) (reply_with-IsBounded upstream bytes direct read)
            | inr (e, failed) ↦ rw (direct, failed) tt
          ]
    ]
