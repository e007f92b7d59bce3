-- ===== src/DesktopLink/Service/Issue.antt =====
-- desktop-link.service.ts: what `issue` grants, and for how long.
use vsn_voice_ai.Prelude.{
  ℕ, ◌+◌, ◌≤◌, ◌<◌, ◌≡◌, refl, sym, ap, ◌∙◌, ◌↔◌, Bool, true, false, Option, none, some, arith,
  Option-cases, inl, inr,
}
use vsn_voice_ai.Js.Text.{Text, text, text_eq_refl, is_blank, includes}
use vsn_voice_ai.Js.Map
use vsn_voice_ai.Js.Map.{get-set}
use vsn_voice_ai.Js.Number.{Number}
use vsn_voice_ai.Js.Result.{ok, Result-cases}
use vsn_voice_ai.Js.Date.{Dates, max_time, at_or_after}
use vsn_voice_ai.Identity.Principal.{AuthenticatedPrincipal}
use vsn_voice_ai.Organizations.Authorization.{AuthorizationContext}
use vsn_voice_ai.DesktopLink.Record.{DesktopLinkRecord, issued}
use vsn_voice_ai.DesktopLink.Memory.{Memory, memory_store, put}
use vsn_voice_ai.DesktopLink.Service.{
  DesktopLinkIssue, DesktopLinkBinding, issue, consume, ttl_milliseconds, min_ttl_ms, max_ttl_ms,
  require_exchange,
}
use vsn_voice_ai.DesktopLink.Service.Consume.{consume-granted, consume-inv}

-- A ttl that is accepted lies between 30 seconds and 10 minutes.
ttl_milliseconds_bounds :
    (ttl : Option Number) (t : ℕ)
    → ttl_milliseconds ttl ≡ ok t
    → (min_ttl_ms ≤ t) × (t ≤ max_ttl_ms)
unfolding ttl_milliseconds
ttl_milliseconds_bounds ttl t h = ground arith

-- The record that `issue` stores for a ttl of `t`.
unfoldable pub issued_record :
    Dates → (Text → Text) → AuthorizationContext → Text → ℕ → Text → Text → ℕ → DesktopLinkRecord
issued_record dates sha256_hex a d now id token t = record {
  record_id = id;
  token_digest = sha256_hex token;
  subject_id = a.subject_id;
  organization_id = a.organization_id;
  device_id = d;
  issued_at = dates.to_iso now;
  expires_at = dates.to_iso (now + t);
  status = issued;
  consumed_at = none;
}

module _ (dates : Dates) (locale_after : Text → Text → Bool) (sha256_hex : Text → Text) where
  module _ (a : AuthorizationContext) (d : Text) (ttl : Option Number) (now : ℕ)
      (id token : Text) where
    pub record MayIssue (t : ℕ) (m : Memory) : Type 0 where
      pub named : is_blank d ≡ false
      pub permitted : includes a.permissions (text "device.link") ≡ true
      pub lasts : ttl_milliseconds ttl ≡ ok t
      pub dated : now + t ≤ max_time
      pub fresh : Map.get m id ≡ none

    pub issue-inv :
        (m m' : Memory) (i : DesktopLinkIssue)
        → issue (memory_store dates locale_after) dates sha256_hex a d ttl now id token m
          ≡ (ok i, m')
        → (t : ℕ) × MayIssue t m
          × (i ≡ record {
            record_id = id;
            exchange_token = token;
            expires_at = dates.to_iso (now + t);
          })
          × (m' ≡ Map.set m id (issued_record dates sha256_hex a d now id token t))
    unfolding issue put issued_record
    issue-inv m m' i h = elim (Result-cases (ttl_milliseconds ttl)) [
      | inr (e, refused) ↦ ground arith
      | inl (t, allowed) ↦ elim (Option-cases (Map.get m id)) [
        | inl fresh ↦ (t, ground arith, ground arith, ground arith)
        | inr (r, taken) ↦ ground arith
      ]
    ]

  exchange_open :
      (now' now t : ℕ)
      → now + t ≤ max_time
      → (at_or_after (some now') (dates.parse (dates.to_iso (now + t))) ≡ false) ↔ (now' < now + t)
  exchange_open now' now t h = rw (dates.parse-to_iso (now + t) h) (ground arith)

  issued_record-consume :
      (a : AuthorizationContext) (d : Text) (ttl : Option Number) (now : ℕ) (id token : Text)
      (t : ℕ) (m : Memory) (p : AuthenticatedPrincipal) (now' : ℕ)
      → Map.get m id ≡ some (issued_record dates sha256_hex a d now id token t)
      → now + t ≤ max_time
      → p.subject_id ≡ a.subject_id
      → require_exchange p a.organization_id d id token ≡ ok tt
      → ((b : DesktopLinkBinding) × ((consume
              (memory_store dates locale_after)
              dates
              sha256_hex
              p
              a.organization_id
              d
              id
              token
              now'
              m).0
            ≡ ok b))
        ↔ (now' < now + t)
  unfolding issued_record
  issued_record-consume a d ttl now id token t m p now' stored dated subject named = (
    λ (b, done).
        let (r, found, may) =
          consume-inv dates locale_after sha256_hex p a.organization_id d id token now' m b done in
        let same : some r ≡ some (issued_record dates sha256_hex a d now id token t) =
          sym found ∙ stored in
        (exchange_open now' now t dated).0 (ground (arith, may.in_time)),
    λ soon. (
      _,
      ap (λ x. x.0)
          (consume-granted dates locale_after sha256_hex p a.organization_id d id token now' m
            (issued_record dates sha256_hex a d now id token t) stored
            (record {
              named = named;
              issued = refl;
              digest = refl;
              in_time = (exchange_open now' now t dated).1 soon;
              subject = sym subject;
              organization = refl;
              device = refl;
              dated = omega arith;
            })),
    ),
  )

  -- After a successful `issue`, the caller of the issued subject and organization who names the device
  -- and gives the returned token consumes the exchange exactly at the times before its expiry, which
  -- lies the requested ttl, at least 30 seconds and at most 10 minutes, after the issue. The texts in
  -- the second call must not be blank.
  pub issue-consume :
      (a : AuthorizationContext) (d : Text) (ttl : Option Number) (now : ℕ) (id token : Text)
      (m m' : Memory) (i : DesktopLinkIssue) (p : AuthenticatedPrincipal) (now' : ℕ)
      → issue (memory_store dates locale_after) dates sha256_hex a d ttl now id token m ≡ (ok i, m')
      → p.subject_id ≡ a.subject_id
      → require_exchange p a.organization_id d i.record_id i.exchange_token ≡ ok tt
      → (t : ℕ) × (ttl_milliseconds ttl ≡ ok t)
        × (min_ttl_ms ≤ t)
        × (t ≤ max_ttl_ms)
        × (((b : DesktopLinkBinding) × ((consume
                  (memory_store dates locale_after)
                  dates
                  sha256_hex
                  p
                  a.organization_id
                  d
                  i.record_id
                  i.exchange_token
                  now'
                  m').0
                ≡ ok b))
            ↔ (now' < now + t))
  issue-consume a d ttl now id token m m' i p now' h subject named =
      let (t, may, ei, em) = issue-inv a d ttl now id token m m' i h in
      let (low, high) = ttl_milliseconds_bounds ttl t may.lasts in
      let stored : Map.get m' id ≡ some (issued_record dates sha256_hex a d now id token t) =
        rw em (rw get-set (rw text_eq_refl refl)) in
      let same_id : i.record_id ≡ id = ap (λ x. x.record_id) ei in
      let same_token : i.exchange_token ≡ token = ap (λ x. x.exchange_token) ei in
      (
        t,
        may.lasts,
        low,
        high,
        rw (same_id, same_token)
            (issued_record-consume a d ttl now id token t m' p now' stored may.dated subject
              (rw (same_id, same_token) at named)),
      )
