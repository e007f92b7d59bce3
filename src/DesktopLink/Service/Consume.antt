-- ===== src/DesktopLink/Service/Consume.antt =====
-- desktop-link.service.ts: when `consume` succeeds, over the in-memory store.
use vsn_voice_ai.Prelude.{
  ℕ, ◌≤◌, ◌≡◌, refl, sym, ap, ◌∙◌, ◌↔◌, Bool, true, false, some, arith, Option-cases, inl, inr,
}
use vsn_voice_ai.Js.Text.{Text, text_eq_iff, text_eq_refl}
use vsn_voice_ai.Js.Map
use vsn_voice_ai.Js.Hex.{hex_bytes}
use vsn_voice_ai.Js.Result.{Result, Result-cases, ok}
use vsn_voice_ai.Js.Exec.{Exec}
use vsn_voice_ai.Js.Date.{Dates, at_or_after, max_time}
use vsn_voice_ai.Identity.Principal.{AuthenticatedPrincipal}
use vsn_voice_ai.DesktopLink.Record.{DesktopLinkRecord, is_issued, Failure}
use vsn_voice_ai.DesktopLink.Memory.{
  Memory, memory_store, get, consume_if_issued, update, consumed_record,
}
use vsn_voice_ai.DesktopLink.Service.{
  DesktopLinkBinding, consume, safe_digest_equal, require_exchange, exchange_time,
}

-- What consuming the record `r` takes.
pub record MayConsume (dates : Dates) (sha256_hex : Text → Text)
    (principal : AuthenticatedPrincipal) (organization_id device_id record_id exchange_token : Text)
    (now : ℕ) (r : DesktopLinkRecord) : Type 0 where
  pub named : require_exchange principal organization_id device_id record_id exchange_token ≡ ok tt
  pub issued : is_issued r.status ≡ true
  pub digest : r.token_digest ≡ sha256_hex exchange_token
  pub in_time : at_or_after (some now) (dates.parse r.expires_at) ≡ false
  pub subject : r.subject_id ≡ principal.subject_id
  pub organization : r.organization_id ≡ organization_id
  pub device : r.device_id ≡ device_id
  pub dated : now ≤ max_time

unfoldable pub binding_of : DesktopLinkRecord → Text → DesktopLinkBinding
binding_of r at = record {
  record_id = r.record_id;
  subject_id = r.subject_id;
  organization_id = r.organization_id;
  device_id = r.device_id;
  consumed_at = at;
}

exchange_time_iff :
    (dates : Dates) (principal : AuthenticatedPrincipal) (o d : Text) (now : ℕ)
    (r : DesktopLinkRecord) (at : Text)
    → (exchange_time dates principal o d now r ≡ ok at) ↔ (
        (at_or_after (some now) (dates.parse r.expires_at) ≡ false)
        × (r.subject_id ≡ principal.subject_id)
        × (r.organization_id ≡ o)
        × (r.device_id ≡ d)
        × (now ≤ max_time)
        × (at ≡ dates.to_iso now))
unfolding exchange_time
exchange_time_iff dates principal o d now r at = ground (
  arith,
  text_eq_iff r.subject_id principal.subject_id,
  text_eq_iff r.organization_id o,
  text_eq_iff r.device_id d,
)

safe_digest_equal_refl : (d : Text) → safe_digest_equal d d ≡ true
unfolding safe_digest_equal
safe_digest_equal_refl d = text_eq_refl (hex_bytes d)

module _ (dates : Dates) (locale_after : Text → Text → Bool) (sha256_hex : Text → Text) where
  module _ (principal : AuthenticatedPrincipal) (o d id token : Text) (now : ℕ) where
    abbrev pub run : Exec Memory Failure DesktopLinkBinding
    run = consume (memory_store dates locale_after) dates sha256_hex principal o d id token now

    pub consume-granted :
        (m : Memory) (r : DesktopLinkRecord)
        → Map.get m id ≡ some r
        → MayConsume dates sha256_hex principal o d id token now r
        → run m ≡ (
          ok (binding_of r (dates.to_iso now)),
          Map.set m id (consumed_record (dates.to_iso now) r),
        )
    unfolding consume get consume_if_issued update binding_of
    consume-granted m r found may = ground (
      arith,
      text_eq_iff r.token_digest (sha256_hex token),
      safe_digest_equal_refl r.token_digest,
      (exchange_time_iff dates principal o d now r (dates.to_iso now)).1
          (may.in_time, may.subject, may.organization, may.device, may.dated, refl),
    )

    pub consume-inv :
        (m : Memory) (b : DesktopLinkBinding)
        → (run m).0 ≡ ok b
        → (r : DesktopLinkRecord) × (Map.get m id ≡ some r)
          × MayConsume dates sha256_hex principal o d id token now r
    unfolding consume get consume_if_issued update
    consume-inv m b h = elim (Option-cases (Map.get m id)) [
      | inl missing ↦ ground arith
      | inr (r, found) ↦ elim (Result-cases (exchange_time dates principal o d now r)) [
        | inl (at, dated) ↦ (
          r,
          found,
          ground (
            arith,
            text_eq_iff r.token_digest (sha256_hex token),
            (exchange_time_iff dates principal o d now r at).0 dated,
          ),
        )
        | inr (e, refused) ↦ ground arith
      ]
    ]

    -- Over the in-memory store `consume` succeeds exactly when the record is there and may be consumed
    -- by this caller at this time; it then returns the record's binding and stores it as consumed.
    pub consume_iff :
        (m : Memory) (b : DesktopLinkBinding) (m' : Memory)
        → (run m ≡ (ok b, m')) ↔ (
            (r : DesktopLinkRecord) × (Map.get m id ≡ some r)
            × MayConsume dates sha256_hex principal o d id token now r
            × (b ≡ binding_of r (dates.to_iso now))
            × (m' ≡ Map.set m id (consumed_record (dates.to_iso now) r)))
    consume_iff m b m' = (
      λ h.
          let (r, found, may) = consume-inv m b (ap (λ t. t.0) h) in
          let e = sym h ∙ consume-granted m r found may in
          (
            r,
            found,
            may,
            ground (arith, ap (λ (t : Result Failure DesktopLinkBinding × Memory). t.0) e),
            ap (λ t. t.1) e,
          ),
      λ (r, found, may, eb, em). rw (eb, em) (consume-granted m r found may),
    )
