-- ===== src/DesktopLink/Tests/Consuming.antt =====
-- desktop-link.service.ts: `consume`, `issue` and `revoke` of one exchange.
use vsn_voice_ai.Prelude.{
  ℕ, ◌≡◌, ◌≢◌, refl, ◌↔◌, inr, ◌≤◌, ◌<◌, ◌+◌, none, some, List, [], ◌∷◌, arith,
}
use vsn_voice_ai.Js.Text.{trim, text_eq, includes}
use vsn_voice_ai.Js.Map
use vsn_voice_ai.Js.Result.{ok}
use vsn_voice_ai.Js.Hex.{hex_bytes}
use vsn_voice_ai.DesktopLink.Record.{DesktopLinkRecord, consumed, revoked}
use vsn_voice_ai.DesktopLink.Memory.{
  memory_store, put, get, update, consume_if_issued, revoke_if_issued, revocable, revoked_record,
}
use vsn_voice_ai.DesktopLink.Memory.Calls.{StoreCall, consume_call, run_calls}
use vsn_voice_ai.DesktopLink.Service.{
  DesktopLinkBinding, DesktopLinkIssue, DesktopLinkStatusSnapshot, issue, consume, revoke, inspect,
  snapshot_of, require_exchange, ttl_milliseconds, min_ttl_ms, max_ttl_ms, safe_digest_equal,
  exchange_time, require_lookup,
}
use vsn_voice_ai.DesktopLink.Service.Consume.{consume_iff, binding_of}
use vsn_voice_ai.DesktopLink.Service.SingleUse.{consume_once}
use vsn_voice_ai.DesktopLink.Service.Issue.{issue-consume, issued_record}
use vsn_voice_ai.DesktopLink.Service.Revoke.{revoke_iff, revoke-final}
use vsn_voice_ai.DesktopLink.Service.Inspect.{foreign_record-hidden, consume-inspect}
use vsn_voice_ai.DesktopLink.Tests.{
  one_unit_dates, never_after, prefixed, acme, laptop, link, token, ann, bob, link_context,
  open_record, open_store, used_store,
}

consume_iff_example :
    consume
      (memory_store one_unit_dates never_after)
      one_unit_dates
      prefixed
      ann
      acme
      laptop
      link
      token
      2000
      open_store
    ≡ (ok (binding_of open_record (2000 ∷ [])), used_store)
unfolding require_exchange trim Map.get Map.set text_eq
consume_iff_example =
    (consume_iff one_unit_dates never_after prefixed ann acme laptop link token 2000 open_store
        (binding_of open_record (2000 ∷ [])) used_store).1
      (
        open_record,
        refl,
        record {
          named = refl;
          issued = refl;
          digest = refl;
          in_time = refl;
          subject = refl;
          organization = refl;
          device = refl;
          dated = omega arith;
        },
        refl,
        refl,
      )

abbrev others : List StoreCall
others = consume_call link (prefixed token) (2500 ∷ []) ∷ []

consume_once_example :
    (consume
      (memory_store one_unit_dates never_after)
      one_unit_dates
      prefixed
      ann
      acme
      laptop
      link
      token
      3000
      (run_calls one_unit_dates others used_store)).0
    ≢ ok (binding_of open_record (3000 ∷ []))
unfolding consume get consume_if_issued update binding_of require_exchange trim safe_digest_equal
    hex_bytes exchange_time Map.get Map.set text_eq
consume_once_example =
    consume_once one_unit_dates never_after prefixed ann ann link acme acme laptop laptop token
      token 2000 3000 open_store used_store (binding_of open_record (2000 ∷ []))
      (binding_of open_record (3000 ∷ [])) others refl

consume-inspect_example :
    (s : DesktopLinkStatusSnapshot) × ((inspect
        (memory_store one_unit_dates never_after)
        one_unit_dates
        ann
        acme
        link
        90000
        (run_calls one_unit_dates others used_store)).0
      ≡ ok s)
    × (s.status ≡ consumed)
    × (s.consumed_at ≡ some (2000 ∷ []))
    × (s.device_id ≡ laptop)
    × (s.record_id ≡ link)
unfolding consume get consume_if_issued update binding_of require_exchange trim safe_digest_equal
    hex_bytes exchange_time Map.get Map.set text_eq require_lookup
consume-inspect_example =
    consume-inspect one_unit_dates never_after prefixed ann acme laptop link token 2000 90000
      open_store used_store (binding_of open_record (2000 ∷ [])) others refl refl

abbrev new_record : DesktopLinkRecord
new_record = issued_record one_unit_dates prefixed link_context laptop 1000 link token 300000

abbrev new_issue : DesktopLinkIssue
new_issue = record { record_id = link; exchange_token = token; expires_at = 301000 ∷ [] }

issue-consume_example :
    (t : ℕ) × (ttl_milliseconds none ≡ ok t)
    × (min_ttl_ms ≤ t)
    × (t ≤ max_ttl_ms)
    × (((b : DesktopLinkBinding) × ((consume
              (memory_store one_unit_dates never_after)
              one_unit_dates
              prefixed
              ann
              acme
              laptop
              link
              token
              5000
              ((link, new_record) ∷ [])).0
            ≡ ok b))
        ↔ (5000 < 1000 + t))
unfolding issue put issued_record require_exchange ttl_milliseconds trim includes Map.get Map.set
    text_eq
issue-consume_example =
    issue-consume one_unit_dates never_after prefixed link_context laptop none 1000 link token []
      ((link, new_record) ∷ []) new_issue ann 5000 refl refl refl

revoke_iff_example :
    revoke (memory_store one_unit_dates never_after) one_unit_dates ann acme link 2000 open_store
    ≡ (ok (snapshot_of open_record revoked none), (link, revoked_record open_record) ∷ [])
unfolding require_lookup trim Map.get Map.set text_eq
revoke_iff_example =
    (revoke_iff one_unit_dates never_after ann acme link 2000 open_store
        (snapshot_of open_record revoked none) ((link, revoked_record open_record) ∷ [])).1
      (
        open_record,
        refl,
        refl,
        inr (
          record {
            named = refl;
            owner = refl;
            issued = refl;
            begun = refl;
            in_time = refl;
            dated = omega arith;
          },
          refl,
        ),
      )

revoke-final_example :
    ((consume
        (memory_store one_unit_dates never_after)
        one_unit_dates
        prefixed
        ann
        acme
        laptop
        link
        token
        3000
        (run_calls one_unit_dates others ((link, revoked_record open_record) ∷ []))).0
      ≢ ok (binding_of open_record (3000 ∷ [])))
    × (revoke
          (memory_store one_unit_dates never_after)
          one_unit_dates
          ann
          acme
          link
          3000
          (run_calls one_unit_dates others ((link, revoked_record open_record) ∷ []))
        ≡ (
          ok (snapshot_of open_record revoked none),
          run_calls one_unit_dates others ((link, revoked_record open_record) ∷ []),
        ))
unfolding revoke get revoke_if_issued update revocable require_lookup trim Map.get Map.set text_eq
revoke-final_example =
    revoke-final one_unit_dates never_after prefixed ann ann acme link acme laptop token 2000 3000
      open_store ((link, revoked_record open_record) ∷ []) (snapshot_of open_record revoked none)
      (binding_of open_record (3000 ∷ [])) others refl

foreign_record-hidden_example :
    ((inspect
        (memory_store one_unit_dates never_after)
        one_unit_dates
        bob
        acme
        link
        2000
        open_store).0
      ≡ (inspect (memory_store one_unit_dates never_after) one_unit_dates bob acme link 2000 []).0)
    × ((revoke
          (memory_store one_unit_dates never_after)
          one_unit_dates
          bob
          acme
          link
          2000
          open_store).0
        ≡ (revoke (memory_store one_unit_dates never_after) one_unit_dates bob acme link 2000 []).0)
    × ((revoke
          (memory_store one_unit_dates never_after)
          one_unit_dates
          bob
          acme
          link
          2000
          open_store).1
        ≡ open_store)
unfolding Map.get text_eq
foreign_record-hidden_example =
    foreign_record-hidden one_unit_dates never_after bob acme link 2000 open_store [] open_record
      refl refl refl
