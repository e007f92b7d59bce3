-- ===== src/DesktopLink/Tests/Serving.antt =====
-- desktop-link.controller.ts and desktop-link.service.ts: requests for one exchange.
use vsn_voice_ai.Prelude.{◌≡◌, refl, ◌↔◌, ◌<◌, true, none, List, [], ◌∷◌, take, length}
use vsn_voice_ai.Js.Text.{Text, text, trim, text_eq, includes}
use vsn_voice_ai.Js.Map
use vsn_voice_ai.Js.Value
use vsn_voice_ai.Js.Value.{Value, str, obj, field, end}
use vsn_voice_ai.Js.Result.{ok}
use vsn_voice_ai.Identity.Principal.{is_bounded_identifier, is_valid_principal}
use vsn_voice_ai.Identity.Trusted.{unauthenticated}
use vsn_voice_ai.Organizations.Authorization.{authorize_tenant_access}
use vsn_voice_ai.DesktopLink.Record.{DesktopLinkRecord, is_issued}
use vsn_voice_ai.DesktopLink.Memory.{Memory, memory_store, put, list_latest_consumed}
use vsn_voice_ai.DesktopLink.Memory.Inventory.{IsPage}
use vsn_voice_ai.DesktopLink.Service.{
  DesktopLinkIssue, LinkedDesktopInventory, issue, list_linked, ttl_milliseconds,
  linked_device_page_size,
}
use vsn_voice_ai.DesktopLink.Service.Atomic.{IsAtomic, service-IsAtomic}
use vsn_voice_ai.DesktopLink.Service.Issue.{issued_record}
use vsn_voice_ai.DesktopLink.Service.Linked.{AreSnapshots, list_linked-ok}
use vsn_voice_ai.DesktopLink.Controller.{
  AuthorizedContext, unauthorized, handle_issue, handle_list, require_identifier, parse_issue_body,
  parse_ttl, resolve_authorized_context, require_closed_object,
}
use vsn_voice_ai.DesktopLink.Controller.EndToEnd.{handle_issue-tenant}
use vsn_voice_ai.DesktopLink.Controller.Tenancy.{ActsFor, Refuses, unauthorized-Refuses}
use vsn_voice_ai.DesktopLink.Tests.{
  open_record, one_unit_dates, never_after, prefixed, acme, laptop, link, token, ann, link_context,
  one_member, ann_signed_in, used_store,
}

abbrev issue_body : Value
issue_body = obj (field (text "device_id") (str laptop) end)

abbrev issued_here : DesktopLinkIssue
issued_here = record { record_id = link; exchange_token = token; expires_at = 301000 ∷ [] }

abbrev here : DesktopLinkRecord
here = issued_record one_unit_dates prefixed link_context laptop 1000 link token 300000

handle_issue-tenant_example :
    (o : Text) × (c : AuthorizedContext) × (r : DesktopLinkRecord) × (require_identifier (str acme)
      ≡ ok o)
    × ActsFor one_member ann_signed_in o c
    × (Map.get {V = DesktopLinkRecord} [] link ≡ none)
    × ((link, here) ∷ [] ≡ Map.set [] link r)
    × (r.subject_id ≡ c.principal.subject_id)
    × (r.organization_id ≡ o)
    × (is_issued r.status ≡ true)
unfolding handle_issue issue put issued_record ttl_milliseconds require_identifier parse_issue_body
    require_closed_object parse_ttl resolve_authorized_context authorize_tenant_access
    is_valid_principal is_bounded_identifier Value.get Value.keys Map.get Map.set text_eq trim
    includes
handle_issue-tenant_example =
    handle_issue-tenant one_unit_dates never_after prefixed one_member ann_signed_in acme issue_body
      1000 link token [] ((link, here) ∷ []) issued_here refl

unauthorized-Refuses_example : Refuses (
    handle_list
      (memory_store one_unit_dates never_after)
      one_unit_dates
      prefixed
      one_member
      unauthenticated
      acme)
unfolding require_identifier resolve_authorized_context trim
unauthorized-Refuses_example =
    (unauthorized-Refuses (memory_store one_unit_dates never_after) one_unit_dates prefixed
      one_member unauthenticated acme link issue_body 1000 link token unauthorized refl).0

service-IsAtomic_example : IsAtomic (
    issue
      (memory_store one_unit_dates never_after)
      one_unit_dates
      prefixed
      link_context
      laptop
      none
      1000
      link
      token)
service-IsAtomic_example =
    (service-IsAtomic one_unit_dates never_after prefixed link_context ann acme laptop link token
      none 1000).0

list_linked-ok_example :
    (i : LinkedDesktopInventory) × (page : List DesktopLinkRecord) × (list_linked
        (memory_store one_unit_dates never_after)
        one_unit_dates
        ann
        acme
        used_store
      ≡ (ok i, used_store))
    × (list_latest_consumed one_unit_dates never_after (text "ann") acme 51 used_store
        ≡ (ok page, used_store))
    × IsPage one_unit_dates never_after (text "ann") acme 51 page
    × AreSnapshots (take linked_device_page_size page) i.devices
    × ((i.has_more ≡ true) ↔ (linked_device_page_size < length page))
unfolding trim
list_linked-ok_example = list_linked-ok one_unit_dates never_after ann acme used_store refl refl

abbrev uuid : Text
uuid = text "3f2504e0-4f89-41d3-9a0c-0305e82c3301"

-- The exchange of another subject, under that identifier.
abbrev foreign_store : Memory
foreign_store = (uuid, record open_record { record_id = uuid; subject_id = text "bob" }) ∷ []
