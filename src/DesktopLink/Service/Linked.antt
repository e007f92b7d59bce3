-- ===== src/DesktopLink/Service/Linked.antt =====
-- desktop-link.service.ts: what `listLinked` returns.
use vsn_voice_ai.Prelude.{
  ◌<◌, ◌≡◌, refl, ◌↔◌, Bool, true, false, some, List, [], ◌∷◌, arith, Option-cases, inl, inr, ltb,
  All, All-take, length, take, ltb_iff,
}
use vsn_voice_ai.Js.Text.{Text, is_blank}
use vsn_voice_ai.Js.Result.{ok}
use vsn_voice_ai.Js.Date.{Dates}
use vsn_voice_ai.Identity.Principal.{AuthenticatedPrincipal}
use vsn_voice_ai.DesktopLink.Record.{DesktopLinkRecord}
use vsn_voice_ai.DesktopLink.Memory.{Memory, memory_store, list_latest_consumed, linked_to}
use vsn_voice_ai.DesktopLink.Memory.Inventory.{IsPage, list_latest_consumed-IsPage}
use vsn_voice_ai.DesktopLink.Service.{
  LinkedDesktopInventory, LinkedDesktopSnapshot, list_linked, linked_snapshots,
  linked_device_page_size,
}

-- The snapshots are those of the records, in order.
abbrev pub AreSnapshots : List DesktopLinkRecord → List LinkedDesktopSnapshot → Type 0
AreSnapshots [] [] = Unit
AreSnapshots (r ∷ rs) (d ∷ ds) =
    ((d.record_id ≡ r.record_id) × (d.device_id ≡ r.device_id) × (r.consumed_at ≡ some d.linked_at))
    × AreSnapshots rs ds
AreSnapshots _ _ = ⊥

linked_snapshots-ok :
    (s o : Text) (rs : List DesktopLinkRecord)
    → All (λ r. linked_to s o r ≡ true) rs
    → (ds : List LinkedDesktopSnapshot) × (linked_snapshots rs ≡ ok ds) × AreSnapshots rs ds
unfolding linked_snapshots
linked_snapshots-ok s o [] h = ([], refl, tt)
linked_snapshots-ok s o (r ∷ rs) (linked, h) =
    let (ds, e, shown) = linked_snapshots-ok s o rs h in
    elim (Option-cases r.consumed_at) [
      | inl missing ↦ ground arith
      | inr (at, found) ↦ (
        record { record_id = r.record_id; device_id = r.device_id; linked_at = at } ∷ ds,
        ground arith,
        ((refl, refl, found), shown),
      )
    ]

module _ (dates : Dates) (locale_after : Text → Text → Bool) where
  -- For a named subject and organization, `listLinked` never throws. It returns the first 50 of the
  -- page that the store lists, each as consumed by the subject in the organization, one to a device,
  -- and says whether there is a further one.
  pub list_linked-ok :
      (p : AuthenticatedPrincipal) (o : Text) (m : Memory)
      → is_blank p.subject_id ≡ false
      → is_blank o ≡ false
      → (i : LinkedDesktopInventory) × (page : List DesktopLinkRecord) × (list_linked
            (memory_store dates locale_after)
            dates
            p
            o
            m
          ≡ (ok i, m))
        × (list_latest_consumed dates locale_after p.subject_id o 51 m ≡ (ok page, m))
        × IsPage dates locale_after p.subject_id o 51 page
        × AreSnapshots (take linked_device_page_size page) i.devices
        × ((i.has_more ≡ true) ↔ (linked_device_page_size < length page))
  unfolding list_linked
  list_linked-ok p o m named_p named_o =
      let (page, listed, is_page) =
        list_latest_consumed-IsPage dates locale_after p.subject_id o 51 m in
      let (ds, shown, are) =
        linked_snapshots-ok p.subject_id o (take 50 page)
          (All-take (λ r. linked_to p.subject_id o r ≡ true) 50 page is_page.linked) in
      (
        record { devices = ds; has_more = ltb 50 (length page) },
        page,
        simp (named_p, named_o, listed, shown),
        listed,
        is_page,
        are,
        ltb_iff 50 (length page),
      )
