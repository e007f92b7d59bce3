-- ===== src/DesktopLink/Memory/Inventory.antt =====
-- desktop-link-record.ts: what `listLatestConsumed` returns.
use vsn_voice_ai.Prelude.{
  ℕ, leb, ltb, ◌||◌, ◌≤◌, ◌<◌, ◌≡◌, refl, sym, subst, ◌∙◌, Bool, true, false, not, List, [], arith,
  Bool-cases, inl, inr, ◌⊎◌, All, Any, All-imp, take_short, All-take, length, length-take, take,
}
use vsn_voice_ai.Js.Text.{Text, is_blank}
use vsn_voice_ai.Js.Map
use vsn_voice_ai.Js.Map.{DistinctKeys}
use vsn_voice_ai.Js.Date.{Dates, at_or_after}
use vsn_voice_ai.Js.Result.{ok}
use vsn_voice_ai.Js.Number.{max_safe_integer}
use vsn_voice_ai.DesktopLink.Record.{DesktopLinkRecord}
use vsn_voice_ai.DesktopLink.Memory.Sorting.{
  DistinctDevices, DistinctDevices-take, LatestFirst, LatestFirst-take, LatestFirst-sort, All-sort,
  DistinctDevices-sort, Apart-nil, Any-sort,
}
use vsn_voice_ai.DesktopLink.Memory.Coverage.{IsTimed, latest_by_device-Covers-All}
use vsn_voice_ai.DesktopLink.Memory.Latest.{
  IsEntry, IsEntry-device, IsEntry-linked, latest_by_device-IsLatest,
}
use vsn_voice_ai.DesktopLink.Memory.{
  Memory, linked_to, linked_time, latest_by_device, sort, list_latest_consumed,
}

module _ (dates : Dates) (locale_after : Text → Text → Bool) where
  -- What a page of linked desktops is.
  pub record IsPage (subject_id organization_id : Text) (limit : ℕ) (page : List DesktopLinkRecord)
      : Type 0 where
    pub bounded : length page ≤ limit
    pub linked : All (λ r. linked_to subject_id organization_id r ≡ true) page
    pub one_per_device : DistinctDevices page
    pub latest_first : LatestFirst dates locale_after page

  -- The list is a page: at most `limit` records, each consumed by the subject in the organization,
  -- of different devices, and none linked before the record right behind it. The store is unchanged.
  pub list_latest_consumed-IsPage :
      (subject_id organization_id : Text) (limit : ℕ) (m : Memory)
      → (page : List DesktopLinkRecord) × (list_latest_consumed dates locale_after subject_id
            organization_id limit m
          ≡ (ok page, m))
        × IsPage subject_id organization_id limit page
  unfolding list_latest_consumed
  list_latest_consumed-IsPage s o limit m =
      elim (Bool-cases
        (is_blank s || is_blank o || not (leb limit max_safe_integer) || ltb limit 1)) [
          | inl refused ↦ (
            [],
            rw refused refl,
            record { bounded = omega arith; linked = tt; one_per_device = tt; latest_first = tt },
          )
          | inr allowed ↦
              let latest : Memory = latest_by_device dates s o (Map.values m) [] in
              let (h, d) = latest_by_device-IsLatest dates s o (Map.values m) [] (tt, tt) in
              let sorted : List DesktopLinkRecord =
                sort dates locale_after [] (Map.values latest) in
              (
                take limit sorted,
                rw allowed refl,
                record {
                  bounded = omega (arith, length-take limit sorted);
                  linked =
                      All-take (λ r. linked_to s o r ≡ true) limit sorted
                        (All-sort dates locale_after (λ r. linked_to s o r ≡ true) []
                          (Map.values latest) tt (IsEntry-linked s o latest h));
                  one_per_device = DistinctDevices-take limit sorted (
                      DistinctDevices-sort dates locale_after [] (Map.values latest) tt
                        (IsEntry-device s o latest h d)
                        (Apart-nil dates locale_after (Map.values latest)));
                  latest_first =
                      LatestFirst-take dates locale_after limit sorted
                        (LatestFirst-sort dates locale_after [] (Map.values latest) tt);
                },
              )
        ]

  -- What the page has for the record `r`: a record of its device, linked no earlier.
  abbrev pub Represents : List DesktopLinkRecord → DesktopLinkRecord → Type 0
  Represents page r =
      Any
        (λ q.
          (q.device_id ≡ r.device_id)
          × (at_or_after (linked_time dates q) (linked_time dates r) ≡ true))
        page

  -- A page with room left is complete: each record that the subject consumed in the organization is
  -- represented by one of its device, linked no earlier. The subject and the organization are not
  -- blank, the limit is a safe integer, and the times of linking are dates.
  pub list_latest_consumed_complete :
      (subject_id organization_id : Text) (limit : ℕ) (m : Memory) (page : List DesktopLinkRecord)
      → list_latest_consumed dates locale_after subject_id organization_id limit m ≡ (ok page, m)
      → is_blank subject_id ≡ false
      → is_blank organization_id ≡ false
      → limit ≤ max_safe_integer
      → length page < limit
      → All (IsTimed dates subject_id organization_id) (Map.values m)
      → All
          (λ r. (linked_to subject_id organization_id r ≡ false) ⊎ Represents page r)
          (Map.values m)
  unfolding list_latest_consumed Map.get
  list_latest_consumed_complete s o limit m page e bs bo small room timed =
      let latest : Memory = latest_by_device dates s o (Map.values m) [] in
      let sorted : List DesktopLinkRecord = sort dates locale_after [] (Map.values latest) in
      let shown : page ≡ take limit sorted = ground arith in
      let whole : page ≡ sorted = shown ∙ take_short limit sorted (rw (← shown) room) in
      let (entries, _) = latest_by_device-IsLatest dates s o (Map.values m) [] (tt, tt) in
      All-imp
        (λ r covers. elim (Bool-cases (linked_to s o r)) [
          | inr unlinked ↦ inl unlinked
          | inl linked ↦
              let (q, found, later) = covers linked in
              let entry = Map.All-get (IsEntry s o) latest r.device_id q entries found in
              inr (
                subst (λ x. Represents x r) (sym whole)
                  (Any-sort dates locale_after _ [] (Map.values latest)
                    (Map.Any-get _ latest r.device_id q found (entry.0, later))))
        ])
        (Map.values m)
        (latest_by_device-Covers-All dates s o (Map.values m) [] timed (λ d q missing. cc))
