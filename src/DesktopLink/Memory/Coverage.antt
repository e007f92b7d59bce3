-- ===== src/DesktopLink/Memory/Coverage.antt =====
-- desktop-link-record.ts: `latestByDevice` holds a latest record of every device.
use vsn_voice_ai.Prelude.{
  ◌≡◌, true, ◌&&◌, some, List, [], ◌∷◌, arith, Option-cases, not, ◌||◌, Bool-cases, inl, inr, All,
  is_some,
}
use vsn_voice_ai.Js.Text.{Text, text_eq, text_eq_iff, text_eq_refl}
use vsn_voice_ai.Js.Map
use vsn_voice_ai.Js.Map.{get-set}
use vsn_voice_ai.Js.Date.{Dates, at_or_after}
use vsn_voice_ai.DesktopLink.Record.{DesktopLinkRecord}
use vsn_voice_ai.DesktopLink.Memory.{
  Memory, linked_to, linked_time, is_newer, latest_step, latest_by_device,
}

module _ (dates : Dates) (s o : Text) where
  -- Each record that the loop considers has a time of linking that is a date.
  abbrev pub IsTimed : DesktopLinkRecord → Type 0
  IsTimed r = (not (linked_to s o r) || is_some (linked_time dates r)) ≡ true

  -- `latest` holds, for the device of `r`, a record linked no earlier.
  abbrev pub Covers : Memory → DesktopLinkRecord → Type 0
  Covers latest r =
      (q : DesktopLinkRecord) × (Map.get latest r.device_id ≡ some q)
      × (at_or_after (linked_time dates q) (linked_time dates r) ≡ true)

  abbrev AllTimed : Memory → Type 0
  AllTimed latest =
      (d : Text) (q : DesktopLinkRecord)
      → Map.get latest d ≡ some q
      → is_some (linked_time dates q) ≡ true

  latest_step-AllTimed :
      (r : DesktopLinkRecord) (latest : Memory)
      → IsTimed r
      → AllTimed latest
      → AllTimed (latest_step dates s o r latest)
  unfolding latest_step
  latest_step-AllTimed r latest timed all_timed d q h =
      ground (arith, get-set latest r.device_id d r, text_eq_iff r.device_id d, all_timed d q)

  latest_step-Covers_self :
      (r : DesktopLinkRecord) (latest : Memory)
      → linked_to s o r ≡ true
      → IsTimed r
      → AllTimed latest
      → Covers (latest_step dates s o r latest) r
  unfolding latest_step
  latest_step-Covers_self r latest linked timed all_timed =
      elim (Bool-cases (is_newer dates (Map.get latest r.device_id) r)) [
        | inl newer ↦ (
          r,
          ground (arith, get-set latest r.device_id r.device_id r, text_eq_refl r.device_id),
          ground arith,
        )
        | inr older ↦ elim (Option-cases (Map.get latest r.device_id)) [
          | inl missing ↦ ground arith
          | inr (q, found) ↦ (q, ground arith, ground (arith, all_timed r.device_id q found))
        ]
      ]

  latest_step-Covers :
      (x r : DesktopLinkRecord) (latest : Memory)
      → Covers latest r
      → Covers (latest_step dates s o x latest) r
  unfolding latest_step
  latest_step-Covers x r latest (q, found, later) =
      elim (Bool-cases (linked_to s o x && is_newer dates (Map.get latest x.device_id) x)) [
        | inr kept ↦ (q, ground arith, later)
        | inl stored ↦ elim (Bool-cases (text_eq x.device_id r.device_id)) [
          | inl same ↦ (
            x,
            ground (arith, get-set latest x.device_id r.device_id x),
            ground (arith, (text_eq_iff x.device_id r.device_id).0 same),
          )
          | inr other ↦ (q, ground (arith, get-set latest x.device_id r.device_id x), later)
        ]
      ]

  latest_by_device-Covers :
      (rs : List DesktopLinkRecord) (latest : Memory) (r : DesktopLinkRecord)
      → Covers latest r
      → Covers (latest_by_device dates s o rs latest) r
  unfolding latest_by_device
  latest_by_device-Covers [] latest r h = h
  latest_by_device-Covers (x ∷ rs) latest r h =
      latest_by_device-Covers rs (latest_step dates s o x latest) r
        (latest_step-Covers x r latest h)

  pub latest_by_device-Covers-All :
      (rs : List DesktopLinkRecord) (latest : Memory)
      → All IsTimed rs
      → AllTimed latest
      → All (λ r. linked_to s o r ≡ true → Covers (latest_by_device dates s o rs latest) r) rs
  unfolding latest_by_device
  latest_by_device-Covers-All [] latest h k = tt
  latest_by_device-Covers-All (x ∷ rs) latest (t, h) k = (
    λ linked.
        latest_by_device-Covers rs (latest_step dates s o x latest) x
          (latest_step-Covers_self x latest linked t k),
    latest_by_device-Covers-All rs (latest_step dates s o x latest) h
        (latest_step-AllTimed x latest t k),
  )
