-- ===== src/DesktopLink/Memory/Latest.antt =====
-- desktop-link-record.ts: the latest consumed record of each device, as `latestByDevice` holds it.
use vsn_voice_ai.Prelude.{
  ◌≡◌, refl, true, false, ◌&&◌, List, [], ◌∷◌, arith, Bool-cases, inl, inr, All,
}
use vsn_voice_ai.Js.Text.{Text, text_eq}
use vsn_voice_ai.Js.Map
use vsn_voice_ai.Js.Map.{DistinctKeys}
use vsn_voice_ai.Js.Date.{Dates}
use vsn_voice_ai.DesktopLink.Record.{DesktopLinkRecord}
use vsn_voice_ai.DesktopLink.Memory.{Memory, linked_to, is_newer, latest_step, latest_by_device}
use vsn_voice_ai.DesktopLink.Memory.Sorting.{DistinctDevices}

-- An entry of `latestByDevice`.
abbrev pub IsEntry : Text → Text → Text × DesktopLinkRecord → Type 0
IsEntry subject_id organization_id e =
    (e.1.device_id ≡ e.0) × (linked_to subject_id organization_id e.1 ≡ true)

pub IsEntry-device :
    (subject_id organization_id : Text) (m : Memory)
    → All (IsEntry subject_id organization_id) m
    → DistinctKeys m
    → DistinctDevices (Map.values m)
IsEntry-device s o [] h d = tt
IsEntry-device s o ((k, r) ∷ m) (e, h) (new, d) = (differs m h new, IsEntry-device s o m h d)
  where
    differs :
        (m : Memory)
        → All (IsEntry s o) m
        → All (λ f. text_eq k f.0 ≡ false) m
        → All (λ q. text_eq r.device_id q.device_id ≡ false) (Map.values m)
    differs [] h n = tt
    differs ((j, q) ∷ m) (f, h) (n, ns) = (rw (e.0, f.0) n, differs m h ns)

pub IsEntry-linked :
    (subject_id organization_id : Text) (m : Memory)
    → All (IsEntry subject_id organization_id) m
    → All (λ r. linked_to subject_id organization_id r ≡ true) (Map.values m)
IsEntry-linked s o [] h = tt
IsEntry-linked s o (e ∷ m) (p, h) = (p.1, IsEntry-linked s o m h)

module _ (dates : Dates) (subject_id organization_id : Text) where
  abbrev pub IsLatest : Memory → Type 0
  IsLatest m = All (IsEntry subject_id organization_id) m × DistinctKeys m

  latest_step-IsLatest :
      (r : DesktopLinkRecord) (m : Memory)
      → IsLatest m
      → IsLatest (latest_step dates subject_id organization_id r m)
  unfolding latest_step
  latest_step-IsLatest r m (h, d) =
      elim (Bool-cases
        (linked_to subject_id organization_id r && is_newer dates (Map.get m r.device_id) r)) [
          | inr skipped ↦ rw skipped (h, d)
          | inl stored ↦ rw stored (
            Map.All-set (IsEntry subject_id organization_id) m r.device_id r (refl, ground arith) h,
            Map.DistinctKeys-set m r.device_id r d,
          )
        ]

  pub latest_by_device-IsLatest :
      (rs : List DesktopLinkRecord) (m : Memory)
      → IsLatest m
      → IsLatest (latest_by_device dates subject_id organization_id rs m)
  unfolding latest_by_device
  latest_by_device-IsLatest [] m h = h
  latest_by_device-IsLatest (r ∷ rs) m h =
      latest_by_device-IsLatest rs _ (latest_step-IsLatest r m h)
