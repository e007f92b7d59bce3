-- ===== src/DesktopLink/Postgres/Rows.antt =====
-- postgres-desktop-link-record-store.ts: the records that rows become.
use vsn_voice_ai.Prelude.{
  ℕ, ◌≤◌, ◌≡◌, refl, subst, ◌↔◌, true, false, Option, none, some, arith, Option-cases, inl, inr,
  is_some,
}
use vsn_voice_ai.Js.Text.{Text, text_eq}
use vsn_voice_ai.Js.Value.{Value, null, str, date, as_text}
use vsn_voice_ai.Js.Date.{Dates, at_or_after, max_time}
use vsn_voice_ai.Identity.Principal.{is_bounded_identifier}
use vsn_voice_ai.DesktopLink.Record.{
  DesktopLinkRecord, DesktopLinkStatus, issued, consumed, revoked, expired, is_consumed,
}
use vsn_voice_ai.DesktopLink.Postgres.{
  Row, row_of, is_sha256_hex, status_name, status_of, to_iso_timestamp, consumed_timestamp,
  coherent, has_valid_columns, record_of, to_desktop_link_record, nullable_text,
}

-- A text that the language printed as a date.
abbrev pub IsIso : Dates → Text → Type 0
IsIso dates s = (t : ℕ) × (t ≤ max_time) × (s ≡ dates.to_iso t)

abbrev pub IsIsoIfAny : Dates → Option Text → Type 0
IsIsoIfAny dates none = Unit
IsIsoIfAny dates (some s) = IsIso dates s

-- A record as the store promises it.
pub record IsWellFormed (dates : Dates) (r : DesktopLinkRecord) : Type 0 where
  pub record_id : is_bounded_identifier r.record_id 128 ≡ true
  pub digest : is_sha256_hex r.token_digest ≡ true
  pub subject_id : is_bounded_identifier r.subject_id 128 ≡ true
  pub organization_id : is_bounded_identifier r.organization_id 128 ≡ true
  pub device_id : is_bounded_identifier r.device_id 256 ≡ true
  pub issued_iso : IsIso dates r.issued_at
  pub expires_iso : IsIso dates r.expires_at
  pub ends : at_or_after (dates.parse r.issued_at) (dates.parse r.expires_at) ≡ false
  pub used : is_consumed r.status ≡ is_some r.consumed_at
  pub used_iso : IsIsoIfAny dates r.consumed_at

to_iso_timestamp-IsIso :
    (dates : Dates) (v : Value) (s : Text) → to_iso_timestamp dates v ≡ some s → IsIso dates s
unfolding to_iso_timestamp
to_iso_timestamp-IsIso dates (date (some t)) s h = (t, ground arith, ground arith)
to_iso_timestamp-IsIso dates (date none) s h = cc
to_iso_timestamp-IsIso dates (str x) s h = elim (Option-cases (dates.parse x)) [
  | inl bad ↦ ground arith
  | inr (t, good) ↦ (t, ground arith, ground arith)
]
to_iso_timestamp-IsIso dates _ s h = cc

-- A printed date is read back as it is.
to_iso_timestamp-str :
    (dates : Dates) (s : Text) → IsIso dates s → to_iso_timestamp dates (str s) ≡ some s
unfolding to_iso_timestamp
to_iso_timestamp-str dates s (t, small, e) = ground (arith, dates.parse-to_iso t small)

some-IsIsoIfAny :
    (dates : Dates) (o : Option Text)
    → ((s : Text) → o ≡ some s → IsIso dates s)
    → IsIsoIfAny dates o
some-IsIsoIfAny dates none h = tt
some-IsIsoIfAny dates (some s) h = h s refl

consumed_timestamp-IsIso :
    (dates : Dates) (v : Value) → IsIsoIfAny dates (consumed_timestamp dates v)
unfolding consumed_timestamp
consumed_timestamp-IsIso dates null = tt
consumed_timestamp-IsIso dates v =
    some-IsIsoIfAny dates (to_iso_timestamp dates v) (to_iso_timestamp-IsIso dates v)

status_of-name : (st : DesktopLinkStatus) → status_of (some (status_name st)) ≡ some st
unfolding status_of text_eq
status_of-name issued = refl
status_of-name consumed = refl
status_of-name revoked = refl
status_of-name expired = refl

consumed_timestamp-nullable :
    (dates : Dates) (at : Option Text)
    → IsIsoIfAny dates at
    → consumed_timestamp dates (nullable_text at) ≡ at
unfolding consumed_timestamp
consumed_timestamp-nullable dates none h = refl
consumed_timestamp-nullable dates (some s) h = to_iso_timestamp-str dates s h

record_of-IsWellFormed :
    (dates : Dates) (row : Row) (st : DesktopLinkStatus) (i x : Text) (at : Option Text)
    → has_valid_columns row ≡ true
    → coherent dates st i x at ≡ true
    → IsIso dates i
    → IsIso dates x
    → IsIsoIfAny dates at
    → IsWellFormed dates (record_of row st i x at)
unfolding has_valid_columns coherent
record_of-IsWellFormed dates row st i x at columns whole iso_i iso_x iso_at = record {
  record_id = ground arith;
  digest = ground arith;
  subject_id = ground arith;
  organization_id = ground arith;
  device_id = ground arith;
  issued_iso = iso_i;
  expires_iso = iso_x;
  ends = ground arith;
  used = ground arith;
  used_iso = iso_at;
}

pub to_desktop_link_record-IsWellFormed :
    (dates : Dates) (row : Row) (r : DesktopLinkRecord)
    → to_desktop_link_record dates row ≡ some r
    → IsWellFormed dates r
unfolding to_desktop_link_record
to_desktop_link_record-IsWellFormed dates row r h =
    elim (Option-cases (status_of (as_text row.status))) [
      | inl none_ ↦ ground arith
      | inr (st, named) ↦ elim (Option-cases (to_iso_timestamp dates row.issued_at)) [
        | inl none_ ↦ ground arith
        | inr (i, dated_i) ↦ elim (Option-cases (to_iso_timestamp dates row.expires_at)) [
          | inl none_ ↦ ground arith
          | inr (x, dated_x) ↦
              let at = consumed_timestamp dates row.consumed_at in
              let same : record_of row st i x at ≡ r = ground arith in
              subst (IsWellFormed dates) same (
                record_of-IsWellFormed dates row st i x at (ground arith) (ground arith)
                  (to_iso_timestamp-IsIso dates row.issued_at i dated_i)
                  (to_iso_timestamp-IsIso dates row.expires_at x dated_x)
                  (consumed_timestamp-IsIso dates row.consumed_at))
        ]
      ]
    ]

to_desktop_link_record-row_of :
    (dates : Dates) (r : DesktopLinkRecord)
    → IsWellFormed dates r
    → to_desktop_link_record dates (row_of r) ≡ some r
unfolding to_desktop_link_record has_valid_columns coherent
to_desktop_link_record-row_of dates r w =
    simp
      (
        w.record_id,
        w.digest,
        w.subject_id,
        w.organization_id,
        w.device_id,
        status_of-name r.status,
        to_iso_timestamp-str dates r.issued_at w.issued_iso,
        to_iso_timestamp-str dates r.expires_at w.expires_iso,
        consumed_timestamp-nullable dates r.consumed_at w.used_iso,
        w.ends,
        w.used,
      )
      (ground arith)

-- The records that some row becomes are the well-formed ones, and these are the records that their
-- own row becomes.
pub to_desktop_link_record_iff :
    (dates : Dates) (r : DesktopLinkRecord)
    → (((row : Row) × (to_desktop_link_record dates row ≡ some r)) ↔ IsWellFormed dates r)
      × ((to_desktop_link_record dates (row_of r) ≡ some r) ↔ IsWellFormed dates r)
to_desktop_link_record_iff dates r = (
  (
    λ (row, h). to_desktop_link_record-IsWellFormed dates row r h,
    λ w. (row_of r, to_desktop_link_record-row_of dates r w),
  ),
  (to_desktop_link_record-IsWellFormed dates (row_of r) r, to_desktop_link_record-row_of dates r),
)
