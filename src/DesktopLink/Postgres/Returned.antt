-- ===== src/DesktopLink/Postgres/Returned.antt =====
-- postgres-desktop-link-record-store.ts: what the store lets through from any database.
use vsn_voice_ai.Prelude.{
  ℕ, ◌≡◌, Bool, true, false, ◌&&◌, not, Option, none, some, List, [], ◌∷◌, arith, leb, ltb, ◌||◌,
  All, Option-cases, Bool-cases, inl, inr, is_some,
}
use vsn_voice_ai.Js.Text.{Text}
use vsn_voice_ai.Js.Value.{Value, str, num}
use vsn_voice_ai.Js.Number.{int, pos, max_safe_integer}
use vsn_voice_ai.Identity.Principal.{is_bounded_identifier}
use vsn_voice_ai.Js.Result.{Result, ok, err}
use vsn_voice_ai.Js.Exec.{Exec, proceed, pure}
use vsn_voice_ai.Js.Date.{Dates}
use vsn_voice_ai.DesktopLink.Record.{DesktopLinkRecord, is_consumed, Failure}
use vsn_voice_ai.DesktopLink.Postgres.{
  Statement, Row, to_iso_timestamp, to_desktop_link_record, only_record, consumed_records, get,
  query_one, get_desktop_link, list_latest_consumed_desktop_links, consume_if_issued,
  revoke_if_issued, consume_at, revoke_at, list_latest_consumed,
}
use vsn_voice_ai.DesktopLink.Postgres.Rows.{IsWellFormed, to_desktop_link_record-IsWellFormed}

-- The value of a call that returns one has the property; a call that throws has none.
abbrev pub Holds : {E A : Type 0} → (A → Type 0) → Result E A → Type 0
Holds P (ok a) = P a
Holds P (err e) = Unit

abbrev pub Yields : {S E A : Type 0} → (A → Type 0) → Exec S E A → Type 0
Yields {S} P m = (s : S) → Holds P (m s).0

abbrev pub IfAny : (DesktopLinkRecord → Type 0) → Option DesktopLinkRecord → Type 0
IfAny P none = Unit
IfAny P (some r) = P r

-- Whatever a first call returns, the value made of it has the property.
Holds-proceed :
    {S E A B : Type 0} (P : B → Type 0) (f : A → B) (t : Result E A × S)
    → ((a : A) → P (f a))
    → Holds P (proceed {S = S} {E = E} (λ a. pure (f a)) t).0
Holds-proceed P f (ok a, s) h = h a
Holds-proceed P f (err e, s) h = tt

module _ (dates : Dates) where
  only_record-IsWellFormed : (rows : List Row) → IfAny (IsWellFormed dates) (only_record dates rows)
  only_record-IsWellFormed [] = tt
  only_record-IsWellFormed (row ∷ []) = elim (Option-cases (to_desktop_link_record dates row)) [
    | inl none_ ↦ rw none_ tt
    | inr (r, e) ↦ rw e (to_desktop_link_record-IsWellFormed dates row r e)
  ]
  only_record-IsWellFormed (row ∷ more ∷ rows) = tt

  abbrev pub IsListed : DesktopLinkRecord → Type 0
  IsListed r = IsWellFormed dates r × (is_consumed r.status ≡ true) × (is_some r.consumed_at ≡ true)

  consumed_records-IsListed : (rows : List Row) → All IsListed (consumed_records dates rows)
  unfolding consumed_records
  consumed_records-IsListed [] = tt
  consumed_records-IsListed (row ∷ rows) = elim (Option-cases (to_desktop_link_record dates row)) [
    | inl none_ ↦ rw none_ (consumed_records-IsListed rows)
    | inr (r, e) ↦ elim (Bool-cases (is_consumed r.status && is_some r.consumed_at)) [
      | inl kept ↦
          rw (e, kept)
            (
              (to_desktop_link_record-IsWellFormed dates row r e, ground arith, ground arith),
              consumed_records-IsListed rows,
            )
      | inr dropped ↦ rw (e, dropped) (consumed_records-IsListed rows)
    ]
  ]

module _ {D : Type 0} (dates : Dates)
    (query : Statement → List Value → Exec D Failure (List Row)) where
  query_one-Yields :
      (valid : Bool) (q : Statement) (vs : List Value)
      → Yields (IfAny (IsWellFormed dates)) (query_one dates query valid q vs)
  unfolding query_one
  query_one-Yields true q vs s =
      Holds-proceed (IfAny (IsWellFormed dates)) (only_record dates) (query q vs s)
        (only_record-IsWellFormed dates)
  query_one-Yields false q vs s = tt

  consume_at-Yields :
      (id digest : Text) (at : Option Text)
      → Yields (IfAny (IsWellFormed dates)) (consume_at dates query id digest at)
  unfolding consume_at
  consume_at-Yields id digest none s = tt
  consume_at-Yields id digest (some at) s = query_one-Yields _ _ _ s

  revoke_at-Yields :
      (id subject_id organization_id : Text) (at : Option Text)
      → Yields (IfAny (IsWellFormed dates)) (revoke_at dates query id subject_id organization_id at)
  unfolding revoke_at
  revoke_at-Yields id s o none d = tt
  revoke_at-Yields id s o (some at) d = query_one-Yields _ _ _ d

  list-Yields :
      (s o : Text) (limit : ℕ)
      → Yields (All (IsListed dates)) (list_latest_consumed dates query s o limit)
  unfolding list_latest_consumed
  list-Yields s o limit d =
      elim (Bool-cases (
        not (is_bounded_identifier s 128)
        || not (is_bounded_identifier o 128)
        || not (leb limit max_safe_integer)
        || ltb limit 1
        || ltb 100 limit)) [
          | inl refused ↦ rw refused tt
          | inr valid ↦ rw valid (
              Holds-proceed (All (IsListed dates)) (consumed_records dates)
                (query list_latest_consumed_desktop_links
                  (str s ∷ str o ∷ num (int (pos limit)) ∷ []) d)
                (consumed_records-IsListed dates))
        ]

  -- Whatever the database answers, a record that the store returns is well formed, and those that it
  -- lists are consumed, with a time of it.
  pub postgres_store-Yields :
      (id digest at subject_id organization_id : Text) (limit : ℕ)
      → Yields (IfAny (IsWellFormed dates)) (get dates query id)
        × Yields (IfAny (IsWellFormed dates)) (consume_if_issued dates query id digest at)
        × Yields
            (IfAny (IsWellFormed dates))
            (revoke_if_issued dates query id subject_id organization_id at)
        × Yields
            (All (IsListed dates))
            (list_latest_consumed dates query subject_id organization_id limit)
  unfolding get consume_if_issued revoke_if_issued
  postgres_store-Yields id digest at s o limit = (
    query_one-Yields (is_bounded_identifier id 128) get_desktop_link (str id ∷ []),
    consume_at-Yields id digest (to_iso_timestamp dates (str at)),
    revoke_at-Yields id s o (to_iso_timestamp dates (str at)),
    list-Yields s o limit,
  )
