-- ===== src/Organizations/Postgres/Directory.antt =====
-- postgres-organization-membership-resolver.ts: the directory that `listForPrincipal` returns.
use vsn_voice_ai.Prelude.{
  suc, ◌≤◌, ◌<◌, ◌≡◌, refl, sym, ap, subst, ◌∙◌, ◌↔◌, true, false, Option, none, some, List, [],
  ◌∷◌, map, All, arith, Bool-cases, inl, inr, length, length-take, take, ltb, ltb_iff,
}
use vsn_voice_ai.Js.Text.{Text, trim, includes}
use vsn_voice_ai.Js.Distinct.{DistinctTexts, Unseen, Unseen-cons}
use vsn_voice_ai.Js.Number.{int, pos}
use vsn_voice_ai.Js.Value.{Value, str, num}
use vsn_voice_ai.Js.Result.{ok, Result-cases}
use vsn_voice_ai.Js.Exec.{Exec}
use vsn_voice_ai.Identity.Principal.{AuthenticatedPrincipal, is_bounded_identifier}
use vsn_voice_ai.Organizations.Membership.{OrganizationMembership}
use vsn_voice_ai.Organizations.Postgres.{
  DirectoryRow, DirectoryFailure, OrganizationMembershipDirectoryEntry,
  OrganizationMembershipDirectorySnapshot, to_membership, valid_entry, display_name_of,
  directory_entries, list_for_principal,
}
use vsn_voice_ai.Organizations.Postgres.Resolved.{IsMembershipOf, to_membership-IsMembershipOf}

abbrev pub membership_ids : List OrganizationMembershipDirectoryEntry → List Text
membership_ids es = map (λ e. e.membership.membership_id) es

abbrev pub organization_ids : List OrganizationMembershipDirectoryEntry → List Text
organization_ids es = map (λ e. e.membership.organization_id) es

-- The entries of a subject, no membership and no organization twice.
pub record AreEntriesOf (subject_id : Text) (es : List OrganizationMembershipDirectoryEntry)
    : Type 0 where
  pub own : All (λ e. IsMembershipOf subject_id e.membership) es
  pub distinct_memberships : DistinctTexts (membership_ids es)
  pub distinct_organizations : DistinctTexts (organization_ids es)

valid_entry-IsMembershipOf :
    (r : DirectoryRow) (s : Text) (m : OrganizationMembership)
    → valid_entry (to_membership r.row s none) r.display_name ≡ ok m
    → IsMembershipOf s m
valid_entry-IsMembershipOf r s m h =
    to_membership-IsMembershipOf r.row s none m
      (valid (to_membership r.row s none) r.display_name m h)
  where
    valid :
        (o : Option OrganizationMembership) (v : Value) (m : OrganizationMembership)
        → valid_entry o v ≡ ok m
        → o ≡ some m
    valid none v m h = ground arith
    valid (some x) v m h = ground arith

-- What a round of the `map` did, for a list of entries in the end.
directory_entries-cons :
    (s : Text) (ids organizations : List Text) (r : DirectoryRow) (rs : List DirectoryRow)
    (es : List OrganizationMembershipDirectoryEntry)
    → directory_entries s ids organizations (r ∷ rs) ≡ ok es
    → (e : OrganizationMembershipDirectoryEntry) × (rest : List
        OrganizationMembershipDirectoryEntry)
      × (es ≡ e ∷ rest)
      × (valid_entry (to_membership r.row s none) r.display_name ≡ ok e.membership)
      × (includes ids e.membership.membership_id ≡ false)
      × (includes organizations e.membership.organization_id ≡ false)
      × (directory_entries s
            (e.membership.membership_id ∷ ids)
            (e.membership.organization_id ∷ organizations)
            rs
          ≡ ok rest)
unfolding directory_entries
directory_entries-cons s ids organizations r rs es h =
    elim (Result-cases (valid_entry (to_membership r.row s none) r.display_name)) [
      | inr (e, bad) ↦ ground arith
      | inl (m, good) ↦
          elim (Result-cases
            (directory_entries s (m.membership_id ∷ ids) (m.organization_id ∷ organizations) rs)) [
              | inr (e, bad) ↦ ground arith
              | inl (rest, done) ↦ (
                record {
                  membership = m;
                  organization_display_name = display_name_of r.display_name;
                },
                rest,
                ground arith,
                good,
                ground arith,
                ground arith,
                done,
              )
            ]
    ]

directory_entries-AreEntriesOf :
    (s : Text) (ids organizations : List Text) (rs : List DirectoryRow)
    (es : List OrganizationMembershipDirectoryEntry)
    → directory_entries s ids organizations rs ≡ ok es
    → AreEntriesOf s es
      × Unseen ids (membership_ids es)
      × Unseen organizations (organization_ids es)
      × (length es ≡ length rs)
directory_entries-AreEntriesOf s ids organizations [] es h =
    let e : es ≡ [] = unfold directory_entries in ground arith in
    rw e (record { own = tt; distinct_memberships = tt; distinct_organizations = tt }, tt, tt, refl)
directory_entries-AreEntriesOf s ids organizations (r ∷ rs) es h =
    let (e, rest, shape, valid, new_id, new_organization, done) =
      directory_entries-cons s ids organizations r rs es h in
    let (are, unseen_ids, unseen_organizations, count) =
      directory_entries-AreEntriesOf s (e.membership.membership_id ∷ ids)
        (e.membership.organization_id ∷ organizations) rs rest done in
    let (absent_id, older_ids) =
      Unseen-cons e.membership.membership_id ids (membership_ids rest) unseen_ids in
    let (absent_organization, older_organizations) =
      Unseen-cons e.membership.organization_id organizations (organization_ids rest)
        unseen_organizations in
    rw shape (
      record {
        own = (valid_entry-IsMembershipOf r s e.membership valid, are.own);
        distinct_memberships = (absent_id, are.distinct_memberships);
        distinct_organizations = (absent_organization, are.distinct_organizations);
      },
      (new_id, older_ids),
      (new_organization, older_organizations),
      ap suc count,
    )

module _ {D : Type 0} (directory : List Value → Exec D DirectoryFailure (List DirectoryRow)) where
  -- Whatever rows the database answers, a directory that `listForPrincipal` returns has at most 100
  -- entries, each a valid membership of the principal's trimmed subject, no membership and no
  -- organization twice. There is an entry for each of the first 100 rows, and `hasMore` tells whether
  -- there were more rows.
  pub list_for_principal-AreEntriesOf :
      (p : AuthenticatedPrincipal) (d d' : D) (snapshot : OrganizationMembershipDirectorySnapshot)
      → list_for_principal directory p d ≡ (ok snapshot, d')
      → (rows : List DirectoryRow) × ((directory
            (str (trim p.subject_id) ∷ num (int (pos 101)) ∷ [])
            d)
          ≡ (ok rows, d'))
        × AreEntriesOf (trim p.subject_id) snapshot.memberships
        × (length snapshot.memberships ≡ length (take 100 rows))
        × (length snapshot.memberships ≤ 100)
        × ((snapshot.has_more ≡ true) ↔ (100 < length rows))
  unfolding list_for_principal
  list_for_principal-AreEntriesOf p d d' snapshot h =
      elim (Bool-cases (is_bounded_identifier (trim p.subject_id) 128)) [
        | inr invalid ↦ ground arith
        | inl valid ↦
            elim (Result-cases
              (directory (str (trim p.subject_id) ∷ num (int (pos 101)) ∷ []) d).0) [
                | inr (e, failed) ↦ ground arith
                | inl (rows, answered) ↦
                    elim (Result-cases
                      (directory_entries (trim p.subject_id) [] [] (take 100 rows))) [
                        | inr (e, bad) ↦ ground arith
                        | inl (es, good) ↦
                            let (are, _, _, count) =
                              directory_entries-AreEntriesOf (trim p.subject_id) [] []
                                (take 100 rows) es good in
                            let same : snapshot.memberships ≡ es = ground arith in
                            let more : snapshot.has_more ≡ ltb 100 (length rows) = ground arith in
                            (
                              rows,
                              ground arith,
                              subst (AreEntriesOf (trim p.subject_id)) (sym same) are,
                              ap length same ∙ count,
                              omega (arith, ap length same, count, length-take 100 rows),
                              ground (arith, ltb_iff 100 (length rows)),
                            )
                      ]
              ]
      ]
