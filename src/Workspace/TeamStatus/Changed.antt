-- ===== src/Workspace/TeamStatus/Changed.antt =====
-- workspace-team-member-status-repository.ts and its Postgres implementation: what changes a status.
use vsn_voice_ai.Prelude.{
  ◌≡◌, refl, sym, ap, subst, ◌∙◌, ◌↔◌, true, ◌&&◌, Option, none, some, List, [], ◌∷◌, arith,
  Bool-cases, inl, inr,
}
use vsn_voice_ai.Js.Text.{Text, text, text_eq_iff, trim}
use vsn_voice_ai.Js.Value.{Value, str}
use vsn_voice_ai.Js.Result.{Result, ok, err, map_err, Result-cases}
use vsn_voice_ai.Js.Exec.{Exec, proceed}
use vsn_voice_ai.Js.Exec.Inversion.{lift-inv}
use vsn_voice_ai.Identity.Principal.{AuthenticatedPrincipal, is_bounded_identifier}
use vsn_voice_ai.Organizations.Membership.{OrganizationMembership}
use vsn_voice_ai.Organizations.Authorization.{AuthorizationContext, authorize_tenant_access}
use vsn_voice_ai.Workspace.TeamStatus.{
  ManagedStatus, active, suspended, status_name, StatusResponse, TeamFailure, invalid_argument,
  denied, Repository, require_identifier, same_status, confirmed, change_member_status, StatusRow,
  allowed_ordinary_permissions, is_requested_row, updated_row, postgres_repository,
}

pub require_identifier_iff :
    {E : Type 0} (e : E) (value x : Text)
    → (require_identifier e value ≡ ok x) ↔ ((is_bounded_identifier value 128 ≡ true) × (x ≡ value))
unfolding require_identifier is_bounded_identifier
require_identifier_iff e value x = ground (arith, text_eq_iff (trim value) value)

same_status_iff : (a b : ManagedStatus) → (same_status a b ≡ true) ↔ (a ≡ b)
same_status_iff active active = ground arith
same_status_iff active suspended = ground arith
same_status_iff suspended active = ground arith
same_status_iff suspended suspended = ground arith

-- The response to a change.
abbrev pub response : Text → Text → ManagedStatus → StatusResponse
response o m s = record { organization_id = o; membership_id = m; status = s }

confirmed_iff :
    {D : Type 0} (o m : Text) (s : ManagedStatus) (u : Option StatusResponse) (r : StatusResponse)
    (d d' : D)
    → (confirmed o m s u d ≡ (ok r, d'))
      ↔ ((u ≡ some (response o m s)) × (r ≡ response o m s) × (d' ≡ d))
confirmed_iff o m s none r d d' = ground arith
confirmed_iff o m s (some u) r d d' = ground (
  arith,
  text_eq_iff u.organization_id o,
  text_eq_iff u.membership_id m,
  same_status_iff u.status s,
)

pub map_err-inv :
    {E F A : Type 0} (f : E → F) (r : Result E A) {a : A} → map_err f r ≡ ok a → r ≡ ok a
map_err-inv f (ok x) h = ground arith
map_err-inv f (err e) h = ground arith

-- What follows a repository's answer.
proceed-confirmed :
    {D : Type 0} (o m : Text) (s : ManagedStatus)
    (t : Result TeamFailure (Option StatusResponse) × D) (r : StatusResponse) (d' : D)
    → proceed {E = TeamFailure} (confirmed o m s) t ≡ (ok r, d')
    → (t ≡ (ok (some (response o m s)), d')) × (r ≡ response o m s)
proceed-confirmed o m s (err e, d) r d' h = ground arith
proceed-confirmed o m s (ok u, d) r d' h =
    let (eu, er, ed) = (confirmed_iff o m s u r d d').0 h in (ground (arith, eu, ed), er)

module _ {D : Type 0} (repository : Repository D) (principal : Option AuthenticatedPrincipal)
    (membership : Option OrganizationMembership) (o m : Text) (s : ManagedStatus) where
  -- The change is allowed, and the repository confirms it.
  pub record IsChanged (d d' : D) : Type 0 where
    pub context : AuthorizationContext
    pub organization_id : is_bounded_identifier o 128 ≡ true
    pub membership_id : is_bounded_identifier m 128 ≡ true
    pub authorized :
        authorize_tenant_access principal membership o (text "team.manage") ≡ ok context
    pub updated : repository context.subject_id o m s d ≡ (ok (some (response o m s)), d')

  change_member_status-IsChanged :
      (d d' : D) (r : StatusResponse)
      → change_member_status repository principal membership o m s d ≡ (ok r, d')
      → IsChanged d d' × (r ≡ response o m s)
  unfolding change_member_status
  change_member_status-IsChanged d d' r h =
      let (o', eo, h₁) = lift-inv (require_identifier invalid_argument o) _ h in
      let (m', em, h₂) = lift-inv (require_identifier invalid_argument m) _ h₁ in
      let (c, ec, h₃) =
        lift-inv
          (map_err denied (authorize_tenant_access principal membership o' (text "team.manage"))) _
          h₂ in
      let (valid_o, same_o) = (require_identifier_iff invalid_argument o o').0 eo in
      let (valid_m, same_m) = (require_identifier_iff invalid_argument m m').0 em in
      let (updated, er) = proceed-confirmed o' m' s (repository c.subject_id o' m' s d) r d' h₃ in
      (
        record {
          context = c;
          organization_id = valid_o;
          membership_id = valid_m;
          authorized =
              subst
                (λ x. authorize_tenant_access principal membership x (text "team.manage") ≡ ok c)
                same_o (map_err-inv denied _ ec);
          updated =
              subst (λ x. repository c.subject_id x m s d ≡ (ok (some (response x m s)), d')) same_o
                (subst (λ y. repository c.subject_id o' y s d ≡ (ok (some (response o' y s)), d'))
                  same_m updated);
        },
        er ∙ ap (λ x. response x m' s) same_o ∙ ap (λ y. response o y s) same_m,
      )

  IsChanged-change_member_status :
      (d d' : D)
      → IsChanged d d'
      → change_member_status repository principal membership o m s d ≡ (ok (response o m s), d')
  unfolding change_member_status
  IsChanged-change_member_status d d' h =
      let eo = (require_identifier_iff invalid_argument o o).1 (h.organization_id, refl) in
      let em = (require_identifier_iff invalid_argument m m).1 (h.membership_id, refl) in
      let done =
        (confirmed_iff o m s (some (response o m s)) (response o m s) d' d').1 (refl, refl, refl) in
      simp (eo, em, h.authorized, h.updated) done

  -- changeWorkspaceTeamMemberStatus succeeds exactly when the identifiers are bounded and trimmed, the
  -- principal has access by `team.manage` to the organization, and the repository, asked in the
  -- principal's name, confirms the change that was asked for. That is the response then.
  pub change_member_status_iff :
      (d d' : D) (r : StatusResponse)
      → (change_member_status repository principal membership o m s d ≡ (ok r, d'))
        ↔ (IsChanged d d' × (r ≡ response o m s))
  change_member_status_iff d d' r = (
    change_member_status-IsChanged d d' r,
    λ (h, e). IsChanged-change_member_status d d' h ∙ ap (λ x. (ok x, d')) (sym e),
  )

-- The values of the update.
abbrev pub update_values : Text → Text → Text → ManagedStatus → List Value
update_values actor o m s =
    str o ∷ str m ∷ str actor ∷ str (status_name s) ∷ allowed_ordinary_permissions ∷ []

updated_row-inv :
    (o m : Text) (s : ManagedStatus) (rows : List StatusRow) (r : StatusResponse)
    → updated_row o m s rows ≡ ok (some r)
    → (row : StatusRow) × (rows ≡ row ∷ []) × (is_requested_row o m s row ≡ true)
updated_row-inv o m s [] r h = ground arith
updated_row-inv o m s (row ∷ []) r h = (row, refl, ground arith)
updated_row-inv o m s (row ∷ more ∷ rows) r h = ground arith

-- What the Postgres repository confirms, the database has answered: to the one update, with these
-- values, it returned one row.
pub postgres_repository-inv :
    {D : Type 0} (update : List Value → Exec D TeamFailure (List StatusRow)) (actor o m : Text)
    (s : ManagedStatus) (d d' : D) (r : StatusResponse)
    → postgres_repository update actor o m s d ≡ (ok (some r), d')
    → (row : StatusRow) × (update (update_values actor o m s) d ≡ (ok (row ∷ []), d'))
      × (is_requested_row o m s row ≡ true)
unfolding postgres_repository
postgres_repository-inv update actor o m s d d' r h =
    elim (Bool-cases (
      is_bounded_identifier actor 128
      && is_bounded_identifier o 128
      && is_bounded_identifier m 128)) [
        | inr invalid ↦ ground arith
        | inl valid ↦ elim (Result-cases (update (update_values actor o m s) d).0) [
          | inr (e, failed) ↦ ground arith
          | inl (rows, answered) ↦
              let (row, one, requested) = updated_row-inv o m s rows r (ground arith) in
              (row, ground (arith, one), requested)
        ]
      ]
