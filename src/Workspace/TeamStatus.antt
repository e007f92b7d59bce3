-- ===== src/Workspace/TeamStatus.antt =====
-- workspace-team-member-status-repository.ts, postgres-workspace-team-member-status-repository.ts and
-- workspace-team-member-status.controller.ts. The database client is a parameter: the update with its
-- values, that returns rows of any values or throws.
pub mod Changed
pub mod Managed
pub mod Tests
use vsn_voice_ai.Prelude.{
  Bool, true, false, ◌&&◌, ◌||◌, not, Option, none, some, List, [], ◌∷◌, ltb, ◌==◌, length,
  if◌then◌else◌,
}
use vsn_voice_ai.Js.Text.{Text, text, text_eq, trim}
use vsn_voice_ai.Js.Value
use vsn_voice_ai.Js.Value.{Value, str, arr, nil, cons, obj, as_text}
use vsn_voice_ai.Js.Result.{Result, ok, err, map_err}
use vsn_voice_ai.Js.Exec.{Exec, pure, throw, lift, guard, catching, ◌>>=◌, ◌>>◌}
use vsn_voice_ai.Identity.Principal.{
  AuthenticatedPrincipal, is_bounded_identifier, is_bounded_value,
}
use vsn_voice_ai.Identity.Trusted.{
  TrustedPrincipalResolution, authenticated, unauthenticated, unavailable,
}
use vsn_voice_ai.Organizations.Membership.{OrganizationMembership}
use vsn_voice_ai.Organizations.Authorization.{AuthorizationDenial, authorize_tenant_access}
use mathlib.Core.Option.{get_or}

pub data ManagedStatus : Type 0 where
  active suspended : ManagedStatus

abbrev pub status_name : ManagedStatus → Text
status_name active = text "active"
status_name suspended = text "suspended"

pub record StatusResponse : Type 0 where
  pub organization_id : Text
  pub membership_id : Text
  pub status : ManagedStatus

pub data TeamFailure : Type 0 where
  -- TypeError
  invalid_argument : TeamFailure
  denied : AuthorizationDenial → TeamFailure
  mutation_denied data_integrity persistence_unavailable : TeamFailure
  -- whatever the database client throws
  query_failed : TeamFailure

-- WorkspaceTeamMemberStatusRepository
abbrev pub Repository : Type 0 → Type 0
Repository D = Text → Text → Text → ManagedStatus → Exec D TeamFailure (Option StatusResponse)

-- `requireIdentifier` of the repository and of the controller, by the error that it throws
unfoldable pub require_identifier : {E : Type 0} → E → Text → Result E Text
require_identifier invalid value =
    if length (trim value) == 0 || ltb 128 (length (trim value)) || not (text_eq (trim value) value)
    then err invalid
    else ok (trim value)

abbrev pub same_status : ManagedStatus → ManagedStatus → Bool
same_status active active = true
same_status suspended suspended = true
same_status _ _ = false

-- The update that the repository made, if it is the one that was asked for.
abbrev pub confirmed :
    {D : Type 0}
    → Text
    → Text
    → ManagedStatus
    → Option StatusResponse
    → Exec D TeamFailure StatusResponse
confirmed organization_id membership_id status none = throw mutation_denied
confirmed organization_id membership_id status (some u) =
    if not (text_eq u.organization_id organization_id)
      || not (text_eq u.membership_id membership_id)
      || not (same_status u.status status)
    then throw data_integrity
    else pure u

-- changeWorkspaceTeamMemberStatus; a status of the declared type passes its test.
unfoldable pub change_member_status :
    {D : Type 0}
    → Repository D
    → Option AuthenticatedPrincipal
    → Option OrganizationMembership
    → Text
    → Text
    → ManagedStatus
    → Exec D TeamFailure StatusResponse
change_member_status repository principal membership organization_id membership_id status = do
  o ← lift (require_identifier invalid_argument organization_id)
  m ← lift (require_identifier invalid_argument membership_id)
  c ← lift (map_err denied (authorize_tenant_access principal membership o (text "team.manage")))
  updated ← repository c.subject_id o m status
  confirmed o m status updated

pub record StatusRow : Type 0 where
  pub organization_id : Value
  pub membership_id : Value
  pub status : Value

-- allowedOrdinaryPermissions
abbrev pub allowed_ordinary_permissions : Value
allowed_ordinary_permissions = arr (
    cons (str (text "conversation.read"))
      (cons (str (text "team.read")) (cons (str (text "device.link")) nil)))

unfoldable pub managed_status_of : Option Text → Option ManagedStatus
managed_status_of none = none
managed_status_of (some s) =
    if text_eq s (text "active")
    then some active
    else if text_eq s (text "suspended")
    then some suspended
    else none

abbrev pub has_status : Option ManagedStatus → ManagedStatus → Bool
has_status none status = false
has_status (some s) status = same_status s status

abbrev pub column : Value → Text
column v = get_or (as_text v) []

-- The row is valid, and of the update that was asked for.
unfoldable pub is_requested_row : Text → Text → ManagedStatus → StatusRow → Bool
unfolding managed_status_of
is_requested_row organization_id membership_id status row =
    is_bounded_value (as_text row.organization_id) 128
    && is_bounded_value (as_text row.membership_id) 128
    && text_eq (column row.organization_id) organization_id
    && text_eq (column row.membership_id) membership_id
    && has_status (managed_status_of (as_text row.status)) status

-- No row, or the only one if it is the one that was asked for.
abbrev pub updated_row :
    Text → Text → ManagedStatus → List StatusRow → Result TeamFailure (Option StatusResponse)
updated_row organization_id membership_id status [] = ok none
updated_row organization_id membership_id status (row ∷ []) =
    if is_requested_row organization_id membership_id status row
    then ok (
        some (record {
          organization_id = column row.organization_id;
          membership_id = column row.membership_id;
          status = status;
        }))
    else err data_integrity
updated_row organization_id membership_id status (row ∷ more ∷ rows) = err data_integrity

-- PostgresWorkspaceTeamMemberStatusRepository.changeOrdinaryMemberStatus
unfoldable pub postgres_repository :
    {D : Type 0} → (List Value → Exec D TeamFailure (List StatusRow)) → Repository D
unfolding is_requested_row
postgres_repository update actor_subject_id organization_id membership_id status = do
  guard (is_bounded_identifier actor_subject_id 128) invalid_argument
  guard (is_bounded_identifier organization_id 128) invalid_argument
  guard (is_bounded_identifier membership_id 128) invalid_argument
  rows ← update (
      str organization_id
      ∷ str membership_id
      ∷ str actor_subject_id
      ∷ str (status_name status)
      ∷ allowed_ordinary_permissions
      ∷ [])
  lift (updated_row organization_id membership_id status rows)

-- The exceptions by status: 400, 401, 403, 503, and an error that nothing maps.
pub data HttpError : Type 0 where
  bad_request unauthorized forbidden service_unavailable : HttpError
  unmapped : TeamFailure → HttpError

abbrev is_status_key : List Text → Bool
is_status_key (k ∷ []) = text_eq k (text "status")
is_status_key _ = false

abbrev pub checked_status : Option ManagedStatus → Result HttpError ManagedStatus
checked_status none = err bad_request
checked_status (some s) = ok s

unfoldable pub parse_status : Value → Result HttpError ManagedStatus
parse_status (obj fs) =
    if is_status_key (Value.keys fs)
    then checked_status (managed_status_of (as_text (Value.get fs (text "status"))))
    else err bad_request
parse_status _ = err bad_request

-- The last `catch` of `putStatus`.
unfoldable pub status_error : TeamFailure → HttpError
status_error (denied reason) = forbidden
status_error mutation_denied = forbidden
status_error data_integrity = service_unavailable
status_error persistence_unavailable = service_unavailable
status_error other = unmapped other

-- The principal of a request.
abbrev pub require_principal : TrustedPrincipalResolution → Result HttpError AuthenticatedPrincipal
require_principal unauthenticated = err unauthorized
require_principal unavailable = err service_unavailable
require_principal (authenticated p) = ok p

abbrev pub require_membership :
    {E : Type 0}
    → Result E (Option OrganizationMembership)
    → Result HttpError OrganizationMembership
require_membership (err e) = err service_unavailable
require_membership (ok none) = err forbidden
require_membership (ok (some m)) = ok m

-- `putStatus`; the membership resolver is a function that may throw.
unfoldable pub put_status :
    {D E : Type 0}
    → Repository D
    → (AuthenticatedPrincipal → Text → Result E (Option OrganizationMembership))
    → TrustedPrincipalResolution
    → Text
    → Text
    → Value
    → Exec D HttpError StatusResponse
unfolding parse_status
put_status repository memberships identity raw_organization_id raw_membership_id body = do
  organization_id ← lift (require_identifier bad_request raw_organization_id)
  membership_id ← lift (require_identifier bad_request raw_membership_id)
  status ← lift (parse_status body)
  principal ← lift (require_principal identity)
  membership ← lift (require_membership (memberships principal organization_id))
  catching status_error (
      change_member_status repository (some principal) (some membership) organization_id
        membership_id status)
