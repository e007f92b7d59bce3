-- ===== src/Workspace/Settings.antt =====
-- What the repositories and controllers of the workspace's profiles and preferences have in common.
pub mod Handled
pub mod Stored
pub mod Refused
use vsn_voice_ai.Prelude.{
  ℕ, Bool, true, false, ◌&&◌, not, Option, none, some, List, [], ◌∷◌, leb, ◌==◌, length, all,
  if◌then◌else◌,
}
use vsn_voice_ai.Js.Text.{Text, text_eq, trim, includes}
use vsn_voice_ai.Js.Value
use vsn_voice_ai.Js.Value.{Value, Fields, str, as_text}
use vsn_voice_ai.Js.Result
use vsn_voice_ai.Js.Result.{Result, ok, err, map_err}
use vsn_voice_ai.Js.Exec.{Exec, lift, catching, ◌>>=◌}
use vsn_voice_ai.Organizations.Authorization.{authorize_tenant_access}
use vsn_voice_ai.Identity.Principal.{
  AuthenticatedPrincipal, is_bounded_identifier, is_bounded_value,
}
use vsn_voice_ai.Identity.Trusted.{TrustedPrincipalResolution}
use vsn_voice_ai.Organizations.Membership.{OrganizationMembership}
use vsn_voice_ai.Organizations.Postgres.{is_printing, column}
use vsn_voice_ai.Workspace.TeamStatus.{
  TeamFailure, invalid_argument, data_integrity, persistence_unavailable, denied, HttpError,
  bad_request, forbidden, service_unavailable, unmapped, require_identifier, require_principal,
  require_membership,
}
use mathlib.Core.Option.{get_or}

-- `rethrowDomainError`
unfoldable pub domain_error : TeamFailure → HttpError
domain_error (denied reason) = forbidden
domain_error persistence_unavailable = service_unavailable
domain_error data_integrity = service_unavailable
domain_error other = unmapped other

-- The authorization of a request: the caller's subject and the organization.
unfoldable pub authorize_scope :
    Text
    → Option AuthenticatedPrincipal
    → Option OrganizationMembership
    → Text
    → Result TeamFailure (Text × Text)
authorize_scope permission principal membership raw_organization_id =
    Result.◌>>=◌ (require_identifier invalid_argument raw_organization_id) λ organization_id.
      Result.◌>>=◌
        (map_err denied (authorize_tenant_access principal membership organization_id permission))
        λ context. ok (context.subject_id, organization_id)

-- No row, or the only one, read by `read`.
abbrev pub optional_row :
    {R A : Type 0} → (R → Result TeamFailure A) → List R → Result TeamFailure (Option A)
optional_row read [] = ok none
optional_row read (row ∷ []) = elim (read row) [ ok a ↦ ok (some a) | err e ↦ err e ]
optional_row read (row ∷ more ∷ rows) = err data_integrity

-- The one row that a statement must return.
abbrev pub one_row : {R A : Type 0} → (R → Result TeamFailure A) → List R → Result TeamFailure A
one_row read (row ∷ []) = read row
one_row read _ = err data_integrity

-- A text of a profile: at most `max_length` characters, trimmed, without control characters.
unfoldable pub is_profile_text : ℕ → Text → Bool
is_profile_text max_length s = leb (length s) max_length && text_eq (trim s) s && all is_printing s

abbrev pub is_profile_value : ℕ → Value → Bool
is_profile_value max_length (str s) = is_profile_text max_length s
is_profile_value max_length _ = false

-- The keys of a row are those that were asked for.
abbrev pub is_row_of : Text → Value → Bool
is_row_of expected v = is_bounded_value (as_text v) 128 && text_eq (column v) expected

-- The body's keys are those of the list, as many and no others.
abbrev pub has_keys : List Text → Fields → Bool
has_keys names fs = length (Value.keys fs) == length names && all (includes names) (Value.keys fs)

-- The handlers, past the parsing of their body: the context of the request, and what is done in it.
-- The membership resolver is a function that may throw.
abbrev pub handle :
    {D E B R : Type 0}
    → (AuthenticatedPrincipal → Text → Result E (Option OrganizationMembership))
    → TrustedPrincipalResolution
    → Text
    → Result HttpError B
    → (AuthenticatedPrincipal → OrganizationMembership → Text → B → Exec D TeamFailure R)
    → Exec D HttpError R
handle memberships identity raw_organization_id parsed action = do
  organization_id ← lift (require_identifier bad_request raw_organization_id)
  body ← lift parsed
  principal ← lift (require_principal identity)
  membership ← lift (require_membership (memberships principal organization_id))
  catching domain_error (action principal membership organization_id body)
