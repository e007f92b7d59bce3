-- ===== src/DesktopLink/Controller.antt =====
-- desktop-link.controller.ts. A request's identity is what the principal resolver returned for it, and
-- the membership resolver is a function that may throw; both are parameters.
pub mod Patterns
pub mod Tenancy
pub mod EndToEnd
pub mod Hidden
use vsn_voice_ai.Prelude.{
  ℕ, ◌≡◌, Bool, true, false, ◌&&◌, ◌||◌, not, Option, none, some, List, [], ◌∷◌, leb, ltb, ◌==◌,
  length, all, map, if◌then◌else◌,
}
use vsn_voice_ai.Js.Text.{Text, text, text_eq, trim, includes}
use vsn_voice_ai.Js.Number.{Number, is_safe_integer}
use vsn_voice_ai.Js.Value
use vsn_voice_ai.Js.Value.{Value, undefined, num, str, obj, Fields}
use vsn_voice_ai.Js.Result
use vsn_voice_ai.Js.Result.{Result, ok, err, map_err}
use vsn_voice_ai.Js.Exec.{Exec, pure, lift, catching, ◌>>=◌, ◌>>◌}
use vsn_voice_ai.Js.Date.{Dates}
use vsn_voice_ai.Identity.Principal.{AuthenticatedPrincipal}
use vsn_voice_ai.Identity.Trusted.{
  TrustedPrincipalResolution, authenticated, unauthenticated, unavailable as identity_unavailable,
}
use vsn_voice_ai.Organizations.Membership.{OrganizationMembership}
use vsn_voice_ai.Organizations.Authorization.{
  AuthorizationContext, AuthorizationDenial, authorize_tenant_access,
}
use vsn_voice_ai.DesktopLink.Record.{DesktopLinkRecordStore, Failure, denied, unavailable}
use vsn_voice_ai.DesktopLink.Service.{
  DesktopLinkIssue, DesktopLinkBinding, DesktopLinkStatusSnapshot, LinkedDesktopInventory, issue,
  consume, inspect, revoke, list_linked,
}
use vsn_voice_ai.DesktopLink.Controller.Patterns.{is_exchange_token, is_record_id}

-- The exceptions by status: 400, 401, 403, 404, 503, and an error that nothing maps.
pub data HttpError : Type 0 where
  bad_request unauthorized forbidden not_found service_unavailable : HttpError
  unmapped : Failure → HttpError

abbrev pub max_identifier_length : ℕ
max_identifier_length = 256

-- The loop over the body's keys.
unfoldable pub only_keys : List Text → List Text → Bool
only_keys [] allowed = true
only_keys (k ∷ ks) allowed = includes allowed k && only_keys ks allowed

unfoldable pub require_closed_object : Value → List Text → Result HttpError Fields
unfolding only_keys
require_closed_object (obj fs) allowed =
    if only_keys (Value.keys fs) allowed then ok fs else err bad_request
require_closed_object _ allowed = err bad_request

-- The trimmed text, if it has 1 to 256 code units.
unfoldable pub require_identifier : Value → Result HttpError Text
require_identifier (str s) =
    if length (trim s) == 0 || ltb max_identifier_length (length (trim s))
    then err bad_request
    else ok (trim s)
require_identifier _ = err bad_request

pub record IssueInput : Type 0 where
  pub device_id : Text
  pub ttl_ms : Option Number

-- `object.ttl_ms`: absent, a safe integer, or refused
unfoldable pub parse_ttl : Value → Result HttpError (Option Number)
parse_ttl undefined = ok none
parse_ttl (num n) = if is_safe_integer n then ok (some n) else err bad_request
parse_ttl _ = err bad_request

unfoldable pub parse_issue_body : Value → Result HttpError IssueInput
unfolding parse_ttl
parse_issue_body body =
    Result.◌>>=◌ (require_closed_object body (text "device_id" ∷ text "ttl_ms" ∷ [])) λ fs.
      Result.◌>>=◌ (require_identifier (Value.get fs (text "device_id"))) λ device_id.
        Result.◌>>=◌ (parse_ttl (Value.get fs (text "ttl_ms")))
          λ ttl_ms. ok (record { device_id = device_id; ttl_ms = ttl_ms })

pub record ConsumeInput : Type 0 where
  pub device_id : Text
  pub exchange_token : Text

unfoldable pub parse_exchange_token : Value → Result HttpError Text
parse_exchange_token (str s) = if is_exchange_token s then ok s else err bad_request
parse_exchange_token _ = err bad_request

unfoldable pub parse_consume_body : Value → Result HttpError ConsumeInput
unfolding parse_exchange_token
parse_consume_body body =
    Result.◌>>=◌ (require_closed_object body (text "device_id" ∷ text "exchange_token" ∷ [])) λ fs.
      Result.◌>>=◌ (require_identifier (Value.get fs (text "device_id"))) λ device_id.
        Result.◌>>=◌ (parse_exchange_token (Value.get fs (text "exchange_token")))
          λ token. ok (record { device_id = device_id; exchange_token = token })

abbrev pub require_organization_id : Text → Result HttpError Text
require_organization_id value = require_identifier (str value)

unfoldable pub require_record_id : Text → Result HttpError Text
require_record_id value = if is_record_id value then ok value else err bad_request

-- The `catch` of `issue`, of `status` and `revoke`, of `consume`, and of `list`.
unfoldable pub issue_error : Failure → HttpError
issue_error unavailable = service_unavailable
issue_error (denied reason) = bad_request
issue_error other = unmapped other

unfoldable pub lookup_error : Failure → HttpError
lookup_error unavailable = service_unavailable
lookup_error (denied reason) = not_found
lookup_error other = unmapped other

unfoldable pub consume_error : Failure → HttpError
consume_error unavailable = service_unavailable
consume_error (denied reason) = forbidden
consume_error other = unmapped other

unfoldable pub list_error : Failure → HttpError
list_error unavailable = service_unavailable
list_error other = unmapped other

pub record DesktopLinkConsumeResponse : Type 0 where
  pub record_id : Text
  pub organization_id : Text
  pub device_id : Text
  pub consumed_at : Text

pub record LinkedDesktopInventoryResponse : Type 0 where
  pub organization_id : Text
  pub inventory : LinkedDesktopInventory

-- The caller of a request and what the membership permits.
pub record AuthorizedContext : Type 0 where
  pub principal : AuthenticatedPrincipal
  pub authorization : AuthorizationContext

abbrev pub Memberships : Type 0
Memberships = AuthenticatedPrincipal → Text → Result Failure (Option OrganizationMembership)

-- `resolveAuthorizedContext` for a principal and what the membership resolver returned.
unfoldable pub authorize_member :
    AuthenticatedPrincipal
    → Text
    → Option OrganizationMembership
    → Result HttpError AuthorizedContext
authorize_member p organization_id none = err forbidden
authorize_member p organization_id (some m) =
    Result.◌>>=◌
      (map_err (λ denial. forbidden)
        (authorize_tenant_access (some p) (some m) organization_id (text "device.link")))
      λ a. ok (record { principal = p; authorization = a })

unfoldable pub resolve_authorized_context :
    Memberships → TrustedPrincipalResolution → Text → Result HttpError AuthorizedContext
unfolding authorize_member
resolve_authorized_context memberships unauthenticated organization_id = err unauthorized
resolve_authorized_context memberships identity_unavailable organization_id =
    err service_unavailable
resolve_authorized_context memberships (authenticated p) organization_id =
    Result.◌>>=◌ (map_err unmapped (memberships p organization_id))
      λ m. authorize_member p organization_id m

module _ {S : Type 0} (store : DesktopLinkRecordStore S) (dates : Dates) (sha256_hex : Text → Text)
    (memberships : Memberships) (identity : TrustedPrincipalResolution)
    (raw_organization_id : Text) where
  unfoldable pub handle_list : Exec S HttpError LinkedDesktopInventoryResponse
  handle_list = do
    organization_id ← lift (require_organization_id raw_organization_id)
    c ← lift (resolve_authorized_context memberships identity organization_id)
    inventory ← catching list_error (list_linked store dates c.principal organization_id)
    pure (record { organization_id = organization_id; inventory = inventory })

  unfoldable pub handle_issue : Value → ℕ → Text → Text → Exec S HttpError DesktopLinkIssue
  handle_issue body now random_id random_token = do
    organization_id ← lift (require_organization_id raw_organization_id)
    input ← lift (parse_issue_body body)
    c ← lift (resolve_authorized_context memberships identity organization_id)
    catching issue_error (
        issue store dates sha256_hex c.authorization input.device_id input.ttl_ms now random_id
          random_token)

  unfoldable pub handle_status : Text → ℕ → Exec S HttpError DesktopLinkStatusSnapshot
  handle_status raw_record_id now = do
    organization_id ← lift (require_organization_id raw_organization_id)
    record_id ← lift (require_record_id raw_record_id)
    c ← lift (resolve_authorized_context memberships identity organization_id)
    catching lookup_error (inspect store dates c.principal organization_id record_id now)

  unfoldable pub handle_revoke : Text → ℕ → Exec S HttpError DesktopLinkStatusSnapshot
  handle_revoke raw_record_id now = do
    organization_id ← lift (require_organization_id raw_organization_id)
    record_id ← lift (require_record_id raw_record_id)
    c ← lift (resolve_authorized_context memberships identity organization_id)
    catching lookup_error (revoke store dates c.principal organization_id record_id now)

  unfoldable pub handle_consume : Text → Value → ℕ → Exec S HttpError DesktopLinkConsumeResponse
  handle_consume raw_record_id body now = do
    organization_id ← lift (require_organization_id raw_organization_id)
    record_id ← lift (require_record_id raw_record_id)
    input ← lift (parse_consume_body body)
    c ← lift (resolve_authorized_context memberships identity organization_id)
    b ← catching consume_error (
        consume store dates sha256_hex c.principal organization_id input.device_id record_id
          input.exchange_token now)
    pure (record {
      record_id = b.record_id;
      organization_id = b.organization_id;
      device_id = b.device_id;
      consumed_at = b.consumed_at;
    })
