-- ===== src/DesktopLink/Tests.antt =====
-- The data of the device link's tests: one exchange, issued, and the parameters.
pub mod Consuming
pub mod Storing
pub mod Serving
use vsn_voice_ai.Prelude.{ℕ, ◌≡◌, refl, Bool, true, false, Option, none, some, List, [], ◌∷◌, ◌++◌}
use vsn_voice_ai.Js.Text.{Text, text}
use vsn_voice_ai.Js.Result.{Result, ok}
use vsn_voice_ai.Js.Date.{Dates}
use vsn_voice_ai.Identity.Principal.{AuthenticatedPrincipal}
use vsn_voice_ai.Identity.Trusted.{TrustedPrincipalResolution, authenticated}
use vsn_voice_ai.Organizations.Membership.{OrganizationMembership, active}
use vsn_voice_ai.Organizations.Authorization.{AuthorizationContext, context_of}
use vsn_voice_ai.DesktopLink.Record.{DesktopLinkRecord, Failure, issued, consumed}
use vsn_voice_ai.DesktopLink.Memory.{Memory}

abbrev read_instant : Text → Option ℕ
read_instant (t ∷ []) = some t
read_instant _ = none

-- Dates written as one unit.
abbrev pub one_unit_dates : Dates
one_unit_dates = record {
  to_iso = λ t. t ∷ [];
  parse = read_instant;
  parse-to_iso = λ t small. refl;
}

abbrev pub never_after : Text → Text → Bool
never_after left right = false

abbrev pub prefixed : Text → Text
prefixed s = text "ab" ++ s

abbrev pub acme : Text
acme = text "acme"

abbrev pub laptop : Text
laptop = text "laptop"

abbrev pub link : Text
link = text "link-1"

abbrev pub token : Text
token = text "0f"

abbrev pub ann : AuthenticatedPrincipal
ann = record { subject_id = text "ann"; session_id = none }

abbrev pub bob : AuthenticatedPrincipal
bob = record { subject_id = text "bob"; session_id = none }

abbrev pub membership : OrganizationMembership
membership = record {
  membership_id = text "m1";
  subject_id = text "ann";
  organization_id = acme;
  status = active;
  roles = [];
  permissions = text "device.link" ∷ [];
}

abbrev pub link_context : AuthorizationContext
link_context = context_of ann membership

abbrev pub one_member :
    AuthenticatedPrincipal → Text → Result Failure (Option OrganizationMembership)
one_member p organization_id = ok (some membership)

abbrev pub ann_signed_in : TrustedPrincipalResolution
ann_signed_in = authenticated ann

-- Issued at 1000 for 60 seconds.
abbrev pub open_record : DesktopLinkRecord
open_record = record {
  record_id = link;
  token_digest = prefixed token;
  subject_id = text "ann";
  organization_id = acme;
  device_id = laptop;
  issued_at = 1000 ∷ [];
  expires_at = 61000 ∷ [];
  status = issued;
  consumed_at = none;
}

abbrev pub used_record : DesktopLinkRecord
used_record = record open_record { status = consumed; consumed_at = some (2000 ∷ []) }

abbrev pub open_store : Memory
open_store = (link, open_record) ∷ []

abbrev pub used_store : Memory
used_store = (link, used_record) ∷ []
