-- ===== src/Organizations/Membership.antt =====
-- organization-membership.ts and organization-membership-resolver.ts.
use vsn_voice_ai.Prelude.{Bool, true, false, List}
use vsn_voice_ai.Js.Text.{Text}

pub data MembershipStatus : Type 0 where
  active invited suspended : MembershipStatus

abbrev pub is_active : MembershipStatus → Bool
is_active active = true
is_active _ = false

pub record OrganizationMembership : Type 0 where
  pub membership_id : Text
  pub subject_id : Text
  pub organization_id : Text
  pub status : MembershipStatus
  pub roles : List Text
  pub permissions : List Text
