-- ===== src/Organizations/Postgres/Resolved.antt =====
-- postgres-organization-membership-resolver.ts: the memberships that `resolve` returns.
use vsn_voice_ai.Prelude.{
  ◌≡◌, true, ◌||◌, not, Option, some, List, [], ◌∷◌, arith, Option-cases, Bool-cases, inl, inr,
}
use vsn_voice_ai.Js.Text.{Text, text_eq_iff, trim}
use vsn_voice_ai.Js.Value.{Value, str, as_text}
use vsn_voice_ai.Js.Result.{Result, ok, err}
use vsn_voice_ai.Js.Exec.{Exec, proceed, pure}
use vsn_voice_ai.Identity.Principal.{AuthenticatedPrincipal, is_bounded_identifier}
use vsn_voice_ai.Organizations.Membership.{OrganizationMembership}
use vsn_voice_ai.Organizations.Postgres.{
  MembershipRow, to_membership, has_valid_columns, only_membership, status_of, resolve,
}
use vsn_voice_ai.Organizations.Postgres.Tokens.{AreTokens, is_authority_tokens-AreTokens}

-- A membership as the resolver promises it.
pub record IsMembershipOf (subject_id : Text) (m : OrganizationMembership) : Type 0 where
  pub membership_id : is_bounded_identifier m.membership_id 128 ≡ true
  pub subject : m.subject_id ≡ subject_id
  pub organization_id : is_bounded_identifier m.organization_id 128 ≡ true
  pub roles : AreTokens 1 32 128 m.roles
  pub permissions : AreTokens 0 256 160 m.permissions

pub to_membership-IsMembershipOf :
    (row : MembershipRow) (s : Text) (o : Option Text) (m : OrganizationMembership)
    → to_membership row s o ≡ some m
    → IsMembershipOf s m
unfolding to_membership has_valid_columns
to_membership-IsMembershipOf row s o m h = elim (Option-cases (status_of (as_text row.status))) [
  | inl unknown ↦ ground arith
  | inr (st, named) ↦
      let r = is_authority_tokens-AreTokens row.roles 1 32 128 (ground arith) in
      let p = is_authority_tokens-AreTokens row.permissions 0 256 160 (ground arith) in
      record {
        membership_id = ground arith;
        subject = ground (arith, text_eq_iff m.subject_id s);
        organization_id = ground arith;
        roles = ground arith;
        permissions = ground arith;
      }
]

to_membership-organization :
    (row : MembershipRow) (s o : Text) (m : OrganizationMembership)
    → to_membership row s (some o) ≡ some m
    → m.organization_id ≡ o
unfolding to_membership has_valid_columns
to_membership-organization row s o m h = elim (Option-cases (status_of (as_text row.status))) [
  | inl unknown ↦ ground arith
  | inr (st, named) ↦ ground (arith, text_eq_iff m.organization_id o)
]

only_membership-IsMembershipOf :
    (rows : List MembershipRow) (s o : Text) (m : OrganizationMembership)
    → only_membership rows s o ≡ some m
    → IsMembershipOf s m × (m.organization_id ≡ o)
only_membership-IsMembershipOf [] s o m h = cc
only_membership-IsMembershipOf (row ∷ []) s o m h =
    (to_membership-IsMembershipOf row s (some o) m h, to_membership-organization row s o m h)
only_membership-IsMembershipOf (row ∷ other ∷ rows) s o m h = cc

module _ {D E : Type 0} (lookup : List Value → Exec D E (List MembershipRow)) where
  proceed-only_membership :
      (s o : Text) (t : Result E (List MembershipRow) × D) (d' : D) (m : OrganizationMembership)
      → proceed {S = D} {E = E} (λ rows. pure (only_membership rows s o)) t ≡ (ok (some m), d')
      → IsMembershipOf s m × (m.organization_id ≡ o)
  proceed-only_membership s o (ok rows, d) d' m h =
      only_membership-IsMembershipOf rows s o m (ground arith)
  proceed-only_membership s o (err e, d) d' m h = ground arith

  -- Whatever rows the database answers, a membership that `resolve` returns is of the principal's
  -- trimmed subject in the trimmed organization, with bounded identifiers, 1 to 32 different roles and
  -- at most 256 different permissions, each a token of bounded length.
  pub resolve-IsMembershipOf :
      (p : AuthenticatedPrincipal) (o : Text) (d d' : D) (m : OrganizationMembership)
      → resolve lookup p o d ≡ (ok (some m), d')
      → IsMembershipOf (trim p.subject_id) m × (m.organization_id ≡ trim o)
  unfolding resolve
  resolve-IsMembershipOf p o d d' m h =
      elim (Bool-cases (
        not (is_bounded_identifier (trim p.subject_id) 128)
        || not (is_bounded_identifier (trim o) 128))) [
          | inl refused ↦ ground arith
          | inr valid ↦
              proceed-only_membership (trim p.subject_id) (trim o)
                (lookup (str (trim p.subject_id) ∷ str (trim o) ∷ []) d) d' m (ground arith)
        ]
