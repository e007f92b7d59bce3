-- ===== src/Workspace/OrganizationProfile/Saved.antt =====
-- workspace-organization-profile.controller.ts over the Postgres repository: who saves the name of an
-- organization, and who reads it.
use vsn_voice_ai.Prelude.{◌≡◌, refl, sym, ap, subst, ◌∙◌, true, Option, some, List, [], ◌∷◌, arith}
use vsn_voice_ai.Js.Text.{Text, text}
use vsn_voice_ai.Js.Value.{Value, str}
use vsn_voice_ai.Js.Result.{Result, ok}
use vsn_voice_ai.Js.Exec.{Exec}
use vsn_voice_ai.Js.Exec.Inversion.{lift-inv, bind-inv, guard-inv}
use vsn_voice_ai.Identity.Principal.{AuthenticatedPrincipal, is_bounded_identifier}
use vsn_voice_ai.Identity.Trusted.{TrustedPrincipalResolution, authenticated}
use vsn_voice_ai.Organizations.Membership.{OrganizationMembership}
use vsn_voice_ai.Organizations.Authorization.{MayAccess}
use vsn_voice_ai.Workspace.TeamStatus.{TeamFailure, invalid_argument}
use vsn_voice_ai.Workspace.Settings.{is_profile_text}
use vsn_voice_ai.Workspace.Settings.Handled.{handle-IsHandled, IsHandled-handle}
use vsn_voice_ai.Workspace.Settings.Stored.{
  authorize_scope-MayAccess, MayAccess-authorize_scope, one_row-inv, optional_row-one,
}
use vsn_voice_ai.Workspace.OrganizationProfile.Stored.{
  IsBodyOf, IsRowOf, IsTable, to_organization_profile-IsRowOf, parse_organization_profile-IsBodyOf,
}
use vsn_voice_ai.Workspace.OrganizationProfile.{
  OrganizationProfileValues, OrganizationProfileResponse, OrganizationProfileRow,
  to_organization_profile, organization_values, postgres_organization_profiles,
  authorize_organization_profile, save_organization_profile, load_organization_profile,
  parse_organization_profile, get_organization, put_organization,
}

module _ {D E : Type 0}
    (select upsert : List Value → Exec D TeamFailure (List OrganizationProfileRow))
    (memberships : AuthenticatedPrincipal → Text → Result E (Option OrganizationMembership))
    (o : Text) where
  -- What the repository saved: the one row that the statement returned.
  postgres_organization_profiles-put :
      (profile stored : OrganizationProfileValues) (d d' : D)
      → (postgres_organization_profiles select upsert).put_organization_profile o profile d
        ≡ (ok stored, d')
      → (row : OrganizationProfileRow) × (upsert (organization_values o profile) d
          ≡ (ok (row ∷ []), d'))
        × (to_organization_profile o row ≡ ok stored)
  unfolding postgres_organization_profiles
  postgres_organization_profiles-put profile stored d d' h =
      let (scope, h₁) = guard-inv (is_bounded_identifier o 128) invalid_argument _ d h in
      let (valid, h₂) =
        guard-inv (is_profile_text 100 profile.display_name) invalid_argument _ d h₁ in
      let (rows, d₁, answered, h₃) = bind-inv (upsert (organization_values o profile)) _ d h₂ in
      let (row, one, read) = one_row-inv (to_organization_profile o) rows (ap (λ x. x.0) h₃) in
      (
        row,
        answered ∙ ap (λ x. (ok x, d₁)) one ∙ ap (λ x. (ok (row ∷ []), x)) (ap (λ x. x.1) h₃),
        read,
      )

  -- A request that saved the name of an organization.
  pub record IsSaved (identity : TrustedPrincipalResolution) (body : Value)
      (r : OrganizationProfileResponse) (d d' : D) : Type 0 where
    pub principal : AuthenticatedPrincipal
    pub membership : OrganizationMembership
    pub profile : OrganizationProfileValues
    pub row : OrganizationProfileRow
    pub bounded : is_bounded_identifier o 128 ≡ true
    pub known : identity ≡ authenticated principal
    pub member : memberships principal o ≡ ok (some membership)
    pub access : MayAccess principal membership o (text "team.manage")
    pub asked : IsBodyOf body profile
    pub saved : upsert (str o ∷ str profile.display_name ∷ []) d ≡ (ok (row ∷ []), d')
    pub stored : IsRowOf o row r.values
    pub answered : to_organization_profile o row ≡ ok r.values
    pub organization : r.organization_id ≡ o

  -- A request that saves the name of an organization over the Postgres repository comes from an
  -- authenticated principal with access by `team.manage` to the organization of the path. Its body has
  -- a name of at most 100 characters, trimmed and without control characters, and nothing else. The
  -- database was asked once, to store it for that organization, and it returned one row, of that
  -- organization. The response has the name of the row, which is within the same bounds.
  pub put_organization-IsSaved :
      (identity : TrustedPrincipalResolution) (body : Value) (d d' : D)
      (r : OrganizationProfileResponse)
      → put_organization
          (postgres_organization_profiles select upsert)
          memberships
          identity
          o
          body
          d
        ≡ (ok r, d')
      → IsSaved identity body r d d'
  unfolding put_organization save_organization_profile authorize_organization_profile
  put_organization-IsSaved identity body d d' r h =
      let handled =
        handle-IsHandled memberships identity o (parse_organization_profile body) _ d d' r h in
      let p = handled.principal in
      let m = handled.membership in
      let (scope, granted, h₁) =
        lift-inv (authorize_organization_profile (some p) (some m) o (text "team.manage")) _
          handled.done in
      let (may, same) = authorize_scope-MayAccess (text "team.manage") p m o scope granted in
      let (stored, d₁, put, h₂) =
        bind-inv
          ((postgres_organization_profiles select upsert).put_organization_profile scope.1
            handled.body)
          _ d h₁ in
      let (row, saved, read) = postgres_organization_profiles-put handled.body stored d d' (
        subst
          (λ x.
            (postgres_organization_profiles select upsert).put_organization_profile x.1 handled.body
              d
            ≡ (ok stored, d'))
          same (put ∙ ap (λ x. (ok stored, x)) (ap (λ x. x.1) h₂))) in
      let answered : to_organization_profile o row ≡ ok r.values =
        read ∙ ap (λ x. ok x) (ground arith) in
      record {
        principal = p;
        membership = m;
        profile = handled.body;
        row = row;
        bounded = handled.bounded;
        known = handled.known;
        member = handled.member;
        access = may;
        asked = parse_organization_profile-IsBodyOf body handled.body handled.read;
        saved = saved;
        stored = to_organization_profile-IsRowOf o row r.values answered;
        answered = answered;
        organization = ground (arith, same);
      }

  load-saved :
      (p : AuthenticatedPrincipal) (m : OrganizationMembership) (row : OrganizationProfileRow)
      (r : OrganizationProfileResponse) (d : D)
      → is_bounded_identifier o 128 ≡ true
      → MayAccess p m o (text "conversation.read")
      → select (str o ∷ []) d ≡ (ok (row ∷ []), d)
      → to_organization_profile o row ≡ ok r.values
      → r.organization_id ≡ o
      → load_organization_profile
          (postgres_organization_profiles select upsert)
          (some p)
          (some m)
          o
          d
        ≡ (ok r, d)
  unfolding load_organization_profile postgres_organization_profiles authorize_organization_profile
  load-saved p m row r d bounded may found read same =
      let granted = MayAccess-authorize_scope (text "conversation.read") p m o bounded may in
      let one = optional_row-one (to_organization_profile o) row read in
      rw (granted, bounded, found, one)
        (ap (λ x. (ok (record { organization_id = x; values = r.values }), d)) (sym same))

  -- A request that saves a name is authorized by `team.manage` and stores the name of its body in the
  -- organization's row; its response has the name of the body, and that response is later given to
  -- every member with access by `conversation.read`. This holds over a table: the database's upsert
  -- returns the one row of the values that it was given, and its select of that key returns this row
  -- from then on.
  pub put_organization-get_organization :
      IsTable select upsert
      → (writer : TrustedPrincipalResolution) (body : Value) (d d' : D)
        (r : OrganizationProfileResponse)
      → put_organization (postgres_organization_profiles select upsert) memberships writer o body d
        ≡ (ok r, d')
      → (reader : AuthenticatedPrincipal) (m : OrganizationMembership)
      → memberships reader o ≡ ok (some m)
      → MayAccess reader m o (text "conversation.read")
      → IsSaved writer body r d d'
        × IsBodyOf body r.values
        × (get_organization
              (postgres_organization_profiles select upsert)
              memberships
              (authenticated reader)
              o
              d'
            ≡ (ok r, d'))
  unfolding get_organization
  put_organization-get_organization table writer body d d' r h reader m member may =
      let s = put_organization-IsSaved writer body d d' r h in
      let one = table.written _ _ (s.row ∷ []) d d' s.saved in
      let same : s.profile ≡ r.values = ground (arith, one, s.stored.display_name) in
      (
        s,
        subst (IsBodyOf body) same s.asked,
        IsHandled-handle memberships (authenticated reader) o (ok tt)
            (λ p m q body.
              load_organization_profile (postgres_organization_profiles select upsert) (some p)
                (some m) q)
            d' d' r
            (record {
              principal = reader;
              membership = m;
              body = tt;
              bounded = s.bounded;
              known = refl;
              member = member;
              read = refl;
              done =
                  load-saved reader m s.row r d' s.bounded may
                    (table.kept _ _ (s.row ∷ []) d d' s.saved) s.answered s.organization;
            }),
      )
