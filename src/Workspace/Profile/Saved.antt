-- ===== src/Workspace/Profile/Saved.antt =====
-- workspace-profile.controller.ts over the Postgres repository: what is saved, and reads after it.
use vsn_voice_ai.Prelude.{◌≡◌, refl, sym, ap, subst, ◌∙◌, true, Option, some, List, [], ◌∷◌, arith}
use vsn_voice_ai.Js.Text.{Text, text}
use vsn_voice_ai.Js.Value.{Value, str}
use vsn_voice_ai.Js.Result.{Result, ok}
use vsn_voice_ai.Js.Exec.{Exec}
use vsn_voice_ai.Js.Exec.Inversion.{lift-inv, bind-inv, guard-inv}
use vsn_voice_ai.Identity.Principal.{AuthenticatedPrincipal, is_bounded_identifier}
use vsn_voice_ai.Identity.Trusted.{TrustedPrincipalResolution, authenticated}
use vsn_voice_ai.Organizations.Membership.{OrganizationMembership}
use vsn_voice_ai.Organizations.Authorization.{MayAccess}
use vsn_voice_ai.Workspace.TeamStatus.{TeamFailure, invalid_argument}
use vsn_voice_ai.Workspace.Settings.Handled.{handle-IsHandled, IsHandled-handle}
use vsn_voice_ai.Workspace.Settings.Stored.{
  authorize_scope-MayAccess, one_row-inv, optional_row-one,
}
use vsn_voice_ai.Workspace.Profile.Stored.{
  IsBodyOf, IsRowOf, to_profile-IsRowOf, parse_profile-IsBodyOf,
}
use vsn_voice_ai.Workspace.Profile.{
  WorkspaceProfileValues, WorkspaceProfileResponse, WorkspaceProfileRow, is_scope, is_profile,
  to_profile, profile_values, postgres_profiles, authorize_profile, save_workspace_profile,
  load_workspace_profile, parse_profile, get_profile, put_profile,
}

module _ {D E : Type 0} (select upsert : List Value → Exec D TeamFailure (List WorkspaceProfileRow))
    (memberships : AuthenticatedPrincipal → Text → Result E (Option OrganizationMembership))
    (identity : TrustedPrincipalResolution) (o : Text) where
  -- What the repository saved: the one row that the statement returned.
  postgres_profiles-put :
      (s : Text) (profile stored : WorkspaceProfileValues) (d d' : D)
      → (postgres_profiles select upsert).put_profile s o profile d ≡ (ok stored, d')
      → (row : WorkspaceProfileRow) × (is_scope s o ≡ true)
        × (upsert (profile_values s o profile) d ≡ (ok (row ∷ []), d'))
        × (to_profile s o row ≡ ok stored)
  unfolding postgres_profiles
  postgres_profiles-put s profile stored d d' h =
      let (scope, h₁) = guard-inv (is_scope s o) invalid_argument _ d h in
      let (valid, h₂) = guard-inv (is_profile profile) invalid_argument _ d h₁ in
      let (rows, d₁, answered, h₃) = bind-inv (upsert (profile_values s o profile)) _ d h₂ in
      let (row, one, read) = one_row-inv (to_profile s o) rows (ap (λ x. x.0) h₃) in
      (
        row,
        scope,
        answered ∙ ap (λ x. (ok x, d₁)) one ∙ ap (λ x. (ok (row ∷ []), x)) (ap (λ x. x.1) h₃),
        read,
      )

  -- A request that saved a profile.
  pub record IsSaved (body : Value) (r : WorkspaceProfileResponse) (d d' : D) : Type 0 where
    pub principal : AuthenticatedPrincipal
    pub membership : OrganizationMembership
    pub profile : WorkspaceProfileValues
    pub row : WorkspaceProfileRow
    pub bounded : is_bounded_identifier o 128 ≡ true
    pub known : identity ≡ authenticated principal
    pub member : memberships principal o ≡ ok (some membership)
    pub access : MayAccess principal membership o (text "conversation.read")
    pub asked : IsBodyOf body profile
    pub saved :
        upsert
          (str o ∷ str principal.subject_id ∷ str profile.display_name ∷ str profile.job_title ∷ [])
          d
        ≡ (ok (row ∷ []), d')
    pub stored : IsRowOf principal.subject_id o row r.values
    pub answered : to_profile principal.subject_id o row ≡ ok r.values
    pub organization : r.organization_id ≡ o
    pub scope : is_scope principal.subject_id o ≡ true
    pub handled :
        authorize_profile (some principal) (some membership) o ≡ ok (principal.subject_id, o)

  -- A request that saves a profile over the Postgres repository comes from an authenticated principal
  -- with access by `conversation.read` to the organization of the path. Its body has a name of at most
  -- 80 characters and a title of at most 120, trimmed and without control characters, and nothing else.
  -- The database was asked once, to store these two for that principal's subject in that organization,
  -- and it returned one row, of that subject and that organization. The response has the name and title
  -- of the row, which are within the same bounds.
  pub put_profile-IsSaved :
      (body : Value) (d d' : D) (r : WorkspaceProfileResponse)
      → put_profile (postgres_profiles select upsert) memberships identity o body d ≡ (ok r, d')
      → IsSaved body r d d'
  unfolding put_profile save_workspace_profile authorize_profile
  put_profile-IsSaved body d d' r h =
      let handled = handle-IsHandled memberships identity o (parse_profile body) _ d d' r h in
      let p = handled.principal in
      let m = handled.membership in
      let (scope, granted, h₁) = lift-inv (authorize_profile (some p) (some m) o) _ handled.done in
      let (may, same) = authorize_scope-MayAccess (text "conversation.read") p m o scope granted in
      let (stored, d₁, put, h₂) =
        bind-inv ((postgres_profiles select upsert).put_profile scope.0 scope.1 handled.body) _ d
          h₁ in
      let (row, valid, saved, read) = postgres_profiles-put p.subject_id handled.body stored d d' (
        subst
          (λ x.
            (postgres_profiles select upsert).put_profile x.0 x.1 handled.body d ≡ (ok stored, d'))
          same (put ∙ ap (λ x. (ok stored, x)) (ap (λ x. x.1) h₂))) in
      let answered : to_profile p.subject_id o row ≡ ok r.values =
        read ∙ ap (λ x. ok x) (ground arith) in
      record {
        principal = p;
        membership = m;
        profile = handled.body;
        row = row;
        bounded = handled.bounded;
        known = handled.known;
        member = handled.member;
        access = may;
        asked = parse_profile-IsBodyOf body handled.body handled.read;
        saved = saved;
        stored = to_profile-IsRowOf p.subject_id o row r.values answered;
        answered = answered;
        organization = ground (arith, same);
        scope = valid;
        handled = granted ∙ ap (λ x. ok x) same;
      }

  load-saved :
      (body : Value) (r : WorkspaceProfileResponse) (d d' : D) (h : IsSaved body r d d')
      → select (str o ∷ str h.principal.subject_id ∷ []) d' ≡ (ok (h.row ∷ []), d')
      → load_workspace_profile
          (postgres_profiles select upsert)
          (some h.principal)
          (some h.membership)
          o
          d'
        ≡ (ok r, d')
  unfolding load_workspace_profile postgres_profiles
  load-saved body r d d' h found =
      let one = optional_row-one (to_profile h.principal.subject_id o) h.row h.answered in
      rw (h.handled, h.scope, found, one)
        (ap (λ x. (ok (record { organization_id = x; values = r.values }), d'))
          (sym h.organization))

  -- What a request saved, a later read by the same caller answers, if the database's select returns
  -- the rows that its upsert returned.
  pub put_profile-get_profile :
      ((s : Text) (profile : WorkspaceProfileValues) (rows : List WorkspaceProfileRow) (d d' : D)
        → upsert (profile_values s o profile) d ≡ (ok rows, d')
        → select (str o ∷ str s ∷ []) d' ≡ (ok rows, d'))
      → (body : Value) (d d' : D) (r : WorkspaceProfileResponse)
      → put_profile (postgres_profiles select upsert) memberships identity o body d ≡ (ok r, d')
      → get_profile (postgres_profiles select upsert) memberships identity o d' ≡ (ok r, d')
  unfolding get_profile
  put_profile-get_profile keeps body d d' r h =
      let s = put_profile-IsSaved body d d' r h in
      IsHandled-handle memberships identity o (ok tt)
        (λ p m q body. load_workspace_profile (postgres_profiles select upsert) (some p) (some m) q)
        d' d' r
        (record {
          principal = s.principal;
          membership = s.membership;
          body = tt;
          bounded = s.bounded;
          known = s.known;
          member = s.member;
          read = refl;
          done =
              load-saved body r d d' s
                (keeps s.principal.subject_id s.profile (s.row ∷ []) d d' s.saved);
        })
