-- ===== src/Workspace/Preferences/Saved.antt =====
-- workspace-notification-preferences.controller.ts over the Postgres repository: what is saved, and reads after it.
use vsn_voice_ai.Prelude.{
  ◌≡◌, refl, sym, ap, subst, ◌∙◌, inl, inr, true, Option, some, List, [], ◌∷◌, arith,
}
use vsn_voice_ai.Js.Text.{Text, text, text_eq_iff, trim}
use vsn_voice_ai.Js.Value.{Value, bool, str}
use vsn_voice_ai.Js.Result.{Result, ok, Result-cases}
use vsn_voice_ai.Js.Exec.{Exec}
use vsn_voice_ai.Js.Exec.Inversion.{lift-inv, bind-inv, guard-inv}
use vsn_voice_ai.Identity.Principal.{AuthenticatedPrincipal, is_bounded_identifier}
use vsn_voice_ai.Identity.Trusted.{TrustedPrincipalResolution, authenticated}
use vsn_voice_ai.Organizations.Membership.{OrganizationMembership}
use vsn_voice_ai.Organizations.Authorization.{
  MayAccess, authorize_tenant_access, authorize_tenant_access-MayAccess,
}
use vsn_voice_ai.Workspace.TeamStatus.{TeamFailure, invalid_argument}
use vsn_voice_ai.Workspace.Settings.Handled.{handle-IsHandled, IsHandled-handle}
use vsn_voice_ai.Workspace.Settings.Stored.{one_row-inv, optional_row-one}
use vsn_voice_ai.Workspace.Preferences.Stored.{
  IsBodyOf, IsRowOf, IsTable, to_preferences-IsRowOf, parse_preferences-IsBodyOf,
}
use vsn_voice_ai.Workspace.Preferences.{
  PreferenceValues, PreferencesResponse, PreferencesRow, is_scope, to_preferences,
  preference_values, postgres_preferences, authorize_preferences, save_preferences,
  load_preferences, parse_preferences, get_preferences, put_preferences,
}

authorize_preferences-MayAccess :
    (p : AuthenticatedPrincipal) (m : OrganizationMembership) (o : Text) (scope : Text × Text)
    → is_bounded_identifier o 128 ≡ true
    → authorize_preferences (some p) (some m) o ≡ ok scope
    → MayAccess p m o (text "conversation.read") × (scope ≡ (p.subject_id, o))
unfolding authorize_preferences is_bounded_identifier
authorize_preferences-MayAccess p m o scope bounded h =
    let same : trim o ≡ o = (text_eq_iff (trim o) o).0 (ground arith) in
    elim (Result-cases
      (authorize_tenant_access (some p) (some m) (trim o) (text "conversation.read"))) [
        | inr (e, refused) ↦ ground arith
        | inl (c, granted) ↦
            let (may, context) =
              authorize_tenant_access-MayAccess p m o (text "conversation.read") c (
                subst
                  (λ x.
                    authorize_tenant_access (some p) (some m) x (text "conversation.read") ≡ ok c)
                  same granted) in
            (may, ground (arith, same, context))
      ]

module _ {D E : Type 0} (select upsert : List Value → Exec D TeamFailure (List PreferencesRow))
    (memberships : AuthenticatedPrincipal → Text → Result E (Option OrganizationMembership))
    (identity : TrustedPrincipalResolution) (o : Text) where
  -- What the repository saved: the one row that the statement returned.
  postgres_preferences-put :
      (s : Text) (preferences stored : PreferenceValues) (d d' : D)
      → (postgres_preferences select upsert).put s o preferences d ≡ (ok stored, d')
      → (row : PreferencesRow) × (is_scope s o ≡ true)
        × (upsert (preference_values s o preferences) d ≡ (ok (row ∷ []), d'))
        × (to_preferences s o row ≡ ok stored)
  unfolding postgres_preferences
  postgres_preferences-put s preferences stored d d' h =
      let (scope, h₁) = guard-inv (is_scope s o) invalid_argument _ d h in
      let (rows, d₁, answered, h₃) = bind-inv (upsert (preference_values s o preferences)) _ d h₁ in
      let (row, one, read) = one_row-inv (to_preferences s o) rows (ap (λ x. x.0) h₃) in
      (
        row,
        scope,
        answered ∙ ap (λ x. (ok x, d₁)) one ∙ ap (λ x. (ok (row ∷ []), x)) (ap (λ x. x.1) h₃),
        read,
      )

  -- A request that saved preferences.
  pub record IsSaved (body : Value) (r : PreferencesResponse) (d d' : D) : Type 0 where
    pub principal : AuthenticatedPrincipal
    pub membership : OrganizationMembership
    pub preferences : PreferenceValues
    pub row : PreferencesRow
    pub bounded : is_bounded_identifier o 128 ≡ true
    pub known : identity ≡ authenticated principal
    pub member : memberships principal o ≡ ok (some membership)
    pub access : MayAccess principal membership o (text "conversation.read")
    pub asked : IsBodyOf body preferences
    pub saved :
        upsert
          (str o
            ∷ str principal.subject_id
            ∷ bool preferences.meeting_reminders
            ∷ bool preferences.transcript_ready
            ∷ bool preferences.action_items
            ∷ bool preferences.desktop_link_events
            ∷ [])
          d
        ≡ (ok (row ∷ []), d')
    pub stored : IsRowOf principal.subject_id o row r.values
    pub answered : to_preferences principal.subject_id o row ≡ ok r.values
    pub organization : r.organization_id ≡ o
    pub scope : is_scope principal.subject_id o ≡ true
    pub handled :
        authorize_preferences (some principal) (some membership) o ≡ ok (principal.subject_id, o)

  -- A request that saves preferences over the Postgres repository comes from an authenticated principal
  -- with access by `conversation.read` to the organization of the path. Its body has the four flags and
  -- nothing else. The database was asked once, to store them for that principal's subject in that
  -- organization, and it returned one row, of that subject and that organization. The response has the
  -- flags of the row.
  pub put_preferences-IsSaved :
      (body : Value) (d d' : D) (r : PreferencesResponse)
      → put_preferences (postgres_preferences select upsert) memberships identity o body d
        ≡ (ok r, d')
      → IsSaved body r d d'
  unfolding put_preferences save_preferences authorize_preferences
  put_preferences-IsSaved body d d' r h =
      let handled = handle-IsHandled memberships identity o (parse_preferences body) _ d d' r h in
      let p = handled.principal in
      let m = handled.membership in
      let (scope, granted, h₁) =
        lift-inv (authorize_preferences (some p) (some m) o) _ handled.done in
      let (may, same) = authorize_preferences-MayAccess p m o scope handled.bounded granted in
      let (stored, d₁, put, h₂) =
        bind-inv ((postgres_preferences select upsert).put scope.0 scope.1 handled.body) _ d h₁ in
      let (row, valid, saved, read) =
        postgres_preferences-put p.subject_id handled.body stored d d' (
          subst
            (λ x. (postgres_preferences select upsert).put x.0 x.1 handled.body d ≡ (ok stored, d'))
            same (put ∙ ap (λ x. (ok stored, x)) (ap (λ x. x.1) h₂))) in
      let answered : to_preferences p.subject_id o row ≡ ok r.values =
        read ∙ ap (λ x. ok x) (ground arith) in
      record {
        principal = p;
        membership = m;
        preferences = handled.body;
        row = row;
        bounded = handled.bounded;
        known = handled.known;
        member = handled.member;
        access = may;
        asked = parse_preferences-IsBodyOf body handled.body handled.read;
        saved = saved;
        stored = to_preferences-IsRowOf p.subject_id o row r.values answered;
        answered = answered;
        organization = ground (arith, same);
        scope = valid;
        handled = granted ∙ ap (λ x. ok x) same;
      }

  load-saved :
      (body : Value) (r : PreferencesResponse) (d d' : D) (h : IsSaved body r d d')
      → select (str o ∷ str h.principal.subject_id ∷ []) d' ≡ (ok (h.row ∷ []), d')
      → load_preferences
          (postgres_preferences select upsert)
          (some h.principal)
          (some h.membership)
          o
          d'
        ≡ (ok r, d')
  unfolding load_preferences postgres_preferences
  load-saved body r d d' h found =
      let one = optional_row-one (to_preferences h.principal.subject_id o) h.row h.answered in
      rw (h.handled, h.scope, found, one)
        (ap (λ x. (ok (record { organization_id = x; values = r.values }), d'))
          (sym h.organization))

  -- Over a table, the values of the saved row are those of the body.
  saved_as_asked :
      (body : Value) (r : PreferencesResponse) (d d' : D) (h : IsSaved body r d d')
      → IsTable select upsert
      → h.preferences ≡ r.values
  saved_as_asked body r d d' h table =
      let one = table.written _ _ _ _ _ _ (h.row ∷ []) d d' h.saved in
      let flags = h.stored.flags in
      ground (
        arith, one, flags.meeting_reminders, flags.transcript_ready, flags.action_items,
        flags.desktop_link_events,
      )

  -- A request that saves preferences is authorized and stores the flags of its body in the row of its
  -- subject and organization; its response has the flags of the body, and a later read by the same
  -- caller gives that response. This holds over a table: the database's upsert returns the one row of
  -- the values that it was given, and its select of that key returns this row from then on.
  pub put_preferences-get_preferences :
      IsTable select upsert
      → (body : Value) (d d' : D) (r : PreferencesResponse)
      → put_preferences (postgres_preferences select upsert) memberships identity o body d
        ≡ (ok r, d')
      → IsSaved body r d d'
        × IsBodyOf body r.values
        × (get_preferences (postgres_preferences select upsert) memberships identity o d'
            ≡ (ok r, d'))
  unfolding get_preferences
  put_preferences-get_preferences table body d d' r h =
      let s = put_preferences-IsSaved body d d' r h in
      (
        s,
        subst (IsBodyOf body) (saved_as_asked body r d d' s table) s.asked,
        IsHandled-handle memberships identity o (ok tt)
            (λ p m q body.
              load_preferences (postgres_preferences select upsert) (some p) (some m) q)
            d' d' r
            (record {
              principal = s.principal;
              membership = s.membership;
              body = tt;
              bounded = s.bounded;
              known = s.known;
              member = s.member;
              read = refl;
              done = load-saved body r d d' s (table.kept _ _ _ _ _ _ (s.row ∷ []) d d' s.saved);
            }),
      )
