-- ===== src/Workspace/Runtime/Mapped.antt =====
-- The profile and preference handlers over the production services: errors always have a status.
use vsn_voice_ai.Prelude.{
  ◌≡◌, refl, sym, subst, inl, inr, Option, none, some, arith, Bool, true, false, Bool-cases,
}
use vsn_voice_ai.Js.Text.{Text, text, trim, text_eq_iff}
use vsn_voice_ai.Js.Value
use vsn_voice_ai.Js.Value.{Value, obj}
use vsn_voice_ai.Js.Result.{Result, ok, err, Result-cases}
use vsn_voice_ai.Js.Exec.{Exec, pure, lift, catching, ◌>>=◌}
use vsn_voice_ai.Js.Exec.Inversion.{lift-err, bind-err, catching-err}
use vsn_voice_ai.Identity.Principal.{AuthenticatedPrincipal, is_bounded_identifier}
use vsn_voice_ai.Identity.Trusted.{TrustedPrincipalResolution}
use vsn_voice_ai.Organizations.Membership.{OrganizationMembership}
use vsn_voice_ai.Organizations.Authorization.{authorize_tenant_access}
use mathlib.Core.Option.{get_or}
use vsn_voice_ai.Workspace.TeamStatus.{TeamFailure, denied, HttpError, bad_request}
use vsn_voice_ai.Workspace.Settings.{has_keys, is_profile_value}
use vsn_voice_ai.Workspace.Settings.Refused.{
  IsMapped, IsExpected, authorize_scope-IsExpected, handle-IsMapped,
}
use vsn_voice_ai.Workspace.Profile.{
  profile_keys, profile_of, require_profile_text, to_response, default_profile, authorize_profile,
  load_workspace_profile, save_workspace_profile, parse_profile, get_profile, put_profile,
}
use vsn_voice_ai.Workspace.OrganizationProfile.{
  organization_response, default_organization_profile, authorize_organization_profile,
  load_organization_profile, save_organization_profile, parse_organization_profile,
  get_organization, put_organization,
}
use vsn_voice_ai.Workspace.Preferences.{
  valid_or, preferences_of, preference_keys, preferences_response, default_preferences,
  authorize_preferences, load_preferences, save_preferences, parse_preferences, get_preferences,
  put_preferences,
}
use vsn_voice_ai.Workspace.Runtime.{WorkspaceServices, persistence_error, runtime_services}

persistence_error-IsExpected : (f : TeamFailure) → IsExpected (persistence_error f)
unfolding persistence_error
persistence_error-IsExpected TeamFailure.data_integrity = tt
persistence_error-IsExpected _ = tt

behind :
    {D A : Type 0} (m : Exec D TeamFailure A) (d d' : D) (f : TeamFailure)
    → catching persistence_error m d ≡ (err f, d')
    → IsExpected f
behind m d d' f h =
    let (e, thrown, same) = catching-err persistence_error m d h in
    subst IsExpected (sym same) (persistence_error-IsExpected e)

-- An authorized call behind the boundary.
scoped-IsExpected :
    {D S A R : Type 0} (scope : Result TeamFailure S) (call : S → Exec D TeamFailure A)
    (answer : S → A → R)
    → ((f : TeamFailure) → scope ≡ err f → IsExpected f)
    → (d d' : D) (f : TeamFailure)
    → (lift scope >>= λ s. catching persistence_error (call s) >>= λ a. pure (answer s a)) d
      ≡ (err f, d')
    → IsExpected f
scoped-IsExpected scope call answer denies d d' f h = elim (lift-err scope _ d h) [
  | inl bad ↦ denies f bad
  | inr (s, granted, h₁) ↦ elim (bind-err (catching persistence_error (call s)) _ d h₁) [
    | inl bad ↦ behind (call s) d d' f bad
    | inr (a, r, done, h₂) ↦ ground arith
  ]
]

profile_of-IsMapped :
    (a b : Result HttpError Text) (e : HttpError)
    → ((x : HttpError) → a ≡ err x → IsMapped x)
    → ((x : HttpError) → b ≡ err x → IsMapped x)
    → profile_of a b ≡ err e
    → IsMapped e
profile_of-IsMapped (err x) b e ha hb h = ha e (ground arith)
profile_of-IsMapped (ok s) (err x) e ha hb h = hb e (ground arith)
profile_of-IsMapped (ok s) (ok t) e ha hb h = ground arith

require_profile_text-IsMapped :
    (v : Value) (valid : Bool) (e : HttpError) → require_profile_text v valid ≡ err e → IsMapped e
require_profile_text-IsMapped v true e h = ground arith
require_profile_text-IsMapped v false e h =
    let same : bad_request ≡ e = ground arith in subst IsMapped same tt

parse_profile-IsMapped : (body : Value) (e : HttpError) → parse_profile body ≡ err e → IsMapped e
unfolding parse_profile
parse_profile-IsMapped (obj fs) e h = elim (Bool-cases (has_keys profile_keys fs)) [
  | inr other ↦ let same : bad_request ≡ e = ground arith in subst IsMapped same tt
  | inl keyed ↦
      let n = Value.get fs (text "display_name") in
      let t = Value.get fs (text "job_title") in
      profile_of-IsMapped (require_profile_text n (is_profile_value 80 n))
        (require_profile_text t (is_profile_value 120 t)) e
        (require_profile_text-IsMapped n (is_profile_value 80 n))
        (require_profile_text-IsMapped t (is_profile_value 120 t)) (ground arith)
]
parse_profile-IsMapped _ e h = let same : bad_request ≡ e = ground arith in subst IsMapped same tt

parse_organization_profile-IsMapped :
    (body : Value) (e : HttpError) → parse_organization_profile body ≡ err e → IsMapped e
unfolding parse_organization_profile
parse_organization_profile-IsMapped (obj fs) e h =
    let same : bad_request ≡ e = ground arith in subst IsMapped same tt
parse_organization_profile-IsMapped _ e h =
    let same : bad_request ≡ e = ground arith in subst IsMapped same tt

valid_or-IsMapped :
    {A : Type 0} (o : Option A) (e : HttpError) → valid_or bad_request o ≡ err e → IsMapped e
valid_or-IsMapped none e h = let same : bad_request ≡ e = ground arith in subst IsMapped same tt
valid_or-IsMapped (some a) e h = ground arith

parse_preferences-IsMapped :
    (body : Value) (e : HttpError) → parse_preferences body ≡ err e → IsMapped e
unfolding parse_preferences
parse_preferences-IsMapped (obj fs) e h = elim (Bool-cases (has_keys preference_keys fs)) [
  | inr other ↦ let same : bad_request ≡ e = ground arith in subst IsMapped same tt
  | inl keyed ↦
      valid_or-IsMapped
        (preferences_of (Value.get fs (text "meeting_reminders"))
          (Value.get fs (text "transcript_ready")) (Value.get fs (text "action_items"))
          (Value.get fs (text "desktop_link_events")))
        e (ground arith)
]
parse_preferences-IsMapped _ e h =
    let same : bad_request ≡ e = ground arith in subst IsMapped same tt

authorize_preferences-IsExpected :
    (p : AuthenticatedPrincipal) (m : OrganizationMembership) (o : Text) (f : TeamFailure)
    → is_bounded_identifier o 128 ≡ true
    → authorize_preferences (some p) (some m) o ≡ err f
    → IsExpected f
unfolding authorize_preferences is_bounded_identifier
authorize_preferences-IsExpected p m o f bounded h =
    elim (Result-cases
      (authorize_tenant_access (some p) (some m) (trim o) (text "conversation.read"))) [
        | inl (c, granted) ↦ ground (arith, text_eq_iff (trim o) o)
        | inr (reason, refused) ↦
            let same : denied reason ≡ f = ground (arith, text_eq_iff (trim o) o) in
            subst IsExpected same tt
      ]

-- An answer that is no error without a status.
pub AnswersMapped : {D A : Type 0} → Result HttpError A × D → Type 0
AnswersMapped (ok a, d) = Unit {0}
AnswersMapped (err e, d) = IsMapped e

answers :
    {D A : Type 0} (x : Result HttpError A × D)
    → ((d' : D) (e : HttpError) → x ≡ (err e, d') → IsMapped e)
    → AnswersMapped x
unfolding AnswersMapped
answers (ok a, d) mapped = tt
answers (err e, d) mapped = mapped d e refl

abbrev nothing_read : Result HttpError (Unit {0})
nothing_read = ok tt

no_body : (e : HttpError) → nothing_read ≡ err e → IsMapped e
no_body e h = ground arith

module _ {D E : Type 0} (delegate : WorkspaceServices D)
    (memberships : AuthenticatedPrincipal → Text → Result E (Option OrganizationMembership))
    (identity : TrustedPrincipalResolution) (o : Text) where
  abbrev services : WorkspaceServices D
  services = runtime_services delegate

  -- Over the production services a profile, a preference or an organization's name is read and written
  -- with no error but those that have a status: 400, 401, 403 or 503.
  pub runtime_services-IsMapped :
      (body : Value) (d : D)
      → AnswersMapped (get_profile services.profiles memberships identity o d)
        × AnswersMapped (put_profile services.profiles memberships identity o body d)
        × AnswersMapped (get_preferences services.preferences memberships identity o d)
        × AnswersMapped (put_preferences services.preferences memberships identity o body d)
        × AnswersMapped (get_organization services.organization_profiles memberships identity o d)
        × AnswersMapped
            (put_organization services.organization_profiles memberships identity o body d)
  unfolding runtime_services get_profile put_profile get_preferences put_preferences
      get_organization put_organization load_workspace_profile save_workspace_profile
      load_preferences save_preferences load_organization_profile save_organization_profile
      authorize_profile authorize_organization_profile
  runtime_services-IsMapped body d = (
    answers _ (λ d' e.
        handle-IsMapped memberships identity o nothing_read
          (λ p m q b. load_workspace_profile services.profiles (some p) (some m) q) no_body
          (λ p m b r r' f bounded.
            scoped-IsExpected (authorize_profile (some p) (some m) o)
              (λ s. delegate.profiles.get_profile s.0 s.1)
              (λ s a. to_response s.1 (get_or a default_profile))
              (λ x. authorize_scope-IsExpected (text "conversation.read") p m o x bounded) r r' f)
          d d' e),
    answers _ (λ d' e.
        handle-IsMapped memberships identity o (parse_profile body) _ (parse_profile-IsMapped body)
          (λ p m b r r' f bounded.
            scoped-IsExpected (authorize_profile (some p) (some m) o)
              (λ s. delegate.profiles.put_profile s.0 s.1 b) (λ s a. to_response s.1 a)
              (λ x. authorize_scope-IsExpected (text "conversation.read") p m o x bounded) r r' f)
          d d' e),
    answers _ (λ d' e.
        handle-IsMapped memberships identity o nothing_read
          (λ p m q b. load_preferences services.preferences (some p) (some m) q) no_body
          (λ p m b r r' f bounded.
            scoped-IsExpected (authorize_preferences (some p) (some m) o)
              (λ s. delegate.preferences.get s.0 s.1)
              (λ s a. preferences_response s.1 (get_or a default_preferences))
              (λ x. authorize_preferences-IsExpected p m o x bounded) r r' f)
          d d' e),
    answers _ (λ d' e.
        handle-IsMapped memberships identity o (parse_preferences body) _
          (parse_preferences-IsMapped body)
          (λ p m b r r' f bounded.
            scoped-IsExpected (authorize_preferences (some p) (some m) o)
              (λ s. delegate.preferences.put s.0 s.1 b) (λ s a. preferences_response s.1 a)
              (λ x. authorize_preferences-IsExpected p m o x bounded) r r' f)
          d d' e),
    answers _ (λ d' e.
        handle-IsMapped memberships identity o nothing_read
          (λ p m q b. load_organization_profile services.organization_profiles (some p) (some m) q)
          no_body
          (λ p m b r r' f bounded.
            scoped-IsExpected
              (authorize_organization_profile (some p) (some m) o (text "conversation.read"))
              (λ s. delegate.organization_profiles.get_organization_profile s.1)
              (λ s a. organization_response s.1 (get_or a default_organization_profile))
              (λ x. authorize_scope-IsExpected (text "conversation.read") p m o x bounded) r r' f)
          d d' e),
    answers _ (λ d' e.
        handle-IsMapped memberships identity o (parse_organization_profile body) _
          (parse_organization_profile-IsMapped body)
          (λ p m b r r' f bounded.
            scoped-IsExpected
              (authorize_organization_profile (some p) (some m) o (text "team.manage"))
              (λ s. delegate.organization_profiles.put_organization_profile s.1 b)
              (λ s a. organization_response s.1 a)
              (λ x. authorize_scope-IsExpected (text "team.manage") p m o x bounded) r r' f)
          d d' e),
  )
