-- ===== src/Workspace/Team/Listed.antt =====
-- postgres-workspace-team-repository.ts: the members that listByOrganization returns.
use vsn_voice_ai.Prelude.{
  suc, ◌≤◌, ◌<◌, ◌≡◌, refl, sym, ap, subst, ◌∙◌, ◌↔◌, true, false, List, [], ◌∷◌, map, All, arith,
  inl, inr, length, length-take, take, ltb, ltb_iff,
}
use vsn_voice_ai.Js.Text.{Text, trim, includes}
use vsn_voice_ai.Js.Distinct.{DistinctTexts, Unseen, Unseen-cons}
use vsn_voice_ai.Js.Number.{int, pos}
use vsn_voice_ai.Js.Value.{Value, str, num}
use vsn_voice_ai.Js.Result.{ok, Result-cases}
use vsn_voice_ai.Js.Exec.{Exec}
use vsn_voice_ai.Js.Exec.Inversion.{lift-inv, bind-inv, guard-inv}
use vsn_voice_ai.Identity.Principal.{is_bounded_identifier}
use vsn_voice_ai.Organizations.Postgres.{column}
use vsn_voice_ai.Workspace.TeamStatus.{TeamFailure, invalid_argument}
use vsn_voice_ai.Workspace.Team.{
  WorkspaceTeamMember, WorkspaceTeamSnapshot, WorkspaceTeamRow, to_team_member, team_members,
  postgres_team,
}
use vsn_voice_ai.Workspace.Team.Rows.{IsMember, Pairs, to_team_member-IsMemberOf}

abbrev pub membership_ids : List WorkspaceTeamMember → List Text
membership_ids ms = map (λ m. m.membership_id) ms

-- What a round of the `map` did, for a list of members in the end.
team_members-cons :
    (o : Text) (ids subjects : List Text) (r : WorkspaceTeamRow) (rs : List WorkspaceTeamRow)
    (ms : List WorkspaceTeamMember)
    → team_members o ids subjects (r ∷ rs) ≡ ok ms
    → (m : WorkspaceTeamMember) × (rest : List WorkspaceTeamMember) × (ms ≡ m ∷ rest)
      × (to_team_member o r ≡ ok m)
      × (includes ids m.membership_id ≡ false)
      × (includes subjects (column r.subject_id) ≡ false)
      × (team_members o (m.membership_id ∷ ids) (column r.subject_id ∷ subjects) rs ≡ ok rest)
unfolding team_members
team_members-cons o ids subjects r rs ms h = elim (Result-cases (to_team_member o r)) [
  | inr (e, bad) ↦ ground arith
  | inl (m, good) ↦
      elim (Result-cases
        (team_members o (m.membership_id ∷ ids) (column r.subject_id ∷ subjects) rs)) [
          | inr (e, bad) ↦ ground arith
          | inl (rest, done) ↦ (m, rest, ground arith, good, ground arith, ground arith, done)
        ]
]

-- Members of rows whose memberships, and whose subjects, are all different.
pub record AreMembersOf (o : Text) (rows : List WorkspaceTeamRow) (ms : List WorkspaceTeamMember)
    : Type 0 where
  pub pairs : Pairs o rows ms
  pub members : All IsMember ms
  pub distinct_memberships : DistinctTexts (membership_ids ms)
  pub distinct_subjects : DistinctTexts (map (λ r. column r.subject_id) rows)
  pub count : length ms ≡ length rows

team_members-AreMembersOf :
    (o : Text) (ids subjects : List Text) (rs : List WorkspaceTeamRow)
    (ms : List WorkspaceTeamMember)
    → team_members o ids subjects rs ≡ ok ms
    → AreMembersOf o rs ms
      × Unseen ids (membership_ids ms)
      × Unseen subjects (map (λ r. column r.subject_id) rs)
team_members-AreMembersOf o ids subjects [] ms h =
    let e : ms ≡ [] = unfold team_members in ground arith in
    rw e (
      record {
        pairs = tt;
        members = tt;
        distinct_memberships = tt;
        distinct_subjects = tt;
        count = refl;
      },
      tt,
      tt,
    )
team_members-AreMembersOf o ids subjects (r ∷ rs) ms h =
    let (m, rest, shape, valid, new_id, new_subject, done) =
      team_members-cons o ids subjects r rs ms h in
    let (are, unseen_ids, unseen_subjects) =
      team_members-AreMembersOf o (m.membership_id ∷ ids) (column r.subject_id ∷ subjects) rs rest
        done in
    let member = to_team_member-IsMemberOf o r m valid in
    let (absent_id, older_ids) = Unseen-cons m.membership_id ids (membership_ids rest) unseen_ids in
    let (absent_subject, older_subjects) =
      Unseen-cons (column r.subject_id) subjects (map (λ x. column x.subject_id) rs)
        unseen_subjects in
    rw shape (
      record {
        pairs = (member, are.pairs);
        members = (member.valid, are.members);
        distinct_memberships = (absent_id, are.distinct_memberships);
        distinct_subjects = (absent_subject, are.distinct_subjects);
        count = ap suc are.count;
      },
      (new_id, older_ids),
      (new_subject, older_subjects),
    )

module _ {D : Type 0} (lookup : List Value → Exec D TeamFailure (List WorkspaceTeamRow)) where
  -- What the repository returned: the members of the first 200 rows of the organization.
  pub record IsTeamOf (o : Text) (d d' : D) (snapshot : WorkspaceTeamSnapshot) : Type 0 where
    pub bounded : is_bounded_identifier o 128 ≡ true
    pub rows : List WorkspaceTeamRow
    pub answered : lookup (str o ∷ num (int (pos 201)) ∷ []) d ≡ (ok rows, d')
    pub organization : snapshot.organization_id ≡ o
    pub are : AreMembersOf o (take 200 rows) snapshot.members
    pub few : length snapshot.members ≤ 200
    pub more : (snapshot.has_more ≡ true) ↔ (200 < length rows)

  pub postgres_team-IsTeamOf :
      (o : Text) (d d' : D) (snapshot : WorkspaceTeamSnapshot)
      → postgres_team lookup o d ≡ (ok snapshot, d')
      → IsTeamOf (trim o) d d' snapshot
  unfolding postgres_team
  postgres_team-IsTeamOf o d d' snapshot h =
      let (valid, h₁) = guard-inv (is_bounded_identifier (trim o) 128) invalid_argument _ d h in
      let (rows, d₁, answered, h₂) =
        bind-inv (lookup (str (trim o) ∷ num (int (pos 201)) ∷ [])) _ d h₁ in
      let (ms, listed, h₃) = lift-inv (team_members (trim o) [] [] (take 200 rows)) _ h₂ in
      let (are, _, _) = team_members-AreMembersOf (trim o) [] [] (take 200 rows) ms listed in
      let same : snapshot.members ≡ ms = ground arith in
      let more : snapshot.has_more ≡ ltb 200 (length rows) = ground arith in
      record {
        bounded = valid;
        rows = rows;
        answered = answered ∙ ap (λ x. (ok rows, x)) (ap (λ x. x.1) h₃);
        organization = ground arith;
        are = subst (AreMembersOf (trim o) (take 200 rows)) (sym same) are;
        few = omega (arith, ap length same, are.count, length-take 200 rows);
        more = ground (arith, ltb_iff 200 (length rows));
      }
