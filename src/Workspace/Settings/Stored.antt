-- ===== src/Workspace/Settings/Stored.antt =====
-- The scopes and rows of the workspace's profiles and preferences.
use vsn_voice_ai.Prelude.{
  ℕ, ◌≤◌, ◌<◌, ◌≢◌, ◌≡◌, refl, ap, true, some, List, [], ◌∷◌, All, all, length, arith, inl, inr,
}
use vsn_voice_ai.Js.Text.{Text, text_eq_iff, trim, includes}
use vsn_voice_ai.Js.Value
use vsn_voice_ai.Js.Value.{Value, Fields, str}
use vsn_voice_ai.Organizations.Postgres.{column, is_printing}
use vsn_voice_ai.Js.Result.{Result, ok, Result-cases}
use vsn_voice_ai.Identity.Principal.{AuthenticatedPrincipal, is_bounded_identifier}
use vsn_voice_ai.Organizations.Membership.{OrganizationMembership}
use vsn_voice_ai.Organizations.Authorization.{
  MayAccess, authorize_tenant_access, authorize_tenant_access-MayAccess,
  authorize_tenant_access-granted,
}
use vsn_voice_ai.Workspace.TeamStatus.{TeamFailure, invalid_argument, require_identifier}
use vsn_voice_ai.Workspace.TeamStatus.Changed.{require_identifier_iff}
use vsn_voice_ai.Workspace.Settings.{
  has_keys, is_profile_text, is_profile_value, is_row_of, authorize_scope, optional_row, one_row,
}

pub authorize_scope-MayAccess :
    (permission : Text) (p : AuthenticatedPrincipal) (m : OrganizationMembership) (o : Text)
    (scope : Text × Text)
    → authorize_scope permission (some p) (some m) o ≡ ok scope
    → MayAccess p m o permission × (scope ≡ (p.subject_id, o))
unfolding authorize_scope
authorize_scope-MayAccess permission p m o scope h =
    elim (Result-cases (require_identifier invalid_argument o)) [
      | inr (e, bad) ↦ ground arith
      | inl (o', good) ↦
          let same = ((require_identifier_iff invalid_argument o o').0 good).1 in
          elim (Result-cases (authorize_tenant_access (some p) (some m) o permission)) [
            | inr (e, refused) ↦ ground (arith, same)
            | inl (c, granted) ↦
                let (may, context) = authorize_tenant_access-MayAccess p m o permission c granted in
                (may, ground (arith, same, context))
          ]
    ]

-- A text of a profile, trimmed and without control characters.
pub record IsProfileText (longest : ℕ) (s : Text) : Type 0 where
  pub short : length s ≤ longest
  pub trimmed : trim s ≡ s
  pub printing : All (λ c. (31 < c) × (c ≢ 127)) s

all-is_printing : (s : Text) → all is_printing s ≡ true → All (λ c. (31 < c) × (c ≢ 127)) s
all-is_printing [] h = tt
all-is_printing (c ∷ s) h = ((ground arith, ground arith), all-is_printing s (ground arith))

pub is_profile_value-IsProfileText :
    (longest : ℕ) (v : Value)
    → is_profile_value longest v ≡ true
    → (v ≡ str (column v)) × IsProfileText longest (column v)
unfolding is_profile_text
is_profile_value-IsProfileText longest (str s) h = (
  refl,
  record {
    short = ground arith;
    trimmed = (text_eq_iff (trim s) s).0 (ground arith);
    printing = all-is_printing s (ground arith);
  },
)
is_profile_value-IsProfileText longest _ h = cc

-- A key of a row that is the expected one.
pub is_row_of-str : (expected : Text) (v : Value) → is_row_of expected v ≡ true → v ≡ str expected
is_row_of-str expected (str s) h = ap str ((text_eq_iff s expected).0 (ground arith))
is_row_of-str expected _ h = cc

-- A body that has the keys of the list, as many and no others.
pub record HasKeys (names : List Text) (fs : Fields) : Type 0 where
  pub count : length (Value.keys fs) ≡ length names
  pub named : all (includes names) (Value.keys fs) ≡ true

pub has_keys-HasKeys :
    (names : List Text) (fs : Fields) → has_keys names fs ≡ true → HasKeys names fs
has_keys-HasKeys names fs h = record { count = ground arith; named = ground arith }

pub one_row-inv :
    {R A : Type 0} (read : R → Result TeamFailure A) (rows : List R) {a : A}
    → one_row read rows ≡ ok a
    → (row : R) × (rows ≡ row ∷ []) × (read row ≡ ok a)
one_row-inv read [] h = ground arith
one_row-inv read (row ∷ []) h = (row, refl, h)
one_row-inv read (row ∷ more ∷ rows) h = ground arith

pub optional_row-inv :
    {R A : Type 0} (read : R → Result TeamFailure A) (rows : List R) {a : A}
    → optional_row read rows ≡ ok (some a)
    → (row : R) × (rows ≡ row ∷ []) × (read row ≡ ok a)
optional_row-inv read [] h = ground arith
optional_row-inv read (row ∷ []) h = elim (Result-cases (read row)) [
  | inl (b, e) ↦ (row, refl, ground arith)
  | inr (x, e) ↦ ground arith
]
optional_row-inv read (row ∷ more ∷ rows) h = ground arith

pub optional_row-one :
    {R A : Type 0} (read : R → Result TeamFailure A) (row : R) {a : A}
    → read row ≡ ok a
    → optional_row read (row ∷ []) ≡ ok (some a)
optional_row-one read row h = rw (h, optional_row) refl

pub MayAccess-authorize_scope :
    (permission : Text) (p : AuthenticatedPrincipal) (m : OrganizationMembership) (o : Text)
    → is_bounded_identifier o 128 ≡ true
    → MayAccess p m o permission
    → authorize_scope permission (some p) (some m) o ≡ ok (p.subject_id, o)
unfolding authorize_scope
MayAccess-authorize_scope permission p m o bounded may =
    let named = (require_identifier_iff invalid_argument o o).1 (bounded, refl) in
    let granted = authorize_tenant_access-granted p m o permission may in rw (named, granted) refl
