-- ===== src/Organizations/Postgres.antt =====
-- postgres-organization-membership-resolver.ts and organization-membership-directory.ts. The
-- database client is a parameter: a call with one of the two statements and its values, that returns
-- rows of any values or throws.
pub mod Tokens
pub mod Resolved
pub mod Directory
use vsn_voice_ai.Prelude.{
  ℕ, ◌+◌, Bool, true, false, ◌&&◌, ◌||◌, not, Option, none, some, List, [], ◌∷◌, leb, ltb, ◌==◌,
  length, all, take, if◌then◌else◌,
}
use vsn_voice_ai.Js.Text.{Text, text, text_eq, trim, includes}
use vsn_voice_ai.Js.Number.{int, pos}
use vsn_voice_ai.Js.Value
use vsn_voice_ai.Js.Value.{Value, null, str, num, arr, as_text}
use vsn_voice_ai.Js.Result
use vsn_voice_ai.Js.Result.{Result, ok, err}
use vsn_voice_ai.Js.Exec.{Exec, pure, lift, guard, ◌>>=◌, ◌>>◌}
use vsn_voice_ai.Identity.Principal.{
  AuthenticatedPrincipal, is_bounded_identifier, is_bounded_value,
}
use vsn_voice_ai.Organizations.Membership.{
  OrganizationMembership, MembershipStatus, active, invited, suspended,
}
use mathlib.Core.Option.{get_or}

abbrev pub max_organization_memberships_per_directory : ℕ
max_organization_memberships_per_directory = 100

pub record MembershipRow : Type 0 where
  pub membership_id : Value
  pub subject_id : Value
  pub organization_id : Value
  pub status : Value
  pub roles : Value
  pub permissions : Value

pub record DirectoryRow : Type 0 where
  pub row : MembershipRow
  pub display_name : Value

pub record OrganizationMembershipDirectoryEntry : Type 0 where
  pub membership : OrganizationMembership
  pub organization_display_name : Option Text

pub record OrganizationMembershipDirectorySnapshot : Type 0 where
  pub memberships : List OrganizationMembershipDirectoryEntry
  pub has_more : Bool

-- OrganizationMembershipDirectoryDataIntegrityError, by its message, and what the client throws
pub data DirectoryFailure : Type 0 where
  invalid_subject invalid_row duplicate_membership query_failed : DirectoryFailure

abbrev is_lower : ℕ → Bool
is_lower c = leb b'a' c && leb c b'z'

-- `/^[a-z][a-z0-9._:-]*$/`
unfoldable pub is_authority_token : Text → Bool
is_authority_token [] = false
is_authority_token (c ∷ s) =
    is_lower c
    && all
        (λ d.
          is_lower d
          || leb b'0' d && leb d b'9'
          || d == b'.'
          || d == b'_'
          || d == b':'
          || d == b'-')
        s

-- The test of one entry, negated, against those seen before.
abbrev pub is_new_token : ℕ → List Text → Text → Bool
is_new_token maximum_length seen s = not (
    ltb (length s) 1
    || ltb maximum_length (length s)
    || not (is_authority_token s)
    || includes seen s)

-- The loop over the entries.
unfoldable pub are_tokens : ℕ → List Text → List Value → Bool
are_tokens maximum_length seen [] = true
are_tokens maximum_length seen (str s ∷ vs) =
    is_new_token maximum_length seen s && are_tokens maximum_length (s ∷ seen) vs
are_tokens maximum_length seen (_ ∷ vs) = false

abbrev pub elements : Value → List Value
elements (arr vs) = Value.items vs
elements _ = []

unfoldable pub is_authority_tokens : Value → ℕ → ℕ → ℕ → Bool
unfolding are_tokens
is_authority_tokens (arr vs) minimum_items maximum_items maximum_length =
    not (ltb (length (Value.items vs)) minimum_items || ltb maximum_items (length (Value.items vs)))
    && are_tokens maximum_length [] (Value.items vs)
is_authority_tokens _ minimum_items maximum_items maximum_length = false

-- `[...row.roles]` of an array of strings
abbrev pub texts : List Value → List Text
texts [] = []
texts (v ∷ vs) = get_or (as_text v) [] ∷ texts vs

-- `isMembershipStatus`, with the status that it finds
unfoldable pub status_of : Option Text → Option MembershipStatus
status_of none = none
status_of (some s) =
    if text_eq s (text "active")
    then some active
    else if text_eq s (text "invited")
    then some invited
    else if text_eq s (text "suspended")
    then some suspended
    else none

-- `expected !== undefined && value !== expected`, negated
abbrev pub is_expected : Option Text → Text → Bool
is_expected none s = true
is_expected (some e) s = text_eq s e

abbrev pub column : Value → Text
column v = get_or (as_text v) []

unfoldable pub has_valid_columns : MembershipRow → Text → Option Text → Bool
unfolding is_authority_tokens
has_valid_columns row subject_id organization_id =
    is_bounded_value (as_text row.membership_id) 128
    && is_bounded_value (as_text row.subject_id) 128
    && is_bounded_value (as_text row.organization_id) 128
    && text_eq (column row.subject_id) subject_id
    && is_expected organization_id (column row.organization_id)
    && is_authority_tokens row.roles 1 32 128
    && is_authority_tokens row.permissions 0 256 160

membership_of : MembershipRow → Option MembershipStatus → Option OrganizationMembership
membership_of row none = none
membership_of row (some status) = some (record {
  membership_id = column row.membership_id;
  subject_id = column row.subject_id;
  organization_id = column row.organization_id;
  status = status;
  roles = texts (elements row.roles);
  permissions = texts (elements row.permissions);
})

unfoldable pub to_membership : MembershipRow → Text → Option Text → Option OrganizationMembership
unfolding membership_of
to_membership row subject_id organization_id =
    if has_valid_columns row subject_id organization_id
    then membership_of row (status_of (as_text row.status))
    else none

abbrev pub only_membership : List MembershipRow → Text → Text → Option OrganizationMembership
only_membership (row ∷ []) subject_id organization_id =
    to_membership row subject_id (some organization_id)
only_membership _ subject_id organization_id = none

-- Neither a control character nor DEL.
abbrev pub is_printing : ℕ → Bool
is_printing c = ltb 31 c && not (c == 127)

unfoldable pub is_organization_display_name : Value → Bool
is_organization_display_name null = true
is_organization_display_name (str s) = leb (length s) 100 && text_eq (trim s) s && all is_printing s
is_organization_display_name _ = false

abbrev pub display_name_of : Value → Option Text
display_name_of (str []) = none
display_name_of v = as_text v

-- The membership of a row of the directory, if the row is valid.
abbrev pub valid_entry :
    Option OrganizationMembership → Value → Result DirectoryFailure OrganizationMembership
valid_entry none display_name = err invalid_row
valid_entry (some m) display_name =
    if is_organization_display_name display_name then ok m else err invalid_row

-- The `map` over the rows, with the identifiers seen so far.
unfoldable pub directory_entries :
    Text
    → List Text
    → List Text
    → List DirectoryRow
    → Result DirectoryFailure (List OrganizationMembershipDirectoryEntry)
directory_entries subject_id seen_ids seen_organizations [] = ok []
directory_entries subject_id seen_ids seen_organizations (r ∷ rs) =
    Result.◌>>=◌ (valid_entry (to_membership r.row subject_id none) r.display_name) λ m.
      Result.◌>>◌
        (Result.guard
          (not (includes seen_ids m.membership_id || includes seen_organizations m.organization_id))
          duplicate_membership)
        (Result.◌>>=◌
          (directory_entries subject_id (m.membership_id ∷ seen_ids)
            (m.organization_id ∷ seen_organizations) rs)
          λ entries. ok (
            record { membership = m; organization_display_name = display_name_of r.display_name }
            ∷ entries))

module _ {D E : Type 0} (lookup : List Value → Exec D E (List MembershipRow)) where
  unfoldable pub resolve : AuthenticatedPrincipal → Text → Exec D E (Option OrganizationMembership)
  resolve principal organization_id =
      if not (is_bounded_identifier (trim principal.subject_id) 128)
        || not (is_bounded_identifier (trim organization_id) 128)
      then pure none
      else (do
        rows ← lookup (str (trim principal.subject_id) ∷ str (trim organization_id) ∷ [])
        pure (only_membership rows (trim principal.subject_id) (trim organization_id)))

module _ {D : Type 0} (directory : List Value → Exec D DirectoryFailure (List DirectoryRow)) where
  unfoldable pub list_for_principal :
      AuthenticatedPrincipal → Exec D DirectoryFailure OrganizationMembershipDirectorySnapshot
  unfolding directory_entries
  list_for_principal principal = do
    guard (is_bounded_identifier (trim principal.subject_id) 128) invalid_subject
    rows ← directory (
        str (trim principal.subject_id)
        ∷ num (int (pos (max_organization_memberships_per_directory + 1)))
        ∷ [])
    entries ← lift (
        directory_entries (trim principal.subject_id) [] []
          (take max_organization_memberships_per_directory rows))
    pure (record {
      memberships = entries;
      has_more = ltb max_organization_memberships_per_directory (length rows);
    })
