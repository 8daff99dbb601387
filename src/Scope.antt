-- ===== src/Scope.antt =====
-- internal/scopepolicy/policy.go: the reserved-scope contract. The compiled manifest is the value
-- `policy`, an error or the scopes that `parseManifest` accepted; SHA-256 and the JSON decoder are
-- parameters.
pub mod Permissions
pub mod Audience
pub mod Manifest
pub mod Tests
use tikti.Base.{
  ltb, leb, ◌==◌, if◌then◌else◌, ltb→lt, lt→ltb, leb→le, ==_iff, Bool-cases, Option-cases, bool_ext,
  &&_true, length, all, keep, length-append, length-keep-le, All, All-append, All-append_left,
  All-append_right, All-reverse, All-keep, All-map, All-of-all, all-of-All, Result, ok, err, ◌>>=◌,
  >>=-eq-ok, Text, codes, teq, tle, tlt, teq_sound, teq_refl, teq_iff, teq_comm, tle_refl,
  tle_total, tle_antisymm, tle_trans, has_prefix, is_empty, ℕ, zero, suc, ◌+◌, ◌-◌, ◌*◌, ◌/◌, ◌%◌,
  ◌^◌, ◌≤◌, ◌<◌, String, ◌≡◌, refl, sym, ap, ◌∙◌, ◌≡⟨◌⟩◌, ◌∎, ◌≢◌, ◌↔◌, ◌⊎◌, inl, inr, Bool, true,
  false, not, ◌&&◌, ◌||◌, Option, none, some, List, [], ◌∷◌, ◌++◌, map, reverse, arith, same_texts,
  same_texts_iff, contains, is_nodup, contains-append, contains-keep, All-contains, All-of_contains,
  subset, contains-subset, insert, sort, IsSorted, IsStrict, contains-insert, contains-sort,
  All-insert, All-sort, length-insert, length-sort, sort-IsSorted, sort-IsStrict, sort_of_IsSorted,
  IsStrict-IsSorted, IsStrict-is_nodup, sort_of_IsStrict, IsStrict-ext, trim_space,
  trim_space_solid, IsSolid,
}

pub record ScopeEntry : Type 0 where
  pub scope : Text
  pub boundary : Text
  pub tenant_assignable : Bool
  pub reason : Text

pub record Document : Type 0 where
  pub schema_version : ℕ
  pub policy_version : Text
  pub scopes : List ScopeEntry

pub data PolicyError : Type 0 where
  digest_mismatch version_mismatch trailing_data invalid_entry duplicate_scope : PolicyError

abbrev pub Policy : Type 0
Policy = Result PolicyError (List ScopeEntry)

abbrev pub reserved_prefix : Text
reserved_prefix = codes "code-admin:"

abbrev pub tenant_boundary : Text
tenant_boundary = codes "tenant"

abbrev pub alphabet : Text
alphabet = codes "abcdefghijklmnopqrstuvwxyzABCDEFGHIJKLMNOPQRSTUVWXYZ0123456789._:/*-"

-- strings.ContainsRune on ASCII text
unfoldable pub contains_byte : Text → ℕ → Bool
contains_byte [] c = false
contains_byte (a ∷ s) c = (a == c) || contains_byte s c

unfoldable pub valid_permission : Text → Bool
unfolding contains_byte
valid_permission value =
    if ltb (length value) 1 || ltb 128 (length value)
    then false
    else all (contains_byte alphabet) value

unfoldable pub is_reserved : Text → Bool
is_reserved value = has_prefix value reserved_prefix

-- entry, known := policyScopes[value]
unfoldable pub find_scope : List ScopeEntry → Text → Option ScopeEntry
find_scope [] value = none
find_scope (e ∷ es) value = if teq e.scope value then some e else find_scope es value

unfoldable pub is_tenant : ScopeEntry → Bool
is_tenant entry = teq entry.boundary tenant_boundary

unfoldable pub entry_assignable : Option ScopeEntry → Bool
entry_assignable none = false
entry_assignable (some entry) = entry.tenant_assignable && is_tenant entry

-- The test of a reserved permission in CanonicalPermissions.
unfoldable pub reserved_assignable : Policy → Text → Bool
unfolding entry_assignable
reserved_assignable (err e) value = false
reserved_assignable (ok entries) value = entry_assignable (find_scope entries value)

-- The loop of CanonicalPermissions.
unfoldable pub check_permissions : Policy → List Text → List Text → Bool
check_permissions policy seen [] = true
check_permissions policy seen (value ∷ rest) =
    let later = check_permissions policy (value ∷ seen) rest in
    if not (valid_permission value)
    then false
    else if contains seen value
    then false
    else if is_reserved value && not (reserved_assignable policy value)
    then false
    else later

unfoldable pub canonical_permissions : Policy → List Text → Option (List Text)
canonical_permissions policy values =
    if ltb (length values) 1 || ltb 500 (length values)
    then none
    else if check_permissions policy [] values
    then some (sort values)
    else none

unfoldable pub equals_canonical : Option (List Text) → List Text → Bool
equals_canonical none values = false
equals_canonical (some canonical) values = same_texts canonical values

unfoldable pub valid_canonical_permissions : Policy → List Text → Bool
unfolding equals_canonical
valid_canonical_permissions policy values =
    equals_canonical (canonical_permissions policy values) values

-- A reserved scope that the manifest does not know, or that is dormant, enters no audience.
unfoldable pub audience_known : Option ScopeEntry → Bool
audience_known none = false
audience_known (some entry) = not (is_tenant entry && not entry.tenant_assignable)

-- The loop of CanonicalAudienceScopes; `result` holds what `seen` holds.
unfoldable pub collect_scopes : List ScopeEntry → List Text → List Text → Option (List Text)
unfolding audience_known
collect_scopes entries result [] = some result
collect_scopes entries result (raw ∷ rest) =
    let value = trim_space raw in
    let skipped = collect_scopes entries result rest in
    let added = collect_scopes entries (result ++ value ∷ []) rest in
    if not (valid_permission value)
    then none
    else if is_reserved value && not (audience_known (find_scope entries value))
    then none
    else if contains result value
    then skipped
    else added

unfoldable pub finish_scopes : Option (List Text) → Option (List Text)
finish_scopes none = none
finish_scopes (some result) = if ltb 0 (length (sort result)) then some (sort result) else none

unfoldable pub canonical_audience_scopes : Policy → List Text → Option (List Text)
unfolding finish_scopes
canonical_audience_scopes (err e) values = none
canonical_audience_scopes (ok entries) values =
    if ltb (length values) 1 || ltb 500 (length values)
    then none
    else finish_scopes (collect_scopes entries [] values)

unfoldable pub valid_canonical_audience_scopes : Policy → List Text → Bool
unfolding equals_canonical
valid_canonical_audience_scopes policy values =
    equals_canonical (canonical_audience_scopes policy values) values

unfoldable pub tenant_role_assignable : Policy → Text → Bool
tenant_role_assignable policy value =
    if not (is_reserved value) then false else reserved_assignable policy value

unfoldable pub entry_foreign : Option ScopeEntry → Bool
entry_foreign none = false
entry_foreign (some entry) = not (is_tenant entry)

unfoldable pub reserved_foreign : Policy → Text → Bool
unfolding entry_foreign
reserved_foreign (err e) value = false
reserved_foreign (ok entries) value = entry_foreign (find_scope entries value)

unfoldable pub requires_home_authority : Policy → Text → Bool
unfolding reserved_foreign
requires_home_authority policy value =
    if not (valid_permission value)
    then false
    else if not (is_reserved value)
    then true
    else reserved_foreign policy value

-- The tests of one manifest entry in parseManifest.
unfoldable pub valid_entry : ScopeEntry → Bool
valid_entry entry =
    not (is_empty entry.scope)
    && not (entry.tenant_assignable && not (is_tenant entry))
    && (is_tenant entry
        || teq entry.boundary (codes "global")
        || teq entry.boundary (codes "mixed"))

unfoldable pub is_known : Option ScopeEntry → Bool
is_known none = false
is_known (some entry) = true

unfoldable pub add_entries : List ScopeEntry → List ScopeEntry → Policy
add_entries scopes [] = ok scopes
add_entries scopes (entry ∷ rest) =
    let later = add_entries (entry ∷ scopes) rest in
    if not (valid_entry entry)
    then err invalid_entry
    else if is_known (find_scope scopes entry.scope)
    then err duplicate_scope
    else later

-- `decode` reads one JSON value without unknown fields and leaves the rest of the bytes; `at_end`
-- says that a second read of the decoder meets the end.
module _ (sha256_hex : Text → Text) (decode : Text → Option (Document × Text))
    (at_end : Text → Bool) where
  unfoldable pub parse_decoded : Option (Document × Text) → Text → Policy
  parse_decoded none expected_version = err version_mismatch
  parse_decoded (some (parsed, rest)) expected_version =
      if not (parsed.schema_version == 1) || not (teq parsed.policy_version expected_version)
      then err version_mismatch
      else if not (at_end rest)
      then err trailing_data
      else add_entries [] parsed.scopes

  unfoldable pub parse_manifest : Text → Text → Text → Policy
  unfolding parse_decoded
  parse_manifest text expected_digest expected_version =
      if not (teq (sha256_hex text) expected_digest)
      then err digest_mismatch
      else parse_decoded (decode text) expected_version
