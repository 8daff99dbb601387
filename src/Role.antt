-- ===== src/Role.antt =====
-- internal/services/role_service.go: the names of roles and tenants, and lists of permissions.
pub mod Laws
pub mod Service
pub mod Answers
pub mod Listing
pub mod Resolution
pub mod Tests
use tikti.Base.{
  ltb, leb, ◌==◌, if◌then◌else◌, ltb→lt, lt→ltb, leb→le, ==_iff, Bool-cases, Option-cases, bool_ext,
  &&_true, length, all, keep, length-append, length-keep-le, All, All-append, All-append_left,
  All-append_right, All-reverse, All-keep, All-map, All-of-all, all-of-All, Result, ok, err, ◌>>=◌,
  >>=-eq-ok, Text, codes, teq, tle, tlt, teq_sound, teq_refl, teq_iff, teq_comm, tle_refl,
  tle_total, tle_antisymm, tle_trans, has_prefix, is_empty, ℕ, zero, suc, ◌+◌, ◌-◌, ◌*◌, ◌/◌, ◌%◌,
  ◌^◌, ◌≤◌, ◌<◌, String, ◌≡◌, refl, sym, ap, ◌∙◌, ◌≡⟨◌⟩◌, ◌∎, ◌≢◌, ◌↔◌, ◌⊎◌, inl, inr, Bool, true,
  false, not, ◌&&◌, ◌||◌, Option, none, some, List, [], ◌∷◌, ◌++◌, map, reverse, arith, same_texts,
  same_texts_iff, contains, is_nodup, contains-append, contains-keep, All-contains, All-of_contains,
  subset, contains-subset, insert, sort, IsSorted, IsStrict, contains-insert, contains-sort,
  All-insert, All-sort, length-insert, length-sort, sort-IsSorted, sort-IsStrict, sort_of_IsSorted,
  IsStrict-IsSorted, IsStrict-is_nodup, sort_of_IsStrict, IsStrict-ext, is_nodup-concat,
  contains_congr, IsFresh, IsFresh-nil, IsFresh-head, IsFresh-tail, IsFresh-cons, trim_space,
  trim_space_solid, IsSolid,
}
use tikti.Domain.{Role, role_scope_tenant}
use tikti.Scope.{Policy, canonical_permissions, valid_canonical_permissions, contains_byte}

abbrev pub tenant_alphabet : Text
tenant_alphabet = codes "abcdefghijklmnopqrstuvwxyz0123456789-"

abbrev pub alphanumerics : Text
alphanumerics = codes "abcdefghijklmnopqrstuvwxyzABCDEFGHIJKLMNOPQRSTUVWXYZ0123456789"

-- value[0] and value[len(value)-1] of a text that is not empty
unfoldable pub first_byte : Text → ℕ
first_byte [] = 0
first_byte (c ∷ s) = c

unfoldable pub last_byte : Text → ℕ
last_byte [] = 0
last_byte (c ∷ []) = c
last_byte (c ∷ d ∷ s) = last_byte (d ∷ s)

unfoldable pub valid_role_tenant_id : Text → Bool
unfolding first_byte last_byte contains_byte
valid_role_tenant_id value =
    if ltb (length value) 1
      || ltb 63 (length value)
      || (first_byte value == b'-')
      || (last_byte value == b'-')
    then false
    else all (contains_byte tenant_alphabet) value

unfoldable pub ascii_alpha_numeric : ℕ → Bool
unfolding contains_byte
ascii_alpha_numeric c = contains_byte alphanumerics c

unfoldable pub role_name_byte : ℕ → Bool
unfolding ascii_alpha_numeric
role_name_byte c = ascii_alpha_numeric c || (c == b'.') || (c == b'_') || (c == b'-')

unfoldable pub valid_role_name : Text → Bool
unfolding ascii_alpha_numeric role_name_byte first_byte last_byte
valid_role_name value =
    if ltb (length value) 1
      || ltb 128 (length value)
      || not (ascii_alpha_numeric (first_byte value))
      || not (ascii_alpha_numeric (last_byte value))
    then false
    else all role_name_byte value

-- The loop of normalizePermissions; `out` holds what `seen` holds.
unfoldable pub collect_trimmed : List Text → List Text → List Text
collect_trimmed out [] = out
collect_trimmed out (raw ∷ rest) =
    let value = trim_space raw in
    collect_trimmed (if is_empty value || contains out value then out else out ++ value ∷ []) rest

unfoldable pub normalize_permissions : List Text → List Text
unfolding collect_trimmed
normalize_permissions values = sort (collect_trimmed [] values)

-- normalizeList of user_service.go
unfoldable pub normalize_list : List Text → List Text
normalize_list [] = []
normalize_list (raw ∷ rest) =
    let value = trim_space raw in
    let later = normalize_list rest in if is_empty value then later else value ∷ later

unfoldable pub canonical_legacy_role_permissions : Policy → List Text → Option (List Text)
canonical_legacy_role_permissions policy values =
    let normalized = normalize_permissions values in
    if length normalized == 0 then some normalized else canonical_permissions policy normalized

unfoldable pub same_role_definition : Role → Role → Bool
same_role_definition left right =
    teq left.name right.name
    && teq left.scope right.scope
    && teq left.tenant_id right.tenant_id
    && teq left.resource_id right.resource_id
    && (length left.permissions == length right.permissions)
    && same_texts (sort left.permissions) (sort right.permissions)

unfoldable pub exact_role_definition : Policy → Text → Text → Option Role → Bool
exact_role_definition policy tenant_id name none = false
exact_role_definition policy tenant_id name (some role) =
    teq role.name name
    && teq role.scope role_scope_tenant
    && teq role.tenant_id tenant_id
    && is_empty role.resource_id
    && valid_role_name name
    && valid_canonical_permissions policy role.permissions
