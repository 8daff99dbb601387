-- ===== src/Native.antt =====
-- internal/nativepolicy/policy.go: the server-owned policy of a public native client. The regular
-- expressions are tests on bytes, and path.Clean leaves a path as it is exactly where its segments
-- are neither empty nor dots.
pub mod Registry
pub mod Scopes
pub mod Foreign
pub mod Tests
use mathlib.Core.List.{tail}
use tikti.Base.{
  ltb, leb, ◌==◌, if◌then◌else◌, ltb→lt, lt→ltb, leb→le, ==_iff, Bool-cases, Option-cases, bool_ext,
  &&_true, length, all, keep, length-append, length-keep-le, All, All-append, All-append_left,
  All-append_right, All-reverse, All-keep, All-map, All-of-all, all-of-All, Result, ok, err, ◌>>=◌,
  >>=-eq-ok, Text, codes, teq, tle, tlt, teq_sound, teq_refl, teq_iff, teq_comm, tle_refl,
  tle_total, tle_antisymm, tle_trans, has_prefix, is_empty, ℕ, zero, suc, ◌+◌, ◌-◌, ◌*◌, ◌/◌, ◌%◌,
  ◌^◌, ◌≤◌, ◌<◌, String, ◌≡◌, refl, sym, ap, ◌∙◌, ◌≡⟨◌⟩◌, ◌∎, ◌≢◌, ◌↔◌, ◌⊎◌, inl, inr, Bool, true,
  false, not, ◌&&◌, ◌||◌, Option, none, some, List, [], ◌∷◌, ◌++◌, map, reverse, arith,
  is_empty_congr, same_texts, same_texts_iff, contains, is_nodup, contains-append, contains-keep,
  All-contains, All-of_contains, subset, contains-subset, insert, sort, IsSorted, IsStrict,
  contains-insert, contains-sort, All-insert, All-sort, length-insert, length-sort, sort-IsSorted,
  sort-IsStrict, sort_of_IsSorted, IsStrict-IsSorted, IsStrict-is_nodup, sort_of_IsStrict,
  IsStrict-ext, is_nodup-concat, contains_congr, add, add_all, contains-add, add-is_nodup,
  contains-add_all, add_all-is_nodup, IsFresh, IsFresh-nil, IsFresh-head, IsFresh-tail,
  IsFresh-cons, trim_space, trim_space_solid, IsSolid,
}
use tikti.Role.{first_byte, last_byte}
use tikti.Scope.{contains_byte}

pub data PolicyError : Type 0 where
  invalid_client access_denied : PolicyError

abbrev pub Checked : Type 0 → Type 0
Checked A = Result PolicyError A

pub record NativeRole : Type 0 where
  pub name : Text
  pub scopes : List Text

pub record NativeClient : Type 0 where
  pub id : Text
  pub name : Text
  pub tenant_id : Text
  pub identity_tenant_id : Text
  pub audience : Text
  pub redirect_path : Text
  pub base_role : NativeRole
  pub additional_roles : List NativeRole
  pub required_scopes : List Text
  pub ttl_seconds : ℕ

abbrev pub lower_alphanumerics : Text
lower_alphanumerics = codes "abcdefghijklmnopqrstuvwxyz0123456789"

abbrev pub alphanumerics : Text
alphanumerics = codes "abcdefghijklmnopqrstuvwxyzABCDEFGHIJKLMNOPQRSTUVWXYZ0123456789"

-- ^[ends](?:[inner]{0,most-2}[ends])?$
unfoldable pub framed : ℕ → Text → Text → Text → Bool
unfolding contains_byte first_byte last_byte
framed most ends inner value =
    leb 1 (length value)
    && leb (length value) most
    && contains_byte ends (first_byte value)
    && contains_byte ends (last_byte value)
    && all (contains_byte inner) value

unfoldable pub identifier : Text → Bool
unfolding framed
identifier value = framed 63 lower_alphanumerics (b'-' ∷ lower_alphanumerics) value

unfoldable pub role_name : Text → Bool
unfolding framed
role_name value = framed 128 alphanumerics (codes "._-" ++ alphanumerics) value

unfoldable pub scope_name : Text → Bool
unfolding contains_byte
scope_name value =
    leb 1 (length value)
    && leb (length value) 128
    && all (contains_byte (codes "._:/-" ++ alphanumerics)) value

-- ValidScope
unfoldable pub valid_scope : Text → Bool
unfolding scope_name
valid_scope value = scope_name value

-- The segments of a path, the part before the first slash included.
unfoldable pub segments : Text → Text → List Text
segments current [] = current ∷ []
segments current (c ∷ rest) =
    let closed = segments [] rest in
    let longer = segments (current ++ c ∷ []) rest in if c == b'/' then current ∷ closed else longer

unfoldable pub plain_segment : Text → Bool
plain_segment part =
    not (is_empty part) && not (teq part (codes ".")) && not (teq part (codes ".."))

-- path.Clean(value) == value, for a value that begins with a slash
unfoldable pub is_clean : Text → Bool
unfolding segments plain_segment
is_clean value = teq value (codes "/") || all plain_segment (segments [] (tail value))

unfoldable pub path_byte : ℕ → Bool
unfolding contains_byte
path_byte c = leb 0x21 c && leb c 0x7e && not (contains_byte (codes "\\?#%") c)

unfoldable pub valid_path : Text → Bool
unfolding is_clean path_byte
valid_path value =
    if is_empty value
      || ltb 256 (length value)
      || not (has_prefix value (codes "/"))
      || has_prefix value (codes "//")
      || not (is_clean value)
    then false
    else all path_byte value

-- unicode.IsControl of some rune: U+0000 to U+001F, U+007F, and U+0080 to U+009F in two bytes.
unfoldable pub has_control : Text → Bool
has_control [] = false
has_control (c ∷ []) = ltb c 32 || (c == 127)
has_control (c ∷ d ∷ rest) =
    ltb c 32 || (c == 127) || ((c == 194) && leb 128 d && leb d 159) || has_control (d ∷ rest)

-- The loop of validScopes; the map `seen` is a list.
unfoldable pub fresh_scopes : List Text → List Text → Bool
fresh_scopes seen [] = true
fresh_scopes seen (value ∷ rest) =
    let later = fresh_scopes (value ∷ seen) rest in
    if not (scope_name value) || contains seen value then false else later

unfoldable pub valid_scopes : List Text → Bool
valid_scopes values =
    if (length values == 0) || ltb 128 (length values) then false else fresh_scopes [] values

-- slices.SortFunc by name
unfoldable pub insert_role : NativeRole → List NativeRole → List NativeRole
insert_role r [] = r ∷ []
insert_role r (x ∷ xs) =
    let rest = insert_role r xs in if tle r.name x.name then r ∷ x ∷ xs else x ∷ rest

unfoldable pub sort_roles : List NativeRole → List NativeRole
unfolding insert_role
sort_roles [] = []
sort_roles (x ∷ xs) = insert_role x (sort_roles xs)

unfoldable pub with_sorted_scopes : NativeRole → NativeRole
with_sorted_scopes role = record { name = role.name; scopes = sort role.scopes }

-- The loop of Normalize over all roles: names are fresh, scopes valid, and `ceiling` collects the
-- scopes.
unfoldable pub check_roles : List Text → List Text → List NativeRole → Checked (List Text)
check_roles seen ceiling [] = ok ceiling
check_roles seen ceiling (role ∷ rest) =
    let later = check_roles (role.name ∷ seen) (add_all role.scopes ceiling) rest in
    if not (role_name role.name) || not (valid_scopes role.scopes) || contains seen role.name
    then err invalid_client
    else later

unfoldable pub well_formed_client : NativeClient → Bool
well_formed_client c =
    identifier c.id
    && identifier c.tenant_id
    && identifier c.identity_tenant_id
    && identifier c.audience
    && valid_path c.redirect_path
    && leb 60 c.ttl_seconds
    && leb c.ttl_seconds 3600
    && leb 1 (length c.name)
    && leb (length c.name) 100
    && teq (trim_space c.name) c.name
    && leb (length c.additional_roles) 31
    && valid_scopes c.required_scopes
    && not (has_control c.name)

unfoldable pub normal_form : NativeClient → NativeClient
unfolding with_sorted_scopes sort_roles
normal_form c = record c {
  base_role = with_sorted_scopes c.base_role;
  additional_roles = sort_roles (map with_sorted_scopes c.additional_roles);
  required_scopes = sort c.required_scopes;
}

unfoldable pub within_ceiling : NativeClient → List Text → Checked NativeClient
unfolding normal_form
within_ceiling c ceiling =
    if ltb 500 (length ceiling)
    then err invalid_client
    else if all (contains ceiling) c.required_scopes
    then ok (normal_form c)
    else err invalid_client

-- Client.Normalize
unfoldable pub normalize : NativeClient → Checked NativeClient
unfolding within_ceiling
normalize c =
    if not (well_formed_client c)
    then err invalid_client
    else check_roles [] [] (c.base_role ∷ c.additional_roles) >>= within_ceiling c

-- The union of the scopes of the held roles.
unfoldable pub held_scopes : List Text → List Text → List NativeRole → List Text
held_scopes held set [] = set
held_scopes held set (role ∷ rest) =
    held_scopes held (if contains held role.name then add_all role.scopes set else set) rest

unfoldable pub grant_normalized : List Text → NativeClient → Checked (List Text)
unfolding held_scopes
grant_normalized assigned n =
    if not (contains assigned n.base_role.name)
    then err access_denied
    else let set = held_scopes assigned [] (n.base_role ∷ n.additional_roles) in
      if all (contains set) n.required_scopes then ok (sort set) else err access_denied

-- Client.ScopesForRoles
unfoldable pub scopes_for_roles : NativeClient → List Text → Checked (List Text)
unfolding grant_normalized
scopes_for_roles c assigned = normalize c >>= grant_normalized assigned
