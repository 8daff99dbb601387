-- ===== src/Scope/Tests.antt =====
-- Runs of the scope policy on small manifests, and the theorems at them.
use tikti.Base.{
  length, All, ok, Text, codes, teq, tle, has_prefix, is_empty, ◌≤◌, ◌≡◌, refl, ◌↔◌, Bool, true,
  false, not, Option, none, some, List, [], ◌∷◌, contains, is_nodup, sort, IsStrict, trim_space,
}
use tikti.Scope.{
  ScopeEntry, is_reserved, valid_permission, reserved_assignable, check_permissions,
  canonical_permissions, canonical_audience_scopes, collect_scopes, find_scope, is_tenant,
}
use tikti.Scope.{
  Document, valid_canonical_permissions, valid_canonical_audience_scopes, requires_home_authority,
  tenant_role_assignable, parse_manifest, parse_decoded, add_entries, valid_entry, is_known,
}
use tikti.Scope.Permissions.{
  IsGrantable, canonical_permissions_canonical, canonical_permissions_iff,
  valid_canonical_permissions_iff,
}
use tikti.Scope.Audience.{
  IsAudienceScope, trimmed, canonical_audience_scopes_canonical, canonical_audience_scopes_iff,
  valid_canonical_audience_scopes-canonical_audience_scopes, canonical_scope_authority,
}
use tikti.Scope.Manifest.{IsWellFormed, parse_manifest_sound}

abbrev secrets : ScopeEntry
secrets = record {
  scope = codes "code-admin:s";
  boundary = codes "tenant";
  tenant_assignable = true;
  reason = [];
}

abbrev gate : ScopeEntry
gate = record {
  scope = codes "code-admin:g";
  boundary = codes "global";
  tenant_assignable = false;
  reason = [];
}

abbrev entries : List ScopeEntry
entries = gate ∷ secrets ∷ []

abbrev wanted : List Text
wanted = codes "codeq:claim" ∷ codes "code-admin:s" ∷ []

abbrev in_order : List Text
in_order = codes "code-admin:s" ∷ codes "codeq:claim" ∷ []

abbrev spaced : List Text
spaced = codes " codeq:claim" ∷ codes "code-admin:s" ∷ codes "codeq:claim" ∷ []

permissions_accepted : canonical_permissions (ok entries) wanted ≡ some in_order
unfolding canonical_permissions check_permissions valid_permission is_reserved reserved_assignable
    find_scope has_prefix teq contains sort tle is_tenant
permissions_accepted = refl

global_scope_refused : canonical_permissions (ok entries) (codes "code-admin:g" ∷ []) ≡ none
unfolding canonical_permissions check_permissions valid_permission is_reserved reserved_assignable
    find_scope has_prefix teq contains sort tle is_tenant
global_scope_refused = refl

audience_accepted : canonical_audience_scopes (ok entries) spaced ≡ some in_order
unfolding canonical_audience_scopes collect_scopes trim_space valid_permission is_reserved
    find_scope has_prefix teq contains sort tle is_tenant
audience_accepted = refl

canonical_permissions_canonical_example :
    IsStrict in_order
    × ((x : Text) → contains in_order x ≡ contains wanted x)
    × (canonical_permissions (ok entries) in_order ≡ some in_order)
canonical_permissions_canonical_example =
    canonical_permissions_canonical (ok entries) wanted permissions_accepted

canonical_permissions_iff_example : (canonical_permissions (ok entries) wanted ≡ some in_order) ↔ (
    (in_order ≡ sort wanted)
    × (1 ≤ length wanted)
    × (length wanted ≤ 500)
    × (is_nodup wanted ≡ true)
    × All (IsGrantable (ok entries)) wanted)
canonical_permissions_iff_example = canonical_permissions_iff (ok entries) wanted in_order

valid_canonical_permissions_iff_example :
    (valid_canonical_permissions (ok entries) in_order ≡ true) ↔ (
      (1 ≤ length in_order)
      × (length in_order ≤ 500)
      × IsStrict in_order
      × All (IsGrantable (ok entries)) in_order)
valid_canonical_permissions_iff_example = valid_canonical_permissions_iff (ok entries) in_order

canonical_audience_scopes_canonical_example :
    IsStrict in_order
    × ((x : Text) → contains in_order x ≡ contains (trimmed spaced) x)
    × All (IsAudienceScope entries) in_order
    × (1 ≤ length in_order)
    × (length in_order ≤ length spaced)
canonical_audience_scopes_canonical_example =
    canonical_audience_scopes_canonical entries spaced audience_accepted

canonical_audience_scopes_iff_example :
    ((result : List Text) × (canonical_audience_scopes (ok entries) spaced ≡ some result))
    ↔ ((1 ≤ length spaced) × (length spaced ≤ 500) × All (IsAudienceScope entries) (trimmed spaced))
canonical_audience_scopes_iff_example = canonical_audience_scopes_iff entries spaced

valid_canonical_audience_scopes-canonical_audience_scopes_example :
    valid_canonical_audience_scopes (ok entries) in_order ≡ true
valid_canonical_audience_scopes-canonical_audience_scopes_example =
    valid_canonical_audience_scopes-canonical_audience_scopes (ok entries) spaced audience_accepted

claim_in_order : contains in_order (codes "codeq:claim") ≡ true
unfolding contains teq
claim_in_order = refl

canonical_scope_authority_example :
    requires_home_authority (ok entries) (codes "codeq:claim")
    ≡ not (tenant_role_assignable (ok entries) (codes "codeq:claim"))
canonical_scope_authority_example =
    canonical_scope_authority (ok entries) spaced (codes "codeq:claim") audience_accepted
      claim_in_order

abbrev document : Document
document = record { schema_version = 1; policy_version = codes "v1"; scopes = secrets ∷ gate ∷ [] }

abbrev digest : Text → Text
digest text = codes "d"

abbrev decode : Text → Option (Document × Text)
decode text = some (document, [])

abbrev at_end : Text → Bool
at_end rest = is_empty rest

manifest_parsed : parse_manifest digest decode at_end [] (codes "d") (codes "v1") ≡ ok entries
unfolding parse_manifest parse_decoded add_entries valid_entry is_known find_scope teq is_tenant
    is_empty
manifest_parsed = refl

parse_manifest_sound_example :
    (digest [] ≡ codes "d")
    × ((d : Document) × (rest : Text) × (decode [] ≡ some (d, rest))
        × (d.schema_version ≡ 1)
        × (d.policy_version ≡ codes "v1")
        × (at_end rest ≡ true)
        × (length entries ≡ length d.scopes)
        × All (λ (entry : ScopeEntry). find_scope entries entry.scope ≡ some entry) d.scopes)
    × IsWellFormed entries
parse_manifest_sound_example =
    parse_manifest_sound digest decode at_end [] (codes "d") (codes "v1") manifest_parsed
