-- ===== src/Role/Resolution.antt =====
-- ResolvePermissions of internal/services/role_service.go computes the union of the stored roles.
use tikti.Base.{
  Option, List, Bool-cases, Option-cases, ok, err, ◌>>=◌, >>=-eq-ok, Text, is_empty, ◌≡◌, refl, ap,
  ◌∙◌, inl, inr, Bool, true, false, not, ◌&&◌, ◌||◌, none, some, [], ◌∷◌, arith, contains, is_nodup,
  sort, IsStrict, contains-sort, sort-IsStrict, add_all, contains-add_all, add_all-is_nodup,
  trim_space,
}
use tikti.Domain.{Fallible, Role}
use tikti.Scope.{Policy}
use tikti.Role.{canonical_legacy_role_permissions}
use tikti.Role.Service.{
  RoleRepository, add_legacy, add_stored, collect_permissions, resolve_permissions_in,
}

abbrev in_some : Option (List Text) → Text → Bool
in_some none x = false
in_some (some permissions) x = contains permissions x

-- The permission is one of those of the role that the repository answers, in canonical form.
abbrev pub stored_holds : Policy → Fallible (Option Role) → Text → Bool
stored_holds policy (err e) x = false
stored_holds policy (ok none) x = false
stored_holds policy (ok (some role)) x =
    in_some (canonical_legacy_role_permissions policy role.permissions) x

module _ (policy : Policy) (Stored : Type 0) (repo : RoleRepository Stored) where
  -- Some name, trimmed and not empty, is that of a stored role with the permission.
  abbrev pub some_holds : Text → Stored → List Text → Text → Bool
  some_holds tenant_id db [] x = false
  some_holds tenant_id db (raw ∷ rest) x =
      (not (is_empty (trim_space raw))
        && stored_holds policy (repo.find_role tenant_id (trim_space raw) db) x)
      || some_holds tenant_id db rest x

  add_stored-members :
      (set : List Text) (found : Option Role) {set' : List Text}
      → is_nodup set ≡ true
      → add_stored policy Stored repo set found ≡ ok set'
      → (is_nodup set' ≡ true)
        × ((x : Text) → contains set' x ≡ (stored_holds policy (ok found) x || contains set x))
  unfolding add_stored add_legacy
  add_stored-members set none {set'} n h =
      let same : set ≡ set' = ground arith in rw (← same) (n, λ x. refl)
  add_stored-members set (some role) {set'} n h =
      elim (Option-cases (canonical_legacy_role_permissions policy role.permissions)) [
        | inl e ↦ absurd (ground (arith, h, e))
        | inr (permissions, e) ↦
            let same : add_all permissions set ≡ set' = ground (arith, h, e) in
            rw (← same) (
              add_all-is_nodup permissions set n,
              λ x. ground (arith, e, contains-add_all permissions set x),
            )
      ]

  collect-members :
      (tenant_id : Text) (db : Stored) (set roles : List Text) {out : List Text}
      → is_nodup set ≡ true
      → collect_permissions policy Stored repo tenant_id db set roles ≡ ok out
      → (is_nodup out ≡ true)
        × ((x : Text) → contains out x ≡ (some_holds tenant_id db roles x || contains set x))
  unfolding collect_permissions
  collect-members tenant_id db set [] {out} n h =
      let same : set ≡ out = ground arith in rw (← same) (n, λ x. refl)
  collect-members tenant_id db set (raw ∷ rest) {out} n h =
      elim (Bool-cases (is_empty (trim_space raw))) [
        | inl e ↦
            let (distinct, members) =
              collect-members tenant_id db set rest {out = out} n (ground (arith, h, e)) in
            (distinct, λ x. ground (arith, members x, e))
        | inr e ↦
            let (set', first, later) =
              >>=-eq-ok
                (repo.find_role tenant_id (trim_space raw) db >>= add_stored policy Stored repo set)
                (λ found. collect_permissions policy Stored repo tenant_id db found rest)
                (rw e at h) in
            let (found, asked, added) =
              >>=-eq-ok (repo.find_role tenant_id (trim_space raw) db)
                (add_stored policy Stored repo set) first in
            let (distinct, here) = add_stored-members set found n added in
            let (distinct', members) =
              collect-members tenant_id db set' rest {out = out} distinct later in
            (
              distinct',
              λ x.
                  ground (
                    arith,
                    members x,
                    here x,
                    e,
                    ap (λ answer. stored_holds policy answer x) asked,
                  ),
            )
      ]

  -- The permissions that are resolved are strictly sorted and are exactly those of the stored roles with
  -- the given names, trimmed; names that are empty or not stored add nothing.
  pub resolve_permissions_exact :
      (tenant_id : Text) (roles : List Text) (db : Stored) {out : List Text}
      → resolve_permissions_in policy Stored repo tenant_id roles db ≡ ok out
      → IsStrict out × ((x : Text) → contains out x ≡ some_holds tenant_id db roles x)
  unfolding resolve_permissions_in is_nodup contains
  resolve_permissions_exact tenant_id roles db {out} h =
      let (set, collected, last) =
        >>=-eq-ok (collect_permissions policy Stored repo tenant_id db [] roles)
          (λ found. ok (sort found)) {last = out} (ground (arith, h)) in
      let same : sort set ≡ out = ground (arith, last) in
      let (distinct, members) = collect-members tenant_id db [] roles {out = set} refl collected in
      rw (← same) (sort-IsStrict set distinct, λ x. contains-sort set x ∙ ground (arith, members x))
