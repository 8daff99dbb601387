-- ===== src/Role/Answers.antt =====
-- What the operations of the role service answer.
use tikti.Base.{
  Option, List, Option-cases, ok, err, >>=-eq-ok, Text, teq_iff, ◌≡◌, sym, ap, ◌∙◌, inl, inr, Bool,
  true, none, some, arith, same_texts_iff, sort, IsStrict, sort_of_IsStrict,
}
use tikti.Domain.{Fallible, Role, RoleResp}
use tikti.Scope.{Policy, canonical_permissions, valid_canonical_permissions}
use tikti.Scope.Permissions.{canonical_permissions_canonical, valid_canonical_permissions_iff}
use tikti.Role.{valid_role_tenant_id, valid_role_name, same_role_definition, exact_role_definition}
use tikti.Role.Service.{
  RoleRepository, ExactRoleRepository, agree, create_named, create_with_name, exact_response,
  get_from, get_by_name_in, role_response, tenant_role,
}

module _ (policy : Policy) (Stored : Type 0) (repo : RoleRepository Stored) where
  same_permissions :
      (stored desired : Role)
      → IsStrict desired.permissions
      → valid_canonical_permissions policy stored.permissions ≡ true
      → same_role_definition stored desired ≡ true
      → stored.permissions ≡ desired.permissions
  unfolding same_role_definition
  same_permissions stored desired strict valid h =
      let (few, many, sorted, grantable) =
        (valid_canonical_permissions_iff policy stored.permissions).0 valid in
      sym (sort_of_IsStrict stored.permissions sorted)
      ∙ ((same_texts_iff (sort stored.permissions) (sort desired.permissions)).0 (ground (arith, h))
          ∙ sort_of_IsStrict desired.permissions strict)

  agree-eq-ok :
      (tenant_id name : Text) (permissions : List Text)
      (answer : Fallible (Option Role × Bool) × Stored) {resp : RoleResp} {fresh : Bool}
      → IsStrict permissions
      → (agree policy Stored repo tenant_id name (tenant_role tenant_id name permissions) answer).0
        ≡ ok (resp, fresh)
      → (resp.name ≡ name) × (resp.permissions ≡ permissions)
  unfolding agree role_response exact_role_definition
  agree-eq-ok tenant_id name permissions (err e, db) s h = cc
  agree-eq-ok tenant_id name permissions (ok (none, new), db) s h = cc
  agree-eq-ok tenant_id name permissions (ok (some stored, new), db) {resp} {fresh} s h = (
    ground (arith, h, teq_iff stored.name name),
    ground (arith, h, same_permissions stored (tenant_role tenant_id name permissions) s),
  )

  -- CreateWithName answers, for a new role and for one that was there, the requested name and the
  -- canonical form of the requested permissions, and only for a valid tenant id and role name.
  pub create_with_name_sound :
      (tenant_id name : Text) (permissions : List Text) (db : Stored) {resp : RoleResp}
      {fresh : Bool}
      → (create_with_name policy Stored repo tenant_id name permissions db).0 ≡ ok (resp, fresh)
      → (valid_role_tenant_id tenant_id ≡ true)
        × (valid_role_name name ≡ true)
        × (resp.name ≡ name)
        × (canonical_permissions policy permissions ≡ some resp.permissions)
  unfolding create_with_name create_named
  create_with_name_sound tenant_id name permissions db {resp} {fresh} h =
      elim (Option-cases (canonical_permissions policy permissions)) [
        | inl e ↦ absurd (ground (arith, h, e))
        | inr (canonical, e) ↦
            let (strict, members, again) = canonical_permissions_canonical policy permissions e in
            let (named, same) =
              agree-eq-ok tenant_id name canonical
                (repo.create_if_absent tenant_id (tenant_role tenant_id name canonical) db)
                {resp = resp} {fresh = fresh} strict (ground (arith, h, e)) in
            (ground (arith, h, e), ground (arith, h, e), named, e ∙ ap some (sym same))
      ]

  exact_response-eq-ok :
      (tenant_id name : Text) (found : Option Role) {resp : RoleResp}
      → exact_response policy Stored repo tenant_id name found ≡ ok resp
      → (resp.name ≡ name) × (valid_canonical_permissions policy resp.permissions ≡ true)
  unfolding exact_response role_response exact_role_definition
  exact_response-eq-ok tenant_id name none h = cc
  exact_response-eq-ok tenant_id name (some role) {resp} h =
      let exact : exact_role_definition policy tenant_id name (some role) ≡ true =
        ground (arith, h) in
      let same : role_response role ≡ resp = ground (arith, h, exact) in
      rw (← same) (ground (arith, exact, teq_iff role.name name), ground (arith, exact))

  -- GetByName answers only with the name that was asked for and with canonical permissions.
  pub get_by_name_sound :
      (exact : Option (ExactRoleRepository Stored)) (tenant_id name : Text) (db : Stored)
      {resp : RoleResp}
      → get_by_name_in policy Stored repo exact tenant_id name db ≡ ok resp
      → (resp.name ≡ name) × (valid_canonical_permissions policy resp.permissions ≡ true)
  unfolding get_by_name_in get_from
  get_by_name_sound none tenant_id name db h = absurd (ground (arith, h))
  get_by_name_sound (some exact) tenant_id name db {resp} h =
      let (found, asked, last) =
        >>=-eq-ok (exact.get_exact tenant_id name db)
          (exact_response policy Stored repo tenant_id name) (ground (arith, h)) in
      exact_response-eq-ok tenant_id name found last
