-- ===== src/Access/Laws.antt =====
-- Tenant roles resolve to exactly the permissions of their stored, canonical definitions.
use tikti.Base.{
  Bool-cases, ok, err, >>=-eq-ok, Text, teq, ◌≡◌, refl, ◌∙◌, inl, inr, Bool, true, false, ◌&&◌,
  ◌||◌, Option, none, some, List, [], ◌∷◌, arith, contains, is_nodup, IsStrict, contains-sort,
  sort-IsStrict, contains-add_all, add_all-is_nodup,
}
use tikti.Domain.{Fallible, RoleResp}
use tikti.Scope.{Policy, valid_canonical_permissions}
use tikti.Access.{
  Roles, Authorization, Grants, no_grants, grant, grant_role, grant_roles, authorize,
  resolve_membership_role_authorization,
}

-- The permission stands in the definition that the role service answers, under the role's own name
-- and in canonical form.
unfoldable pub holds : Policy → Text → Fallible (Option RoleResp) → Text → Bool
holds policy name (err e) x = false
holds policy name (ok none) x = false
holds policy name (ok (some role)) x =
    teq role.name name
    && valid_canonical_permissions policy role.permissions
    && contains role.permissions x

-- One of the roles holds the permission.
unfoldable pub granted : Policy → Roles → Text → List Text → Text → Bool
granted policy roles tenant_id [] x = false
granted policy roles tenant_id (name ∷ names) x =
    holds policy name (roles.get_by_name tenant_id name) x || granted policy roles tenant_id names x

record Granted (policy : Policy) (name : Text) (answer : Fallible (Option RoleResp)) (g g' : Grants)
    : Type 0 where
  members :
      (x : Text)
      → contains g'.permissions x ≡ (holds policy name answer x || contains g.permissions x)
  distinct : is_nodup g.permissions ≡ true → is_nodup g'.permissions ≡ true

grant_role-Granted :
    (policy : Policy) (skip : Bool) (tenant_id name : Text) (answer : Fallible (Option RoleResp))
    (g : Grants) {g' : Grants}
    → grant_role policy skip tenant_id name answer g ≡ ok g'
    → Granted policy name answer g g'
unfolding grant_role holds
grant_role-Granted policy skip tenant_id name (err e) g {g'} h =
    let same : g ≡ g' = ground arith in
    record { members = λ x. rw (← same); distinct = λ n. rw (← same) n }
grant_role-Granted policy skip tenant_id name (ok none) g h = absurd (ground (arith, h))
grant_role-Granted policy skip tenant_id name (ok (some role)) g {g'} h =
    elim (Bool-cases (teq role.name name && valid_canonical_permissions policy role.permissions)) [
      | inl usable ↦
          let same : grant tenant_id name role g ≡ g' = ground (arith, usable, h) in
          record {
            members = λ x.
                rw (← same)
                  (ground (arith, usable, contains-add_all role.permissions g.permissions x));
            distinct = λ n. rw (← same) (add_all-is_nodup role.permissions g.permissions n);
          }
      | inr unusable ↦
          let same : g ≡ g' = ground (arith, unusable, h) in
          record {
            members = λ x. rw (← same) (ground (arith, unusable));
            distinct = λ n. rw (← same) n;
          }
    ]

grant_roles-granted :
    (policy : Policy) (roles : Roles) (skip : Bool) (tenant_id : Text) (names : List Text)
    (g : Grants) {g' : Grants}
    → is_nodup g.permissions ≡ true
    → grant_roles policy roles skip tenant_id names g ≡ ok g'
    → (is_nodup g'.permissions ≡ true)
      × ((x : Text)
          → contains g'.permissions x
            ≡ (granted policy roles tenant_id names x || contains g.permissions x))
unfolding grant_roles granted
grant_roles-granted policy roles skip tenant_id [] g {g'} n h =
    let same : g ≡ g' = ground arith in rw (← same) (n, λ x. refl)
grant_roles-granted policy roles skip tenant_id (name ∷ names) g n h =
    let (mid, first, later) =
      >>=-eq-ok (grant_role policy skip tenant_id name (roles.get_by_name tenant_id name) g) _ h in
    let here =
      grant_role-Granted policy skip tenant_id name (roles.get_by_name tenant_id name) g first in
    let (distinct, members) =
      grant_roles-granted policy roles skip tenant_id names mid (here.distinct n) later in
    (distinct, λ x. ground (arith, members x, here.members x))

-- What `authorize` makes of the grants of some roles.
pub record IsGranted (policy : Policy) (roles : Roles) (tenant_id : Text) (names : List Text)
    (a : Authorization) : Type 0 where
  pub names_kept : a.roles ≡ names
  pub sorted : IsStrict a.permissions
  pub exact : (x : Text) → contains a.permissions x ≡ granted policy roles tenant_id names x

pub authorize-IsGranted :
    (policy : Policy) (roles : Roles) (skip : Bool) (tenant_id : Text) (names : List Text)
    {g : Grants}
    → grant_roles policy roles skip tenant_id names no_grants ≡ ok g
    → IsGranted policy roles tenant_id names (authorize names g)
unfolding authorize is_nodup contains
authorize-IsGranted policy roles skip tenant_id names {g} h =
    let (distinct, members) =
      grant_roles-granted policy roles skip tenant_id names no_grants refl h in
    record {
      names_kept = refl;
      sorted = sort-IsStrict g.permissions distinct;
      exact = λ x. contains-sort g.permissions x ∙ ground (arith, members x);
    }

-- A resolved authorization names the given roles, and its permissions are, strictly sorted, exactly
-- those of the roles' stored definitions.
pub resolve_membership-IsGranted :
    (policy : Policy) (roles : Roles) (tenant_id : Text) (names : List Text) {a : Authorization}
    → resolve_membership_role_authorization policy (some roles) tenant_id names ≡ ok a
    → IsGranted policy roles tenant_id names a
unfolding resolve_membership_role_authorization
resolve_membership-IsGranted policy roles tenant_id names {a} h =
    let (g, found, e) = >>=-eq-ok (grant_roles policy roles false tenant_id names no_grants) _ h in
    let same : authorize names g ≡ a = ground (arith, e) in
    rw (← same) (authorize-IsGranted policy roles false tenant_id names found)
