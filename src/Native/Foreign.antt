-- ===== src/Native/Foreign.antt =====
-- AllowsForeignRole of internal/nativepolicy/registry.go: a foreign role is trusted exactly where a
-- registered client pairs the two tenants and holds the role.
use tikti.Base.{
  List, leb, ◌==◌, Bool-cases, length, all, All-map, All-of-all, all-of-All, ok, ◌>>=◌, >>=-eq-ok,
  Text, teq, ℕ, ◌≡◌, refl, ap, inl, inr, Bool, true, false, not, ◌&&◌, ◌||◌, some, [], ◌∷◌, map,
  arith,
}
use tikti.Role.{first_byte, last_byte}
use tikti.Scope.{contains_byte}
use tikti.Scope.Audience.{contains_byte-all}
use tikti.Native.Scopes.{normalize-eq-ok}
use tikti.Native.{
  contains_byte, sort_roles, normal_form, insert_role, with_sorted_scopes, identifier, framed,
  lower_alphanumerics, well_formed_client, with_sorted_scopes, framed, well_formed_client,
  sort_roles, normal_form, lower_alphanumerics, insert_role, identifier, NativeClient, NativeRole,
  normalize,
}
use tikti.Native.Registry.{
  Registry, pair_key, has_pair, add_role, add_roles, add_client, add_clients, new_registry,
  empty_registry, allows_foreign_role,
}

abbrev IsPlain : Text → Type 0
IsPlain a = all (λ c. not (c == 0)) a ≡ true

-- A key determines its two parts, where the left ones have no NUL.
teq-pair_key :
    (a b c d : Text)
    → IsPlain a
    → IsPlain c
    → teq (pair_key a b) (pair_key c d) ≡ (teq a c && teq b d)
unfolding pair_key teq
teq-pair_key [] b [] d h k = ground arith
teq-pair_key [] b (z ∷ c) d h k = ground (arith, h, k)
teq-pair_key (y ∷ a) b [] d h k = ground (arith, h, k)
teq-pair_key (y ∷ a) b (z ∷ c) d h k = ground (arith, h, k, teq-pair_key a b c d)

-- One of the roles has the name.
abbrev pub has_role : Text → List NativeRole → Bool
has_role role [] = false
has_role role (r ∷ rest) = teq r.name role || has_role role rest

-- The client trusts the source tenant's role in the target tenant.
abbrev pub trusts : Text → Text → Text → NativeClient → Bool
trusts source target role c =
    not (teq c.identity_tenant_id c.tenant_id)
    && teq c.identity_tenant_id source
    && teq c.tenant_id target
    && has_role role (c.base_role ∷ c.additional_roles)

abbrev pub trusted : List NativeClient → Text → Text → Text → Bool
trusted [] source target role = false
trusted (c ∷ rest) source target role =
    trusts source target role c || trusted rest source target role

has_pair-add_roles :
    (c : NativeClient) (roles : List NativeRole) (r : Registry) (key role : Text) {out : Registry}
    → add_roles c roles r ≡ ok out
    → has_pair key role out.foreign_roles ≡ (
        (not (teq c.identity_tenant_id c.tenant_id)
          && teq (pair_key c.identity_tenant_id c.tenant_id) key
          && has_role role roles)
        || has_pair key role r.foreign_roles)
unfolding add_roles has_pair add_role
has_pair-add_roles c [] r key role h = ground (arith, h)
has_pair-add_roles c (x ∷ rest) r key role {out} h =
    let later =
      has_pair-add_roles c rest (add_role c x r) key role {out = out} (ground (arith, h)) in
    elim (Bool-cases (teq c.identity_tenant_id c.tenant_id)) [
      | inl e ↦ ground (arith, later, e)
      | inr e ↦ ground (arith, later, e)
    ]

lower_plain : all (λ c. not (c == 0)) (b'-' ∷ lower_alphanumerics) ≡ true
lower_plain = refl

last_of_five : (a b c d e : Bool) → (a && b && c && d && e) ≡ true → e ≡ true
last_of_five a b c d e h = ground (arith, h)

framed_inner :
    (most : ℕ) (ends inner value : Text)
    → framed most ends inner value ≡ true
    → all (contains_byte inner) value ≡ true
unfolding framed
framed_inner most ends inner value h =
    last_of_five (leb 1 (length value)) (leb (length value) most)
      (contains_byte ends (first_byte value)) (contains_byte ends (last_byte value))
      (all (contains_byte inner) value) h

-- An identifier has no NUL.
pub identifier-IsPlain : (value : Text) → identifier value ≡ true → IsPlain value
unfolding identifier
identifier-IsPlain value h =
    all-of-All (λ c. not (c == 0)) value
      (All-map _ _
        (λ c k. contains_byte-all (λ a. not (a == 0)) (b'-' ∷ lower_alphanumerics) c lower_plain k)
        value
        (All-of-all (contains_byte (b'-' ∷ lower_alphanumerics)) value
          (framed_inner 63 lower_alphanumerics (b'-' ∷ lower_alphanumerics) value h)))

normalize-IsPlain :
    (c : NativeClient) {n : NativeClient} → normalize c ≡ ok n → IsPlain n.identity_tenant_id
unfolding normalize well_formed_client normal_form
normalize-IsPlain c h =
    rw (normalize-eq-ok c h) (identifier-IsPlain c.identity_tenant_id (ground (arith, h)))

has_role-insert_role :
    (role : Text) (r : NativeRole) (roles : List NativeRole)
    → has_role role (insert_role r roles) ≡ has_role role (r ∷ roles)
unfolding insert_role
has_role-insert_role role r [] = refl
has_role-insert_role role r (y ∷ ys) = ground (arith, has_role-insert_role role r ys)

has_role-sort_roles :
    (role : Text) (roles : List NativeRole)
    → has_role role (sort_roles (map with_sorted_scopes roles)) ≡ has_role role roles
unfolding sort_roles with_sorted_scopes
has_role-sort_roles role [] = refl
has_role-sort_roles role (r ∷ rs) = ground (
  arith,
  has_role-insert_role role (with_sorted_scopes r) (sort_roles (map with_sorted_scopes rs)),
  has_role-sort_roles role rs,
)

trusts-normal_form :
    (source target role : Text) (c : NativeClient)
    → trusts source target role (normal_form c) ≡ trusts source target role c
unfolding normal_form with_sorted_scopes
trusts-normal_form source target role c =
    ground (arith, has_role-sort_roles role c.additional_roles)

add_client-eq-ok :
    (n : NativeClient) (r : Registry) {out : Registry}
    → add_client n r ≡ ok out
    → add_roles n (n.base_role ∷ n.additional_roles) (record r { clients = (n.id, n) ∷ r.clients })
      ≡ ok out
unfolding add_client
add_client-eq-ok n r h = ground (arith, h)

has_pair-add_clients :
    (clients : List NativeClient) (r : Registry) (source target role : Text) {out : Registry}
    → IsPlain source
    → add_clients clients r ≡ ok out
    → has_pair (pair_key source target) role out.foreign_roles ≡ (
        trusted clients source target role
        || has_pair (pair_key source target) role r.foreign_roles)
unfolding add_clients
has_pair-add_clients [] r source target role plain h = ground (arith, h)
has_pair-add_clients (c ∷ rest) r source target role {out} plain h =
    let (n, normal, h') =
      >>=-eq-ok (normalize c) (λ client. add_client client r >>= add_clients rest) h in
    let (r', added, h'') = >>=-eq-ok (add_client n r) (add_clients rest) h' in
    let same = normalize-eq-ok c normal in
    ground (
      arith,
      has_pair-add_clients rest r' source target role {out = out} plain h'',
      has_pair-add_roles n (n.base_role ∷ n.additional_roles)
          (record r { clients = (n.id, n) ∷ r.clients }) (pair_key source target) role {out = r'}
          (add_client-eq-ok n r added),
      ap (trusts source target role) same,
      trusts-normal_form source target role c,
      teq-pair_key n.identity_tenant_id n.tenant_id source target (normalize-IsPlain c normal)
          plain,
    )

-- A registry that is built trusts a role of a source tenant, written as an identifier, in a target
-- tenant exactly when one of its clients has that identity tenant, that other tenant and that role.
pub allows_foreign_role_iff :
    (clients : List NativeClient) (source target role : Text) {r : Registry}
    → new_registry clients ≡ ok r
    → identifier source ≡ true
    → allows_foreign_role (some r) source target role ≡ trusted clients source target role
unfolding new_registry allows_foreign_role has_pair
allows_foreign_role_iff clients source target role {r} h i = ground (
  arith,
  h,
  has_pair-add_clients clients empty_registry source target role {out = r}
      (identifier-IsPlain source i) (ground (arith, h)),
)
