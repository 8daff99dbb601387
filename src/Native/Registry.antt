-- ===== src/Native/Registry.antt =====
-- internal/nativepolicy/registry.go: the immutable registry of native clients, its maps as
-- association lists with the last entry first.
use tikti.Base.{
  ltb, ◌==◌, if◌then◌else◌, length, all, ok, err, ◌>>=◌, Text, teq, ℕ, Bool, false, not, ◌&&◌, ◌||◌,
  Option, none, some, List, [], ◌∷◌, ◌++◌, same_texts,
}
use tikti.Native.{NativeClient, NativeRole, Checked, invalid_client, normalize}

abbrev pub maximum_clients : ℕ
maximum_clients = 128

pub record Registry : Type 0 where
  pub clients : List (Text × NativeClient)
  pub foreign_roles : List (Text × Text)
  pub role_scopes : List (Text × List Text)

abbrev pub empty_registry : Registry
empty_registry = record { clients = []; foreign_roles = []; role_scopes = [] }

-- left + "\x00" + right
unfoldable pub pair_key : Text → Text → Text
pair_key left right = left ++ 0 ∷ right

unfoldable pub find {ℓ} : {V : Type ℓ} → Text → List (Text × V) → Option V
find key [] = none
find key ((k, v) ∷ rest) = if teq k key then some v else find key rest

-- foreignRoles[key][role]: the set of the pairs that were stored.
unfoldable pub has_pair : Text → Text → List (Text × Text) → Bool
has_pair key role [] = false
has_pair key role ((k, r) ∷ rest) = (teq k key && teq r role) || has_pair key role rest

unfoldable pub has_key {ℓ} : {V : Type ℓ} → Text → List (Text × V) → Bool
has_key key [] = false
has_key key ((k, v) ∷ rest) = teq k key || has_key key rest

unfoldable pub differs : Option (List Text) → List Text → Bool
differs none scopes = false
differs (some stored) scopes = not (same_texts stored scopes)

unfoldable pub add_role : NativeClient → NativeRole → Registry → Registry
add_role client role r = record r {
  role_scopes = (pair_key client.tenant_id role.name, role.scopes) ∷ r.role_scopes;
  foreign_roles =
      if not (teq client.identity_tenant_id client.tenant_id)
      then (pair_key client.identity_tenant_id client.tenant_id, role.name) ∷ r.foreign_roles
      else r.foreign_roles;
}

-- The inner loop of NewRegistry over the roles of a client.
unfoldable pub add_roles : NativeClient → List NativeRole → Registry → Checked Registry
unfolding differs find
add_roles client [] r = ok r
add_roles client (role ∷ rest) r =
    let later = add_roles client rest (add_role client role r) in
    if differs (find (pair_key client.tenant_id role.name) r.role_scopes) role.scopes
    then err invalid_client
    else later

unfoldable pub add_client : NativeClient → Registry → Checked Registry
unfolding has_key
add_client client r =
    if has_key client.id r.clients
    then err invalid_client
    else add_roles client (client.base_role ∷ client.additional_roles)
        (record r { clients = (client.id, client) ∷ r.clients })

unfoldable pub add_clients : List NativeClient → Registry → Checked Registry
add_clients [] r = ok r
add_clients (input ∷ rest) r = do
  client ← normalize input
  r' ← add_client client r
  add_clients rest r'

unfoldable pub new_registry : List NativeClient → Checked Registry
new_registry clients =
    if ltb maximum_clients (length clients)
    then err invalid_client
    else add_clients clients empty_registry

-- The methods; a nil registry is `none`.
unfoldable pub detached : Option NativeClient → Option NativeClient
detached none = none
detached (some client) = elim (normalize client) [ ok copy ↦ some copy | err e ↦ none ]

unfoldable pub get : Option Registry → Text → Option NativeClient
unfolding find detached
get none id = none
get (some r) id = detached (find id r.clients)

unfoldable pub allows_foreign_role : Option Registry → Text → Text → Text → Bool
unfolding has_pair
allows_foreign_role none source target role = false
allows_foreign_role (some r) source target role =
    has_pair (pair_key source target) role r.foreign_roles

unfoldable pub has_foreign_trust : Option Registry → Text → Text → Bool
unfolding has_key
has_foreign_trust none source target = false
has_foreign_trust (some r) source target = has_key (pair_key source target) r.foreign_roles

unfoldable pub allows_foreign_assignment : Option Registry → Text → Text → List Text → Bool
allows_foreign_assignment r source target roles =
    if (length roles == 0) || ltb 100 (length roles)
    then false
    else all (allows_foreign_role r source target) roles

unfoldable pub expected_role_scopes : Option Registry → Text → Text → Option (List Text)
unfolding find
expected_role_scopes none tenant_id role = none
expected_role_scopes (some r) tenant_id role = find (pair_key tenant_id role) r.role_scopes
