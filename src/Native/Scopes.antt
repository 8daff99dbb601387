-- ===== src/Native/Scopes.antt =====
-- Client.ScopesForRoles of internal/nativepolicy/policy.go: the scopes that a role assignment gives
-- a native client.
use tikti.Base.{
  Text, List, Bool-cases, all, All-of-all, ok, >>=-eq-ok, ◌≡◌, refl, sym, ap, ◌∙◌, inl, inr, Bool,
  true, false, ◌&&◌, ◌||◌, [], ◌∷◌, map, arith, contains, is_nodup, All-contains, sort, IsStrict,
  contains-sort, sort-IsStrict, add_all, contains-add_all, add_all-is_nodup,
}
use tikti.Native.{
  NativeClient, NativeRole, held_scopes, grant_normalized, scopes_for_roles, normalize, normal_form,
  within_ceiling, check_roles, well_formed_client, insert_role, sort_roles, with_sorted_scopes,
}

-- Some held role has the scope.
abbrev pub granted : List Text → List NativeRole → Text → Bool
granted held [] x = false
granted held (role ∷ rest) x =
    (contains held role.name && contains role.scopes x) || granted held rest x

contains-held_scopes :
    (held set : List Text) (roles : List NativeRole) (x : Text)
    → contains (held_scopes held set roles) x ≡ (contains set x || granted held roles x)
unfolding held_scopes
contains-held_scopes held set [] x = ground arith
contains-held_scopes held set (role ∷ rest) x = elim (Bool-cases (contains held role.name)) [
  | inl e ↦ rw e (
      ground (
        arith,
        contains-held_scopes held (add_all role.scopes set) rest x,
        contains-add_all role.scopes set x,
      ))
  | inr e ↦ rw e (contains-held_scopes held set rest x)
]

held_scopes-is_nodup :
    (held set : List Text) (roles : List NativeRole)
    → is_nodup set ≡ true
    → is_nodup (held_scopes held set roles) ≡ true
unfolding held_scopes
held_scopes-is_nodup held set [] n = n
held_scopes-is_nodup held set (role ∷ rest) n = elim (Bool-cases (contains held role.name)) [
  | inl e ↦ rw e (
      held_scopes-is_nodup held (add_all role.scopes set) rest (add_all-is_nodup role.scopes set n))
  | inr e ↦ rw e (held_scopes-is_nodup held set rest n)
]

granted-insert_role :
    (held : List Text) (r : NativeRole) (roles : List NativeRole) (x : Text)
    → granted held (insert_role r roles) x ≡ granted held (r ∷ roles) x
unfolding insert_role
granted-insert_role held r [] x = refl
granted-insert_role held r (y ∷ ys) x = ground (arith, granted-insert_role held r ys x)

granted-sort_roles :
    (held : List Text) (roles : List NativeRole) (x : Text)
    → granted held (sort_roles (map with_sorted_scopes roles)) x ≡ granted held roles x
unfolding sort_roles with_sorted_scopes
granted-sort_roles held [] x = refl
granted-sort_roles held (r ∷ rs) x = ground (
  arith,
  granted-insert_role held (with_sorted_scopes r) (sort_roles (map with_sorted_scopes rs)) x,
  granted-sort_roles held rs x,
  contains-sort r.scopes x,
)

-- Normalizing changes no grant.
granted-normal_form :
    (held : List Text) (c : NativeClient) (x : Text)
    → granted held ((normal_form c).base_role ∷ (normal_form c).additional_roles) x
      ≡ granted held (c.base_role ∷ c.additional_roles) x
unfolding normal_form with_sorted_scopes
granted-normal_form held c x =
    ground (arith, granted-sort_roles held c.additional_roles x, contains-sort c.base_role.scopes x)

within_ceiling-eq-ok :
    (c : NativeClient) (ceiling : List Text) {n : NativeClient}
    → within_ceiling c ceiling ≡ ok n
    → n ≡ normal_form c
unfolding within_ceiling
within_ceiling-eq-ok c ceiling h = ground (arith, h)

-- What Normalize returns is the normal form of its input.
pub normalize-eq-ok : (c : NativeClient) {n : NativeClient} → normalize c ≡ ok n → n ≡ normal_form c
unfolding normalize
normalize-eq-ok c {n} h = elim (Bool-cases (well_formed_client c)) [
  | inl e ↦
      let (ceiling, checked, last) =
        >>=-eq-ok (check_roles [] [] (c.base_role ∷ c.additional_roles)) (within_ceiling c)
          (ground (arith, e, h)) in
      within_ceiling-eq-ok c ceiling last
  | inr e ↦ absurd (ground (arith, e, h))
]

grant_normalized-eq-ok :
    (assigned : List Text) (n : NativeClient) {out : List Text}
    → grant_normalized assigned n ≡ ok out
    → (contains assigned n.base_role.name ≡ true)
      × (out ≡ sort (held_scopes assigned [] (n.base_role ∷ n.additional_roles)))
      × (all
            (contains (held_scopes assigned [] (n.base_role ∷ n.additional_roles)))
            n.required_scopes
          ≡ true)
unfolding grant_normalized
grant_normalized-eq-ok assigned n h = ground (arith, h)

all-sort :
    (p : Text → Bool) (xs : List Text)
    → all p (sort xs) ≡ true
    → (x : Text) → contains xs x ≡ true
    → p x ≡ true
all-sort p xs h x c =
    All-contains (λ y. p y ≡ true) (sort xs) x (All-of-all p (sort xs) h) (contains-sort xs x ∙ c)

-- A scope grant is strictly sorted; its members are exactly the scopes of the client's roles that are
-- assigned; the base role is assigned; and every scope the client requires is among them.
pub scopes_for_roles_exact :
    (c : NativeClient) (assigned : List Text) {out : List Text}
    → scopes_for_roles c assigned ≡ ok out
    → IsStrict out
      × ((x : Text) → contains out x ≡ granted assigned (c.base_role ∷ c.additional_roles) x)
      × (contains assigned c.base_role.name ≡ true)
      × ((x : Text) → contains c.required_scopes x ≡ true → contains out x ≡ true)
unfolding scopes_for_roles normal_form with_sorted_scopes is_nodup contains
scopes_for_roles_exact c assigned {out} h =
    let (n, normal, granting) = >>=-eq-ok (normalize c) (grant_normalized assigned) h in
    let same = normalize-eq-ok c normal in
    let (base, sorted, required) =
      grant_normalized-eq-ok assigned (normal_form c)
        (ap (grant_normalized assigned) (sym same) ∙ granting) in
    let set =
      held_scopes assigned [] ((normal_form c).base_role ∷ (normal_form c).additional_roles) in
    rw sorted (
      sort-IsStrict set (
          held_scopes-is_nodup assigned []
            ((normal_form c).base_role ∷ (normal_form c).additional_roles) refl),
      λ x.
          contains-sort set x
          ∙ contains-held_scopes assigned []
              ((normal_form c).base_role ∷ (normal_form c).additional_roles) x
          ∙ granted-normal_form assigned c x,
      base,
      λ x k. contains-sort set x ∙ all-sort (contains set) c.required_scopes required x k,
    )
