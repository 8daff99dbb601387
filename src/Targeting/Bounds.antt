-- ===== src/Targeting/Bounds.antt =====
-- No discovered token carries a scope beyond its audience, its ceiling and its authority.
use tikti.Base.{
  Option, Text, List, ◌==◌, Bool-cases, Option-cases, length, All, All-map, ok, err, >>=-eq-ok,
  is_empty, ◌≡◌, refl, sym, ◌∙◌, inl, inr, true, false, some, [], ◌∷◌, arith, same_texts_iff,
  contains, All-contains, subset, contains-subset,
}
use tikti.Domain.{Client, unauthorized_scope}
use tikti.Scope.{
  Policy, valid_permission, canonical_audience_scopes, valid_canonical_audience_scopes,
}
use tikti.Scope.Audience.{trimmed, canonical_audience_scopes_canonical}
use tikti.Authority.Laws.{contains-intersect_scope_sets}
use tikti.Access.{Service, present}
use tikti.Access.Scoped.{check-eq-ok, present-eq-ok}
use tikti.Discovery.{default_scopes}
use tikti.Targeting.{
  Session, Discovered, home_defaults, audience_defaults, narrow,
  resolve_tenant_discovery_authorization,
}
use tikti.Targeting.Inversion.{IsResolved, resolve-IsResolved}

abbrev pub IsValid : Text → Type 0
IsValid value = valid_permission value ≡ true

pub valid_not_empty : (value : Text) → IsValid value → is_empty value ≡ false
unfolding valid_permission is_empty
valid_not_empty [] h = cc
valid_not_empty (c ∷ s) h = refl

-- Canonical scopes are those of the trimmed input, each well formed.
canonical-members :
    (policy : Policy) (values : List Text) {result : List Text}
    → canonical_audience_scopes policy values ≡ some result
    → ((x : Text) → contains result x ≡ contains (trimmed values) x) × All IsValid result
unfolding canonical_audience_scopes
canonical-members (err e) values h = cc
canonical-members (ok entries) values {result} h = go
  where
    go : ((x : Text) → contains result x ≡ contains (trimmed values) x) × All IsValid result
    go =
        let (strict, members, fits, few, many) =
          canonical_audience_scopes_canonical entries values h in
        (members, All-map _ _ (λ v k. k.0) result fits)

-- An audience's ceiling holds the trimmed scopes of its client, each well formed.
pub audience_defaults-members :
    (policy : Policy) (target home : Text) (client : Option Client) {defaults : List Text}
    → audience_defaults policy target home client ≡ ok defaults
    → ((x : Text) → contains defaults x ≡ contains (trimmed (default_scopes client)) x)
      × All IsValid defaults
unfolding audience_defaults home_defaults valid_canonical_audience_scopes
audience_defaults-members policy target home client {defaults} h =
    elim (Option-cases (canonical_audience_scopes policy (default_scopes client))) [
      | inl e ↦ absurd (ground (arith, e, h))
      | inr (canonical, e) ↦
          let same : defaults ≡ canonical =
            ground (arith, e, h, same_texts_iff canonical (default_scopes client)) in
          rw same (canonical-members policy (default_scopes client) e)
    ]

module _ (to_lower : Text → Text) (s : Service) where
  narrow-members :
      (requested effective : List Text) {scopes : List Text} (x : Text)
      → narrow to_lower s requested effective ≡ ok scopes
      → contains scopes x ≡ true
      → contains effective x ≡ true
  unfolding narrow
  narrow-members requested effective {scopes} x h c = elim (Bool-cases (length requested == 0)) [
    | inl all_of ↦ let same : effective ≡ scopes = ground (arith, all_of, h) in rw same c
    | inr some_of ↦
        let (wanted, given, later) =
          >>=-eq-ok (present unauthorized_scope (canonical_audience_scopes s.policy requested)) _
            (rw some_of at h) in
        let (fits, done) = check-eq-ok (subset wanted effective) unauthorized_scope _ later in
        let same : wanted ≡ scopes = ground (arith, done) in
        let (members, valid) =
          canonical-members s.policy requested (present-eq-ok unauthorized_scope _ given) in
        let found : contains wanted x ≡ true = rw same c in
        contains-subset wanted effective x fits found
          (valid_not_empty x (All-contains IsValid wanted x valid found))
  ]

  -- Every scope of a discovered token is one of the client's default scopes at the target, one of the
  -- request's ceiling (both trimmed), and in the authority that the session has there.
  pub discovered_scopes_bounded :
      (session : Session) (target : Text) (scope_ceiling requested_scopes : List Text)
      {d : Discovered} (x : Text)
      → resolve_tenant_discovery_authorization to_lower s session target scope_ceiling
          requested_scopes
        ≡ ok d
      → contains d.scopes x ≡ true
      → (r : IsResolved to_lower s session target scope_ceiling requested_scopes d) × (contains
            (trimmed (default_scopes r.client))
            x
          ≡ true)
        × (contains (trimmed scope_ceiling) x ≡ true)
        × (contains r.authority x ≡ true)
  discovered_scopes_bounded session target scope_ceiling requested_scopes {d} x h c =
      let r = resolve-IsResolved to_lower s session target scope_ceiling requested_scopes h in
      let in_force = narrow-members requested_scopes _ x r.narrowed c in
      let (ceilings, valid) = canonical-members s.policy scope_ceiling r.ceiling_given in
      let (defaults, valid') =
        audience_defaults-members s.policy target session.home r.client r.defaults_given in
      let three =
        sym (contains-intersect_scope_sets r.defaults (r.authority ∷ r.ceiling ∷ []) x)
        ∙ in_force in
      (
        r,
        ground (arith, three, defaults x),
        ground (arith, three, ceilings x),
        ground (arith, three),
      )
