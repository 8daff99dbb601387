-- ===== src/Scope/Manifest.antt =====
-- parseManifest of internal/scopepolicy/policy.go.
use tikti.Base.{
  Bool-cases, Option-cases, length, All, ok, Text, teq, teq_sound, teq_refl, teq_iff, ◌+◌, ◌≡◌, inl,
  inr, Bool, true, false, Option, some, List, [], ◌∷◌, arith,
}
use tikti.Scope.{
  ScopeEntry, Document, valid_entry, is_known, find_scope, add_entries, parse_manifest,
}

-- Each entry passes the entry's tests, and no scope is declared twice.
abbrev pub IsWellFormed : List ScopeEntry → Type 0
IsWellFormed [] = Unit
IsWellFormed (e ∷ es) =
    (valid_entry e ≡ true) × (is_known (find_scope es e.scope) ≡ false) × IsWellFormed es

add_entries_sound :
    (scopes entries : List ScopeEntry) {result : List ScopeEntry}
    → IsWellFormed scopes
    → add_entries scopes entries ≡ ok result
    → IsWellFormed result × (length result ≡ length scopes + length entries)
unfolding add_entries
add_entries_sound scopes [] {result} w h =
    let same : scopes ≡ result = ground arith in rw (← same) (w, omega arith)
add_entries_sound scopes (e ∷ es) w h =
    let (formed, size) =
      add_entries_sound (e ∷ scopes) es (ground arith, ground arith, w) (ground arith) in
    (formed, omega arith)

find_scope-head : (e : ScopeEntry) (es : List ScopeEntry) → find_scope (e ∷ es) e.scope ≡ some e
unfolding find_scope
find_scope-head e es = rw (teq_refl e.scope)

-- An entry of another scope hides nothing.
find_scope-cons :
    (d : ScopeEntry) (es : List ScopeEntry) (s : Text) (e : ScopeEntry)
    → is_known (find_scope es d.scope) ≡ false
    → find_scope es s ≡ some e
    → find_scope (d ∷ es) s ≡ some e
unfolding find_scope
find_scope-cons d es s e n f = elim (Bool-cases (teq d.scope s)) [
  | inl same ↦ absurd (unfold is_known in ground (arith, f, rw (teq_sound d.scope s same) at n))
  | inr other ↦ rw other f
]

add_entries_keeps :
    (scopes entries : List ScopeEntry) (s : Text) (e : ScopeEntry) {result : List ScopeEntry}
    → find_scope scopes s ≡ some e
    → add_entries scopes entries ≡ ok result
    → find_scope result s ≡ some e
unfolding add_entries
add_entries_keeps scopes [] s e {result} f h =
    let same : scopes ≡ result = ground arith in rw (← same) f
add_entries_keeps scopes (d ∷ ds) s e f h =
    add_entries_keeps (d ∷ scopes) ds s e (find_scope-cons d scopes s e (ground arith) f)
      (ground arith)

add_entries_finds :
    (scopes entries : List ScopeEntry) {result : List ScopeEntry}
    → add_entries scopes entries ≡ ok result
    → All (λ e. find_scope result e.scope ≡ some e) entries
unfolding add_entries
add_entries_finds scopes [] h = tt
add_entries_finds scopes (e ∷ es) {result} h =
    let later : add_entries (e ∷ scopes) es ≡ ok result = ground arith in
    (
      add_entries_keeps (e ∷ scopes) es e.scope e (find_scope-head e scopes) later,
      add_entries_finds (e ∷ scopes) es later,
    )

module _ (sha256_hex : Text → Text) (decode : Text → Option (Document × Text))
    (at_end : Text → Bool) where
  -- A manifest is accepted only with the expected digest, schema 1, the expected version and nothing
  -- behind the document; then the result has as many entries as the document, finds each of them by its
  -- scope, and is well formed: each entry passes the tests and no scope stands twice.
  pub parse_manifest_sound :
      (text digest version : Text) {result : List ScopeEntry}
      → parse_manifest sha256_hex decode at_end text digest version ≡ ok result
      → (sha256_hex text ≡ digest)
        × ((document : Document) × (rest : Text) × (decode text ≡ some (document, rest))
            × (document.schema_version ≡ 1)
            × (document.policy_version ≡ version)
            × (at_end rest ≡ true)
            × (length result ≡ length document.scopes)
            × All
                (λ (entry : ScopeEntry). find_scope result entry.scope ≡ some entry)
                document.scopes)
        × IsWellFormed result
  unfolding parse_manifest
  parse_manifest_sound text digest version {result} h = elim (Option-cases (decode text)) [
    | inl e ↦ absurd (ground (arith, e, h))
    | inr ((document, rest), e) ↦
        let added : add_entries [] document.scopes ≡ ok result = ground (arith, e, h) in
        let (formed, size) = add_entries_sound [] document.scopes tt added in
        (
          ground (arith, h, teq_iff (sha256_hex text) digest),
          (
            document,
            rest,
            e,
            ground (arith, e, h),
            ground (arith, e, h, teq_iff document.policy_version version),
            ground (arith, e, h),
            omega arith,
            add_entries_finds [] document.scopes added,
          ),
          formed,
        )
  ]
