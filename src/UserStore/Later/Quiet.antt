-- ===== src/UserStore/Later/Quiet.antt =====
-- IncrementTokenVersionByID where no other client writes: it succeeds.
use tikti.Base.{
  ap, ◌==◌, if◌then◌else◌, ==_iff, ok, err, Text, teq, teq_refl, ℕ, suc, ◌+◌, ◌≡◌, refl, ◌∙◌, Bool,
  true, false, not, none, some, arith, lookup, if-true, if-false,
}
use tikti.Domain.{Fallible, directory_invariant, User}
use tikti.Identity.{
  Letters, canonical_user_identity, canonical_directory_storage_user, with_defaults, storable,
}
use tikti.UserStore.{
  first_found, write_user, find_in, find_by_id, document, Records, found, missing, get, answer,
}
use tikti.UserStore.Update.{
  settle, transact_directory, owner_refuses, update_where, update_once, finished, update_user,
  update_attempts, next_revision, commit_directory, update_canonical, checked_owner,
  update_directory_user, transact_current, drop_email, Round, identified, observed,
}
use tikti.UserStore.Tokens.{
  retries, increment_attempts, change_found, increment_token_version_by_id, increment_once, Attempt,
  bump_version,
}

abbrev pub unchanged : Records → Records
unchanged db = db

abbrev pub quiet_round : Round
quiet_round = record { between = unchanged; raced = false; afterwards = unchanged }

abbrev pub quiet : Attempt
quiet = record {
  others = unchanged;
  turn = record { meanwhile = unchanged; raced = false; rounds = λ n. quiet_round };
}

canonical-bump :
    (l : Letters) (now : ℕ) (u : User)
    → canonical_directory_storage_user l now u ≡ some u
    → (canonical_directory_storage_user l now (bump_version u) ≡ some (bump_version u))
      × (canonical_user_identity u.id ≡ true)
unfolding canonical_directory_storage_user bump_version storable with_defaults
canonical-bump l now u h =
    let good : storable l now u ≡ true = ground (arith, h) in
    let same : with_defaults l now u ≡ u = ground (arith, h, good) in
    let bumped : storable l now (bump_version u) ≡ true = good in
    (
      ap (λ (b : Bool). if not b then none else some (with_defaults l now (bump_version u))) bumped
          ∙ ap (λ (w : User). some (bump_version w)) same,
      ground (arith, good),
    )

-- What Redis answers for the record of a directory user.
get-held :
    (id : Text) (u : User) (db : Records)
    → db.available ≡ true
    → lookup id db.users ≡ some (document u)
    → get db.available id db.users ≡ found (document u)
unfolding get answer
get-held id u db up held = rw (up, held) refl

get-absent :
    (id : Text) (db : Records)
    → db.available ≡ true
    → lookup id db.federated ≡ none
    → get db.available id db.federated ≡ missing
unfolding get answer
get-absent id db up held = rw (up, held) refl

-- The state that the increment of a user's token version leaves.
abbrev incremented : User → Records → Records
incremented u db =
    drop_email u.email (bump_version u) (write_user (next_revision (bump_version u)) db)

transact_current-quiet :
    (u : User) (db : Records)
    → transact_current false u.email (bump_version u) (ok u) db
      ≡ finished (ok (next_revision (bump_version u))) (incremented u db)
unfolding transact_current checked_owner commit_directory bump_version next_revision
transact_current-quiet u db =
    if-false (not (u.revision == u.revision)) _ _ (ground (arith, ==_iff u.revision u.revision))
    ∙ if-false (not (teq u.email u.email)) _ _ (ground (arith, teq_refl u.email))
    ∙ ap (λ o. checked_owner false u.email (bump_version u) o db)
        (if-true (teq u.email u.email) none
          (owner_refuses (get db.available u.email db.by_email) u.id) (teq_refl u.email))

module _ (l : Letters) (now : ℕ) (u : User) (db : Records) (up : db.available ≡ true)
    (held : lookup u.id db.users ≡ some (document u))
    (canonical : canonical_directory_storage_user l now u ≡ some u) where
  observed-held : observed l now u.id (get db.available u.id db.users) ≡ ok u
  unfolding observed identified
  observed-held =
      ap (observed l now u.id) (get-held u.id u db up held)
      ∙ ap (identified u.id) canonical
      ∙ if-true (teq u.id u.id) (ok u) (err directory_invariant) (teq_refl u.id)

  update_directory_user-quiet :
      update_directory_user l now (λ n. quiet_round) (bump_version u) db
      ≡ (ok (next_revision (bump_version u)), incremented u db)
  unfolding update_directory_user update_canonical update_attempts update_once transact_directory
      settle bump_version
  update_directory_user-quiet =
      let retry = update_attempts l now (λ n. quiet_round) 7 (bump_version u) in
      ap (λ o. update_canonical l now (λ n. quiet_round) o db) (canonical-bump l now u canonical).0
      ∙ ap (λ o. update_once l now quiet_round retry (bump_version u) o db) observed-held
      ∙ ap (λ o. settle retry db (transact_current false u.email (bump_version u) o db))
          observed-held
      ∙ ap (settle retry db) (transact_current-quiet u db)

  find_by_id-quiet : find_by_id db u.id ≡ ok (some u)
  unfolding find_by_id find_in first_found
  find_by_id-quiet =
      if-false (not (canonical_user_identity u.id)) _ _
        (ap not (canonical-bump l now u canonical).1)
      ∙ ap (λ r. first_found (find_in u.id r) (find_in u.id (get db.available u.id db.federated)))
          (get-held u.id u db up held)
      ∙ ap (λ o. first_found o (find_in u.id (get db.available u.id db.federated)))
          (if-true (teq u.id u.id) (some (ok (some u))) _ (teq_refl u.id))

  increment_once-quiet :
      lookup u.id db.federated ≡ none
      → increment_once l now quiet u.id db ≡ (ok (next_revision (bump_version u)), incremented u db)
  unfolding increment_once change_found update_user update_where bump_version
  increment_once-quiet absent =
      ap (λ o. change_found l now bump_version quiet (o, db)) find_by_id-quiet
      ∙ ap (λ r. update_where l now quiet.turn (bump_version u) r db) (get-absent u.id db up absent)
      ∙ update_directory_user-quiet

  increment_attempts-quiet :
      (n : ℕ)
      → lookup u.id db.federated ≡ none
      → increment_attempts l now (λ m. quiet) (suc n) u.id db
        ≡ (ok (next_revision (bump_version u)), incremented u db)
  unfolding increment_attempts retries
  increment_attempts-quiet n absent =
      let once = increment_once-quiet absent in
      let result = increment_once l now quiet u.id db in
      if-false (retries l now result.0) (increment_attempts l now (λ m. quiet) n u.id result.1)
        result (ap (λ (r : Fallible User × Records). retries l now r.0) once)
      ∙ once

  -- IncrementTokenVersionByID returns the next token version and revision of a directory user in
  -- canonical form that is no federated user, where Redis answers and no other client writes.
  pub undisturbed_increment_succeeds :
      lookup u.id db.federated ≡ none
      → (increment_token_version_by_id l now (λ n. quiet) u.id db).0
        ≡ ok (record u { token_version = u.token_version + 1; revision = u.revision + 1 })
  unfolding increment_token_version_by_id bump_version next_revision
  undisturbed_increment_succeeds absent =
      ap (λ (r : Fallible User × Records). r.0) (increment_attempts-quiet 7 absent)
