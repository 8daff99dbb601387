-- ===== src/UserStore.antt =====
-- internal/repository/user_repository.go, user_legacy_import.go and identity_directory_repository.go:
-- the user records in Redis, and how they are found.
pub mod Update
pub mod Tokens
pub mod Later
pub mod Revocation
pub mod Outage
pub mod Tests
use tikti.Base.{
  ltb, leb, ◌==◌, if◌then◌else◌, ltb→lt, lt→ltb, leb→le, ==_iff, Bool-cases, Option-cases, bool_ext,
  &&_true, length, all, keep, length-append, length-keep-le, All, All-append, All-append_left,
  All-append_right, All-reverse, All-keep, All-map, All-of-all, all-of-All, Result, ok, err, ◌>>=◌,
  >>=-eq-ok, Text, codes, teq, tle, tlt, teq_sound, teq_refl, teq_iff, teq_comm, tle_refl,
  tle_total, tle_antisymm, tle_trans, has_prefix, is_empty, ℕ, zero, suc, ◌+◌, ◌-◌, ◌*◌, ◌/◌, ◌%◌,
  ◌^◌, ◌≤◌, ◌<◌, String, ◌≡◌, refl, sym, ap, ◌∙◌, ◌≡⟨◌⟩◌, ◌∎, ◌≢◌, ◌↔◌, ◌⊎◌, inl, inr, Bool, true,
  false, not, ◌&&◌, ◌||◌, Option, none, some, List, [], ◌∷◌, ◌++◌, map, reverse, arith,
  is_empty_congr, same_texts, same_texts_iff, contains, is_nodup, contains-append, contains-keep,
  All-contains, All-of_contains, subset, contains-subset, insert, sort, IsSorted, IsStrict,
  contains-insert, contains-sort, All-insert, All-sort, length-insert, length-sort, sort-IsSorted,
  sort-IsStrict, sort_of_IsSorted, IsStrict-IsSorted, IsStrict-is_nodup, sort_of_IsStrict,
  IsStrict-ext, is_nodup-concat, contains_congr, add, add_all, contains-add, add-is_nodup,
  contains-add_all, add_all-is_nodup, IsFresh, IsFresh-nil, IsFresh-head, IsFresh-tail,
  IsFresh-cons, trim_space, trim_space_solid, IsSolid, lookup, store_at, drop_key, lookup-store_at,
  lookup-store_at_other, lookup-drop_key, lookup-drop_key_other,
}
use tikti.Domain.{
  Fallible, User, auth_source_saml, invalid_argument, not_found, directory_invariant,
  repository_failure,
}
use tikti.Identity.{
  Letters, canonical_user_identity, normalize_directory_email, canonical_directory_storage_user,
}

-- A string of a hash by what json.Unmarshal makes of it: the empty one, one that is no user document,
-- and the document that json.Marshal wrote for a user.
pub data Stored : Type 0 where
  blank broken : Stored
  document : User → Stored

abbrev pub Hash : Type 0
Hash = List (Text × Stored)

-- The keys of Redis that hold users: `users_v2`, `saml_users_v2`, the legacy `users` by e-mail, the
-- indexes `userByEmail:` and `samlSubject:`, the ordered index of the directory, and the marker of the
-- finished backfill. Where Redis is not available every command fails.
pub record Records : Type 0 where
  pub available : Bool
  pub users : Hash
  pub federated : Hash
  pub legacy : Hash
  pub by_email : List (Text × Text)
  pub subjects : List (Text × Text)
  pub email_index : List Text
  pub backfill_marker : Option Text

abbrev pub directory_backfill_version : Text
directory_backfill_version = codes "v1"

abbrev pub directory_maximum_retries : ℕ
directory_maximum_retries = 8

-- What go-redis answers to GET and HGET: a value, redis.Nil, or another error.
pub data Reply {ℓ} (Value : Type ℓ) : Type ℓ where
  found : Value → Reply Value
  missing failed : Reply Value

unfoldable pub answer {ℓ} : {V : Type ℓ} → Option V → Reply V
answer none = missing
answer (some v) = found v

unfoldable pub get {ℓ} : {V : Type ℓ} → Bool → Text → List (Text × V) → Reply V
unfolding answer
get available key m = let value = lookup key m in if available then answer value else failed

-- One hash of FindByID: `none` goes on to the next. An error leaves the value empty, so that it goes on
-- as a missing key does.
unfoldable pub find_in : Text → Reply Stored → Option (Fallible (Option User))
find_in user_id missing = none
find_in user_id failed = none
find_in user_id (found blank) = none
find_in user_id (found broken) = some (err directory_invariant)
find_in user_id (found (document user)) =
    if teq user.id user_id then some (ok (some user)) else some (err directory_invariant)

unfoldable pub first_found :
    Option (Fallible (Option User)) → Option (Fallible (Option User)) → Fallible (Option User)
first_found (some result) other = result
first_found none (some result) = result
first_found none none = ok none

-- FindByID
unfoldable pub find_by_id : Records → Text → Fallible (Option User)
unfolding canonical_user_identity find_in first_found get
find_by_id db user_id =
    if not (canonical_user_identity user_id)
    then err invalid_argument
    else first_found (find_in user_id (get db.available user_id db.users))
        (find_in user_id (get db.available user_id db.federated))

-- password == "" && authSource != saml
unfoldable pub without_credential : User → Bool
without_credential user = is_empty user.password && not (teq user.auth_source auth_source_saml)

unfoldable pub directory_index_member : Text → Text → Text
directory_index_member email user_id = email ++ 0 ∷ user_id

-- The records that a user document and its indexes make.
unfoldable pub write_user : User → Records → Records
unfolding directory_index_member
write_user user db = record db {
  users = store_at user.id (document user) db.users;
  by_email = store_at user.email user.id db.by_email;
  email_index = add (directory_index_member user.email user.id) db.email_index;
}

unfoldable pub is_some {ℓ} : {A : Type ℓ} → Option A → Bool
is_some none = false
is_some (some a) = true

-- The result of an attempt, or of the later ones.
unfoldable pub or_later {ℓ} : {A : Type ℓ} → A → Option A → A
or_later later none = later
or_later later (some result) = result

module _ (l : Letters) where
  -- The document that the index of e-mails points to.
  unfoldable pub indexed_user : Text → Text → Reply Stored → Fallible (Option User)
  unfolding normalize_directory_email without_credential
  indexed_user email user_id missing = ok none
  indexed_user email user_id failed = err repository_failure
  indexed_user email user_id (found blank) = ok none
  indexed_user email user_id (found broken) = err repository_failure
  indexed_user email user_id (found (document user)) =
      if not (teq user.id user_id) || not (teq (normalize_directory_email l user.email) email)
      then err directory_invariant
      else if without_credential user
      then err not_found
      else ok (some user)

  -- The transaction of importLegacyEmailUser over a legacy document.
  unfoldable pub import_canonical : Text → Option User → Records → Fallible (Option User) × Records
  unfolding write_user is_some
  import_canonical email none db = (err directory_invariant, db)
  import_canonical email (some user) db =
      if not (teq user.email email)
        || is_some (lookup user.id db.users)
        || is_some (lookup user.id db.federated)
      then (err directory_invariant, db)
      else (ok (some user), write_user user db)

  unfoldable pub import_document :
      ℕ → Text → Reply Stored → Records → Fallible (Option User) × Records
  unfolding import_canonical without_credential canonical_directory_storage_user
  import_document now email missing db = (ok none, db)
  import_document now email failed db = (err repository_failure, db)
  import_document now email (found blank) db = (err repository_failure, db)
  import_document now email (found broken) db = (err repository_failure, db)
  import_document now email (found (document user)) db =
      if without_credential user
      then (err not_found, db)
      else import_canonical email (canonical_directory_storage_user l now user) db

  -- importLegacyEmailUser where no watched key changes, for an e-mail with no index entry.
  unfoldable pub import_legacy_email_user : ℕ → Text → Records → Fallible (Option User) × Records
  unfolding import_document get
  import_legacy_email_user now email db = elim db.backfill_marker [
    | none ↦ import_document now email (get db.available email db.legacy) db
    | some marker ↦
        if teq marker directory_backfill_version
        then (ok none, db)
        else (err directory_invariant, db)
  ]

  unfoldable pub wrote : Fallible (Option User) → Bool
  unfolding is_some
  wrote (err e) = false
  wrote (ok o) = is_some o

  -- One attempt of FindByEmail; `none` is a transaction that another write made fail.
  unfoldable pub find_indexed :
      Bool → ℕ → Text → Reply Text → Records → Option (Fallible (Option User) × Records)
  unfolding indexed_user import_legacy_email_user canonical_user_identity get wrote
  find_indexed raced now email failed db = some (err repository_failure, db)
  find_indexed raced now email missing db =
      let imported = import_legacy_email_user now email db in
      if raced && wrote imported.0 then none else some imported
  find_indexed raced now email (found user_id) db =
      if not (canonical_user_identity user_id)
      then some (err directory_invariant, db)
      else some (indexed_user email user_id (get db.available user_id db.users), db)

  -- The loop of FindByEmail: `others` is what other clients write before the next attempt.
  unfoldable pub find_attempts :
      (ℕ → Bool)
      → (ℕ → Records → Records)
      → ℕ
      → ℕ
      → Text
      → Records
      → Fallible (Option User) × Records
  unfolding find_indexed get or_later
  find_attempts raced others now zero email db = (err repository_failure, db)
  find_attempts raced others now (suc n) email db =
      or_later (find_attempts raced others now n email (others n db))
        (find_indexed (raced n) now email (get db.available email db.by_email) db)

  -- FindByEmail
  unfoldable pub find_by_email :
      (ℕ → Bool) → (ℕ → Records → Records) → ℕ → Text → Records → Fallible (Option User) × Records
  unfolding find_attempts normalize_directory_email
  find_by_email raced others now email db =
      let address = normalize_directory_email l email in
      if is_empty address
      then (ok none, db)
      else find_attempts raced others now directory_maximum_retries address db
