-- ===== src/UserStore/Update.antt =====
-- The writes of user records: UpdateUser of user_repository.go, CreateDirectoryUser, UpdateDirectoryUser
-- and ConsumeTemporaryPassword of identity_directory_repository.go.
use tikti.Base.{
  ltb, ◌==◌, if◌then◌else◌, keep, ok, err, Text, teq, ℕ, zero, suc, ◌+◌, Bool, true, false, not,
  ◌&&◌, ◌||◌, Option, none, some, lookup, store_at, drop_key,
}
use tikti.Domain.{
  Error, Fallible, User, user_active, auth_source_password, invalid_argument, invalid_creds,
  not_found, email_exists, version_conflict, directory_invariant, repository_failure,
}
use tikti.Identity.{
  Letters, canonical_federated_user, canonical_directory_storage_user, same_company,
}
use tikti.UserStore.{
  Stored, blank, broken, document, Records, Reply, found, missing, failed, get, write_user,
  directory_index_member, directory_maximum_retries,
}

-- What happens around one attempt of UpdateDirectoryUser: what other clients write between its first
-- read and its transaction, whether one writes a watched key before EXEC, and what they write then.
pub record Round : Type 0 where
  pub between : Records → Records
  pub raced : Bool
  pub afterwards : Records → Records

-- How a transaction ends: with a result, or to be tried again.
pub data Outcome : Type 0 where
  again : Outcome
  finished : Fallible User → Records → Outcome

unfoldable pub same_document : User → User → Bool
same_document u v =
    teq u.id v.id
    && teq u.email v.email
    && teq u.password v.password
    && teq u.role v.role
    && teq u.status v.status
    && elim u.company_id [
      | none ↦ elim v.company_id [ none ↦ true | some d ↦ false ]
      | some c ↦ elim v.company_id [ none ↦ false | some d ↦ teq c d ]
    ]
    && (u.token_version == v.token_version)
    && (u.revision == v.revision)
    && (u.created_at == v.created_at)
    && teq u.auth_source v.auth_source
    && teq u.external_subject v.external_subject
    && elim u.password_change_required [
      | true ↦ v.password_change_required
      | false ↦ not v.password_change_required
    ]

-- existing and existing ~= ARGV[3]
unfoldable pub holds_other : Option Stored → User → Bool
unfolding same_document
holds_other none user = false
holds_other (some blank) user = true
holds_other (some broken) user = true
holds_other (some (document stored)) user = not (same_document stored user)

unfoldable pub owned_by_other : Option Text → Text → Bool
owned_by_other none user_id = false
owned_by_other (some owner) user_id = not (teq owner user_id)

-- createDirectoryUserScript
unfoldable pub create_script : User → Records → Fallible User × Records
unfolding holds_other owned_by_other write_user
create_script user db =
    if not db.available
    then (err repository_failure, db)
    else if owned_by_other (lookup user.email db.by_email) user.id
    then (err email_exists, db)
    else if holds_other (lookup user.id db.users) user
    then (err directory_invariant, db)
    else (ok user, write_user user db)

unfoldable pub identified : Text → Option User → Fallible User
identified user_id none = err directory_invariant
identified user_id (some current) =
    if teq current.id user_id then ok current else err directory_invariant

-- What an update reads of the stored user, in canonical form.
unfoldable pub observed : Letters → ℕ → Text → Reply Stored → Fallible User
unfolding identified canonical_directory_storage_user
observed l now user_id missing = err not_found
observed l now user_id failed = err repository_failure
observed l now user_id (found blank) = err directory_invariant
observed l now user_id (found broken) = err directory_invariant
observed l now user_id (found (document stored)) =
    identified user_id (canonical_directory_storage_user l now stored)

-- A transaction that is tried again goes on from what the other clients have written.
unfoldable pub settle :
    (Records → Fallible User × Records) → Records → Outcome → Fallible User × Records
settle retry db again = retry db
settle retry db (finished result db') = (result, db')

-- The owner of the new e-mail.
unfoldable pub owner_refuses : Reply Text → Text → Option Error
owner_refuses missing user_id = none
owner_refuses failed user_id = some repository_failure
owner_refuses (found owner) user_id = if teq owner user_id then none else some email_exists

unfoldable pub drop_email : Text → User → Records → Records
unfolding directory_index_member
drop_email previous user db = if teq previous user.email then db else record db {
  by_email = drop_key previous db.by_email;
  email_index = keep (λ m. not (teq m (directory_index_member previous user.id))) db.email_index;
}

unfoldable pub next_revision : User → User
next_revision user = record user { revision = user.revision + 1 }

-- The transaction of UpdateDirectoryUser after its checks.
unfoldable pub commit_directory : Bool → Text → User → Records → Outcome
unfolding write_user drop_email next_revision
commit_directory raced previous user db =
    if raced
    then again
    else finished (ok (next_revision user))
        (drop_email previous user (write_user (next_revision user) db))

unfoldable pub checked_owner : Bool → Text → User → Option Error → Records → Outcome
unfolding commit_directory
checked_owner raced previous user (some e) db = finished (err e) db
checked_owner raced previous user none db = commit_directory raced previous user db

unfoldable pub transact_current : Bool → Text → User → Fallible User → Records → Outcome
unfolding checked_owner owner_refuses get
transact_current raced previous user (err e) db = finished (err e) db
transact_current raced previous user (ok current) db =
    if not (current.revision == user.revision)
    then finished (err version_conflict) db
    else if not (teq current.email previous)
    then again
    else checked_owner raced previous user
        (if teq previous user.email
          then none
          else owner_refuses (get db.available user.email db.by_email) user.id)
        db

module _ (l : Letters) (now : ℕ) where
  unfoldable pub transact_directory : Bool → Text → User → Records → Outcome
  unfolding transact_current observed get
  transact_directory raced previous user db =
      transact_current raced previous user
        (observed l now user.id (get db.available user.id db.users)) db

  -- One attempt, from the e-mail that its first read found.
  unfoldable pub update_once :
      Round
      → (Records → Fallible User × Records)
      → User
      → Fallible User
      → Records
      → Fallible User × Records
  unfolding settle transact_directory
  update_once round retry user (err e) db = (err e, db)
  update_once round retry user (ok previous) db =
      settle retry (round.afterwards (round.between db))
        (transact_directory round.raced previous.email user (round.between db))

  -- The loop of UpdateDirectoryUser for a canonical user.
  unfoldable pub update_attempts : (ℕ → Round) → ℕ → User → Records → Fallible User × Records
  unfolding update_once observed get
  update_attempts rounds zero user db = (err repository_failure, db)
  update_attempts rounds (suc n) user db =
      update_once (rounds n) (update_attempts rounds n user) user
        (observed l now user.id (get db.available user.id db.users)) db

  unfoldable pub update_canonical : (ℕ → Round) → Option User → Records → Fallible User × Records
  unfolding update_attempts
  update_canonical rounds none db = (err invalid_argument, db)
  update_canonical rounds (some canonical) db =
      update_attempts rounds directory_maximum_retries canonical db

  -- UpdateDirectoryUser
  unfoldable pub update_directory_user : (ℕ → Round) → User → Records → Fallible User × Records
  unfolding update_canonical canonical_directory_storage_user
  update_directory_user rounds user db =
      update_canonical rounds (canonical_directory_storage_user l now user) db

  -- CreateDirectoryUser
  unfoldable pub create_directory_user : User → Records → Fallible User × Records
  unfolding create_script canonical_directory_storage_user
  create_directory_user user db = elim (canonical_directory_storage_user l now user) [
    | none ↦ (err invalid_argument, db)
    | some canonical ↦ create_script (record canonical { revision = 0 }) db
  ]

-- The checks of the transaction of updateFederatedUser.
unfoldable pub federated_check : User → Option User → Option Error
unfolding same_company
federated_check canonical none = some directory_invariant
federated_check canonical (some current) =
    if not (teq current.id canonical.id)
    then some directory_invariant
    else if not (current.revision == canonical.revision)
    then some version_conflict
    else if not (same_company current.company_id canonical.company_id)
        || not (teq current.external_subject canonical.external_subject)
        || ltb canonical.token_version current.token_version
    then some directory_invariant
    else none

unfoldable pub federated_refuses : Letters → User → Reply Stored → Option Error
unfolding federated_check canonical_federated_user
federated_refuses l canonical missing = some not_found
federated_refuses l canonical failed = some not_found
federated_refuses l canonical (found blank) = some not_found
federated_refuses l canonical (found broken) = some directory_invariant
federated_refuses l canonical (found (document stored)) =
    federated_check canonical (canonical_federated_user l stored)

unfoldable pub write_federated : User → Records → Records
write_federated user db = record db { federated = store_at user.id (document user) db.federated }

-- The transaction of updateFederatedUser: `canonical` is what is stored, `user` what is returned.
unfoldable pub commit_federated :
    Bool → User → User → Option Error → Records → Fallible User × Records
unfolding write_federated next_revision
commit_federated raced user canonical (some e) db = (err e, db)
commit_federated raced user canonical none db = if raced then (err version_conflict, db) else (
  ok (record user { revision = canonical.revision + 1 }),
  write_federated (next_revision canonical) db,
)

unfoldable pub update_federated_canonical :
    Letters → Bool → User → Option User → Records → Fallible User × Records
unfolding commit_federated federated_refuses get
update_federated_canonical l raced user none db = (err invalid_argument, db)
update_federated_canonical l raced user (some canonical) db =
    commit_federated raced user canonical
      (federated_refuses l canonical (get db.available canonical.id db.federated)) db

-- updateFederatedUser
unfoldable pub update_federated_user : Letters → Bool → User → Records → Fallible User × Records
unfolding update_federated_canonical canonical_federated_user
update_federated_user l raced user db =
    update_federated_canonical l raced user (canonical_federated_user l user) db

-- What happens during UpdateUser: what other clients write after its test of the federated users,
-- and during the update that follows.
pub record Turn : Type 0 where
  pub meanwhile : Records → Records
  pub raced : Bool
  pub rounds : ℕ → Round

unfoldable pub update_where :
    Letters → ℕ → Turn → User → Reply Stored → Records → Fallible User × Records
unfolding update_federated_user update_directory_user
update_where l now turn user failed db = (err repository_failure, db)
update_where l now turn user missing db =
    update_directory_user l now turn.rounds user (turn.meanwhile db)
update_where l now turn user (found stored) db =
    update_federated_user l turn.raced user (turn.meanwhile db)

-- UpdateUser for a user that is there
unfoldable pub update_user : Letters → ℕ → Turn → User → Records → Fallible User × Records
unfolding update_where get
update_user l now turn user db =
    update_where l now turn user (get db.available user.id db.federated) db

-- The transaction of ConsumeTemporaryPassword.
unfoldable pub replace_password : Bool → Text → ℕ → Text → Fallible User → Records → Outcome
replace_password raced expected version replacement (err e) db = finished (err e) db
replace_password raced expected version replacement (ok current) db =
    if not (teq current.status user_active)
      || not (teq current.auth_source auth_source_password)
      || not current.password_change_required
      || not (teq current.password expected)
      || not (current.token_version == version)
    then finished (err invalid_creds) db
    else if raced
    then again
    else let updated = record current {
      password = replacement;
      password_change_required = false;
      token_version = current.token_version + 1;
      revision = current.revision + 1;
    } in
      finished (ok updated) (record db { users = store_at current.id (document updated) db.users })
