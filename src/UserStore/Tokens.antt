-- ===== src/UserStore/Tokens.antt =====
-- The operations of user_repository.go and identity_directory_repository.go that move the version of a
-- user's tokens: each reads a record, changes it, and writes it where its revision is still the stored one.
use tikti.Base.{
  if◌then◌else◌, ok, err, Text, is_empty, ℕ, zero, suc, ◌+◌, Bool, true, false, not, ◌||◌, Option,
  none, some, trim_space,
}
use tikti.Domain.{
  Error, Fallible, User, invalid_argument, invalid_creds, not_found, version_conflict,
  repository_failure,
}
use tikti.Identity.{Letters, canonical_user_identity}
use tikti.UserStore.{
  Stored, Records, Reply, found, missing, failed, get, find_by_id, find_by_email,
  directory_maximum_retries,
}
use tikti.UserStore.Update.{settle, Round, Turn, observed, replace_password, update_user}

unfoldable pub bump_version : User → User
bump_version user = record user { token_version = user.token_version + 1 }

-- What other clients write between the read and the update, and during the update.
pub record Attempt : Type 0 where
  pub others : Records → Records
  pub turn : Turn

-- What happens during FindByEmail.
pub record Search : Type 0 where
  pub raced : ℕ → Bool
  pub others : ℕ → Records → Records

unfoldable pub is_conflict : Error → Bool
is_conflict version_conflict = true
is_conflict _ = false

module _ (l : Letters) (now : ℕ) where
  -- The change of a user that was found, and its update.
  unfoldable pub change_found :
      (User → User) → Attempt → Fallible (Option User) × Records → Fallible User × Records
  unfolding update_user
  change_found change attempt (err e, db) = (err e, db)
  change_found change attempt (ok none, db) = (err not_found, db)
  change_found change attempt (ok (some user), db) =
      update_user l now attempt.turn (change user) (attempt.others db)

  -- SetStatus
  unfoldable pub set_status : Search → Attempt → Text → Text → Records → Fallible User × Records
  unfolding change_found find_by_email bump_version
  set_status search attempt email status db =
      change_found (λ user. record (bump_version user) { status = status }) attempt
        (find_by_email l search.raced search.others now email db)

  -- IncrementTokenVersion
  unfoldable pub increment_token_version :
      Search → Attempt → Text → Records → Fallible User × Records
  unfolding change_found find_by_email bump_version
  increment_token_version search attempt email db =
      change_found bump_version attempt (find_by_email l search.raced search.others now email db)

  -- One attempt of IncrementTokenVersionByID.
  unfoldable pub increment_once : Attempt → Text → Records → Fallible User × Records
  unfolding change_found find_by_id bump_version
  increment_once attempt user_id db = change_found bump_version attempt (find_by_id db user_id, db)

  unfoldable pub retries : Fallible User → Bool
  retries (ok user) = false
  retries (err e) = is_conflict e

  -- The loop of IncrementTokenVersionByID.
  unfoldable pub increment_attempts : (ℕ → Attempt) → ℕ → Text → Records → Fallible User × Records
  unfolding increment_once retries
  increment_attempts attempts zero user_id db = (err repository_failure, db)
  increment_attempts attempts (suc n) user_id db =
      let result = increment_once (attempts n) user_id db in
      let later = increment_attempts attempts n user_id result.1 in
      if retries result.0 then later else result

  -- IncrementTokenVersionByID
  unfoldable pub increment_token_version_by_id :
      (ℕ → Attempt) → Text → Records → Fallible User × Records
  unfolding increment_attempts
  increment_token_version_by_id attempts user_id db =
      increment_attempts attempts directory_maximum_retries user_id db

  -- A document that is not there has no credentials to check.
  unfoldable pub credentials : Text → Reply Stored → Fallible User
  unfolding observed
  credentials user_id missing = err invalid_creds
  credentials user_id failed = err repository_failure
  credentials user_id (found stored) = observed l now user_id (found stored)

  -- The loop of ConsumeTemporaryPassword.
  unfoldable pub consume_attempts :
      (ℕ → Round) → ℕ → Text → Text → ℕ → Text → Records → Fallible User × Records
  unfolding settle replace_password credentials get
  consume_attempts rounds zero user_id expected version replacement db =
      (err repository_failure, db)
  consume_attempts rounds (suc n) user_id expected version replacement db =
      let db' = (rounds n).between db in
      settle (consume_attempts rounds n user_id expected version replacement)
        ((rounds n).afterwards db')
        (replace_password (rounds n).raced expected version replacement
          (credentials user_id (get db'.available user_id db'.users)) db')

  -- ConsumeTemporaryPassword
  unfoldable pub consume_temporary_password :
      (ℕ → Round) → Text → Text → ℕ → Text → Records → Fallible User × Records
  unfolding consume_attempts canonical_user_identity
  consume_temporary_password rounds user_id expected version replacement db =
      if not (canonical_user_identity user_id)
        || is_empty (trim_space expected)
        || is_empty (trim_space replacement)
      then (err invalid_argument, db)
      else consume_attempts rounds directory_maximum_retries user_id expected version replacement db
