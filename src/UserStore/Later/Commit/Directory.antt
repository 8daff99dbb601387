-- ===== src/UserStore/Later/Commit/Directory.antt =====
-- UpdateDirectoryUser ends as an update.
use tikti.Base.{
  Option, ℕ, ok, err, Text, zero, suc, ◌≡◌, refl, sym, ap, ◌∙◌, inl, inr, Bool, true, none, some,
}
use tikti.Domain.{Fallible, User, repository_failure, invalid_argument}
use tikti.Identity.{Letters, canonical_directory_storage_user}
use tikti.UserStore.{Records, get, directory_maximum_retries}
use tikti.UserStore.Update.{
  Round, Outcome, again, finished, observed, settle, update_once, update_canonical,
  transact_directory, update_attempts, update_directory_user,
}
use tikti.UserStore.Later.{IsHeld, IsLater, IsLater-refl, IsRound}
use tikti.UserStore.Later.Commit.{Ended, Ended-later, Ended-congr, available_get}
use tikti.UserStore.Later.Commit.Transact.{
  canonical_directory-keeps, observed-revision, transact_observed-IsCommit,
}

module _ (l : Letters) (now : ℕ) (id : Text) where
  -- What an update reads is the held record.
  observed-held :
      (stored user : User) (db : Records)
      → IsHeld true id stored db
      → user.id ≡ id
      → (current : User) → observed l now user.id (get db.available user.id db.users) ≡ ok current
      → current.revision ≡ stored.revision
  unfolding observed
  observed-held stored user db held at_id current h =
      elim (available_get db.available user.id db.users stored (rw (at_id) (held.0))) [
        | inl e ↦ observed-revision l now user.id stored (sym (ap (observed l now user.id) e) ∙ h)
        | inr e ↦
            let failed_read : err repository_failure ≡ ok current =
              sym (ap (observed l now user.id) e) ∙ h in
            cc
      ]

  settled-Ended :
      (retry : Records → Fallible User × Records) (stored user : User) (db after : Records)
      (raced : Bool) (previous : Text) (o : Outcome)
      → IsHeld true id stored db
      → user.id ≡ id
      → IsLater id db after
      → ((state : Records) (s : User)
          → IsHeld true id s state
          → Ended true id user state (retry state))
      → transact_directory l now raced previous user db ≡ o
      → Ended true id user db (settle retry after o)
  unfolding settle transact_directory
  settled-Ended retry stored user db after raced previous again held at_id later tries h =
      let (s, held', newer) = later.moves true stored held in
      Ended-later true id user db after (retry after) later (tries after s held')
  settled-Ended retry stored user db after raced previous (finished result db') held at_id later
        tries h =
      elim (transact_observed-IsCommit id raced previous stored user db _ held at_id
        (observed-held stored user db held at_id) h) [
          | inl (e, refused, still) ↦ (db, IsLater-refl id db, inl (e, rw (refused, still) refl))
          | inr commit ↦ (db, IsLater-refl id db, inr commit)
        ]

  update_once-Ended :
      (round : Round) (retry : Records → Fallible User × Records) (stored user : User)
      (o : Fallible User) (db : Records)
      → IsRound id round
      → IsHeld true id stored db
      → user.id ≡ id
      → ((state : Records) (s : User)
          → IsHeld true id s state
          → Ended true id user state (retry state))
      → Ended true id user db (update_once l now round retry user o db)
  unfolding update_once
  update_once-Ended round retry stored user (err e) db kept held at_id tries =
      (db, IsLater-refl id db, inl (e, refl))
  update_once-Ended round retry stored user (ok previous) db kept held at_id tries =
      let db' = round.between db in
      let (s, held', newer) = (kept.between db).moves true stored held in
      Ended-later true id user db db' _ (kept.between db) (
        settled-Ended retry s user db' (round.afterwards db') round.raced previous.email
          (transact_directory l now round.raced previous.email user db') held' at_id
          (kept.afterwards db') tries refl)

  update_attempts-Ended :
      (rounds : ℕ → Round) (n : ℕ) (stored user : User) (db : Records)
      → ((m : ℕ) → IsRound id (rounds m))
      → IsHeld true id stored db
      → user.id ≡ id
      → Ended true id user db (update_attempts l now rounds n user db)
  unfolding update_attempts
  update_attempts-Ended rounds zero stored user db kept held at_id =
      (db, IsLater-refl id db, inl (repository_failure, refl))
  update_attempts-Ended rounds (suc n) stored user db kept held at_id =
      update_once-Ended (rounds n) (λ state. update_attempts l now rounds n user state) stored user
        (observed l now user.id (get db.available user.id db.users)) db (kept n) held at_id
        (λ state s h. update_attempts-Ended rounds n s user state kept h at_id)

module _ (l : Letters) (now : ℕ) (id : Text) where
  update_canonical-Ended :
      (rounds : ℕ → Round) (stored user : User) (o : Option User) (db : Records)
      → ((m : ℕ) → IsRound id (rounds m))
      → IsHeld true id stored db
      → user.id ≡ id
      → canonical_directory_storage_user l now user ≡ o
      → Ended true id user db (update_canonical l now rounds o db)
  unfolding update_canonical
  update_canonical-Ended rounds stored user none db kept held at_id e =
      (db, IsLater-refl id db, inl (invalid_argument, refl))
  update_canonical-Ended rounds stored user (some canonical) db kept held at_id e =
      let (same_id, revision, version) = canonical_directory-keeps l now user e in
      Ended-congr true id canonical user db _ revision version (
        update_attempts-Ended l now id rounds directory_maximum_retries stored canonical db kept
          held (same_id ∙ at_id))

  pub update_directory_user-Ended :
      (rounds : ℕ → Round) (stored user : User) (db : Records)
      → ((m : ℕ) → IsRound id (rounds m))
      → IsHeld true id stored db
      → user.id ≡ id
      → Ended true id user db (update_directory_user l now rounds user db)
  unfolding update_directory_user
  update_directory_user-Ended rounds stored user db kept held at_id =
      update_canonical-Ended rounds stored user (canonical_directory_storage_user l now user) db
        kept held at_id refl
