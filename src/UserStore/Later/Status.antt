-- ===== src/UserStore/Later/Status.antt =====
-- SetStatus and IncrementTokenVersion of a user whom the index of e-mails names.
use tikti.Base.{
  List, Bool-cases, ok, err, Text, teq, teq_sound, is_empty, ℕ, suc, ◌≡◌, refl, sym, ap, ◌∙◌, ◌⊎◌,
  inl, inr, Bool, true, false, Option, none, some, arith, lookup, if-true, if-false,
}
use tikti.Domain.{Fallible, User, directory_invariant, repository_failure}
use tikti.Identity.{Letters, canonical_user_identity, normalize_directory_email}
use tikti.UserStore.{
  Stored, document, Records, Reply, found, failed, get, answer, indexed_user, find_indexed,
  find_attempts, find_by_email, or_later, directory_maximum_retries,
}
use tikti.UserStore.Tokens.{Attempt, Search, bump_version, set_status, increment_token_version}
use tikti.UserStore.Later.{IsHeld, IsAttempt}
use tikti.UserStore.Later.Commit.{available_get}
use tikti.UserStore.Later.Commit.Change.{IsBumped, bump_version-IsRaise, change_found-IsBumped}

module _ (l : Letters) (address id : Text) (old : User) where
  indexed_user-held :
      (reply : Reply Stored) {user : User}
      → (reply ≡ found (document old)) ⊎ (reply ≡ failed)
      → indexed_user l address id reply ≡ ok (some user)
      → (old ≡ user) × (user.id ≡ id)
  unfolding indexed_user
  indexed_user-held reply {user} (inr e) h =
      let wrong : err repository_failure ≡ ok (some user) =
        sym (ap (indexed_user l address id) e) ∙ h in
      cc
  indexed_user-held reply {user} (inl e) h =
      let read : indexed_user l address id (found (document old)) ≡ ok (some user) =
        sym (ap (indexed_user l address id) e) ∙ h in
      let at_id : teq old.id id ≡ true = ground (arith, read) in
      let same : old ≡ user = ground (arith, read) in
      (same, rw (← same) (teq_sound old.id id at_id))

  -- What an attempt of FindByEmail answers without a write.
  abbrev Answers : Records → Fallible (Option User) × Records → Type 0
  Answers db result =
      (o : Fallible (Option User)) × (result ≡ (o, db))
      × ((user : User) → o ≡ ok (some user) → (old ≡ user) × (user.id ≡ id))

  find_indexed-Answers :
      (raced : Bool) (now : ℕ) (reply : Reply Text) (db : Records)
      → IsHeld true id old db
      → (reply ≡ found id) ⊎ (reply ≡ failed)
      → (result : Fallible (Option User) × Records) × (find_indexed l raced now address reply db
          ≡ some result)
        × Answers db result
  unfolding find_indexed
  find_indexed-Answers raced now reply db held (inr e) = (
    (err repository_failure, db),
    ap (λ r. find_indexed l raced now address r db) e,
    (err repository_failure, refl, λ u h. cc),
  )
  find_indexed-Answers raced now reply db held (inl e) =
      elim (Bool-cases (canonical_user_identity id)) [
        | inr bad ↦ (
          (err directory_invariant, db),
          ap (λ r. find_indexed l raced now address r db) e ∙ ground (arith, bad),
          (err directory_invariant, refl, λ u h. cc),
        )
        | inl good ↦
            let o = indexed_user l address id (get db.available id db.users) in
            (
              (o, db),
              ap (λ r. find_indexed l raced now address r db) e ∙ ground (arith, good),
              (
                o,
                refl,
                λ u h.
                    indexed_user-held (get db.available id db.users)
                      (available_get db.available id db.users old held.0) h,
              ),
            )
      ]

get-some :
    (available : Bool) (key : Text) (m : List (Text × Text)) (value : Text)
    → lookup key m ≡ some value
    → (get available key m ≡ found value) ⊎ (get available key m ≡ failed)
unfolding get answer
get-some true key m value e = inl (rw (e) refl)
get-some false key m value e = inr refl

-- FindByEmail of an indexed address reads the held record and writes nothing.
find_attempts-step :
    (l : Letters) (search : Search) (now n : ℕ) (address : Text) (db : Records)
    {result : Fallible (Option User) × Records}
    → find_indexed l (search.raced n) now address (get db.available address db.by_email) db
      ≡ some result
    → find_attempts l search.raced search.others now (suc n) address db ≡ result
unfolding find_attempts
find_attempts-step l search now n address db step =
    ap (or_later (find_attempts l search.raced search.others now n address (search.others n db)))
      step

find_by_email-Answers :
    (l : Letters) (search : Search) (now : ℕ) (email id : Text) (old : User) (db : Records)
    → IsHeld true id old db
    → lookup (normalize_directory_email l email) db.by_email ≡ some id
    → Answers l
        (normalize_directory_email l email)
        id
        old
        db
        (find_by_email l search.raced search.others now email db)
unfolding find_by_email
find_by_email-Answers l search now email id old db held indexed =
    let address = normalize_directory_email l email in
    let (result, step, (o, same, read)) =
      find_indexed-Answers l address id old (search.raced 7) now
        (get db.available address db.by_email) db held
        (get-some db.available address db.by_email id indexed) in
    let tries =
      find_attempts l search.raced search.others now directory_maximum_retries address db in
    elim (Bool-cases (is_empty address)) [
      | inl blank_address ↦
          (ok none, if-true (is_empty address) (ok none, db) tries blank_address, λ u h. cc)
      | inr given ↦ (
        o,
        if-false (is_empty address) (ok none, db) tries given
            ∙ find_attempts-step l search now 7 address db step
            ∙ same,
        read,
      )
    ]

module _ (l : Letters) (now : ℕ) (search : Search) (attempt : Attempt) (id : Text) where
  -- Where SetStatus returns for a directory user whom the index of e-mails names, it has stored a token
  -- version above that of the record that it started from; other clients may write meanwhile, where
  -- each of their writes keeps the user's record or raises its revision without lowering its version.
  pub set_status-IsBumped :
      (email status : Text) (old : User) (db : Records)
      → IsAttempt id attempt
      → IsHeld true id old db
      → lookup (normalize_directory_email l email) db.by_email ≡ some id
      → IsBumped true id old db
          (set_status l now search attempt email status db).0
          (set_status l now search attempt email status db).1
  unfolding set_status bump_version
  set_status-IsBumped email status old db kept held indexed =
      let (o, same, read) = find_by_email-Answers l search now email id old db held indexed in
      rw (same) (
        change_found-IsBumped l now id (λ user. record (bump_version user) { status = status })
          (record { same_id = λ u. refl; same_revision = λ u. refl; raises = λ u. refl }) attempt
          kept true old o db held read)

  -- The same of IncrementTokenVersion.
  pub increment_token_version-IsBumped :
      (email : Text) (old : User) (db : Records)
      → IsAttempt id attempt
      → IsHeld true id old db
      → lookup (normalize_directory_email l email) db.by_email ≡ some id
      → IsBumped true id old db
          (increment_token_version l now search attempt email db).0
          (increment_token_version l now search attempt email db).1
  unfolding increment_token_version
  increment_token_version-IsBumped email old db kept held indexed =
      let (o, same, read) = find_by_email-Answers l search now email id old db held indexed in
      rw (same) (
        change_found-IsBumped l now id bump_version bump_version-IsRaise attempt kept true old o db
          held read)
