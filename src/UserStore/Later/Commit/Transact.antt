-- ===== src/UserStore/Later/Commit/Transact.antt =====
-- The transaction of UpdateDirectoryUser: how one that finished went.
use tikti.Base.{
  Option, ◌==◌, if◌then◌else◌, ==_iff, Bool-cases, ok, err, Text, teq, ℕ, ◌≡◌, refl, sym, ◌∙◌, ◌⊎◌,
  inl, inr, Bool, true, false, none, some, arith, lookup-store_at,
}
use tikti.Domain.{Error, Fallible, User, version_conflict}
use tikti.Identity.{Letters, canonical_directory_storage_user, with_defaults}
use tikti.UserStore.{document, Records, found, get, write_user}
use tikti.UserStore.Update.{
  again, finished, identified, observed, owner_refuses, drop_email, next_revision, commit_directory,
  checked_owner, transact_current,
}
use tikti.UserStore.Later.{IsHeld}
use tikti.UserStore.Later.Commit.{IsCommit}

pub canonical_directory-keeps :
    (l : Letters) (now : ℕ) (user : User) {canonical : User}
    → canonical_directory_storage_user l now user ≡ some canonical
    → (canonical.id ≡ user.id)
      × (canonical.revision ≡ user.revision)
      × (canonical.token_version ≡ user.token_version)
unfolding canonical_directory_storage_user with_defaults
canonical_directory-keeps l now user {canonical} h =
    let same : with_defaults l now user ≡ canonical = ground (arith, h) in
    rw (← same) (refl, refl, refl)

identified-eq-ok :
    (id : Text) (o : Option User) {current : User} → identified id o ≡ ok current → o ≡ some current
unfolding identified
identified-eq-ok id none h = cc
identified-eq-ok id (some c) h = ground (arith, h)

pub observed-revision :
    (l : Letters) (now : ℕ) (id : Text) (stored : User) {current : User}
    → observed l now id (found (document stored)) ≡ ok current
    → current.revision ≡ stored.revision
unfolding observed
observed-revision l now id stored h =
    (canonical_directory-keeps l now stored
      (identified-eq-ok id (canonical_directory_storage_user l now stored) h)).1

-- How a transaction that finished went: an error, or the write of the user.
abbrev pub Refused : Records → Fallible User → Records → Type 0
Refused db result db' = (e : Error) × (result ≡ err e) × (db ≡ db')

abbrev Written : Text → User → Records → Fallible User → Records → Type 0
Written previous user db result db' =
    (result ≡ ok (next_revision user))
    × (drop_email previous user (write_user (next_revision user) db) ≡ db')

finished-inj :
    (result result' : Fallible User) (db db' : Records)
    → finished result db ≡ finished result' db'
    → (result ≡ result') × (db ≡ db')
finished-inj result result' db db' h = (cc, cc)

finished-Refused :
    (e : Error) (db : Records) {result : Fallible User} {db' : Records}
    → finished (err e) db ≡ finished result db'
    → Refused db result db'
finished-Refused e db {result} {db'} h =
    let (same, still) = finished-inj (err e) result db db' h in (e, sym same, still)

checked_owner-Written :
    (raced : Bool) (previous : Text) (user : User) (o : Option Error) (db : Records)
    {result : Fallible User} {db' : Records}
    → checked_owner raced previous user o db ≡ finished result db'
    → Refused db result db' ⊎ Written previous user db result db'
unfolding checked_owner commit_directory
checked_owner-Written raced previous user (some e) db h = inl (finished-Refused e db h)
checked_owner-Written true previous user none db h = cc
checked_owner-Written false previous user none db {result} {db'} h =
    let (same, moved) = finished-inj (ok (next_revision user)) result _ db' h in
    inr (sym same, moved)

transact-Written :
    (raced : Bool) (previous : Text) (user current : User) (db : Records) {result : Fallible User}
    {db' : Records}
    → transact_current raced previous user (ok current) db ≡ finished result db'
    → Refused db result db'
      ⊎ ((current.revision ≡ user.revision) × Written previous user db result db')
unfolding transact_current
transact-Written raced previous user current db {result} {db'} h =
    elim (Bool-cases (current.revision == user.revision)) [
      | inr moved ↦ inl (finished-Refused version_conflict db (ground (arith, h, moved)))
      | inl same ↦ elim (Bool-cases (teq current.email previous)) [
        | inr other ↦ let tried : again ≡ finished result db' = ground (arith, h, same, other) in cc
        | inl email ↦
            elim (checked_owner-Written raced previous user
              (if teq previous user.email
                then none
                else owner_refuses (get db.available user.email db.by_email) user.id)
              db (ground (arith, h, same, email))) [
                | inl refused ↦ inl refused
                | inr written ↦
                    inr (ground (arith, same, ==_iff current.revision user.revision), written)
              ]
      ]
    ]

drop_email-keeps :
    (previous : Text) (user : User) (db : Records)
    → ((drop_email previous user db).users ≡ db.users)
      × ((drop_email previous user db).federated ≡ db.federated)
unfolding drop_email
drop_email-keeps previous user db = elim (Bool-cases (teq previous user.email)) [
  | inl e ↦ rw (e) (refl, refl)
  | inr e ↦ rw (e) (refl, refl)
]

-- The write of a directory user over the record that was read.
Written-IsCommit :
    (id previous : Text) (stored user : User) (db : Records) {result : Fallible User}
    {db' : Records}
    → IsHeld true id stored db
    → user.id ≡ id
    → stored.revision ≡ user.revision
    → Written previous user db result db'
    → IsCommit true id user db result db'
unfolding write_user next_revision
Written-IsCommit id previous stored user db {result} {db'} held at_id checked (returns, wrote) =
    let (users, federated) = drop_email-keeps previous user (write_user (next_revision user) db) in
    let at_db' : IsHeld true id (next_revision user)
        (drop_email previous user (write_user (next_revision user) db)) =
      (
        rw (users, ← at_id) (lookup-store_at user.id (document (next_revision user)) db.users),
        rw (federated) held.1,
      ) in
    record {
      current = stored;
      held = held;
      checked = checked;
      written = next_revision user;
      stored = rw (← wrote) at_db';
      revision = refl;
      version = refl;
      returned = next_revision user;
      returns = returns;
      returned_version = refl;
    }

pub transact_observed-IsCommit :
    (id : Text) (raced : Bool) (previous : Text) (stored user : User) (db : Records)
    (o : Fallible User) {result : Fallible User} {db' : Records}
    → IsHeld true id stored db
    → user.id ≡ id
    → ((current : User) → o ≡ ok current → current.revision ≡ stored.revision)
    → transact_current raced previous user o db ≡ finished result db'
    → Refused db result db' ⊎ IsCommit true id user db result db'
unfolding transact_current
transact_observed-IsCommit id raced previous stored user db (err e) held at_id read h =
    inl (finished-Refused e db h)
transact_observed-IsCommit id raced previous stored user db (ok current) held at_id read h =
    elim (transact-Written raced previous user current db h) [
      | inl refused ↦ inl refused
      | inr (same, wrote) ↦ inr (
          Written-IsCommit id previous stored user db held at_id (sym (read current refl) ∙ same)
            wrote)
    ]
