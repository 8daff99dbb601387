-- ===== src/UserStore/Later/Commit/Federated.antt =====
-- updateFederatedUser and UpdateUser end as updates.
use tikti.Base.{
  Option, ◌==◌, ==_iff, Bool-cases, Text, ℕ, ◌+◌, ◌≡◌, refl, sym, ap, ◌∙◌, ◌≢◌, ◌⊎◌, inl, inr, Bool,
  true, false, none, some, [], arith, lookup, lookup-store_at,
}
use tikti.Domain.{Error, User, repository_failure, not_found, version_conflict, invalid_argument}
use tikti.Identity.{Letters, canonical_federated_user, normalize_directory_email}
use tikti.UserStore.{Stored, document, Hash, Records, Reply, found, missing, failed, get, answer}
use tikti.UserStore.Update.{
  Turn, next_revision, federated_check, federated_refuses, write_federated, commit_federated,
  update_federated_canonical, update_federated_user, update_where, update_user,
}
use tikti.UserStore.Later.{IsHeld, IsLater-refl, IsTurn}
use tikti.UserStore.Later.Commit.{Ended, Ended-later, Ended-congr, available_get}
use tikti.UserStore.Later.Commit.Directory.{update_directory_user-Ended}

canonical_federated-keeps :
    (l : Letters) (user : User) {canonical : User}
    → canonical_federated_user l user ≡ some canonical
    → (canonical.id ≡ user.id)
      × (canonical.revision ≡ user.revision)
      × (canonical.token_version ≡ user.token_version)
unfolding canonical_federated_user
canonical_federated-keeps l user {canonical} h =
    let copy = record user {
      password = [];
      password_change_required = false;
      email = normalize_directory_email l user.email;
    } in
    let same : copy ≡ canonical = ground (arith, h) in rw (← same) (refl, refl, refl)

federated_check-revision :
    (canonical : User) (o : Option User)
    → federated_check canonical o ≡ none
    → (current : User) × (o ≡ some current) × (current.revision ≡ canonical.revision)
unfolding federated_check
federated_check-revision canonical none h = cc
federated_check-revision canonical (some current) h =
    elim (Bool-cases (current.revision == canonical.revision)) [
      | inl e ↦ (current, refl, ground (arith, e, ==_iff current.revision canonical.revision))
      | inr e ↦ absurd (ground (arith, e, h))
    ]

module _ (l : Letters) (id : Text) where
  -- Where the transaction refuses nothing, the held record has the given revision.
  federated_refuses-revision :
      (stored canonical : User) (db : Records)
      → IsHeld false id stored db
      → canonical.id ≡ id
      → federated_refuses l canonical (get db.available canonical.id db.federated) ≡ none
      → stored.revision ≡ canonical.revision
  unfolding federated_refuses
  federated_refuses-revision stored canonical db held at_id h =
      elim (available_get db.available canonical.id db.federated stored (rw (at_id) (held.1))) [
        | inl e ↦
            let (current, read, same) =
              federated_check-revision canonical (canonical_federated_user l stored)
                (sym (ap (federated_refuses l canonical) e) ∙ h) in
            sym (canonical_federated-keeps l stored read).1 ∙ same
        | inr e ↦
            let failed_read : some not_found ≡ none =
              sym (ap (federated_refuses l canonical) e) ∙ h in
            cc
      ]

  commit_federated-Ended :
      (raced : Bool) (stored user canonical : User) (o : Option Error) (db : Records)
      → IsHeld false id stored db
      → canonical.id ≡ id
      → user.token_version ≡ canonical.token_version
      → (o ≡ none → stored.revision ≡ canonical.revision)
      → Ended false id canonical db (commit_federated raced user canonical o db)
  unfolding commit_federated write_federated next_revision
  commit_federated-Ended raced stored user canonical (some e) db held at_id version read =
      (db, IsLater-refl id db, inl (e, refl))
  commit_federated-Ended true stored user canonical none db held at_id version read =
      (db, IsLater-refl id db, inl (version_conflict, refl))
  commit_federated-Ended false stored user canonical none db held at_id version read = (
    db,
    IsLater-refl id db,
    inr (record {
      current = stored;
      held = held;
      checked = read refl;
      written = next_revision canonical;
      stored = (
        held.0,
        rw (← at_id)
            (lookup-store_at canonical.id (document (next_revision canonical)) db.federated),
      );
      revision = refl;
      version = refl;
      returned = record user { revision = canonical.revision + 1 };
      returns = refl;
      returned_version = version;
    }),
  )

  update_federated_canonical-Ended :
      (raced : Bool) (stored user : User) (o : Option User) (db : Records)
      → IsHeld false id stored db
      → user.id ≡ id
      → canonical_federated_user l user ≡ o
      → Ended false id user db (update_federated_canonical l raced user o db)
  unfolding update_federated_canonical
  update_federated_canonical-Ended raced stored user none db held at_id e =
      (db, IsLater-refl id db, inl (invalid_argument, refl))
  update_federated_canonical-Ended raced stored user (some canonical) db held at_id e =
      let (same_id, revision, version) = canonical_federated-keeps l user e in
      Ended-congr false id canonical user db _ revision version (
        commit_federated-Ended raced stored user canonical
          (federated_refuses l canonical (get db.available canonical.id db.federated)) db held
          (same_id ∙ at_id) (sym version)
          (federated_refuses-revision stored canonical db held (same_id ∙ at_id)))

pub get-none :
    (available : Bool) (id : Text) (h : Hash)
    → lookup id h ≡ none
    → (get available id h ≡ missing) ⊎ (get available id h ≡ failed)
unfolding get answer
get-none true id h e = inl (rw (e) refl)
get-none false id h e = inr refl

not-found :
    (available : Bool) (id : Text) (h : Hash) (f : Stored)
    → lookup id h ≡ none
    → get available id h ≢ found f
not-found available id h f e k = elim (get-none available id h e) [
  | inl m ↦ let both : missing ≡ found f = sym m ∙ k in cc
  | inr m ↦ let both : failed ≡ found f = sym m ∙ k in cc
]

not-missing :
    (available : Bool) (id : Text) (h : Hash) (u : User)
    → lookup id h ≡ some (document u)
    → get available id h ≢ missing
not-missing available id h u e k = elim (available_get available id h u e) [
  | inl m ↦ let both : found (document u) ≡ missing = sym m ∙ k in cc
  | inr m ↦ let both : failed ≡ missing = sym m ∙ k in cc
]

module _ (l : Letters) (now : ℕ) (id : Text) (turn : Turn) (kept : IsTurn id turn) where
  update_where-Ended :
      (b : Bool) (stored user : User) (reply : Reply Stored) (db : Records)
      → IsHeld b id stored db
      → user.id ≡ id
      → get db.available user.id db.federated ≡ reply
      → Ended b id user db (update_where l now turn user reply db)
  unfolding update_where update_federated_user
  update_where-Ended b stored user failed db held at_id e =
      (db, IsLater-refl id db, inl (repository_failure, refl))
  update_where-Ended true stored user missing db held at_id e =
      let (s, held', newer) = (kept.meanwhile db).moves true stored held in
      Ended-later true id user db (turn.meanwhile db) _ (kept.meanwhile db) (
        update_directory_user-Ended l now id turn.rounds s user (turn.meanwhile db) kept.rounds
          held' at_id)
  update_where-Ended false stored user (found f) db held at_id e =
      let (s, held', newer) = (kept.meanwhile db).moves false stored held in
      Ended-later false id user db (turn.meanwhile db) _ (kept.meanwhile db) (
        update_federated_canonical-Ended l id turn.raced s user (canonical_federated_user l user)
          (turn.meanwhile db) held' at_id refl)
  update_where-Ended true stored user (found f) db held at_id e =
      absurd (not-found db.available user.id db.federated f (rw (at_id) (held.1)) e)
  update_where-Ended false stored user missing db held at_id e =
      absurd (not-missing db.available user.id db.federated stored (rw (at_id) (held.1)) e)

  -- UpdateUser of a stored user ends as an update.
  pub update_user-Ended :
      (b : Bool) (stored user : User) (db : Records)
      → IsHeld b id stored db
      → user.id ≡ id
      → Ended b id user db (update_user l now turn user db)
  unfolding update_user
  update_user-Ended b stored user db held at_id =
      update_where-Ended b stored user (get db.available user.id db.federated) db held at_id refl
