-- ===== src/UserStore/Later/Commit/Change.antt =====
-- Operations that read a user's record and write a higher token version end with that version stored.
use tikti.Base.{
  ℕ, ap, Bool-cases, ok, err, Text, zero, suc, ◌+◌, ◌≤◌, ◌<◌, ◌≡◌, refl, sym, ◌∙◌, inl, inr, Bool,
  Option, none, some, arith,
}
use tikti.Domain.{Error, Fallible, User, not_found, repository_failure}
use tikti.Identity.{Letters}
use tikti.UserStore.{Records, find_by_id, directory_maximum_retries}
use tikti.UserStore.Update.{update_user}
use tikti.UserStore.Tokens.{
  Attempt, bump_version, change_found, increment_once, increment_attempts,
  increment_token_version_by_id, retries,
}
use tikti.UserStore.Later.{
  IsHeld, IsHeld-unique, IsNewer, IsNewer-same, IsNewer-version, IsLater, IsLater-refl,
  IsLater-trans, IsLater-write, IsAttempt,
}
use tikti.UserStore.Later.Commit.{IsCommit, Ended, Ended-later}
use tikti.UserStore.Later.Commit.Federated.{update_user-Ended}
use tikti.UserStore.Later.Commit.Find.{find_by_id-held}

-- What an operation on the record `old` leaves: the record has moved on, and where the operation
-- returns, a token version above the old one is stored.
pub record IsBumped (b : Bool) (id : Text) (old : User) (db : Records) (result : Fallible User)
    (db' : Records) : Type 0 where
  pub later : IsLater id db db'
  pub bumped :
      (v : User)
      → result ≡ ok v
      → (w : User) × IsHeld b id w db'
        × (w.token_version ≡ v.token_version)
        × (old.token_version < w.token_version)

-- A change of a record that raises its token version and keeps its id and revision.
pub record IsRaise (change : User → User) : Type 0 where
  pub same_id : (u : User) → (change u).id ≡ u.id
  pub same_revision : (u : User) → (change u).revision ≡ u.revision
  pub raises : (u : User) → (change u).token_version ≡ u.token_version + 1

still-IsBumped :
    (b : Bool) (id : Text) (old : User) (db db' : Records) (e : Error)
    → IsLater id db db'
    → IsBumped b id old db (err e) db'
still-IsBumped b id old db db' e h = record { later = h; bumped = λ v k. cc }

-- An update that commits the change of the record that was read stores its raised version.
commit-IsBumped :
    (b : Bool) (id : Text) (change : User → User) (old : User) (db mid db' : Records)
    (result : Fallible User)
    → IsRaise change
    → IsHeld b id old db
    → IsLater id db mid
    → IsCommit b id (change old) mid result db'
    → IsBumped b id old db result db'
commit-IsBumped b id change old db mid db' result raise held later c =
    let (cur, held_mid, newer) = later.moves b old held in
    let same : old ≡ c.current =
      IsNewer-same old c.current
        (rw (IsHeld-unique b id cur c.current mid held_mid c.held) at newer)
        (sym (c.checked ∙ raise.same_revision old)) in
    let version : c.current.token_version ≡ old.token_version =
      ap (λ (u : User). u.token_version) (sym same) in
    let raised = raise.raises old in
    let newer' : IsNewer c.current c.written =
      inl (omega (arith, c.checked, c.revision), omega (arith, version, raised, c.version)) in
    record {
      later =
          IsLater-trans id db mid db' later
            (IsLater-write b id c.current c.written mid db' c.held c.stored newer');
      bumped = λ v k.
          let returned : c.returned ≡ v = ground (arith, c.returns, k) in
          (
            c.written,
            c.stored,
            c.version ∙ sym c.returned_version ∙ ap (λ (u : User). u.token_version) returned,
            omega (arith, raised, c.version),
          );
    }

Ended-IsBumped :
    (b : Bool) (id : Text) (change : User → User) (old : User) (db : Records)
    (result : Fallible User × Records)
    → IsRaise change
    → IsHeld b id old db
    → Ended b id (change old) db result
    → IsBumped b id old db result.0 result.1
Ended-IsBumped b id change old db result raise held (mid, later, inl (e, refused)) =
    rw (refused) (still-IsBumped b id old db mid e later)
Ended-IsBumped b id change old db result raise held (mid, later, inr c) =
    commit-IsBumped b id change old db mid result.1 result.0 raise held later c

module _ (l : Letters) (now : ℕ) (id : Text) (change : User → User) (raise : IsRaise change)
    (attempt : Attempt) (kept : IsAttempt id attempt) where
  -- The change of a user that was found in `db`.
  pub change_found-IsBumped :
      (b : Bool) (old : User) (o : Fallible (Option User)) (db : Records)
      → IsHeld b id old db
      → ((user : User) → o ≡ ok (some user) → (old ≡ user) × (user.id ≡ id))
      → IsBumped b id old db
          (change_found l now change attempt (o, db)).0
          (change_found l now change attempt (o, db)).1
  unfolding change_found
  change_found-IsBumped b old (err e) db held read =
      still-IsBumped b id old db db e (IsLater-refl id db)
  change_found-IsBumped b old (ok none) db held read =
      still-IsBumped b id old db db not_found (IsLater-refl id db)
  change_found-IsBumped b old (ok (some user)) db held read =
      let (same, at_id) = read user refl in
      let (s, held', newer) = (kept.others db).moves b old held in
      let ends : Ended b id (change old) db
          (update_user l now attempt.turn (change old) (attempt.others db)) =
        Ended-later b id (change old) db (attempt.others db) _ (kept.others db) (
          update_user-Ended l now id attempt.turn kept.turn b s (change old) (attempt.others db)
            held' (raise.same_id old ∙ ap (λ (u : User). u.id) same ∙ at_id)) in
      rw (← same) (
        Ended-IsBumped b id change old db
          (update_user l now attempt.turn (change old) (attempt.others db)) raise held ends)

-- An operation on a later record raises the version above the first one too.
IsBumped-before :
    (b : Bool) (id : Text) (old new : User) (db db' : Records) (result : Fallible User)
    (last : Records)
    → IsLater id db db'
    → old.token_version ≤ new.token_version
    → IsBumped b id new db' result last
    → IsBumped b id old db result last
IsBumped-before b id old new db db' result last later below h = record {
  later = IsLater-trans id db db' last later h.later;
  bumped = λ v k.
      let (w, held, same, above) = h.bumped v k in (w, held, same, omega (arith, below, above));
}

pub bump_version-IsRaise : IsRaise bump_version
unfolding bump_version
bump_version-IsRaise = record { same_id = λ u. refl; same_revision = λ u. refl; raises = λ u. refl }

module _ (l : Letters) (now : ℕ) (id : Text) where
  increment_once-IsBumped :
      (attempt : Attempt) (b : Bool) (old : User) (db : Records)
      → IsAttempt id attempt
      → IsHeld b id old db
      → IsBumped b id old db
          (increment_once l now attempt id db).0
          (increment_once l now attempt id db).1
  unfolding increment_once
  increment_once-IsBumped attempt b old db kept held =
      change_found-IsBumped l now id bump_version bump_version-IsRaise attempt kept b old
        (find_by_id db id) db held (λ user h. find_by_id-held b id old db held h)

  pub increment_attempts-IsBumped :
      (attempts : ℕ → Attempt) (n : ℕ) (b : Bool) (old : User) (db : Records)
      → ((m : ℕ) → IsAttempt id (attempts m))
      → IsHeld b id old db
      → IsBumped b id old db
          (increment_attempts l now attempts n id db).0
          (increment_attempts l now attempts n id db).1
  unfolding increment_attempts
  increment_attempts-IsBumped attempts zero b old db kept held =
      still-IsBumped b id old db db repository_failure (IsLater-refl id db)
  increment_attempts-IsBumped attempts (suc n) b old db kept held =
      let once = increment_once-IsBumped (attempts n) b old db (kept n) held in
      let db' = (increment_once l now (attempts n) id db).1 in
      let (new, held', newer) = once.later.moves b old held in
      elim (Bool-cases (retries l now (increment_once l now (attempts n) id db).0)) [
        | inl e ↦ rw (e) (
            IsBumped-before b id old new db db' _ _ once.later (IsNewer-version old new newer)
              (increment_attempts-IsBumped attempts n b new db' kept held'))
        | inr e ↦ rw (e) once
      ]

  -- Where IncrementTokenVersionByID returns for a user who stands in one of the two hashes, it has
  -- stored a token version above that of the record that it started from; other clients may write
  -- meanwhile, where each of their writes keeps the user's record or raises its revision without
  -- lowering its token version.
  pub increment_token_version_by_id-IsBumped :
      (attempts : ℕ → Attempt) (b : Bool) (old : User) (db : Records)
      → ((m : ℕ) → IsAttempt id (attempts m))
      → IsHeld b id old db
      → IsBumped b id old db
          (increment_token_version_by_id l now attempts id db).0
          (increment_token_version_by_id l now attempts id db).1
  unfolding increment_token_version_by_id
  increment_token_version_by_id-IsBumped attempts b old db kept held =
      increment_attempts-IsBumped attempts directory_maximum_retries b old db kept held
