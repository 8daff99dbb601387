-- ===== src/UserStore/Later/Commit.antt =====
-- How an update of a user's record ends: the record is left to the other clients, or the update commits
-- over the revision that it was given.
mod Transact
mod Directory
mod Federated
pub mod Find
pub mod Change
use tikti.Base.{
  ltb, leb, ◌==◌, if◌then◌else◌, ltb→lt, lt→ltb, leb→le, ==_iff, Bool-cases, Option-cases, bool_ext,
  &&_true, length, all, keep, length-append, length-keep-le, All, All-append, All-append_left,
  All-append_right, All-reverse, All-keep, All-map, All-of-all, all-of-All, Result, ok, err, ◌>>=◌,
  >>=-eq-ok, Text, codes, teq, tle, tlt, teq_sound, teq_refl, teq_iff, teq_comm, tle_refl,
  tle_total, tle_antisymm, tle_trans, has_prefix, is_empty, ℕ, zero, suc, ◌+◌, ◌-◌, ◌*◌, ◌/◌, ◌%◌,
  ◌^◌, ◌≤◌, ◌<◌, String, ◌≡◌, refl, sym, ap, ◌∙◌, ◌≡⟨◌⟩◌, ◌∎, ◌≢◌, ◌↔◌, ◌⊎◌, inl, inr, Bool, true,
  false, not, ◌&&◌, ◌||◌, Option, none, some, List, [], ◌∷◌, ◌++◌, map, reverse, arith,
  is_empty_congr, same_texts, same_texts_iff, contains, is_nodup, contains-append, contains-keep,
  All-contains, All-of_contains, subset, contains-subset, insert, sort, IsSorted, IsStrict,
  contains-insert, contains-sort, All-insert, All-sort, length-insert, length-sort, sort-IsSorted,
  sort-IsStrict, sort_of_IsSorted, IsStrict-IsSorted, IsStrict-is_nodup, sort_of_IsStrict,
  IsStrict-ext, is_nodup-concat, contains_congr, add, add_all, contains-add, add-is_nodup,
  contains-add_all, add_all-is_nodup, IsFresh, IsFresh-nil, IsFresh-head, IsFresh-tail,
  IsFresh-cons, trim_space, trim_space_solid, IsSolid, lookup, store_at, drop_key, lookup-store_at,
  lookup-store_at_other, lookup-drop_key, lookup-drop_key_other,
}
use tikti.Domain.{Error, Fallible, User, repository_failure, version_conflict, invalid_argument}
use tikti.Identity.{Letters, canonical_directory_storage_user, with_defaults}
use tikti.UserStore.{
  document, Hash, Records, found, failed, get, answer, write_user, directory_maximum_retries,
}
use tikti.UserStore.Update.{
  Round, Outcome, again, finished, identified, observed, settle, update_once, update_canonical,
  owner_refuses, drop_email, next_revision, commit_directory, checked_owner, transact_current,
  transact_directory, update_attempts, update_directory_user,
}
use tikti.UserStore.Later.{IsHeld, IsLater, IsLater-refl, IsLater-trans, IsRound}

-- What a committed update of `user` did to the state `db`.
pub record IsCommit (b : Bool) (id : Text) (user : User) (db : Records) (result : Fallible User)
    (db' : Records) : Type 0 where
  pub current : User
  pub held : IsHeld b id current db
  pub checked : current.revision ≡ user.revision
  pub written : User
  pub stored : IsHeld b id written db'
  pub revision : written.revision ≡ user.revision + 1
  pub version : written.token_version ≡ user.token_version
  pub returned : User
  pub returns : result ≡ ok returned
  pub returned_version : returned.token_version ≡ user.token_version

-- How an update ends, from a state that the other clients left.
abbrev pub Ended : Bool → Text → User → Records → Fallible User × Records → Type 0
Ended b id user db result =
    (mid : Records) × IsLater id db mid
    × (((e : Error) × (result ≡ (err e, mid))) ⊎ IsCommit b id user mid result.0 result.1)

pub Ended-later :
    (b : Bool) (id : Text) (user : User) (db db' : Records) (result : Fallible User × Records)
    → IsLater id db db'
    → Ended b id user db' result
    → Ended b id user db result
Ended-later b id user db db' result h (mid, later, ends) =
    (mid, IsLater-trans id db db' mid h later, ends)

-- What matters of the user that is written: its revision and its token version.
pub Ended-congr :
    (b : Bool) (id : Text) (user other : User) (db : Records) (result : Fallible User × Records)
    → user.revision ≡ other.revision
    → user.token_version ≡ other.token_version
    → Ended b id user db result
    → Ended b id other db result
Ended-congr b id user other db result revision version (mid, later, inl refused) =
    (mid, later, inl refused)
Ended-congr b id user other db result revision version (mid, later, inr c) = (
  mid,
  later,
  inr (record {
    current = c.current;
    held = c.held;
    checked = c.checked ∙ revision;
    written = c.written;
    stored = c.stored;
    revision = omega (arith, c.revision, revision);
    version = c.version ∙ version;
    returned = c.returned;
    returns = c.returns;
    returned_version = c.returned_version ∙ version;
  }),
)

pub available_get :
    (available : Bool) (id : Text) (h : Hash) (u : User)
    → lookup id h ≡ some (document u)
    → (get available id h ≡ found (document u)) ⊎ (get available id h ≡ failed)
unfolding get answer
available_get true id h u e = inl (rw (e) refl)
available_get false id h u e = inr refl
