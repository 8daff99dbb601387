-- ===== src/UserStore/Later.antt =====
-- How the record of one user moves on: what every write to it keeps, and what a write under the check of
-- the revision establishes where the other clients keep it too.
pub mod Commit
pub mod Status
pub mod Quiet
use tikti.Base.{
  ltb, leb, ◌==◌, if◌then◌else◌, ltb→lt, lt→ltb, leb→le, ==_iff, Bool-cases, Option-cases, bool_ext,
  &&_true, length, all, keep, length-append, length-keep-le, All, All-append, All-append_left,
  All-append_right, All-reverse, All-keep, All-map, All-of-all, all-of-All, Result, ok, err, ◌>>=◌,
  >>=-eq-ok, Text, codes, teq, tle, tlt, teq_sound, teq_refl, teq_iff, teq_comm, tle_refl,
  tle_total, tle_antisymm, tle_trans, has_prefix, is_empty, ℕ, zero, suc, ◌+◌, ◌-◌, ◌*◌, ◌/◌, ◌%◌,
  ◌^◌, ◌≤◌, ◌<◌, String, ◌≡◌, refl, sym, ap, ◌∙◌, ◌≡⟨◌⟩◌, ◌∎, ◌≢◌, ◌↔◌, ◌⊎◌, inl, inr, Bool, true,
  false, not, ◌&&◌, ◌||◌, Option, none, some, List, [], ◌∷◌, ◌++◌, map, reverse, arith,
  is_empty_congr, same_texts, same_texts_iff, contains, is_nodup, contains-append, contains-keep,
  All-contains, All-of_contains, subset, contains-subset, insert, sort, IsSorted, IsStrict,
  contains-insert, contains-sort, All-insert, All-sort, length-insert, length-sort, sort-IsSorted,
  sort-IsStrict, sort_of_IsSorted, IsStrict-IsSorted, IsStrict-is_nodup, sort_of_IsStrict,
  IsStrict-ext, is_nodup-concat, contains_congr, add, add_all, contains-add, add-is_nodup,
  contains-add_all, add_all-is_nodup, IsFresh, IsFresh-nil, IsFresh-head, IsFresh-tail,
  IsFresh-cons, trim_space, trim_space_solid, IsSolid, lookup, store_at, drop_key, lookup-store_at,
  lookup-store_at_other, lookup-drop_key, lookup-drop_key_other,
}
use tikti.Domain.{User}
use tikti.UserStore.{Stored, document, Hash, Records}
use tikti.UserStore.Update.{Round, Turn}
use tikti.UserStore.Tokens.{Attempt}

-- The user's record stands in one of the two hashes, and the other one has none: the directory's for
-- `true`, the federated principals' for `false`.
abbrev pub IsHeld : Bool → Text → User → Records → Type 0
IsHeld true id u db = (lookup id db.users ≡ some (document u)) × (lookup id db.federated ≡ none)
IsHeld false id u db = (lookup id db.users ≡ none) × (lookup id db.federated ≡ some (document u))

-- A record is the same, or a later revision whose token version is not lower.
abbrev pub IsNewer : User → User → Type 0
IsNewer u v = ((u.revision < v.revision) × (u.token_version ≤ v.token_version)) ⊎ (u ≡ v)

pub IsNewer-refl : (u : User) → IsNewer u u
IsNewer-refl u = inr refl

pub IsNewer-trans : (u v w : User) → IsNewer u v → IsNewer v w → IsNewer u w
IsNewer-trans u v w (inl h) (inl k) = inl (omega (arith, h.0, k.0), omega (arith, h.1, k.1))
IsNewer-trans u v w (inl h) (inr e) = let step : IsNewer u v = inl h in rw (← e) step
IsNewer-trans u v w (inr e) k = rw (e) k

pub IsNewer-version : (u v : User) → IsNewer u v → u.token_version ≤ v.token_version
IsNewer-version u v (inl h) = h.1
IsNewer-version u v (inr e) = omega (arith, ap (λ (x : User). x.token_version) e)

-- Of two records with one revision the newer is the same.
pub IsNewer-same : (u v : User) → IsNewer u v → u.revision ≡ v.revision → u ≡ v
IsNewer-same u v (inl h) e = absurd (omega (arith, h.0, e))
IsNewer-same u v (inr same) e = same

-- From one state of Redis to another, the record of the user is kept or moves on.
pub record IsLater (id : Text) (db db' : Records) : Type 0 where
  pub moves :
      (b : Bool) (u : User) → IsHeld b id u db → (v : User) × IsHeld b id v db' × IsNewer u v

pub IsLater-refl : (id : Text) (db : Records) → IsLater id db db
IsLater-refl id db = record { moves = λ b u h. (u, h, IsNewer-refl u) }

pub IsLater-trans :
    (id : Text) (db db' db'' : Records)
    → IsLater id db db'
    → IsLater id db' db''
    → IsLater id db db''
IsLater-trans id db db' db'' h k = record {
  moves = λ b u held.
      let (v, held', newer) = h.moves b u held in
      let (w, held'', newer') = k.moves b v held' in (w, held'', IsNewer-trans u v w newer newer');
}

document_inj : {u v : User} → some (document u) ≡ some (document v) → u ≡ v
document_inj h = cc

-- The two places exclude each other, and a place holds one record.
pub IsHeld-unique :
    (b : Bool) (id : Text) (u v : User) (db : Records) → IsHeld b id u db → IsHeld b id v db → u ≡ v
IsHeld-unique true id u v db h k = document_inj (ground (arith, sym h.0 ∙ k.0))
IsHeld-unique false id u v db h k = document_inj (ground (arith, sym h.1 ∙ k.1))

move-write :
    (b c : Bool) (id : Text) (u v w : User) (db db' : Records)
    → IsHeld b id u db
    → IsHeld b id v db'
    → IsNewer u v
    → IsHeld c id w db
    → (x : User) × IsHeld c id x db' × IsNewer w x
move-write true true id u v w db db' held held' newer other =
    (v, held', rw (IsHeld-unique true id w u db other held) newer)
move-write false false id u v w db db' held held' newer other =
    (v, held', rw (IsHeld-unique false id w u db other held) newer)
move-write true false id u v w db db' held held' newer other = cc
move-write false true id u v w db db' held held' newer other = cc

-- A write of a newer record in its place.
pub IsLater-write :
    (b : Bool) (id : Text) (u v : User) (db db' : Records)
    → IsHeld b id u db
    → IsHeld b id v db'
    → IsNewer u v
    → IsLater id db db'
IsLater-write b id u v db db' held held' newer = record {
  moves = λ c w h. move-write b c id u v w db db' held held' newer h;
}

-- The other clients' writes around an update move the record on.
pub record IsRound (id : Text) (round : Round) : Type 0 where
  pub between : (db : Records) → IsLater id db (round.between db)
  pub afterwards : (db : Records) → IsLater id db (round.afterwards db)

pub record IsTurn (id : Text) (turn : Turn) : Type 0 where
  pub meanwhile : (db : Records) → IsLater id db (turn.meanwhile db)
  pub rounds : (n : ℕ) → IsRound id (turn.rounds n)

pub record IsAttempt (id : Text) (attempt : Attempt) : Type 0 where
  pub others : (db : Records) → IsLater id db (attempt.others db)
  pub turn : IsTurn id attempt.turn
