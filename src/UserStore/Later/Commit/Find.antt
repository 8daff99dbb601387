-- ===== src/UserStore/Later/Commit/Find.antt =====
-- FindByID over a state that holds the user's record.
use tikti.Base.{
  Option, Bool-cases, ok, err, Text, teq, teq_sound, ◌≡◌, refl, sym, ap, ◌∙◌, ◌≢◌, ◌⊎◌, inl, inr,
  Bool, true, false, none, some, arith,
}
use tikti.Domain.{Fallible, User, directory_invariant}
use tikti.UserStore.{
  Stored, document, Records, Reply, found, missing, failed, get, find_in, first_found, find_by_id,
}
use tikti.UserStore.Later.{IsHeld}
use tikti.UserStore.Later.Commit.{available_get}
use tikti.UserStore.Later.Commit.Federated.{get-none}

-- One hash finds the document that it holds, where Redis answers.
find_in-document :
    (id : Text) (stored : User) (reply : Reply Stored) {user : User}
    → (reply ≡ found (document stored)) ⊎ (reply ≡ failed)
    → find_in id reply ≡ some (ok (some user))
    → (stored ≡ user) × (user.id ≡ id)
unfolding find_in
find_in-document id stored reply {user} (inr e) h =
    let nothing : none ≡ some (ok (some user)) = sym (ap (find_in id) e) ∙ h in cc
find_in-document id stored reply {user} (inl e) h =
    let at_id : find_in id (found (document stored)) ≡ some (ok (some user)) =
      sym (ap (find_in id) e) ∙ h in
    elim (Bool-cases (teq stored.id id)) [
      | inl same ↦
          let here : stored ≡ user = ground (arith, at_id, same) in
          (here, rw (← here) (teq_sound stored.id id same))
      | inr other ↦
          let wrong : some (err directory_invariant) ≡ some (ok (some user)) =
            ground (arith, at_id, other) in
          cc
    ]

first_found-eq :
    (p q : Option (Fallible (Option User))) {user : User}
    → first_found p q ≡ ok (some user)
    → (p ≡ some (ok (some user))) ⊎ ((p ≡ none) × (q ≡ some (ok (some user))))
unfolding first_found
first_found-eq (some result) q h = inl (ap some h)
first_found-eq none (some result) h = inr (refl, ap some h)
first_found-eq none none h = cc

find_in-nothing :
    (id : Text) (reply : Reply Stored) {result : Fallible (Option User)}
    → (reply ≡ missing) ⊎ (reply ≡ failed)
    → find_in id reply ≢ some result
unfolding find_in
find_in-nothing id reply {result} (inl e) h =
    let nothing : none ≡ some result = sym (ap (find_in id) e) ∙ h in cc
find_in-nothing id reply {result} (inr e) h =
    let nothing : none ≡ some result = sym (ap (find_in id) e) ∙ h in cc

held-found :
    (b : Bool) (id : Text) (stored : User) (db : Records) {user : User}
    → IsHeld b id stored db
    → (find_in id (get db.available id db.users) ≡ some (ok (some user)))
      ⊎ ((find_in id (get db.available id db.users) ≡ none)
          × (find_in id (get db.available id db.federated) ≡ some (ok (some user))))
    → (stored ≡ user) × (user.id ≡ id)
held-found true id stored db held (inl p) =
    find_in-document id stored (get db.available id db.users)
      (available_get db.available id db.users stored held.0) p
held-found true id stored db held (inr (p, q)) = absurd (
    find_in-nothing id (get db.available id db.federated)
      (get-none db.available id db.federated held.1) q)
held-found false id stored db held (inl p) =
    absurd (
      find_in-nothing id (get db.available id db.users) (get-none db.available id db.users held.0)
        p)
held-found false id stored db held (inr (p, q)) =
    find_in-document id stored (get db.available id db.federated)
      (available_get db.available id db.federated stored held.1) q

-- FindByID finds the held record only.
pub find_by_id-held :
    (b : Bool) (id : Text) (stored : User) (db : Records) {user : User}
    → IsHeld b id stored db
    → find_by_id db id ≡ ok (some user)
    → (stored ≡ user) × (user.id ≡ id)
unfolding find_by_id
find_by_id-held b id stored db held h = held-found b id stored db held (
    first_found-eq (find_in id (get db.available id db.users))
      (find_in id (get db.available id db.federated)) (ground (arith, h)))
