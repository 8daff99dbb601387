-- ===== src/UserStore/Revocation.antt =====
-- Sessions of user_service.go over the user records of user_repository.go: revoking by subject is final.
use tikti.Base.{ok, Text, ℕ, ◌≤◌, ◌≡◌, sym, ap, ◌∙◌, ◌≢◌, Bool, some, arith}
use tikti.Domain.{User}
use tikti.Identity.{Letters}
use tikti.Session.{Claims, claim_string_value, sub, token_version}
use tikti.Session.Current.{UserService, validate_current_id_token}
use tikti.Session.Current.Sound.{validate_current_id_token-IsCurrent}
use tikti.UserStore.{Records, find_by_id}
use tikti.UserStore.Tokens.{Attempt, increment_token_version_by_id}
use tikti.UserStore.Later.{IsHeld, IsNewer-version, IsLater, IsAttempt}
use tikti.UserStore.Later.Commit.Find.{find_by_id-held}
use tikti.UserStore.Later.Commit.Change.{increment_token_version_by_id-IsBumped}

-- A session validates only with the token version of the held record.
session_version :
    (s : UserService) (now : ℕ) (token issuer audience : Text) {claims : Claims} {user : User}
    (b : Bool) (stored : User) (db : Records)
    → s.users.find_by_id ≡ some (find_by_id db)
    → IsHeld b (claim_string_value claims sub) stored db
    → validate_current_id_token s now token issuer audience ≡ ok (claims, user)
    → token_version claims ≡ some stored.token_version
session_version s now token issuer audience {claims} {user} b stored db reads held h =
    let current = (validate_current_id_token-IsCurrent s now token issuer audience h).0 in
    let (same, at_id) =
      find_by_id-held b (claim_string_value claims sub) stored db held
        (rw reads at current.bound).0 in
    current.version ∙ ap (λ (u : User). some u.token_version) (sym same)

-- Once IncrementTokenVersionByID has returned for a stored user, no session of that subject that was
-- signed before, with a version up to that of the record then, validates in any later state of the
-- records; other clients may write before, during and after, where each of their writes keeps a user's
-- record or raises its revision without lowering its token version.
pub revoked_session_never_validates :
    (s : UserService) (l : Letters) (revoked_at now : ℕ) (attempts : ℕ → Attempt)
    (token issuer audience id : Text) {claims : Claims} {user v : User} (b : Bool) (old : User)
    (before later : Records) {version : ℕ}
    → IsHeld b id old before
    → ((m : ℕ) → IsAttempt id (attempts m))
    → (increment_token_version_by_id l revoked_at attempts id before).0 ≡ ok v
    → IsLater id (increment_token_version_by_id l revoked_at attempts id before).1 later
    → s.users.find_by_id ≡ some (find_by_id later)
    → claim_string_value claims sub ≡ id
    → token_version claims ≡ some version
    → version ≤ old.token_version
    → validate_current_id_token s now token issuer audience ≢ ok (claims, user)
revoked_session_never_validates s l revoked_at now attempts token issuer audience id {claims} b old
      before later held kept returns moves reads subject signed stale h =
    let bumped =
      increment_token_version_by_id-IsBumped l revoked_at id attempts b old before kept held in
    let (w, stored, same, above) = bumped.bumped _ returns in
    let (last, at_last, newer) = moves.moves b w stored in
    let current =
      session_version s now token issuer audience b last later reads (rw (subject) at_last) h in
    ground (arith, current, signed, stale, above, IsNewer-version w last newer)
