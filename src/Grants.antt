-- ===== src/Grants.antt =====
-- internal/nativeauth/store.go: single-use authorization requests and codes in Redis. Redis, SHA-256,
-- base64 and JSON are parameters. A clock reads nanoseconds; a command of Redis can fail before or
-- after it has run.
pub mod Store
pub mod Calls
pub mod Once
pub mod Tests
use tikti.Base.{
  ltb, leb, ◌==◌, if◌then◌else◌, ltb→lt, lt→ltb, leb→le, ==_iff, Bool-cases, Option-cases, bool_ext,
  &&_true, length, all, keep, length-append, length-keep-le, All, All-append, All-append_left,
  All-append_right, All-reverse, All-keep, All-map, All-of-all, all-of-All, Result, ok, err, ◌>>=◌,
  >>=-eq-ok, Text, codes, teq, tle, tlt, teq_sound, teq_refl, teq_iff, teq_comm, tle_refl,
  tle_total, tle_antisymm, tle_trans, has_prefix, is_empty, ℕ, zero, suc, ◌+◌, ◌-◌, ◌*◌, ◌/◌, ◌%◌,
  ◌^◌, ◌≤◌, ◌<◌, String, ◌≡◌, refl, sym, ap, ◌∙◌, ◌≡⟨◌⟩◌, ◌∎, ◌≢◌, ◌↔◌, ◌⊎◌, inl, inr, Bool, true,
  false, not, ◌&&◌, ◌||◌, Option, none, some, List, [], ◌∷◌, ◌++◌, map, reverse, arith,
  is_empty_congr, same_texts, same_texts_iff, contains, is_nodup, contains-append, contains-keep,
  All-contains, All-of_contains, subset, contains-subset, insert, sort, IsSorted, IsStrict,
  contains-insert, contains-sort, All-insert, All-sort, length-insert, length-sort, sort-IsSorted,
  sort-IsStrict, sort_of_IsSorted, IsStrict-IsSorted, IsStrict-is_nodup, sort_of_IsStrict,
  IsStrict-ext, is_nodup-concat, contains_congr, add, add_all, contains-add, add-is_nodup,
  contains-add_all, add_all-is_nodup, IsFresh, IsFresh-nil, IsFresh-head, IsFresh-tail,
  IsFresh-cons, trim_space, trim_space_solid, IsSolid,
}
use tikti.Scope.{contains_byte}
use tikti.Role.{first_byte}
use tikti.Native.{alphanumerics, fresh_scopes}

pub data StoreError : Type 0 where
  unavailable invalid_grant : StoreError

abbrev pub Stored : Type 0 → Type 0
Stored A = Result StoreError A

-- Go's int64
pub data ℤ : Type 0 where
  pos negsuc : ℕ → ℤ

-- a <= b for a number a of Go and a time b after 1970
unfoldable pub at_most : ℤ → ℕ → Bool
at_most (pos a) b = leb a b
at_most (negsuc a) b = true

unfoldable pub positive : ℤ → Bool
positive (pos a) = ltb 0 a
positive (negsuc a) = false

unfoldable pub is_negative : ℤ → Bool
is_negative (pos a) = false
is_negative (negsuc a) = true

unfoldable pub exceeds : ℤ → ℤ → Bool
exceeds (pos a) (pos b) = ltb b a
exceeds (pos a) (negsuc b) = true
exceeds (negsuc a) (pos b) = false
exceeds (negsuc a) (negsuc b) = ltb a b

unfoldable pub smaller : ℤ → ℤ → ℤ
unfolding exceeds
smaller a b = if exceeds a b then b else a

pub record Request : Type 0 where
  pub client_id : Text
  pub client_fingerprint : Text
  pub redirect_uri : Text
  pub state : Text
  pub challenge : Text
  pub expires_at : ℤ

pub record Grant : Type 0 where
  pub client_id : Text
  pub client_fingerprint : Text
  pub redirect_uri : Text
  pub challenge : Text
  pub subject : Text
  pub identity_tenant_id : Text
  pub identity_fingerprint : Text
  pub token_version : ℤ
  pub approved_scopes : List Text
  pub session_expires_at : ℤ
  pub expires_at : ℤ

pub record RequestSnapshot : Type 0 where
  pub value : Request
  pub raw : Text

pub record GrantSnapshot : Type 0 where
  pub value : Grant
  pub raw : Text

-- Nanoseconds of the two lifetimes and of a second.
abbrev pub second : ℕ
second = 1000000000

abbrev pub request_ttl : ℕ
request_ttl = 300 * second

abbrev pub code_ttl : ℕ
code_ttl = 60 * second

abbrev pub maximum_record : ℕ
maximum_record = 131072

-- time.Time.Unix
unfoldable pub unix : ℕ → ℕ
unix now = now / second

unfoldable pub principal_id : Text → Bool
unfolding contains_byte first_byte
principal_id value =
    leb 1 (length value)
    && leb (length value) 128
    && contains_byte alphanumerics (first_byte value)
    && all (contains_byte (codes "._:-" ++ alphanumerics)) value

-- Decoding and encoding again gives the value exactly where its digits are in lower case.
unfoldable pub fingerprint : Text → Bool
unfolding contains_byte
fingerprint value = (length value == 64) && all (contains_byte (codes "0123456789abcdef")) value

-- unreserved, of pkce.go
unfoldable pub valid_state : Text → Bool
unfolding contains_byte
valid_state value =
    leb 43 (length value)
    && leb (length value) 128
    && all (contains_byte (codes "._~-" ++ alphanumerics)) value

-- What the store uses of other code. `decodes` says that base64 in strict form yields 32 bytes.
pub record Codec : Type 0 where
  pub sha256_hex : Text → Text
  pub decodes : Text → Bool
  pub encode_request : Request → Option Text
  pub decode_request : Text → Option Request
  pub encode_grant : Grant → Option Text
  pub decode_grant : Text → Option Grant

-- The commands of Redis that the store sends, and their documented effect on the value of a key.
pub record Redis : Type 1 where
  pub Database : Type 0
  pub get : Text → Database → Option Text
  pub set_nx : Text → Text → ℕ → Database → Bool × Database
  pub del : Text → Database → Database
  pub get-del : (key : Text) (db : Database) → get key (del key db) ≡ none
  pub get-del_other :
      (key other : Text) (db : Database)
      → teq key other ≡ false
      → get other (del key db) ≡ get other db
  pub get-set_nx :
      (key value : Text) (ttl : ℕ) (db : Database)
      → (set_nx key value ttl db).0 ≡ true
      → get key (set_nx key value ttl db).1 ≡ some value
  pub get-set_nx_other :
      (key other value : Text) (ttl : ℕ) (db : Database)
      → teq key other ≡ false
      → get other (set_nx key value ttl db).1 ≡ get other db

-- Whether the connection fails before the server runs a command, or before its reply arrives.
pub data Fault : Type 0 where
  delivered lost_call lost_reply : Fault

-- An attempt of put: the identifier drawn, `none` where the random source fails, and the fault.
pub record Draw : Type 0 where
  pub id : Option Text
  pub fault : Fault

unfoldable pub size_of : Option Text → ℕ
size_of none = 0
size_of (some raw) = length raw

unfoldable pub is_value : Option Text → Text → Bool
is_value none raw = false
is_value (some stored) raw = teq stored raw

abbrev pub request_kind : Text
request_kind = codes "request"

abbrev pub code_kind : Text
code_kind = codes "code"

module _ (c : Codec) where
  unfoldable pub valid_s256_challenge : Text → Bool
  valid_s256_challenge value = (length value == 43) && c.decodes value

  unfoldable pub opaque : Text → Bool
  unfolding valid_s256_challenge
  opaque value = valid_s256_challenge value

  unfoldable pub state_key : Text → Text → Text
  state_key kind value = codes "identity:v2:native:" ++ (kind ++ (codes ":" ++ c.sha256_hex value))

  unfoldable pub valid_request : Request → Bool
  unfolding principal_id fingerprint valid_state valid_s256_challenge positive
  valid_request r =
      principal_id r.client_id
      && fingerprint r.client_fingerprint
      && ltb 0 (length r.redirect_uri)
      && leb (length r.redirect_uri) 1024
      && valid_state r.state
      && valid_s256_challenge r.challenge
      && positive r.expires_at

  unfoldable pub valid_grant : Grant → Bool
  unfolding principal_id fingerprint valid_s256_challenge is_negative positive exceeds
  valid_grant g =
      if not (principal_id g.client_id)
        || not (fingerprint g.client_fingerprint)
        || ltb (length g.redirect_uri) 1
        || ltb 1024 (length g.redirect_uri)
        || not (valid_s256_challenge g.challenge)
        || not (principal_id g.subject)
        || not (principal_id g.identity_tenant_id)
        || not (fingerprint g.identity_fingerprint)
        || is_negative g.token_version
        || not (positive g.expires_at)
        || exceeds g.expires_at g.session_expires_at
        || ltb (length g.approved_scopes) 1
        || ltb 500 (length g.approved_scopes)
      then false
      else fresh_scopes [] g.approved_scopes
