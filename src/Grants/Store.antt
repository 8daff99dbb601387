-- ===== src/Grants/Store.antt =====
-- The operations of the store of internal/nativeauth/store.go.
use tikti.Base.{
  ltb, ◌==◌, if◌then◌else◌, length, ok, err, ◌>>=◌, Text, ℕ, ◌+◌, ◌-◌, ◌*◌, Bool, true, false, not,
  ◌||◌, Option, none, some, List, [], ◌∷◌,
}
use tikti.Grants.{
  negsuc, unavailable, invalid_grant, Stored, ℤ, pos, at_most, smaller, Request, Grant,
  RequestSnapshot, GrantSnapshot, second, request_ttl, code_ttl, maximum_record, unix, Codec, Redis,
  Fault, delivered, lost_call, lost_reply, Draw, size_of, is_value, request_kind, code_kind, opaque,
  state_key, valid_request, valid_grant,
}

-- `connected` says that the store and its client are not nil.
module _ (c : Codec) (r : Redis) (connected : Bool) where
  -- The script readRecord and the tests of its reply.
  unfoldable pub check_raw : Option Text → Stored Text
  unfolding size_of
  check_raw none = err invalid_grant
  check_raw (some raw) =
      if ltb maximum_record (length raw) || ltb (length raw) 1 then err unavailable else ok raw

  unfoldable pub reply : Fault → Option Text → Stored Text
  unfolding check_raw
  reply delivered stored = check_raw stored
  reply _ stored = err unavailable

  unfoldable pub read : Text → Text → Fault → r.Database → Stored Text
  unfolding reply state_key opaque
  read kind id fault db =
      if not (opaque c id)
      then err invalid_grant
      else if not connected
      then err unavailable
      else reply fault (r.get (state_key c kind id) db)

  unfoldable pub checked_code : Option Grant → Text → ℕ → ℕ → Stored GrantSnapshot
  unfolding at_most unix valid_grant
  checked_code none raw now later = err unavailable
  checked_code (some value) raw now later =
      if not (valid_grant c value)
      then err unavailable
      else if at_most value.expires_at (unix now) || at_most value.session_expires_at (unix later)
      then err invalid_grant
      else ok (record { value = value; raw = raw })

  -- Code; the clock is read twice.
  unfoldable pub code : Text → ℕ → ℕ → Fault → r.Database → Stored GrantSnapshot
  unfolding read checked_code
  code id now later fault db =
      read code_kind id fault db >>= λ raw. checked_code (c.decode_grant raw) raw now later

  unfoldable pub checked_request : Option Request → Text → ℕ → Stored RequestSnapshot
  unfolding at_most unix valid_request
  checked_request none raw now = err unavailable
  checked_request (some value) raw now =
      if not (valid_request c value)
      then err unavailable
      else if at_most value.expires_at (unix now)
      then err invalid_grant
      else ok (record { value = value; raw = raw })

  -- Request
  unfoldable pub request : Text → ℕ → Fault → r.Database → Stored RequestSnapshot
  unfolding read checked_request
  request id now fault db =
      read request_kind id fault db >>= λ raw. checked_request (c.decode_request raw) raw now

  -- The script consumeRecord: its reply, and the database that it leaves.
  unfoldable pub consume_record : Text → Text → r.Database → Bool × r.Database
  unfolding size_of is_value
  consume_record key raw db =
      if not (size_of (r.get key db) == length raw)
      then (false, db)
      else if not (is_value (r.get key db) raw)
      then (false, db)
      else (true, r.del key db)

  unfoldable pub answer : Fault → r.Database → Bool × r.Database → Stored Bool × r.Database
  answer delivered before (consumed, after) = (ok consumed, after)
  answer lost_call before (consumed, after) = (err unavailable, before)
  answer lost_reply before (consumed, after) = (err unavailable, after)

  unfoldable pub consume : Text → Text → Text → Fault → r.Database → Stored Bool × r.Database
  unfolding answer consume_record state_key opaque
  consume kind id raw fault db =
      if not (opaque c id) || ltb (length raw) 1 || ltb maximum_record (length raw)
      then (err invalid_grant, db)
      else if not connected
      then (err unavailable, db)
      else answer fault db (consume_record (state_key c kind id) raw db)

  -- ConsumeRequest
  unfoldable pub consume_request :
      Text → RequestSnapshot → ℕ → Fault → r.Database → Stored Bool × r.Database
  unfolding consume at_most unix is_value
  consume_request id snapshot now fault db =
      if not connected
      then (err unavailable, db)
      else if not (is_value (c.encode_request snapshot.value) snapshot.raw)
          || at_most snapshot.value.expires_at (unix now)
      then (err invalid_grant, db)
      else consume request_kind id snapshot.raw fault db

  -- ConsumeCode
  unfoldable pub consume_code :
      Text → GrantSnapshot → ℕ → Fault → r.Database → Stored Bool × r.Database
  unfolding consume at_most unix is_value
  consume_code id snapshot now fault db =
      if not connected
      then (err unavailable, db)
      else if not (is_value (c.encode_grant snapshot.value) snapshot.raw)
          || at_most snapshot.value.expires_at (unix now)
      then (err invalid_grant, db)
      else consume code_kind id snapshot.raw fault db

  -- A reply to SETNX: `none` lets the loop of put go on.
  unfoldable pub claimed :
      Fault → Text → r.Database → Bool × r.Database → Option (Stored Text) × r.Database
  claimed delivered id before (created, after) = (if created then some (ok id) else none, after)
  claimed lost_call id before (created, after) = (some (err unavailable), before)
  claimed lost_reply id before (created, after) = (some (err unavailable), after)

  unfoldable pub attempt :
      Text → Text → ℕ → Option Text → Fault → r.Database → Option (Stored Text) × r.Database
  unfolding claimed state_key
  attempt kind encoded remaining none fault db = (some (err unavailable), db)
  attempt kind encoded remaining (some id) fault db =
      claimed fault id db (r.set_nx (state_key c kind id) encoded remaining db)

  unfoldable pub or_retry :
      Option (Stored Text) × r.Database
      → (r.Database → Stored Text × r.Database)
      → Stored Text × r.Database
  or_retry (none, db) retry = retry db
  or_retry (some done, db) retry = (done, db)

  -- The loop of put over the draws of its attempts.
  unfoldable pub attempts : Text → Text → ℕ → List Draw → r.Database → Stored Text × r.Database
  unfolding or_retry attempt
  attempts kind encoded remaining [] db = (err unavailable, db)
  attempts kind encoded remaining (draw ∷ draws) db =
      or_retry (attempt kind encoded remaining draw.id draw.fault db)
        (attempts kind encoded remaining draws)

  -- The nanoseconds from a time to an expiry.
  unfoldable pub remaining : ℤ → ℕ → ℕ
  remaining (pos expiry) now = expiry * second - now
  remaining (negsuc expiry) now = 0

  -- put with three attempts.
  unfoldable pub put :
      Text → Option Text → ℤ → ℕ → Draw → Draw → Draw → r.Database → Stored Text × r.Database
  unfolding attempts remaining
  put kind none expiry now d1 d2 d3 db = (err unavailable, db)
  put kind (some encoded) expiry now d1 d2 d3 db =
      if not connected || ltb maximum_record (length encoded)
      then (err unavailable, db)
      else if remaining expiry now == 0
      then (err invalid_grant, db)
      else attempts kind encoded (remaining expiry now) (d1 ∷ d2 ∷ d3 ∷ []) db

  unfoldable pub put_request :
      Request → ℕ → Draw → Draw → Draw → r.Database → Stored Text × r.Database
  unfolding put valid_request
  put_request value now d1 d2 d3 db =
      if not (valid_request c value)
      then (err invalid_grant, db)
      else put request_kind (c.encode_request value) value.expires_at now d1 d2 d3 db

  -- CreateRequest; the clock is read twice.
  unfoldable pub create_request :
      Request → ℕ → ℕ → Draw → Draw → Draw → r.Database → Stored Text × r.Database
  unfolding put_request unix
  create_request value now later d1 d2 d3 db =
      if not connected
      then (err unavailable, db)
      else put_request (record value { expires_at = pos (unix (now + request_ttl)) }) later d1 d2 d3
          db

  unfoldable pub put_grant :
      Grant → ℕ → ℕ → Draw → Draw → Draw → r.Database → Stored Text × r.Database
  unfolding put valid_grant at_most unix
  put_grant value now later d1 d2 d3 db =
      if not (valid_grant c value) || at_most value.expires_at (unix now)
      then (err invalid_grant, db)
      else put code_kind (c.encode_grant value) value.expires_at later d1 d2 d3 db

  -- CreateCode; the clock is read three times.
  unfoldable pub create_code :
      Grant → ℕ → ℕ → ℕ → Draw → Draw → Draw → r.Database → Stored Text × r.Database
  unfolding put_grant unix smaller
  create_code value now later last d1 d2 d3 db =
      if not connected
      then (err unavailable, db)
      else put_grant
          (record value {
            expires_at = smaller (pos (unix (now + code_ttl))) value.session_expires_at;
          })
          later last d1 d2 d3 db
