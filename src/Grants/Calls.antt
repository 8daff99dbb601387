-- ===== src/Grants/Calls.antt =====
-- The calls that change the store of internal/nativeauth/store.go as one type, and that a key which is
-- absent stays absent until a call draws it.
use tikti.Base.{
  Option, List, ◌==◌, if◌then◌else◌, Bool-cases, length, All, ok, err, Text, teq, teq_sound, ℕ, suc,
  ◌+◌, ◌≡◌, ◌∙◌, inl, inr, Bool, true, false, not, ◌&&◌, none, some, [], ◌∷◌, arith,
}
use tikti.Grants.{
  unix, ℤ, pos, request_ttl, code_ttl, smaller, Stored, Request, Grant, RequestSnapshot,
  GrantSnapshot, Codec, Redis, Fault, delivered, lost_call, lost_reply, Draw, size_of, is_value,
  request_kind, code_kind, state_key,
}
use tikti.Grants.Store.{
  put_grant, attempt, put_request, put, or_retry, claimed, attempts, remaining, consume_record,
  answer, consume, consume_request, consume_code, create_request, create_code,
}

-- What can happen to the database: the calls of the store that change it, with the clock readings,
-- draws and faults they meet, and the expiry of a key.
pub data Call : Type 0 where
  creates_request : Request → ℕ → ℕ → Draw → Draw → Draw → Call
  creates_code : Grant → ℕ → ℕ → ℕ → Draw → Draw → Draw → Call
  consumes_request : Text → RequestSnapshot → ℕ → Fault → Call
  consumes_code : Text → GrantSnapshot → ℕ → Fault → Call
  expires : Text → Call

abbrev pub succeeds : Stored Bool → Bool
succeeds (ok consumed) = consumed
succeeds (err e) = false

module _ (c : Codec) (r : Redis) (connected : Bool) where
  abbrev pub after : Call → r.Database → r.Database
  after (creates_request value now later d1 d2 d3) db =
      (create_request c r connected value now later d1 d2 d3 db).1
  after (creates_code value now later last d1 d2 d3) db =
      (create_code c r connected value now later last d1 d2 d3 db).1
  after (consumes_request id snapshot now fault) db =
      (consume_request c r connected id snapshot now fault db).1
  after (consumes_code id snapshot now fault) db =
      (consume_code c r connected id snapshot now fault db).1
  after (expires key) db = r.del key db

  -- The call is a ConsumeCode of that code and reports success.
  abbrev pub redeems : Text → Call → r.Database → Bool
  redeems code (consumes_code id snapshot now fault) db =
      teq id code && succeeds (consume_code c r connected id snapshot now fault db).0
  redeems code _ db = false

  abbrev pub redemptions : Text → List Call → r.Database → ℕ
  redemptions code [] db = 0
  redemptions code (call ∷ calls) db =
      if redeems code call db
      then suc (redemptions code calls (after call db))
      else redemptions code calls (after call db)

  abbrev pub draw_avoids : Text → Text → Option Text → Bool
  draw_avoids key kind none = true
  draw_avoids key kind (some id) = not (teq (state_key c kind id) key)

  -- No identifier that the call draws has the key.
  abbrev pub avoids : Text → Call → Bool
  avoids key (creates_request value now later d1 d2 d3) =
      draw_avoids key request_kind d1.id
      && draw_avoids key request_kind d2.id
      && draw_avoids key request_kind d3.id
  avoids key (creates_code value now later last d1 d2 d3) =
      draw_avoids key code_kind d1.id
      && draw_avoids key code_kind d2.id
      && draw_avoids key code_kind d3.id
  avoids key _ = true

  del-absent :
      (key other : Text) (db : r.Database) → r.get key db ≡ none → r.get key (r.del other db) ≡ none
  del-absent key other db h = elim (Bool-cases (teq other key)) [
    | inl same ↦ rw (teq_sound other key same) (r.get-del key db)
    | inr n ↦ r.get-del_other other key db n ∙ h
  ]

  consume_record-absent :
      (key other raw : Text) (db : r.Database)
      → r.get key db ≡ none
      → r.get key (consume_record c r connected other raw db).1 ≡ none
  unfolding consume_record
  consume_record-absent key other raw db h =
      elim (Bool-cases (size_of (r.get other db) == length raw)) [
        | inr e ↦ rw e h
        | inl e ↦ rw e (elim (Bool-cases (is_value (r.get other db) raw)) [
          | inr n ↦ rw n h
          | inl y ↦ rw y (del-absent key other db h)
        ])
      ]

  answer-absent :
      (key : Text) (fault : Fault) (db : r.Database) (result : Bool × r.Database)
      → r.get key db ≡ none
      → r.get key result.1 ≡ none
      → r.get key (answer c r connected fault db result).1 ≡ none
  unfolding answer
  answer-absent key delivered db (consumed, db') h k = k
  answer-absent key lost_call db (consumed, db') h k = h
  answer-absent key lost_reply db (consumed, db') h k = k

  consume-absent :
      (key kind id raw : Text) (fault : Fault) (db : r.Database)
      → r.get key db ≡ none
      → r.get key (consume c r connected kind id raw fault db).1 ≡ none
  unfolding consume
  consume-absent key kind id raw fault db h =
      let done =
        answer-absent key fault db (consume_record c r connected (state_key c kind id) raw db) h
          (consume_record-absent key (state_key c kind id) raw db h) in
      ground (arith, h, done)

  attempt-absent :
      (key kind encoded : Text) (ttl : ℕ) (draw : Draw) (db : r.Database)
      → draw_avoids key kind draw.id ≡ true
      → r.get key db ≡ none
      → r.get key (attempt c r connected kind encoded ttl draw.id draw.fault db).1 ≡ none
  unfolding claimed attempt
  attempt-absent key kind encoded ttl draw db a h = at_id draw.id draw.fault a
    where
      untouched :
          (id : Text)
          → teq (state_key c kind id) key ≡ false
          → r.get key (r.set_nx (state_key c kind id) encoded ttl db).1 ≡ none
      untouched id n = r.get-set_nx_other (state_key c kind id) key encoded ttl db n ∙ h

      at_fault :
          (id : Text) (fault : Fault) (result : Bool × r.Database)
          → r.get key result.1 ≡ none
          → r.get key (claimed c r connected fault id db result).1 ≡ none
      at_fault id delivered (created, db') k = k
      at_fault id lost_call (created, db') k = h
      at_fault id lost_reply (created, db') k = k

      at_id :
          (o : Option Text) (fault : Fault)
          → draw_avoids key kind o ≡ true
          → r.get key (attempt c r connected kind encoded ttl o fault db).1 ≡ none
      at_id none fault b = h
      at_id (some id) fault b =
          at_fault id fault (r.set_nx (state_key c kind id) encoded ttl db)
            (untouched id (ground (arith, b)))

  or_retry-absent :
      (key : Text) (step : Option (Stored Text) × r.Database)
      (retry : r.Database → Stored Text × r.Database)
      → r.get key step.1 ≡ none
      → ((db : r.Database) → r.get key db ≡ none → r.get key (retry db).1 ≡ none)
      → r.get key (or_retry c r connected step retry).1 ≡ none
  unfolding or_retry
  or_retry-absent key (none, db) retry h k = k db h
  or_retry-absent key (some done, db) retry h k = h

  attempts-absent :
      (key kind encoded : Text) (ttl : ℕ) (draws : List Draw) (db : r.Database)
      → All (λ (draw : Draw). draw_avoids key kind draw.id ≡ true) draws
      → r.get key db ≡ none
      → r.get key (attempts c r connected kind encoded ttl draws db).1 ≡ none
  unfolding attempts
  attempts-absent key kind encoded ttl [] db a h = h
  attempts-absent key kind encoded ttl (draw ∷ draws) db a h =
      or_retry-absent key _ (attempts c r connected kind encoded ttl draws)
        (attempt-absent key kind encoded ttl draw db a.0 h)
        (λ db' k. attempts-absent key kind encoded ttl draws db' a.1 k)

  put-absent :
      (key kind : Text) (encoded : Option Text) (expiry : ℤ) (now : ℕ) (d1 d2 d3 : Draw)
      (db : r.Database)
      → (draw_avoids key kind d1.id && draw_avoids key kind d2.id && draw_avoids key kind d3.id)
        ≡ true
      → r.get key db ≡ none
      → r.get key (put c r connected kind encoded expiry now d1 d2 d3 db).1 ≡ none
  unfolding put
  put-absent key kind none expiry now d1 d2 d3 db a h = h
  put-absent key kind (some encoded) expiry now d1 d2 d3 db a h =
      let done =
        attempts-absent key kind encoded (remaining c r connected expiry now) (d1 ∷ d2 ∷ d3 ∷ []) db
          (ground (arith, a), (ground (arith, a), (ground (arith, a), tt))) h in
      ground (arith, h, done)

  -- A key that is absent stays absent, where no call draws it.
  pub after-absent :
      (key : Text) (call : Call) (db : r.Database)
      → avoids key call ≡ true
      → r.get key db ≡ none
      → r.get key (after call db) ≡ none
  unfolding create_request put_request create_code put_grant consume_request consume_code
  after-absent key (creates_request value now later d1 d2 d3) db a h = ground (
    arith,
    h,
    put-absent key request_kind
        (c.encode_request (record value { expires_at = pos (unix (now + request_ttl)) }))
        (pos (unix (now + request_ttl))) later d1 d2 d3 db a h,
  )
  after-absent key (creates_code value now later last d1 d2 d3) db a h =
      let expiry = smaller (pos (unix (now + code_ttl))) value.session_expires_at in
      ground (
        arith,
        h,
        put-absent key code_kind (c.encode_grant (record value { expires_at = expiry })) expiry last
            d1 d2 d3 db a h,
      )
  after-absent key (consumes_request id snapshot now fault) db a h =
      ground (arith, h, consume-absent key request_kind id snapshot.raw fault db h)
  after-absent key (consumes_code id snapshot now fault) db a h =
      ground (arith, h, consume-absent key code_kind id snapshot.raw fault db h)
  after-absent key (expires other) db a h = del-absent key other db h
