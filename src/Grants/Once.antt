-- ===== src/Grants/Once.antt =====
-- Single use of the authorization codes of internal/nativeauth/store.go, over any sequence of calls
-- and expiries.
use tikti.Base.{
  List, ltb, ◌==◌, Bool-cases, length, All, Text, teq_sound, ℕ, ◌≤◌, ◌≡◌, refl, sym, ap, ◌∙◌, ◌≢◌,
  inl, inr, Bool, true, false, not, ◌||◌, Option, none, some, [], ◌∷◌, arith,
}
use tikti.Grants.Calls.{
  Call, creates_request, creates_code, consumes_request, consumes_code, expires, succeeds, after,
  redeems, redemptions, avoids, after-absent,
}
use tikti.Grants.{
  opaque, at_most, maximum_record, unix, GrantSnapshot, Codec, Redis, Fault, delivered, lost_call,
  lost_reply, size_of, is_value, code_kind, state_key,
}
use tikti.Grants.Store.{consume_record, answer, consume, consume_code}

module _ (c : Codec) (r : Redis) (connected : Bool) where
  consume_record-success :
      (key raw : Text) (db : r.Database)
      → (consume_record c r connected key raw db).0 ≡ true
      → (r.get key db ≡ some raw) × (r.get key (consume_record c r connected key raw db).1 ≡ none)
  unfolding consume_record is_value
  consume_record-success key raw db h = elim (Bool-cases (size_of (r.get key db) == length raw)) [
    | inr e ↦ absurd (ground (arith, h, e))
    | inl e ↦ elim (Bool-cases (is_value (r.get key db) raw)) [
      | inr n ↦ absurd (ground (arith, h, e, n))
      | inl y ↦ (is_value-eq-some (r.get key db) y, rw e (rw y (r.get-del key db)))
    ]
  ]
    where
      is_value-eq-some : (o : Option Text) → is_value o raw ≡ true → o ≡ some raw
      is_value-eq-some none k = cc
      is_value-eq-some (some stored) k = ap some (teq_sound stored raw k)

  answer-success :
      (fault : Fault) (db : r.Database) (result : Bool × r.Database)
      → succeeds (answer c r connected fault db result).0 ≡ true
      → (result.0 ≡ true) × ((answer c r connected fault db result).1 ≡ result.1)
  unfolding answer
  answer-success delivered db (consumed, db') h = (h, refl)
  answer-success lost_call db (consumed, db') h = cc
  answer-success lost_reply db (consumed, db') h = cc

  consume-success :
      (kind id raw : Text) (fault : Fault) (db : r.Database)
      → succeeds (consume c r connected kind id raw fault db).0 ≡ true
      → (r.get (state_key c kind id) db ≡ some raw)
        × (r.get (state_key c kind id) (consume c r connected kind id raw fault db).1 ≡ none)
  unfolding consume
  consume-success kind id raw fault db h =
      elim (Bool-cases
        (not (opaque c id) || ltb (length raw) 1 || ltb maximum_record (length raw))) [
          | inl e ↦ absurd (ground (arith, h, e))
          | inr e ↦ elim (Bool-cases connected) [
            | inr n ↦ absurd (ground (arith, h, e, n))
            | inl y ↦
                let key = state_key c kind id in
                let (consumed, same) =
                  answer-success fault db (consume_record c r connected key raw db)
                    (ground (arith, h, e, y)) in
                let (stored, gone) = consume_record-success key raw db consumed in
                (stored, ground (arith, e, y, ap (r.get key) same, gone))
          ]
        ]

  -- A ConsumeCode that reports success found under the code exactly the snapshot's bytes, which encode
  -- its grant; the grant had not expired; and nothing is stored under the code afterwards.
  pub consume_code_success :
      (id : Text) (snapshot : GrantSnapshot) (now : ℕ) (fault : Fault) (db : r.Database)
      → succeeds (consume_code c r connected id snapshot now fault db).0 ≡ true
      → (r.get (state_key c code_kind id) db ≡ some snapshot.raw)
        × (c.encode_grant snapshot.value ≡ some snapshot.raw)
        × (at_most snapshot.value.expires_at (unix now) ≡ false)
        × (r.get (state_key c code_kind id) (consume_code c r connected id snapshot now fault db).1
            ≡ none)
  unfolding consume_code is_value
  consume_code_success id snapshot now fault db h = elim (Bool-cases connected) [
    | inr n ↦ absurd (ground (arith, h, n))
    | inl y ↦
        elim (Bool-cases (
          not (is_value (c.encode_grant snapshot.value) snapshot.raw)
          || at_most snapshot.value.expires_at (unix now))) [
            | inl e ↦ absurd (ground (arith, h, y, e))
            | inr e ↦
                let (stored, gone) =
                  consume-success code_kind id snapshot.raw fault db (ground (arith, h, y, e)) in
                (
                  stored,
                  is_value-eq-some (c.encode_grant snapshot.value) (ground (arith, e)),
                  ground (arith, e),
                  ground (arith, y, e, gone),
                )
          ]
  ]
    where
      is_value-eq-some : (o : Option Text) → is_value o snapshot.raw ≡ true → o ≡ some snapshot.raw
      is_value-eq-some none k = cc
      is_value-eq-some (some stored) k = ap some (teq_sound stored snapshot.raw k)

  redeems-gone :
      (code : Text) (call : Call) (db : r.Database)
      → redeems c r connected code call db ≡ true
      → (r.get (state_key c code_kind code) db ≢ none)
        × (r.get (state_key c code_kind code) (after c r connected call db) ≡ none)
  redeems-gone code (consumes_code id snapshot now fault) db h =
      let (stored, encoded, fresh, gone) =
        consume_code_success id snapshot now fault db (ground (arith, h)) in
      let same = teq_sound id code (ground (arith, h)) in
      (
        λ absent.
            absurd
              (ground (arith, stored, absent, ap (λ i. r.get (state_key c code_kind i) db) same)),
        ap
              (λ i.
                r.get (state_key c code_kind i)
                  (after c r connected (consumes_code id snapshot now fault) db))
              (sym same)
            ∙ gone,
      )
  redeems-gone code (creates_request value now later d1 d2 d3) db h = cc
  redeems-gone code (creates_code value now later last d1 d2 d3) db h = cc
  redeems-gone code (consumes_request id snapshot now fault) db h = cc
  redeems-gone code (expires key) db h = cc

  no_redemption :
      (code : Text) (calls : List Call) (db : r.Database)
      → All (λ call. avoids c r connected (state_key c code_kind code) call ≡ true) calls
      → r.get (state_key c code_kind code) db ≡ none
      → redemptions c r connected code calls db ≡ 0
  no_redemption code [] db a h = refl
  no_redemption code (call ∷ calls) db a h =
      elim (Bool-cases (redeems c r connected code call db)) [
        | inl e ↦ absurd ((redeems-gone code call db e).0 h)
        | inr e ↦ rw e (
            no_redemption code calls (after c r connected call db) a.1
              (after-absent c r connected (state_key c code_kind code) call db a.0 h))
      ]

  -- Over any sequence of calls with any faults, clocks and expiries, in which no call draws an
  -- identifier with the key of the code again, the code is redeemed at most once.
  pub code_redeemed_once :
      (code : Text) (calls : List Call) (db : r.Database)
      → All (λ call. avoids c r connected (state_key c code_kind code) call ≡ true) calls
      → redemptions c r connected code calls db ≤ 1
  code_redeemed_once code [] db a = omega arith
  code_redeemed_once code (call ∷ calls) db a =
      elim (Bool-cases (redeems c r connected code call db)) [
        | inl e ↦ rw e (
            omega (
              arith,
              no_redemption code calls (after c r connected call db) a.1
                  (redeems-gone code call db e).1,
            ))
        | inr e ↦ rw e (code_redeemed_once code calls (after c r connected call db) a.1)
      ]
