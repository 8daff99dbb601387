-- ===== src/Grants/Tests.antt =====
-- A Redis that keeps its keys in a list, a code stored in it, and the theorems at it.
use tikti.Base.{
  List, if◌then◌else◌, Bool-cases, Text, codes, teq, teq_sound, teq_refl, ◌≤◌, ◌≡◌, refl, ap, inl,
  inr, Bool, true, false, Option, none, some, [], ◌∷◌, arith,
}
use tikti.Grants.{
  pos, GrantSnapshot, Codec, Redis, delivered, code_kind, state_key, unix, at_most, is_value,
  size_of, opaque, valid_s256_challenge,
}
use tikti.Grants.Store.{consume_code, consume, consume_record, answer}
use tikti.Grants.Calls.{Call, consumes_code, succeeds, redemptions}
use tikti.Grants.Once.{consume_code_success, code_redeemed_once}

unfoldable lookup : Text → List (Text × Text) → Option Text
lookup key [] = none
lookup key ((k, v) ∷ rest) = if teq k key then some v else lookup key rest

unfoldable remove : Text → List (Text × Text) → List (Text × Text)
remove key [] = []
remove key ((k, v) ∷ rest) =
    let later = remove key rest in if teq k key then later else (k, v) ∷ later

unfoldable claim : Text → Text → List (Text × Text) → Option Text → Bool × List (Text × Text)
claim key value db none = (true, (key, value) ∷ db)
claim key value db (some held) = (false, db)

lookup-remove : (key : Text) (db : List (Text × Text)) → lookup key (remove key db) ≡ none
unfolding lookup remove
lookup-remove key [] = refl
lookup-remove key ((k, v) ∷ rest) = elim (Bool-cases (teq k key)) [
  | inl e ↦ rw e (lookup-remove key rest)
  | inr e ↦ rw e (rw e (lookup-remove key rest))
]

lookup-remove_other :
    (key other : Text) (db : List (Text × Text))
    → teq key other ≡ false
    → lookup other (remove key db) ≡ lookup other db
unfolding lookup remove
lookup-remove_other key other [] n = refl
lookup-remove_other key other ((k, v) ∷ rest) n = elim (Bool-cases (teq k key)) [
  | inl e ↦
      ground (
        arith,
        e,
        n,
        lookup-remove_other key other rest n,
        ap (λ z. teq z other) (teq_sound k key e),
      )
  | inr e ↦ ground (arith, e, n, lookup-remove_other key other rest n)
]

lookup-claim :
    (key value : Text) (db : List (Text × Text)) (o : Option Text)
    → (claim key value db o).0 ≡ true
    → lookup key (claim key value db o).1 ≡ some value
unfolding lookup claim
lookup-claim key value db none h = rw (teq_refl key)
lookup-claim key value db (some held) h = cc

lookup-claim_other :
    (key other value : Text) (db : List (Text × Text)) (o : Option Text)
    → teq key other ≡ false
    → lookup other (claim key value db o).1 ≡ lookup other db
unfolding lookup claim
lookup-claim_other key other value db none n = rw n
lookup-claim_other key other value db (some held) n = refl

abbrev listed : Redis
listed = record {
  Database = List (Text × Text);
  get = lookup;
  set_nx = λ key value ttl db. claim key value db (lookup key db);
  del = remove;
  get-del = lookup-remove;
  get-del_other = lookup-remove_other;
  get-set_nx = λ key value ttl db. lookup-claim key value db (lookup key db);
  get-set_nx_other =
      λ key other value ttl db. lookup-claim_other key other value db (lookup key db);
}

abbrev codec : Codec
codec = record {
  sha256_hex = λ text. text;
  decodes = λ text. true;
  encode_request = λ value. some (codes "request");
  decode_request = λ text. none;
  encode_grant = λ value. some (codes "grant");
  decode_grant = λ text. none;
}

abbrev issued_code : Text
issued_code = codes "AAAAAAAAAAAAAAAAAAAAAAAAAAAAAAAAAAAAAAAAAAA"

abbrev issued : GrantSnapshot
issued = record {
  value = record {
    client_id = codes "console";
    client_fingerprint = [];
    redirect_uri = codes "http://127.0.0.1/callback";
    challenge = issued_code;
    subject = codes "u1";
    identity_tenant_id = codes "acme";
    identity_fingerprint = [];
    token_version = pos 0;
    approved_scopes = codes "codeq:claim" ∷ [];
    session_expires_at = pos 100;
    expires_at = pos 60;
  };
  raw = codes "grant";
}

abbrev stored : List (Text × Text)
stored =
    (codes "identity:v2:native:code:AAAAAAAAAAAAAAAAAAAAAAAAAAAAAAAAAAAAAAAAAAA", codes "grant")
    ∷ []

abbrev twice : List Call
twice =
    consumes_code issued_code issued 0 delivered ∷ consumes_code issued_code issued 0 delivered ∷ []

redeemed_once : redemptions codec listed true issued_code twice stored ≡ 1
unfolding consume_code consume consume_record answer remove lookup teq is_value size_of opaque
    valid_s256_challenge state_key at_most unix
redeemed_once = refl

first_redeems :
    succeeds (consume_code codec listed true issued_code issued 0 delivered stored).0 ≡ true
unfolding consume_code consume consume_record answer teq lookup
first_redeems = refl

consume_code_success_example :
    (lookup (state_key codec code_kind issued_code) stored ≡ some (codes "grant"))
    × (codec.encode_grant issued.value ≡ some (codes "grant"))
    × (at_most (pos 60) (unix 0) ≡ false)
    × (lookup
          (state_key codec code_kind issued_code)
          (consume_code codec listed true issued_code issued 0 delivered stored).1
        ≡ none)
consume_code_success_example =
    consume_code_success codec listed true issued_code issued 0 delivered stored first_redeems

code_redeemed_once_example : redemptions codec listed true issued_code twice stored ≤ 1
code_redeemed_once_example =
    code_redeemed_once codec listed true issued_code twice stored (refl, (refl, tt))
