-- ===== src/Base/Outcome.antt =====
-- What fallible code returns: Go's `(value, error)` pair as a sum.
use mathlib.Core.Path.{◌≡◌, refl}

pub data Result {ℓ} (Failure : Type 0) (Value : Type ℓ) : Type ℓ where
  err : Failure → Result Failure Value
  ok : Value → Result Failure Value

-- The `if err != nil { return }` after a call.
infixl 5 ◌>>=◌
abbrev pub ◌>>=◌ {ℓ κ} :
    {Failure : Type 0} {Value : Type ℓ} {Next : Type κ}
    → Result Failure Value
    → (Value → Result Failure Next)
    → Result Failure Next
err failure >>= next = err failure
ok value >>= next = next value

-- Where a chain returns, its first call has.
pub >>=-eq-ok {ℓ κ} :
    {Failure : Type 0} {Value : Type ℓ} {Next : Type κ} (call : Result Failure Value)
    (next : Value → Result Failure Next) {last : Next}
    → (call >>= next) ≡ ok last
    → (value : Value) × (call ≡ ok value) × (next value ≡ ok last)
>>=-eq-ok (err failure) next returns = cc
>>=-eq-ok (ok value) next returns = (value, refl, returns)
