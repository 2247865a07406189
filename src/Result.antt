-- ===== src/Result.antt =====
-- How a call of the program ends.
use live_streaming.Base.{◌≡◌, refl, ap, arith}

-- The outcome of server code that reads or writes a ByteStream: `throws` is
-- ByteStream::NotEnoughException, `aborts` a failed assert, `faults` undefined behaviour that the
-- code runs into (an index out of bounds, a null or dangling pointer), and `exhausted` has no
-- counterpart in the program: a model's fuel ran out.
pub data Result {κ} (Value : Type κ) : Type κ where
  ok : Value → Result Value
  throws aborts faults exhausted : Result Value

-- What comes after a call is left out unless the call has a value.
infixl 5 ◌>>=◌
abbrev pub ◌>>=◌ {κ μ} :
    {Value : Type κ} {Next : Type μ} → Result Value → (Value → Result Next) → Result Next
exhausted >>= next = exhausted
faults >>= next = faults
aborts >>= next = aborts
throws >>= next = throws
ok value >>= next = next value

-- A chain of calls that returns has a first call that returns.
pub bind_ok {κ μ} :
    {Value : Type κ} {Next : Type μ} (r : Result Value) (next : Value → Result Next) (b : Next)
    → (r >>= next) ≡ ok b
    → (a : Value) × (r ≡ ok a) × (next a ≡ ok b)
bind_ok (ok a) next b e = (a, refl, e)
bind_ok throws next b e = ground arith
bind_ok aborts next b e = ground arith
bind_ok faults next b e = ground arith
bind_ok exhausted next b e = ground arith

module _ {κ} {Value : Type κ} where
  unfoldable value_or : Value → Result Value → Value
  value_or d (ok a) = a
  value_or d _ = d

  pub ok_injective : {a b : Value} → ok a ≡ ok b → a ≡ b
  unfolding value_or
  ok_injective {a = a} e = ap (value_or a) e

pub bind_cong {κ μ} :
    {Value : Type κ} {Next : Type μ} (r : Result Value) (f g : Value → Result Next)
    → ((a : Value) → f a ≡ g a)
    → (r >>= f) ≡ (r >>= g)
bind_cong (ok a) f g h = h a
bind_cong throws f g h = refl
bind_cong aborts f g h = refl
bind_cong faults f g h = refl
bind_cong exhausted f g h = refl
