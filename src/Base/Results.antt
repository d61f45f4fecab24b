-- ===== src/Base/Results.antt =====
-- What a runtime function may end in. The throwing functions are those of
-- backend/runtime/Exceptions.h; `undefined` is undefined behaviour of C, such as a read past the
-- slots of an array that are in use.
use Prim.Native.Nat.{ℕ}
use Prim.Native.String.{String}
use mathlib.Core.Path.{◌≡◌, refl}
use mathlib.Core.Option.{Option, none, some}

pub data Exception : Type 0 where
  index_out_of_bounds : (index count : ℕ) → Exception
  illegal_argument : String → Exception
  illegal_state : String → Exception
  unsupported_operation : String → Exception
  arithmetic : String → Exception
  wrong_arity : (arguments : ℕ) → Exception

pub data Outcome {ℓ} (A : Type ℓ) : Type ℓ where
  ok : A → Outcome A
  throw : Exception → Outcome A
  undefined : Outcome A

infixl 5 ◌>>=◌
abbrev pub ◌>>=◌ {ℓ κ} : {A : Type ℓ} {B : Type κ} → Outcome A → (A → Outcome B) → Outcome B
ok a >>= f = f a
throw e >>= f = throw e
undefined >>= f = undefined

-- A read that C does not check.
abbrev pub unchecked {ℓ} : {A : Type ℓ} → Option A → Outcome A
unchecked none = undefined
unchecked (some a) = ok a

pub >>=-assoc {ℓ} :
    {A B C : Type ℓ} (m : Outcome A) (f : A → Outcome B) (g : B → Outcome C)
    → (m >>= f >>= g) ≡ (m >>= λ a. f a >>= g)
>>=-assoc (ok a) f g = refl
>>=-assoc (throw e) f g = refl
>>=-assoc undefined f g = refl

pub >>=_congr {ℓ} :
    {A B : Type ℓ} (m : Outcome A) (f g : A → Outcome B)
    → ((a : A) → f a ≡ g a)
    → (m >>= f) ≡ (m >>= g)
>>=_congr (ok a) f g h = h a
>>=_congr (throw e) f g h = refl
>>=_congr undefined f g h = refl
