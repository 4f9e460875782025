-- ===== src/Common/Results.antt =====
-- How a call ends. `err` is an exception, undefined behaviour of C++, or a loop out of fuel.
use mathlib.Core.Path.{◌≡◌, refl}
use mathlib.Core.Option.{Option, none, some}
use mathlib.Core.List.{List, [], ◌∷◌}

pub data Stop : Type 0 where
  invalid_argument out_of_range sql_error undefined out_of_fuel : Stop

pub data Result {ℓ} (A : Type ℓ) : Type ℓ where
  ok : A → Result A
  err : Stop → Result A

infixl 5 ◌>>=◌
abbrev pub ◌>>=◌ {ℓ κ} : {A : Type ℓ} {B : Type κ} → Result A → (A → Result B) → Result B
(err stop) >>= next = err stop
(ok value) >>= next = next value

abbrev pub defined {ℓ} : {A : Type ℓ} → Option A → Result A
defined none = err undefined
defined (some a) = ok a

abbrev pub traverse {ℓ κ} : {A : Type ℓ} {B : Type κ} → (A → Result B) → List A → Result (List B)
traverse f [] = ok []
traverse f (x ∷ xs) = f x >>= λ y. traverse f xs >>= λ ys. ok (y ∷ ys)

-- A chain of two calls that returns has returned in both.
module _ {ℓ κ} {A : Type ℓ} {B : Type κ} where
  pub >>=-eq-ok :
      (call : Result A) (next : A → Result B) {done : B}
      → (call >>= next) ≡ ok done
      → (value : A) × (call ≡ ok value) × (next value ≡ ok done)
  >>=-eq-ok (err stop) next returned = cc
  >>=-eq-ok (ok value) next returned = (value, refl, returned)

-- A step that returns, and the rest of it.
pub >>=-total {ℓ ℓ'} :
    {A : Type ℓ} {B : Type ℓ'} (m : Result A) (k : A → Result B) (a : A)
    → m ≡ ok a
    → (b : B) × (k a ≡ ok b)
    → (b : B) × ((m >>= k) ≡ ok b)
>>=-total m k a e (b, h) = (b, rw e h)
