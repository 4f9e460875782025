-- ===== src/Pool/Contract.antt =====
-- What the pool of CIBData.h promises, without the order in which it keeps its connections.
pub mod Refines
use mathlib.Core.Path
use mathlib.Core.Quot
use mathlib.Core.Quot.{Quot, Quot-set}
use relay_dev.Common.{
  ℕ, zero, suc, ◌+◌, ◌≡◌, refl, ap, List, [], ◌∷◌, ◌++◌, if◌then◌else◌, ◌==◌, arith,
}

abbrev pub copies_in : ℕ → List ℕ → ℕ
copies_in c [] = 0
copies_in c (x ∷ xs) = (if x == c then 1 else 0) + copies_in c xs

pub copies_in-append :
    (c : ℕ) (xs ys : List ℕ) → copies_in c (xs ++ ys) ≡ copies_in c xs + copies_in c ys
copies_in-append c [] ys = omega arith
copies_in-append c (x ∷ xs) ys = omega (arith, copies_in-append c xs ys)

abbrev SameCopies : List ℕ → List ℕ → Type 0
SameCopies xs ys = (c : ℕ) → copies_in c xs ≡ copies_in c ys

-- Connections in no order.
abbrev pub Bag : Type 0
Bag = Quot SameCopies

abbrev pub bag : List ℕ → Bag
bag = Quot.mk

abbrev pub put : ℕ → Bag → Bag
put c = Quot.lift Quot-set (λ xs. bag (c ∷ xs)) λ xs ys h. Quot.sound λ a. omega (arith, h a)

unfoldable copies : ℕ → Bag → ℕ
copies c = Quot.lift (hlevel) (copies_in c) λ xs ys h. h c

-- A bag tells whether it has nothing in it.
pub bag-nil : (xs : List ℕ) → bag xs ≡ bag [] → xs ≡ []
unfolding copies
bag-nil [] e = refl
bag-nil (x ∷ xs) e =
    let some_copy : copies_in x (x ∷ xs) ≡ 0 = ap (copies x) e in absurd (ground (arith, some_copy))

pub bag-middle : (xs ys : List ℕ) (c : ℕ) → bag (xs ++ c ∷ ys) ≡ put c (bag (xs ++ ys))
bag-middle xs ys c =
    Quot.sound λ a. omega (arith, copies_in-append a xs (c ∷ ys), copies_in-append a xs ys)

-- The connections that are idle, those that are lent out, how often another one may still be asked
-- for, and the number of the next.
pub record Store : Type 0 where
  pub idle : Bag
  pub lent : Bag
  pub left : ℕ
  pub made : ℕ

-- An idle connection is lent; only if there is none another one is asked for, which may fail; and one
-- that is lent comes back or is lost.
pub data Act : Store → Store → Type 0 where
  lend :
      {s : Store} (c : ℕ) (rest : Bag)
      → s.idle ≡ put c rest
      → Act s (record s { idle = rest; lent = put c s.lent })
  make :
      {s : Store} {k : ℕ}
      → s.idle ≡ bag []
      → s.left ≡ suc k
      → Act s (record s { lent = put s.made s.lent; left = k; made = suc s.made })
  waste : {s : Store} {k : ℕ} → s.idle ≡ bag [] → s.left ≡ suc k → Act s (record s { left = k })
  take_back :
      {s : Store} (c : ℕ) (rest : Bag)
      → s.lent ≡ put c rest
      → Act s (record s { idle = put c s.idle; lent = rest })
  lose : {s : Store} (c : ℕ) (rest : Bag) → s.lent ≡ put c rest → Act s (record s { lent = rest })

pub data Acts (s : Store) : Store → Type 0 where
  here : Acts s s
  next : {t u : Store} → Acts s t → Act t u → Acts s u
