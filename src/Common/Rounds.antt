-- ===== src/Common/Rounds.antt =====
-- A loop whose rounds are a function of one value: the values that it can meet bound its rounds.
use Prim.Native.Nat.{ℕ, zero, suc, ◌≤◌}
use mathlib.Core.Path.{◌≡◌, refl, sym, ap, subst, ◌∙◌}
use mathlib.Core.Logic.{◌⊎◌, inl, inr}
use mathlib.Core.Bool.{Bool, true, false}
use mathlib.Core.List.{List, [], ◌∷◌, ◌++◌}
use native.Mathlib.Omega.{arith}
use relay_dev.Common.Tests.{Bool-cases}
use relay_dev.Common.Lists.{length, All, length-append}

module _ {A : Type 0} where
  abbrev pub Occurs : A → List A → Type 0
  Occurs a [] = ⊥
  Occurs a (x ∷ xs) = (x ≡ a) ⊎ Occurs a xs

  abbrev AreDistinct : List A → Type 0
  AreDistinct [] = Unit
  AreDistinct (x ∷ xs) = ¬ Occurs x xs × AreDistinct xs

  pub Occurs-append : (a : A) (xs ys : List A) → Occurs a xs ⊎ Occurs a ys → Occurs a (xs ++ ys)
  Occurs-append a [] ys (inl h) = absurd h
  Occurs-append a [] ys (inr h) = h
  Occurs-append a (x ∷ xs) ys (inl (inl h)) = inl h
  Occurs-append a (x ∷ xs) ys (inl (inr h)) = inr (Occurs-append a xs ys (inl h))
  Occurs-append a (x ∷ xs) ys (inr h) = inr (Occurs-append a xs ys (inr h))

  pub All-Occurs : (P : A → Type 0) (a : A) (xs : List A) → All P xs → Occurs a xs → P a
  All-Occurs P a [] h o = absurd o
  All-Occurs P a (x ∷ xs) h (inl e) = subst P e h.0
  All-Occurs P a (x ∷ xs) h (inr o) = All-Occurs P a xs h.1 o

  split : (a : A) (ys : List A) → Occurs a ys → (f r : List A) × (ys ≡ f ++ a ∷ r)
  split a [] h = absurd h
  split a (y ∷ ys) (inl e) = ([], ys, ap (λ z. z ∷ ys) e)
  split a (y ∷ ys) (inr h) = let (f, r, e) = split a ys h in (y ∷ f, r, ap (◌∷◌ y) e)

  Occurs-drop : (a x : A) (f r : List A) → ¬ (a ≡ x) → Occurs x (f ++ a ∷ r) → Occurs x (f ++ r)
  Occurs-drop a x [] r ne (inl e) = absurd (ne e)
  Occurs-drop a x [] r ne (inr h) = h
  Occurs-drop a x (y ∷ f) r ne (inl e) = inl e
  Occurs-drop a x (y ∷ f) r ne (inr h) = inr (Occurs-drop a x f r ne h)

  others :
      (a : A) (xs f r : List A)
      → ¬ Occurs a xs
      → All (λ x. Occurs x (f ++ a ∷ r)) xs
      → All (λ x. Occurs x (f ++ r)) xs
  others a [] f r new h = tt
  others a (x ∷ xs) f r new h =
      (Occurs-drop a x f r (λ e. new (inl (sym e))) h.0, others a xs f r (λ o. new (inr o)) h.1)

  -- Distinct values that all occur in a list are no more than the list is long.
  pigeonhole : (xs ys : List A) → AreDistinct xs → All (λ x. Occurs x ys) xs → length xs ≤ length ys
  pigeonhole [] ys d h = omega arith
  pigeonhole (x ∷ xs) ys d h =
      let (f, r, e) = split x ys h.0 in
      let within = others x xs f r d.0 (subst (λ l. All (λ z. Occurs z l) xs) e h.1) in
      let small = pigeonhole xs (f ++ r) d.1 within in
      omega (arith, small, ap length e, length-append f (x ∷ r), length-append f r)

module _ {A : Type 0} (step : A → A × Bool) where
  -- A round gives the next value, and whether the loop is over.
  unfoldable pub ends : ℕ → A → Bool
  ends zero a = false
  ends (suc n) a = elim (step a).1 [ true ↦ true | false ↦ ends n (step a).0 ]

  ends-step : (n : ℕ) (a : A) → (step a).1 ≡ false → ends (suc n) a ≡ ends n (step a).0
  unfolding ends
  ends-step n a e = rw (e, ends)

  ends-over : (n : ℕ) (a : A) → (step a).1 ≡ true → ends (suc n) a ≡ true
  unfolding ends
  ends-over n a e = rw (e, ends)

  pub ends_mono : (n m : ℕ) (a : A) → n ≤ m → ends n a ≡ true → ends m a ≡ true
  unfolding ends
  ends_mono zero m a le h = cc
  ends_mono (suc n) zero a le h = absurd (omega arith)
  ends_mono (suc n) (suc m) a le h = elim (Bool-cases (step a).1) [
    | inl over ↦ ends-over m a over
    | inr more ↦
        ends-step m a more ∙ ends_mono n m (step a).0 (omega arith) (sym (ends-step n a more) ∙ h)
  ]

  -- The number of rounds with which it ends.
  record IsLeast (n : ℕ) (a : A) : Type 0 where
    enough : ends n a ≡ true
    least : (m : ℕ) → ends m a ≡ true → n ≤ m

  positive : (m : ℕ) (a : A) → ends m a ≡ true → 1 ≤ m
  unfolding ends
  positive zero a h = cc
  positive (suc m) a h = omega arith

  least-suc :
      (n m : ℕ) (a : A)
      → (step a).1 ≡ false
      → ((k : ℕ) → ends k (step a).0 ≡ true → n ≤ k)
      → ends m a ≡ true
      → suc n ≤ m
  unfolding ends
  least-suc n zero a more h e = cc
  least-suc n (suc m) a more h e = omega (arith, h m (sym (ends-step m a more) ∙ e))

  find-IsLeast : (n : ℕ) (a : A) → ends n a ≡ true → (k : ℕ) × IsLeast k a
  unfolding ends
  find-IsLeast zero a h = cc
  find-IsLeast (suc n) a h = elim (Bool-cases (step a).1) [
    | inl over ↦ (1, record { enough = ends-over 0 a over; least = λ m e. positive m a e })
    | inr more ↦
        let (k, l) = find-IsLeast n (step a).0 (sym (ends-step n a more) ∙ h) in
        (
          suc k,
          record {
            enough = ends-step k a more ∙ l.enough;
            least = λ m e. least-suc k m a more l.least e;
          },
        )
  ]

  visits : ℕ → A → List A
  visits zero a = []
  visits (suc n) a = a ∷ visits n (step a).0

  -- After the first of the rounds it has none left, or goes on from the next value.
  IsLeast-next : (n : ℕ) (a : A) → IsLeast (suc n) a → (n ≡ 0) ⊎ IsLeast n (step a).0
  unfolding ends
  IsLeast-next n a l = elim (Bool-cases (step a).1) [
    | inl over ↦ inl (omega (arith, l.least 1 (ends-over 0 a over)))
    | inr more ↦ inr (record {
      enough = sym (ends-step n a more) ∙ l.enough;
      least = λ m e. omega (arith, l.least (suc m) (ends-step m a more ∙ e));
    })
  ]

  visits-ends :
      (n : ℕ) (a x : A)
      → IsLeast n a
      → Occurs x (visits n a)
      → (k : ℕ) × (k ≤ n) × (ends k x ≡ true)
  unfolding visits
  visits-ends zero a x l o = absurd o
  visits-ends (suc n) a x l (inl e) =
      (suc n, omega arith, subst (λ y. ends (suc n) y ≡ true) e l.enough)
  visits-ends (suc zero) a x l (inr o) = absurd o
  visits-ends (suc (suc n)) a x l (inr o) = elim (IsLeast-next (suc n) a l) [
    | inl none_left ↦ absurd (omega arith)
    | inr rest ↦ let (k, le, e) = visits-ends (suc n) (step a).0 x rest o in (k, omega arith, e)
  ]

  visits-AreDistinct : (n : ℕ) (a : A) → IsLeast n a → AreDistinct (visits n a)
  unfolding visits
  visits-AreDistinct zero a l = tt
  visits-AreDistinct (suc zero) a l = ((λ o. o), tt)
  visits-AreDistinct (suc (suc n)) a l = elim (IsLeast-next (suc n) a l) [
    | inl none_left ↦ absurd (omega arith)
    | inr rest ↦ (
      (λ o.
          let (k, le, e) = visits-ends (suc n) (step a).0 a rest o in
          absurd (omega (arith, l.least k e))),
      visits-AreDistinct (suc n) (step a).0 rest,
    )
  ]

  visits-within :
      (seen : List A) (n : ℕ) (a : A)
      → ((x : A) → Occurs x seen → Occurs (step x).0 seen)
      → Occurs a seen
      → All (λ x. Occurs x seen) (visits n a)
  unfolding visits
  visits-within seen zero a stay h = tt
  visits-within seen (suc n) a stay h = (h, visits-within seen n (step a).0 stay (stay a h))

  length-visits : (n : ℕ) (a : A) → length (visits n a) ≡ n
  unfolding visits
  length-visits zero a = refl
  length-visits (suc n) a = ap suc (length-visits n (step a).0)

  -- A loop that ends at all ends within as many rounds as there are values to meet.
  pub ends_within :
      (seen : List A) (n : ℕ) (a : A)
      → ((x : A) → Occurs x seen → Occurs (step x).0 seen)
      → Occurs a seen
      → ends n a ≡ true
      → ends (length seen) a ≡ true
  ends_within seen n a stay h e =
      let (k, l) = find-IsLeast n a e in
      let small =
        pigeonhole (visits k a) seen (visits-AreDistinct k a l) (visits-within seen k a stay h) in
      ends_mono k (length seen) a (omega (arith, small, length-visits k a)) l.enough
