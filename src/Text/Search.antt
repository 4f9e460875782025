-- ===== src/Text/Search.antt =====
-- What the searches of std::string find in a text that is split at the byte that is sought.
use relay_dev.Common.{
  all, not, ℕ, zero, suc, ◌<◌, map, take, Option-cases, ◌≡◌, ◌↔◌, ◌⊎◌, inl, inr, refl, ap, true,
  false, [], ◌∷◌, ◌++◌, none, some, arith, ◌==◌, ==_iff, Bool-cases, length, drop, take-append,
  drop-append,
}
use relay_dev.Text.{Bytes, upper, equal, find_char, substr_to, erase_to, cell, after_cell}

-- No byte of the text is `c`.
abbrev pub Lacks : ℕ → Bytes → Type 0
Lacks c [] = Unit
Lacks c (x ∷ s) = ((x == c) ≡ false) × Lacks c s

-- A test of it.
pub all-Lacks : (c : ℕ) (s : Bytes) → all (λ x. not (x == c)) s ≡ true → Lacks c s
all-Lacks c [] h = tt
all-Lacks c (x ∷ s) h = ground (arith, all-Lacks c s)

pub Lacks-append : (c : ℕ) (f g : Bytes) → Lacks c f → Lacks c g → Lacks c (f ++ g)
Lacks-append c [] g h k = k
Lacks-append c (x ∷ f) g h k = (h.0, Lacks-append c f g h.1 k)

pub Lacks-take : (c n : ℕ) (s : Bytes) → Lacks c s → Lacks c (take n s)
Lacks-take c zero s h = tt
Lacks-take c (suc n) [] h = tt
Lacks-take c (suc n) (x ∷ s) h = (h.0, Lacks-take c n s h.1)

pub Lacks-drop : (c n : ℕ) (s : Bytes) → Lacks c s → Lacks c (drop n s)
Lacks-drop c zero s h = h
Lacks-drop c (suc n) [] h = tt
Lacks-drop c (suc n) (x ∷ s) h = Lacks-drop c n s h.1

pub Lacks-cell : (c d : ℕ) (s : Bytes) → Lacks c s → Lacks c (cell d s)
unfolding cell substr_to
Lacks-cell c d s h = elim (Option-cases (find_char d s)) [
  | inl missed ↦ rw missed h
  | inr (i, found) ↦ rw found (Lacks-take c i s h)
]

-- No capital letter is `c`, so that `toupper` makes none.
pub Lacks-upper : (c : ℕ) (s : Bytes) → c < b'A' → Lacks c s → Lacks c (map upper s)
Lacks-upper c [] small h = tt
Lacks-upper c (x ∷ s) small h = (unfold upper in ground arith, Lacks-upper c s small h.1)

pub equal_iff : (s t : Bytes) → (equal s t ≡ true) ↔ (s ≡ t)
unfolding equal
equal_iff [] [] = ground arith
equal_iff [] (c ∷ t) = ground arith
equal_iff (c ∷ s) [] = ground arith
equal_iff (c ∷ s) (d ∷ t) = ground (arith, equal_iff s t)

pub find_char-append :
    (c : ℕ) (f r : Bytes) → Lacks c f → find_char c (f ++ c ∷ r) ≡ some (length f)
unfolding find_char
find_char-append c [] r h = ground arith
find_char-append c (x ∷ f) r h = ground (arith, find_char-append c f r)

pub find_char-Lacks : (c : ℕ) (s : Bytes) → Lacks c s → find_char c s ≡ none
unfolding find_char
find_char-Lacks c [] h = refl
find_char-Lacks c (x ∷ s) h = ground (arith, find_char-Lacks c s)

-- A text lacks `c`, or splits at the first one.
abbrev pub Splits : ℕ → Bytes → Type 0
Splits c s = Lacks c s ⊎ ((f : Bytes) × (r : Bytes) × (s ≡ f ++ c ∷ r) × Lacks c f)

pub split_at : (c : ℕ) (s : Bytes) → Splits c s
split_at c [] = inl tt
split_at c (x ∷ s) = elim (Bool-cases (x == c)) [
  | inl hit ↦ inr ([], s, ap (λ y. y ∷ s) ((==_iff x c).0 hit), tt)
  | inr miss ↦ extend miss (split_at c s)
]
  where
    extend : ((x == c) ≡ false) → Splits c s → Splits c (x ∷ s)
    extend miss (inl h) = inl (miss, h)
    extend miss (inr (f, r, e, h)) = inr (x ∷ f, r, ap (◌∷◌ x) e, (miss, h))

module _ (c : ℕ) (f r : Bytes) (h : Lacks c f) where
  pub cell-append : cell c (f ++ c ∷ r) ≡ f
  unfolding cell
  cell-append = rw (find_char-append c f r h) (unfold substr_to in take-append f (c ∷ r))

  pub after_cell-append : (k : ℕ) → after_cell k c (f ++ c ∷ r) ≡ drop k (c ∷ r)
  unfolding after_cell
  after_cell-append k = rw (find_char-append c f r h) (unfold erase_to in drop-append k f (c ∷ r))

pub after_cell-Lacks_all : (c : ℕ) (s : Bytes) → Lacks c s → after_cell 0 c s ≡ []
unfolding after_cell
after_cell-Lacks_all c s h = rw (find_char-Lacks c s h) (unfold erase_to in refl)
