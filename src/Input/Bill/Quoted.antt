-- ===== src/Input/Bill/Quoted.antt =====
-- The loop over a quoted identifier cell: it stops exactly when the quotation mark is closed.
use relay_dev.Common.{
  ℕ, zero, suc, ◌+◌, ◌≤◌, ◌<◌, ◌≡◌, refl, subst, sym, ap, ◌∙◌, inl, inr, true, false, List, [], ◌∷◌,
  ◌++◌, append_assoc, append-nil, none, some, arith, ◌==◌, if◌then◌else◌, Option-cases, length,
  length-append, ok, err, out_of_fuel,
}
use relay_dev.Text.{Bytes, front, find_char, cell, after_cell}
use relay_dev.Text.Search.{
  Lacks, Splits, split_at, find_char-append, find_char-Lacks, cell-append, after_cell-append,
  after_cell-Lacks_all,
}
use relay_dev.Input.Bill.{is_after, quoted_identifiers}

glue : ℕ → List Bytes → List Bytes
glue x [] = (x ∷ []) ∷ []
glue x (p ∷ ps) = (x ∷ p) ∷ ps

-- The pieces between commas; an empty piece at the end does not count.
unfoldable pub pieces : Bytes → List Bytes
unfolding glue
pieces [] = []
pieces (x ∷ s) = if x == b',' then [] ∷ pieces s else glue x (pieces s)

pub pieces-append : (f s : Bytes) → Lacks b',' f → pieces (f ++ b',' ∷ s) ≡ f ∷ pieces s
unfolding pieces
pieces-append [] s h = refl
pieces-append (x ∷ f) s h = rw (h.0, pieces-append f s h.1)

pub pieces-Lacks : (x : ℕ) (f : Bytes) → Lacks b',' (x ∷ f) → pieces (x ∷ f) ≡ (x ∷ f) ∷ []
unfolding pieces
pieces-Lacks x [] h = rw h.0
pieces-Lacks x (y ∷ f) h = rw (h.0, pieces-Lacks y f h.1)

find_char-ge :
    (c : ℕ) (f r : Bytes) (j : ℕ) → Lacks c f → find_char c (f ++ r) ≡ some j → length f ≤ j
unfolding find_char
find_char-ge c [] r j h e = omega arith
find_char-ge c (x ∷ f) r j h e = elim (Option-cases (find_char c (f ++ r))) [
  | inl missed ↦ ground arith
  | inr (i, found) ↦ ground (arith, find_char-ge c f r i h.1 found)
]

-- No comma before the quotation mark: the next comma, if there is one, comes later.
is_after-Lacks :
    (f r : Bytes) → Lacks b',' f → is_after (some (length f)) (find_char b',' (f ++ r)) ≡ false
unfolding is_after
is_after-Lacks f r h = elim (Option-cases (find_char b',' (f ++ r))) [
  | inl missed ↦ rw missed
  | inr (j, found) ↦ rw found (ground (arith, find_char-ge b',' f r j h found))
]

Lacks-tail : (c d : ℕ) (f g : Bytes) → Lacks c (f ++ d ∷ g) → Lacks c g
Lacks-tail c d [] g h = h.1
Lacks-tail c d (x ∷ f) g h = Lacks-tail c d f g h.1

module _ (fuel : ℕ) (holder : Bytes) (identifier : List Bytes) where
  step_before_comma :
      (front holder == b'"') ≡ false
      → is_after (find_char b'"' holder) (find_char b',' holder) ≡ true
      → quoted_identifiers (suc fuel) holder identifier
        ≡ quoted_identifiers fuel (after_cell 1 b',' holder) (identifier ++ cell b',' holder ∷ [])
  unfolding quoted_identifiers
  step_before_comma mark order = rw (mark, order)

  step_before_quote :
      (front holder == b'"') ≡ false
      → is_after (find_char b'"' holder) (find_char b',' holder) ≡ false
      → quoted_identifiers (suc fuel) holder identifier
        ≡ quoted_identifiers fuel (after_cell 0 b'"' holder) (identifier ++ cell b'"' holder ∷ [])
  unfolding quoted_identifiers
  step_before_quote mark order = rw (mark, order)

module _ (f r : Bytes) (identifier : List Bytes) (h : Lacks b'"' f) where
  -- The last identifier of the cell.
  closes :
      (fuel : ℕ)
      → (front (f ++ b'"' ∷ r) == b'"') ≡ false
      → Lacks b',' f
      → quoted_identifiers (suc (suc fuel)) (f ++ b'"' ∷ r) identifier
        ≡ ok (identifier ++ f ∷ [], b'"' ∷ r)
  closes fuel mark none_left =
      step_before_quote (suc fuel) _ identifier mark
        (rw (find_char-append b'"' f r h) (is_after-Lacks f (b'"' ∷ r) none_left))
      ∙ rw (after_cell-append b'"' f r h 0, cell-append b'"' f r h)
          (unfold quoted_identifiers front in refl)

-- An identifier with a comma behind it.
advances :
    (fuel : ℕ) (f1 f2 r : Bytes) (identifier : List Bytes)
    → Lacks b'"' (f1 ++ b',' ∷ f2)
    → Lacks b',' f1
    → (front ((f1 ++ b',' ∷ f2) ++ b'"' ∷ r) == b'"') ≡ false
    → quoted_identifiers (suc fuel) ((f1 ++ b',' ∷ f2) ++ b'"' ∷ r) identifier
      ≡ quoted_identifiers fuel (f2 ++ b'"' ∷ r) (identifier ++ f1 ∷ [])
advances fuel f1 f2 r identifier h h1 mark =
    step_before_comma fuel _ identifier mark order
    ∙ rw (
      append_assoc f1 (b',' ∷ f2) (b'"' ∷ r),
      after_cell-append b',' f1 (f2 ++ b'"' ∷ r) h1 1,
      cell-append b',' f1 (f2 ++ b'"' ∷ r) h1,
    )
  where
    order :
        is_after
          (find_char b'"' ((f1 ++ b',' ∷ f2) ++ b'"' ∷ r))
          (find_char b',' ((f1 ++ b',' ∷ f2) ++ b'"' ∷ r))
        ≡ true
    order =
        rw
          (
            find_char-append b'"' (f1 ++ b',' ∷ f2) r h,
            append_assoc f1 (b',' ∷ f2) (b'"' ∷ r),
            find_char-append b',' f1 (f2 ++ b'"' ∷ r) h1,
          )
          (unfold is_after in ground (arith, length-append f1 (b',' ∷ f2)))

-- On a quoted cell that is closed behind `f`, the loop stops at the mark within as many rounds as `f`
-- has characters, and two more; it has appended the pieces of `f` between the commas.
pub quoted_identifiers-pieces :
    (fuel : ℕ) (f r : Bytes) (identifier : List Bytes)
    → Lacks b'"' f
    → length f + 1 < fuel
    → quoted_identifiers fuel (f ++ b'"' ∷ r) identifier ≡ ok (identifier ++ pieces f, b'"' ∷ r)
quoted_identifiers-pieces zero f r identifier h lt = elim lt [ ]
quoted_identifiers-pieces (suc fuel) [] r identifier h lt =
    unfold quoted_identifiers front pieces in rw append-nil
quoted_identifiers-pieces (suc zero) (x ∷ f) r identifier h lt = absurd (omega arith)
quoted_identifiers-pieces (suc (suc fuel)) (x ∷ f) r identifier h lt =
    go (quoted_identifiers-pieces (suc fuel)) (split_at b',' (x ∷ f))
  where
    mark : (front ((x ∷ f) ++ b'"' ∷ r) == b'"') ≡ false
    mark = unfold front in h.0

    go :
        ((f2 r2 : Bytes) (id2 : List Bytes)
          → Lacks b'"' f2
          → length f2 + 1 < suc fuel
          → quoted_identifiers (suc fuel) (f2 ++ b'"' ∷ r2) id2 ≡ ok (id2 ++ pieces f2, b'"' ∷ r2))
        → Splits b',' (x ∷ f)
        → quoted_identifiers (suc (suc fuel)) ((x ∷ f) ++ b'"' ∷ r) identifier
          ≡ ok (identifier ++ pieces (x ∷ f), b'"' ∷ r)
    go ih (inl none_left) =
        rw (pieces-Lacks x f none_left) (closes (x ∷ f) r identifier h fuel mark none_left)
    go ih (inr (f1, f2, e, h1)) =
        let lacks = subst (Lacks b'"') e h in
        subst
          (λ g.
            quoted_identifiers (suc (suc fuel)) (g ++ b'"' ∷ r) identifier
            ≡ ok (identifier ++ pieces g, b'"' ∷ r))
          (sym e)
          (rw (pieces-append f1 f2 h1) (
            advances (suc fuel) f1 f2 r identifier lacks h1
              (subst (λ g. (front (g ++ b'"' ∷ r) == b'"') ≡ false) e mark)
            ∙ ih f2 r (identifier ++ f1 ∷ []) (Lacks-tail b'"' b',' f1 f2 lacks)
                (omega (arith, ap length e, length-append f1 (b',' ∷ f2)))
            ∙ rw (append_assoc identifier (f1 ∷ []) (pieces f2))))

mark-Lacks : (s : Bytes) → Lacks b'"' s → (front s == b'"') ≡ false
unfolding front
mark-Lacks [] h = refl
mark-Lacks (x ∷ s) h = h.0

-- On a quoted cell with no closing mark the loop never stops: it runs out of any fuel.
pub quoted_identifiers-Lacks :
    (fuel : ℕ) (s : Bytes) (identifier : List Bytes)
    → Lacks b'"' s
    → quoted_identifiers fuel s identifier ≡ err out_of_fuel
quoted_identifiers-Lacks zero s identifier h = unfold quoted_identifiers in refl
quoted_identifiers-Lacks (suc fuel) s identifier h =
    go (quoted_identifiers-Lacks fuel) (split_at b',' s)
  where
    missed : find_char b'"' s ≡ none
    missed = find_char-Lacks b'"' s h

    go :
        ((r : Bytes) (id2 : List Bytes)
          → Lacks b'"' r
          → quoted_identifiers fuel r id2 ≡ err out_of_fuel)
        → Splits b',' s
        → quoted_identifiers (suc fuel) s identifier ≡ err out_of_fuel
    go ih (inl none_left) =
        step_before_quote fuel s identifier (mark-Lacks s h)
          (rw (missed, find_char-Lacks b',' s none_left) (unfold is_after in refl))
        ∙ rw (after_cell-Lacks_all b'"' s h) (ih [] _ tt)
    go ih (inr (f, r, e, h1)) =
        step_before_comma fuel s identifier (mark-Lacks s h)
          (rw missed (rw e (rw (find_char-append b',' f r h1) (unfold is_after in refl))))
        ∙ rw e (
            rw (after_cell-append b',' f r h1 1)
              (ih r _ (Lacks-tail b'"' b',' f r (subst (Lacks b'"') e h))))
