-- ===== src/Relay/Enum/Shape.antt =====
-- What `convertEnum` makes of a name: what stands between the first underscore and the last one is
-- replaced by CIB, and a name that ends in no digit loses its last word.
use relay_dev.Common.{
  ℕ, zero, suc, ◌+◌, ◌-◌, ◌≤◌, ◌<◌, ◌≡◌, refl, ap, ◌∙◌, inl, inr, true, false, List, [], ◌∷◌, ◌++◌,
  append_assoc, Option, none, some, arith, ltb, Bool-cases, length, length-append, take,
  take-append, ok, err, undefined,
}
use relay_dev.Text.{Bytes, codes, is_digit, last, find_text}
use relay_dev.Text.Search.{Lacks}
use relay_dev.Relay.Enum.{first, suffix, convert_enum}
use relay_dev.Relay.Enum.Breaks.{
  positions, positions-Lacks, positions_none, positions-append, positions-cons, breaks_of-positions,
  drop_front,
}

last-push : (xs : List ℕ) (x : ℕ) → last (xs ++ x ∷ []) ≡ some x
unfolding last
last-push [] x = refl
last-push (y ∷ []) x = refl
last-push (y ∷ z ∷ xs) x = last-push (z ∷ xs) x

-- The first underscore stands behind `a`.
first_break : (a r : Bytes) → Lacks b'_' a → first (positions 0 (a ++ b'_' ∷ r)) ≡ some (length a)
unfolding first
first_break a r h =
    let e : 0 + length a ≡ length a = omega arith in
    rw (positions-Lacks 0 a (b'_' ∷ r) h, e, positions-cons (length a) r)

-- The last one stands behind `b`.
last_break : (b z : Bytes) → Lacks b'_' z → last (positions 0 (b ++ b'_' ∷ z)) ≡ some (length b)
last_break b z h =
    let e : 0 + length b ≡ length b = omega arith in
    rw
      (
        positions-append 0 b (b'_' ∷ z),
        e,
        positions-cons (length b) z,
        positions_none (suc (length b)) z h,
      )
      (last-push (positions 0 b) (length b))

take-upto : (a : Bytes) (x : ℕ) (r : Bytes) → take (length a + 1) (a ++ x ∷ r) ≡ a ++ x ∷ []
take-upto a x r =
    let e : length (a ++ x ∷ []) ≡ length a + 1 = omega (arith, length-append a (x ∷ [])) in
    rw (← e, ← append_assoc a (x ∷ []) r) (take-append (a ++ x ∷ []) r)

take_all : (k : ℕ) (s : Bytes) → length s ≤ k → take k s ≡ s
take_all zero [] h = refl
take_all zero (x ∷ s) h = absurd (omega arith)
take_all (suc k) [] h = refl
take_all (suc k) (x ∷ s) h = ap (◌∷◌ x) (take_all k s (omega arith))

suffix-take :
    (b s : Bytes) (d : ℕ)
    → length b ≤ d + 1
    → suffix (b ++ s) d (length b) ≡ take (d + 1 - length b) s
unfolding suffix
suffix-take b s d h =
    let test : ltb (d + 1) (length b) ≡ false = ground arith in rw (test, drop_front b s)

module _ (a r b z : Bytes) (d : ℕ) (same : b ++ b'_' ∷ z ≡ a ++ b'_' ∷ r) (front : Lacks b'_' a)
    (back : Lacks b'_' z) (ends : last (b ++ b'_' ∷ z) ≡ some d) where
  first_break_here : first (positions 0 (b ++ b'_' ∷ z)) ≡ some (length a)
  first_break_here = rw same (first_break a r front)

  take_here : take (length a + 1) (b ++ b'_' ∷ z) ≡ a ++ b'_' ∷ []
  take_here = rw same (take-upto a b'_' r)

  convert_enum-suffix :
      is_digit d ≡ true
      → convert_enum (b ++ b'_' ∷ z)
        ≡ ok ((a ++ b'_' ∷ []) ++ (codes "CIB" ++ suffix (b ++ b'_' ∷ z) d (length b)))
  unfolding convert_enum
  convert_enum-suffix digit = rw (
    ends,
    digit,
    breaks_of-positions (b ++ b'_' ∷ z),
    first_break_here,
    last_break b z back,
    take_here,
  )

  -- A name with an underscore that ends in a digit keeps its first word and its last one, with
  -- CIB between them, if it is no longer than the code of that digit, plus one: every name of
  -- up to 49 characters.
  pub convert_enum-digit :
      is_digit d ≡ true
      → length (b ++ b'_' ∷ z) ≤ d + 1
      → convert_enum (b ++ b'_' ∷ z) ≡ ok (a ++ b'_' ∷ (codes "CIB" ++ b'_' ∷ z))
  convert_enum-digit digit fits =
      let size = length-append b (b'_' ∷ z) in
      convert_enum-suffix digit
      ∙ rw
          (
            suffix-take b (b'_' ∷ z) d (omega (arith, size)),
            take_all (d + 1 - length b) (b'_' ∷ z) (omega (arith, size)),
          )
          (ap ok (append_assoc a (b'_' ∷ []) (codes "CIB" ++ b'_' ∷ z)))

  -- A name that ends in a digit and reaches past the code of that digit, plus one, while its last
  -- underscore does not, loses the end of its last word: the count is taken from the code of the
  -- last character, not from the length of the name.
  pub convert_enum-cut :
      is_digit d ≡ true
      → length b ≤ d + 1
      → d + 1 < length (b ++ b'_' ∷ z)
      → (convert_enum (b ++ b'_' ∷ z)
          ≡ ok (a ++ b'_' ∷ (codes "CIB" ++ take (d + 1 - length b) (b'_' ∷ z))))
        × (d + 1 - length b < length (b'_' ∷ z))
  convert_enum-cut digit starts long =
      let size = length-append b (b'_' ∷ z) in
      (
        convert_enum-suffix digit
            ∙ rw (suffix-take b (b'_' ∷ z) d starts) (
                ap ok
                  (append_assoc a (b'_' ∷ []) (codes "CIB" ++ take (d + 1 - length b) (b'_' ∷ z)))),
        omega (arith, size),
      )

-- A name with an underscore that does not end in a digit and has no SYSGND has its last word
-- replaced by CIB.
pub convert_enum-word :
    (b z : Bytes) (d : ℕ)
    → Lacks b'_' z
    → last (b ++ b'_' ∷ z) ≡ some d
    → is_digit d ≡ false
    → find_text (codes "SYSGND") (b ++ b'_' ∷ z) ≡ none
    → convert_enum (b ++ b'_' ∷ z) ≡ ok (b ++ b'_' ∷ codes "CIB")
unfolding convert_enum
convert_enum-word b z d back ends other no_ground =
    rw
      (
        ends,
        other,
        no_ground,
        breaks_of-positions (b ++ b'_' ∷ z),
        last_break b z back,
        take-upto b b'_' z,
      )
      (ap ok (append_assoc b (b'_' ∷ []) (codes "CIB")))

-- A name with no underscore and no SYSGND makes `convertEnum` read an element of an empty vector,
-- or the end of an empty name.
pub convert_enum-Lacks :
    (name : Bytes)
    → Lacks b'_' name
    → find_text (codes "SYSGND") name ≡ none
    → convert_enum name ≡ err undefined
unfolding convert_enum
convert_enum-Lacks name h no_ground = go (last name) refl
  where
    go : (o : Option ℕ) → last name ≡ o → convert_enum name ≡ err undefined
    go none e = rw e
    go (some d) e = elim (Bool-cases (is_digit d)) [
      | inl digit ↦
          rw (e, digit, breaks_of-positions name, positions_none 0 name h) (unfold first in refl)
      | inr other ↦
          rw (e, other, no_ground, breaks_of-positions name, positions_none 0 name h)
            (unfold last in refl)
    ]
