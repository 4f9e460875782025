-- ===== src/Relay/Enum/Breaks.antt =====
-- The search for the underscores of a name ends, and finds every one.
use relay_dev.Common.{
  ℕ, zero, suc, ◌+◌, ◌<◌, ◌≡◌, refl, sym, ap, ◌∙◌, inl, inr, List, [], ◌∷◌, ◌++◌, append_assoc,
  append-nil, none, some, arith, if◌then◌else◌, ◌==◌, Bool-cases, length, length-append, drop, ok,
}
use relay_dev.Text.{Bytes, find_char}
use mathlib.Core.Option
use relay_dev.Text.Search.{Lacks, Splits, split_at, find_char-append, find_char-Lacks}
use relay_dev.Relay.Enum.{find_from, find_breaks, breaks_of}

-- The positions of the underscores, the first byte being at `i`.
pub positions : ℕ → Bytes → List ℕ
positions i [] = []
positions i (x ∷ s) = if x == b'_' then i ∷ positions (suc i) s else positions (suc i) s

pub positions-Lacks :
    (i : ℕ) (f s : Bytes) → Lacks b'_' f → positions i (f ++ s) ≡ positions (i + length f) s
unfolding positions
positions-Lacks i [] s h = let e : i + 0 ≡ i = omega arith in rw e
positions-Lacks i (x ∷ f) s h =
    let e : i + suc (length f) ≡ suc i + length f = omega arith in
    rw (h.0, e) (positions-Lacks (suc i) f s h.1)

pub positions_none : (i : ℕ) (f : Bytes) → Lacks b'_' f → positions i f ≡ []
unfolding positions
positions_none i [] h = refl
positions_none i (x ∷ f) h = rw h.0 (positions_none (suc i) f h.1)

pub positions-append :
    (i : ℕ) (s t : Bytes) → positions i (s ++ t) ≡ positions i s ++ positions (i + length s) t
unfolding positions
positions-append i [] t = let e : i + 0 ≡ i = omega arith in rw e
positions-append i (x ∷ s) t =
    let e : i + suc (length s) ≡ suc i + length s = omega arith in
    rw (positions-append (suc i) s t, e)
      (elim (Bool-cases (x == b'_')) [ inl hit ↦ rw hit | inr miss ↦ rw miss ])

pub positions-cons : (i : ℕ) (s : Bytes) → positions i (b'_' ∷ s) ≡ i ∷ positions (suc i) s
unfolding positions
positions-cons i s = refl

pub drop_front : (p s : Bytes) → drop (length p) (p ++ s) ≡ s
drop_front [] s = refl
drop_front (x ∷ p) s = drop_front p s

find_from-front :
    (p s : Bytes)
    → find_from (length p) (p ++ s) ≡ Option.map (λ i. length p + i) (find_char b'_' s)
unfolding find_from
find_from-front p s = rw (drop_front p s)

stops :
    (fuel start : ℕ) (name : Bytes) (breaks : List ℕ)
    → find_from start name ≡ none
    → find_breaks (suc fuel) start name breaks ≡ ok breaks
unfolding find_breaks
stops fuel start name breaks e = rw (e, find_breaks)

advances :
    (fuel start t : ℕ) (name : Bytes) (breaks : List ℕ)
    → find_from start name ≡ some t
    → find_breaks (suc fuel) start name breaks ≡ find_breaks fuel (t + 1) name (breaks ++ t ∷ [])
unfolding find_breaks
advances fuel start t name breaks e = rw (e, find_breaks)

-- The rounds that are left, at the byte behind `p`.
find_breaks-positions :
    (fuel : ℕ) (p s : Bytes) (breaks : List ℕ)
    → length s < fuel
    → find_breaks fuel (length p) (p ++ s) breaks ≡ ok (breaks ++ positions (length p) s)
find_breaks-positions zero p s breaks lt = elim lt [ ]
find_breaks-positions (suc fuel) p s breaks lt = go (find_breaks-positions fuel) (split_at b'_' s)
  where
    go :
        ((p2 s2 : Bytes) (breaks2 : List ℕ)
          → length s2 < fuel
          → find_breaks fuel (length p2) (p2 ++ s2) breaks2
            ≡ ok (breaks2 ++ positions (length p2) s2))
        → Splits b'_' s
        → find_breaks (suc fuel) (length p) (p ++ s) breaks ≡ ok (breaks ++ positions (length p) s)
    go ih (inl none_left) =
        stops fuel (length p) (p ++ s) breaks
          (find_from-front p s ∙ rw (find_char-Lacks b'_' s none_left))
        ∙ ap ok (sym (rw (positions_none (length p) s none_left) (append-nil breaks)))
    go ih (inr (f, r, e, h)) =
        advances fuel (length p) (length p + length f) (p ++ s) breaks
          (find_from-front p s ∙ rw e (rw (find_char-append b'_' f r h)))
        ∙ rw (behind, whole)
            (ih (p ++ (f ++ b'_' ∷ [])) r (breaks ++ (length p + length f) ∷ [])
              (omega (arith, ap length e, length-append f (b'_' ∷ r))))
        ∙ ap ok (
            append_assoc breaks ((length p + length f) ∷ []) _
            ∙ ap (◌++◌ breaks) (
                sym (
                  ap (positions (length p)) e
                  ∙ positions-Lacks (length p) f (b'_' ∷ r) h
                  ∙ positions-cons (length p + length f) r
                  ∙ ap (λ k. (length p + length f) ∷ positions k r) next)))
      where
        sizes : length (p ++ (f ++ b'_' ∷ [])) ≡ length p + length f + 1
        sizes = omega (arith, length-append p (f ++ b'_' ∷ []), length-append f (b'_' ∷ []))

        behind : length p + length f + 1 ≡ length (p ++ (f ++ b'_' ∷ []))
        behind = sym sizes

        next : suc (length p + length f) ≡ length (p ++ (f ++ b'_' ∷ []))
        next = omega (arith, sizes)

        whole : p ++ s ≡ (p ++ (f ++ b'_' ∷ [])) ++ r
        whole =
            ap (◌++◌ p) (e ∙ sym (append_assoc f (b'_' ∷ []) r))
            ∙ sym (append_assoc p (f ++ b'_' ∷ []) r)

-- The loop over the underscores returns on every name, with all their positions in order.
pub breaks_of-positions : (name : Bytes) → breaks_of name ≡ ok (positions 0 name)
unfolding breaks_of
breaks_of-positions name = find_breaks-positions (length name + 1) [] name [] (omega arith)
