-- ===== src/Relay/Port/Pins.antt =====
-- The switch of `convertPort` against the one of `filterNetlistData`.
use relay_dev.Common.{
  ℕ, ◌<◌, ◌≡◌, ◌≢◌, refl, sym, subst, ◌∙◌, inl, inr, Bool, true, not, ◌&&◌, ◌||◌, List, [], ◌∷◌,
  arith, ◌==◌, leb, ltb, Bool-cases, all, pos, ==_iff, and-left, and-right, all_below,
  all_below_sound,
}
use mathlib.Core.Bool.{beq}
use relay_dev.Text.{Bytes, equal}
use relay_dev.Text.Search.{equal_iff}
use relay_dev.Input.Filter.{is_reserved}
use relay_dev.Relay.Port.{port_cases, find_case, port_of}

-- A test that holds of every case holds of the one that is found.
find_case-all :
    (p : ℕ × Bytes → Bool) (n : ℕ) (cases : List (ℕ × Bytes))
    → all p cases ≡ true
    → find_case (pos n) cases ≢ []
    → p (n, find_case (pos n) cases) ≡ true
unfolding find_case
find_case-all p n [] h ne = absurd (ne refl)
find_case-all p n ((m, port) ∷ cases) h ne = elim (Bool-cases (n == m)) [
  | inl hit ↦ rw hit (
      subst (λ k. p (k, port) ≡ true) (sym ((==_iff n m).0 hit))
        (and-left (p (m, port)) (all p cases) h))
  | inr miss ↦ rw miss (
      find_case-all p n cases (and-right (p (m, port)) (all p cases) h)
        (λ e. ne (rw (miss, find_case) e)))
]

differs : Bytes → ℕ → ℕ × Bytes → Bool
differs s n (m, t) = not (equal s t) || n == m

has_own_port : ℕ × Bytes → Bool
unfolding differs
has_own_port (n, s) = all (differs s n) port_cases

has_own_port-all : all has_own_port port_cases ≡ true
unfolding has_own_port equal
has_own_port-all = refl

differs-eq : (s t : Bytes) (n m : ℕ) → s ≡ t → differs s n (m, t) ≡ true → n ≡ m
unfolding differs
differs-eq s t n m e h = ground (arith, (equal_iff s t).1 e)

-- No two pins of the expander that have a port have the same one.
pub port_of-injective : (n m : ℕ) → port_of (pos n) ≢ [] → port_of (pos n) ≡ port_of (pos m) → n ≡ m
unfolding port_of
port_of-injective n m ne e = differs-eq (port_of (pos n)) (port_of (pos m)) n m e (
    find_case-all (differs (port_of (pos n)) n) m port_cases
      (unfold has_own_port in find_case-all has_own_port n port_cases has_own_port-all ne)
      (λ none_found. ne (e ∙ none_found)))

in_range : ℕ × Bytes → Bool
in_range (n, s) = leb n 30

in_range-all : all in_range port_cases ≡ true
unfolding in_range
in_range-all = refl

above_range : (n : ℕ) → 30 < n → port_of (pos n) ≡ []
unfolding port_of
above_range n h = elim (Bool-cases (equal (port_of (pos n)) [])) [
  | inl empty ↦ (equal_iff (port_of (pos n)) []).0 empty
  | inr filled ↦ absurd (
      unfold in_range in
      ground (
        arith,
        find_case-all in_range n port_cases in_range-all
            (λ e. cc ((equal_iff (port_of (pos n)) []).1 e)),
      ))
]

abbrev agrees : ℕ → Bool
agrees n =
    beq (equal (port_of (pos n)) []) (not (leb 1 n && (leb n 30 && not (is_reserved (pos n)))))

agrees-all : all_below agrees 31 ≡ true
unfolding all_below port_of is_reserved equal
agrees-all = refl

beq→eq : (a b : Bool) → beq a b ≡ true → a ≡ b
beq→eq a b h = ground arith

has_port :
    (n : ℕ) → equal (port_of (pos n)) [] ≡ not (leb 1 n && (leb n 30 && not (is_reserved (pos n))))
has_port n = elim (Bool-cases (ltb n 31)) [
  | inl low ↦
      beq→eq (equal (port_of (pos n)) []) (not (leb 1 n && (leb n 30 && not (is_reserved (pos n)))))
        (all_below_sound agrees 31 n (ground arith) agrees-all)
  | inr high ↦ rw (above_range n (ground arith)) (unfold equal in ground arith)
]

-- The pins that the case labels name.
abbrev pub set_aside : ℕ → Bool
set_aside n = (n == 11) || ((n == 20) || (leb 31 n && leb n 40))

is_reserved-eq : (n : ℕ) → is_reserved (pos n) ≡ set_aside n
unfolding is_reserved
is_reserved-eq n = ground arith

-- Of the numbers from 0 on, `filterNetlistData` sets aside 11, 20 and 31 to 40 and no other, and those
-- for which `convertPort` has no port are these, 0, and all from 41 on.
pub port_of-eq-nil :
    (n : ℕ)
    → (is_reserved (pos n) ≡ set_aside n)
      × (equal (port_of (pos n)) [] ≡ (is_reserved (pos n) || ((n == 0) || leb 41 n)))
port_of-eq-nil n =
    let reserved = is_reserved-eq n in
    let port = has_port n in (reserved, ground (arith, reserved, port))
