-- ===== src/Input/Chain/Finite.antt =====
-- Netlists on which the search for the next device ends: no cycle, and every output on a line.
use relay_dev.Common.{
  ℕ, zero, suc, ◌≤◌, ◌<◌, ◌≡◌, refl, subst, ◌⊎◌, inl, inr, true, false, List, [], ◌∷◌, some, arith,
  Bool-cases, Option-cases, Result, ok, err, ◌>>=◌,
}
use relay_dev.Text.{Bytes, equal}
use relay_dev.Text.Search.{equal_iff}
use relay_dev.Data.{NetlistData, IoData}
use relay_dev.Input.Netlist.{Row, rows}
use relay_dev.Input.Chain.{
  is_dout, find_din, find_first, Devices, Pass, follow, visit, scan_rows, scan_groups, follow_chain,
  first_device, get_device_order,
}
use relay_dev.Input.Chain.Links.{
  HasDout, Outputs, Link, here, there, Chain, start, link, last_identifier-Chain, add_device-Chain,
}

-- The links run down, so that there is no cycle.
abbrev pub Descends : (Bytes → ℕ) → (Bytes → Bytes → Type 0) → Type 0
Descends rank L = (a b : Bytes) → L a b → rank b < rank a

-- A line is the output of the last device, which is followed, or it changes nothing.
visit-cases :
    {L : Bytes → Bytes → Type 0} {first b : Bytes} (group : List Row) (r : Row) (s : Devices)
    → Chain L first s.io_data s.expanders b
    → ((is_dout r ≡ true) × (r.identifier ≡ b) × (visit group r s ≡ ok (follow group s)))
      ⊎ (¬ ((is_dout r ≡ true) × (r.identifier ≡ b)) × (visit group r s ≡ ok (s, false)))
unfolding visit
visit-cases {b} group r s c = elim (Bool-cases (is_dout r)) [
  | inr other ↦ inr ((λ h. cc h.0), rw other)
  | inl dout ↦ elim (Bool-cases (equal r.identifier b)) [
    | inl same ↦ inl (
      dout,
      (equal_iff r.identifier b).0 same,
      rw (dout, last_identifier-Chain {s = s} c refl refl, same),
    )
    | inr differs ↦ inr (
      (λ h. cc ((equal_iff r.identifier b).1 h.1)),
      rw (dout, last_identifier-Chain {s = s} c refl refl, differs),
    )
  ]
]

-- One round from the last device `a`: a later device has been reached, or `a` is still to be met.
module _ (L : Bytes → Bytes → Type 0) (first a : Bytes) (rank : Bytes → ℕ) where
  abbrev Passed : Devices → Type 0
  Passed s = (b : Bytes) × Chain L first s.io_data s.expanders b × (rank b < rank a)

  abbrev After : Type 0 → Result Pass → Type 0
  After Later (ok (s, true)) = Unit
  After Later (ok (s, false)) = (Chain L first s.io_data s.expanders a × Later) ⊎ Passed s
  After Later (err e) = ⊥

  on-After :
      (Now Later : Type 0) (m : Result Pass) (k : Devices → Result Pass)
      → After Now m
      → ((s : Devices)
          → (Chain L first s.io_data s.expanders a × Now) ⊎ Passed s
          → After Later (k s))
      → After Later
          (m >>= λ (s', last_device). elim last_device [ true ↦ ok (s', true) | false ↦ k s' ])
  on-After Now Later (ok (s, true)) k h go = tt
  on-After Now Later (ok (s, false)) k h go = go s h
  on-After Now Later (err e) k h go = h

  module _ (drops : Descends rank L) where
    follow-After :
        (Later : Type 0) (group : List Row) (s : Devices) (b : Bytes)
        → Chain L first s.io_data s.expanders b
        → rank b ≤ rank a
        → ((c : Bytes) → find_din group ≡ some c → L b c)
        → After Later (ok (follow group s))
    unfolding follow
    follow-After Later group s b c le links = elim (Option-cases (find_din group)) [
      | inl missed ↦ rw (missed, follow) tt
      | inr (d, found) ↦
          let l = links d found in
          let lt = drops b d l in rw (found, follow) (inr (d, add_device-Chain c l, omega arith))
    ]

    visit-After :
        (Later : Type 0) (group : List Row) (r : Row) (s : Devices)
        → (is_dout r ≡ true → (c : Bytes) → find_din group ≡ some c → L r.identifier c)
        → (Chain L first s.io_data s.expanders a
            × (((is_dout r ≡ true) × (r.identifier ≡ a)) ⊎ Later))
          ⊎ Passed s
        → After Later (visit group r s)
    visit-After Later group r s links (inl (c, todo)) = elim (visit-cases group r s c) [
      | inl (dout, same, e) ↦ rw e (
          follow-After Later group s a c (omega arith)
            (λ d found. subst (λ x. L x d) same (links dout d found)))
      | inr (other, e) ↦ rw e (inl (c, later todo other))
    ]
      where
        later :
            ((is_dout r ≡ true) × (r.identifier ≡ a)) ⊎ Later
            → ¬ ((is_dout r ≡ true) × (r.identifier ≡ a))
            → Later
        later (inl h) other = absurd (other h)
        later (inr h) other = h
    visit-After Later group r s links (inr (b, c, lt)) = elim (visit-cases group r s c) [
      | inl (dout, same, e) ↦ rw e (
          follow-After Later group s b c (omega arith)
            (λ d found. subst (λ x. L x d) same (links dout d found)))
      | inr (other, e) ↦ rw e (inr (b, c, lt))
    ]

    scan_rows-After :
        (Later : Type 0) (group rs : List Row) (s : Devices)
        → ((x c : Bytes) → HasDout x rs → find_din group ≡ some c → L x c)
        → (Chain L first s.io_data s.expanders a × (HasDout a rs ⊎ Later)) ⊎ Passed s
        → After Later (scan_rows group rs s)
    unfolding scan_rows
    scan_rows-After Later group [] s links (inl (c, inl none_left)) = absurd none_left
    scan_rows-After Later group [] s links (inl (c, inr later)) = inl (c, later)
    scan_rows-After Later group [] s links (inr passed) = inr passed
    scan_rows-After Later group (r ∷ rs) s links st =
        on-After (HasDout a rs ⊎ Later) Later (visit group r s) (scan_rows group rs)
          (visit-After (HasDout a rs ⊎ Later) group r s
            (λ dout c found. links r.identifier c (inl (dout, refl)) found) (regroup st))
          (λ s' st'. scan_rows-After Later group rs s' (λ x c h found. links x c (inr h) found) st')
      where
        regroup :
            (Chain L first s.io_data s.expanders a × (HasDout a (r ∷ rs) ⊎ Later)) ⊎ Passed s
            → (Chain L first s.io_data s.expanders a
                × (((is_dout r ≡ true) × (r.identifier ≡ a)) ⊎ (HasDout a rs ⊎ Later)))
              ⊎ Passed s
        regroup (inl (c, inl (inl h))) = inl (c, inl h)
        regroup (inl (c, inl (inr h))) = inl (c, inr (inl h))
        regroup (inl (c, inr h)) = inl (c, inr (inr h))
        regroup (inr h) = inr h

    scan_groups-After :
        (gs : List NetlistData) (s : Devices)
        → ((x c : Bytes) → Link gs x c → L x c)
        → (Chain L first s.io_data s.expanders a × Outputs gs a) ⊎ Passed s
        → After ⊥ (scan_groups gs s)
    unfolding scan_groups
    scan_groups-After [] s links (inl (c, none_left)) = absurd none_left
    scan_groups-After [] s links (inr passed) = inr passed
    scan_groups-After (g ∷ gs) s links st =
        on-After (Outputs gs a) ⊥ (scan_rows (rows g) (rows g) s) (scan_groups gs)
          (scan_rows-After (Outputs gs a) (rows g) (rows g) s
            (λ x c out found. links x c (here out found)) st)
          (λ s' st'. scan_groups-After gs s' (λ x c l. links x c (there l)) st')

-- No cycle, and every expander that is reached has its output on a line.
pub record IsFinite (rank : Bytes → ℕ) (gs : List NetlistData) (first : Bytes) : Type 0 where
  pub descends : (a b : Bytes) → Link gs a b → rank b < rank a
  pub first_output : Outputs gs first
  pub next_output : (a b : Bytes) → Link gs a b → Outputs gs b

module _ (rank : Bytes → ℕ) (gs : List NetlistData) (first : Bytes)
    (f : IsFinite rank gs first) where
  last_output : {io : List IoData} {n : ℕ} {a : Bytes} → Chain (Link gs) first io n a → Outputs gs a
  last_output start = f.first_output
  last_output (link {a} {b} c l e p) = f.next_output a b l

  follow_chain-total :
      (fuel : ℕ) (s : Devices) (a : Bytes)
      → Chain (Link gs) first s.io_data s.expanders a
      → rank a < fuel
      → (io : List IoData) × (follow_chain fuel gs s ≡ ok io)
  unfolding follow_chain
  follow_chain-total zero s a c lt = elim lt [ ]
  follow_chain-total (suc fuel) s a c lt =
      go (scan_groups gs s)
        (scan_groups-After (Link gs) first a rank f.descends gs s (λ x y l. l)
          (inl (c, last_output c)))
        (follow_chain-total fuel)
    where
      go :
          (m : Result Pass)
          → After (Link gs) first a rank ⊥ m
          → ((s' : Devices) (b : Bytes)
              → Chain (Link gs) first s'.io_data s'.expanders b
              → rank b < fuel
              → (io : List IoData) × (follow_chain fuel gs s' ≡ ok io))
          → (io : List IoData) × ((m >>= λ (s', last_device). elim last_device [
            | true ↦ ok s'.io_data
            | false ↦ follow_chain fuel gs s'
          ])
              ≡ ok io)
      go (ok (s', true)) h ih = (s'.io_data, refl)
      go (ok (s', false)) (inl (c', none_left)) ih = absurd none_left
      go (ok (s', false)) (inr (b, c', down)) ih = ih s' b c' (omega arith)
      go (err e) h ih = absurd h

-- `getDeviceOrder` returns if the links have no cycle, and the first expander and every one that is
-- linked to have their output on a line. The rank of the first expander bounds the rounds.
pub get_device_order-total :
    (rank : Bytes → ℕ) (fuel : ℕ) (gs : List NetlistData) (first : Bytes)
    → find_first gs ≡ some first
    → IsFinite rank gs first
    → rank first < fuel
    → (io : List IoData) × (get_device_order fuel gs [] ≡ ok io)
unfolding get_device_order
get_device_order-total rank fuel gs first found f lt =
    follow_chain-total rank gs first f fuel (first_device gs []) first
      (rw (found, first_device) start) lt
