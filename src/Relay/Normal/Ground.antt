-- ===== src/Relay/Normal/Ground.antt =====
-- The search for the ground looks at the resistor's first two connections in the netlist.
use relay_dev.Common.{
  ℕ, suc, ◌≡◌, refl, ap, inl, inr, Bool, true, false, ◌||◌, List, [], ◌∷◌, ◌++◌, if◌then◌else◌,
  ◌==◌, Bool-cases, take, select, any,
}
use relay_dev.Text.{Bytes, codes, equal}
use relay_dev.Data.{NetlistData}
use relay_dev.Input.Netlist.{Row, rows}
use relay_dev.Input.Netlist.Lines.{all_rows}
use relay_dev.Relay.Normal.{scan_pins, scan_netlist}

-- The lines of the resistor.
abbrev pub connections : Bytes → List Row → List Row
connections x = select (λ r. equal r.identifier x)

abbrev pub is_ground : Row → Bool
is_ground r = equal r.name (codes "GND")

-- The loop as it runs over the resistor's lines alone.
tally : List Row → ℕ → Bool × ℕ
tally [] t = (false, t)
tally (r ∷ rs) t =
    let rest = tally rs (suc t) in
    if is_ground r then (true, t) else if suc t == 2 then (false, suc t) else rest

scan_pins-tally :
    (x : Bytes) (rs : List Row) (t : ℕ) → scan_pins x rs t ≡ tally (connections x rs) t
unfolding scan_pins tally
scan_pins-tally x [] t = refl
scan_pins-tally x (r ∷ rs) t = elim (Bool-cases (equal r.identifier x)) [
  | inl hit ↦ rw (hit, scan_pins-tally x rs (suc t))
  | inr miss ↦ rw miss (scan_pins-tally x rs t)
]

select-append :
    (p : Row → Bool) (xs ys : List Row) → select p (xs ++ ys) ≡ select p xs ++ select p ys
select-append p [] ys = refl
select-append p (x ∷ xs) ys = elim (Bool-cases (p x)) [
  | inl hit ↦ rw hit (ap (◌∷◌ x) (select-append p xs ys))
  | inr miss ↦ rw miss (select-append p xs ys)
]

abbrev proceed : Bool × ℕ → (ℕ → Bool) → Bool
proceed (gnd, t) k = if gnd || t == 2 then gnd else k t

tally-two :
    (hs ts : List Row) (k : ℕ → Bool)
    → k 0 ≡ any is_ground (take 2 ts)
    → k 1 ≡ any is_ground (take 1 ts)
    → (proceed (tally hs 0) k ≡ any is_ground (take 2 (hs ++ ts)))
      × (proceed (tally hs 1) k ≡ any is_ground (take 1 (hs ++ ts)))
unfolding tally
tally-two [] ts k none_yet one_yet = (none_yet, one_yet)
tally-two (h ∷ []) ts k none_yet one_yet = elim (Bool-cases (is_ground h)) [
  | inl gnd ↦ rw gnd (refl, refl)
  | inr other ↦ rw other (one_yet, refl)
]
tally-two (h ∷ h2 ∷ hs) ts k none_yet one_yet = elim (Bool-cases (is_ground h)) [
  | inl gnd ↦ rw gnd (refl, refl)
  | inr other ↦ rw other (elim (Bool-cases (is_ground h2)) [
    | inl gnd2 ↦ rw gnd2 (refl, refl)
    | inr other2 ↦ rw other2 (refl, refl)
  ])
]

scan_netlist-connections :
    (x : Bytes) (gs : List NetlistData)
    → (scan_netlist x gs 0 ≡ any is_ground (take 2 (connections x (all_rows gs))))
      × (scan_netlist x gs 1 ≡ any is_ground (take 1 (connections x (all_rows gs))))
unfolding scan_netlist all_rows
scan_netlist-connections x [] = (refl, refl)
scan_netlist-connections x (g ∷ gs) =
    rw
      (
        scan_pins-tally x (rows g) 0,
        scan_pins-tally x (rows g) 1,
        select-append (λ r. equal r.identifier x) (rows g) (all_rows gs),
      )
      (tally-two (connections x (rows g)) (connections x (all_rows gs)) (scan_netlist x gs)
        (scan_netlist-connections x gs).0 (scan_netlist-connections x gs).1)

-- The resistor counts as tied to the ground exactly if one of its first two connections in the
-- netlist, in the order of the file, is on the net GND.
pub scan_netlist-ground :
    (x : Bytes) (gs : List NetlistData)
    → scan_netlist x gs 0 ≡ any is_ground (take 2 (connections x (all_rows gs)))
scan_netlist-ground x gs = (scan_netlist-connections x gs).0
