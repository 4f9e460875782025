-- ===== src/Input/Chain/Endless.antt =====
-- Netlists on which the search for the next device never ends.
use relay_dev.Common.{
  ℕ, zero, suc, ◌≡◌, ◌≢◌, refl, inl, inr, Bool, true, false, List, [], ◌∷◌, none, some,
  if◌then◌else◌, Bool-cases, Option-cases, any, Result, ok, err, undefined, out_of_fuel,
}
use relay_dev.Text.{Bytes, equal}
use relay_dev.Text.Search.{equal_iff}
use relay_dev.Data.{NetlistData, IoData}
use relay_dev.Input.Netlist.{Row, rows}
use relay_dev.Input.Chain.{
  is_dout, find_first, Devices, last_identifier, Pass, visit, scan_rows, scan_groups, follow_chain,
  first_device, get_device_order,
}
use relay_dev.Input.Chain.Links.{
  IsComplete, get_device_order-IsComplete, HasDout, Outputs, Link, start, last_identifier-Chain,
}

-- Some line of the netlist is a data output.
abbrev pub any_dout : List NetlistData → Bool
any_dout = any (λ g. any is_dout (rows g))

abbrev lost : Devices → Bool → Result Pass
lost s b = if b then err undefined else ok (s, false)

module _ (s : Devices) (none_found : s.expanders ≡ 0) where
  visit-lost : (group : List Row) (r : Row) → visit group r s ≡ lost s (is_dout r)
  unfolding visit last_identifier
  visit-lost group r = elim (Bool-cases (is_dout r)) [
    | inl dout ↦ rw (dout, none_found)
    | inr other ↦ rw other
  ]

  scan_rows-lost : (group rs : List Row) → scan_rows group rs s ≡ lost s (any is_dout rs)
  unfolding scan_rows
  scan_rows-lost group [] = refl
  scan_rows-lost group (r ∷ rs) = elim (Bool-cases (is_dout r)) [
    | inl dout ↦ rw (visit-lost group r, dout)
    | inr other ↦ rw (visit-lost group r, other) (scan_rows-lost group rs)
  ]

  scan_groups-lost : (gs : List NetlistData) → scan_groups gs s ≡ lost s (any_dout gs)
  unfolding scan_groups
  scan_groups-lost [] = refl
  scan_groups-lost (g ∷ gs) = elim (Bool-cases (any is_dout (rows g))) [
    | inl dout ↦ rw (scan_rows-lost (rows g) (rows g), dout)
    | inr other ↦ rw (scan_rows-lost (rows g) (rows g), other) (scan_groups-lost gs)
  ]

  follow_chain-lost :
      (fuel : ℕ) (gs : List NetlistData)
      → follow_chain (suc fuel) gs s ≡ err (if any_dout gs then undefined else out_of_fuel)
  unfolding follow_chain
  follow_chain-lost fuel gs = elim (Bool-cases (any_dout gs)) [
    | inl dout ↦ rw (scan_groups-lost gs, dout)
    | inr other ↦ rw (scan_groups-lost gs, other) (idle fuel other)
  ]
    where
      idle : (k : ℕ) → any_dout gs ≡ false → follow_chain k gs s ≡ err out_of_fuel
      idle zero other = refl
      idle (suc k) other = rw (scan_groups-lost gs, other) (idle k other)

-- If no group gives a first expander, `getDeviceOrder` does not return: it reads the element before
-- the vector if the netlist has a data output, and else, as on an empty netlist, it loops for ever.
pub get_device_order-lost :
    (fuel : ℕ) (gs : List NetlistData) (io : List IoData)
    → find_first gs ≡ none
    → get_device_order (suc fuel) gs io ≡ err (if any_dout gs then undefined else out_of_fuel)
unfolding get_device_order first_device
get_device_order-lost fuel gs io missed =
    follow_chain-lost (first_device gs io) (rw (missed, first_device)) fuel gs

module _ (s : Devices) (a : Bytes) (at_end : last_identifier s ≡ ok a) where
  visit-loose :
      (group : List Row) (r : Row)
      → ((is_dout r ≡ true) → r.identifier ≢ a)
      → visit group r s ≡ ok (s, false)
  unfolding visit
  visit-loose group r other = elim (Bool-cases (is_dout r)) [
    | inl dout ↦
        rw (dout, at_end)
          (elim (Bool-cases (equal r.identifier a)) [
            | inl same ↦ absurd (other dout ((equal_iff r.identifier a).0 same))
            | inr differs ↦ rw differs
          ])
    | inr no_dout ↦ rw no_dout
  ]

  scan_rows-loose : (group rs : List Row) → ¬ HasDout a rs → scan_rows group rs s ≡ ok (s, false)
  unfolding scan_rows
  scan_rows-loose group [] h = refl
  scan_rows-loose group (r ∷ rs) h =
      rw (visit-loose group r (λ dout same. h (inl (dout, same))))
        (scan_rows-loose group rs (λ out. h (inr out)))

  scan_groups-loose : (gs : List NetlistData) → ¬ Outputs gs a → scan_groups gs s ≡ ok (s, false)
  unfolding scan_groups
  scan_groups-loose [] h = refl
  scan_groups-loose (g ∷ gs) h =
      rw (scan_rows-loose (rows g) (rows g) (λ out. h (inl out)))
        (scan_groups-loose gs (λ out. h (inr out)))

  follow_chain-loose :
      (fuel : ℕ) (gs : List NetlistData) → ¬ Outputs gs a → follow_chain fuel gs s ≡ err out_of_fuel
  unfolding follow_chain
  follow_chain-loose zero gs h = refl
  follow_chain-loose (suc fuel) gs h = rw (scan_groups-loose gs h) (follow_chain-loose fuel gs h)

-- If the first expander's output is on no line, `getDeviceOrder` loops for ever.
pub get_device_order-loose :
    (fuel : ℕ) (gs : List NetlistData) (first : Bytes)
    → find_first gs ≡ some first
    → ¬ Outputs gs first
    → get_device_order fuel gs [] ≡ err out_of_fuel
unfolding get_device_order
get_device_order-loose fuel gs first found h =
    follow_chain-loose (first_device gs []) first
      (last_identifier-Chain {L = Link gs} {s = first_device gs []} start (rw (found, first_device))
        (rw (found, first_device)))
      fuel gs h

-- `getDeviceOrder` returns on a netlist with a first expander only.
pub get_device_order-found :
    (fuel : ℕ) (gs : List NetlistData) (io : List IoData)
    → get_device_order fuel gs [] ≡ ok io
    → (first : Bytes) × (find_first gs ≡ some first) × IsComplete gs first io
unfolding get_device_order follow_chain
get_device_order-found zero gs io h = cc
get_device_order-found (suc fuel) gs io h = elim (Option-cases (find_first gs)) [
  | inl missed ↦ cc (get_device_order-lost fuel gs [] missed)
  | inr (first, found) ↦ (first, found, get_device_order-IsComplete (suc fuel) gs first io found h)
]
