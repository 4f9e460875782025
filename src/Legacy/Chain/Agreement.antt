-- ===== src/Legacy/Chain/Agreement.antt =====
-- Where both find the same first expander, the console program orders the devices as the service.
use relay_dev.Common.{
  ℕ, zero, suc, ◌≡◌, refl, sym, inl, inr, Bool, true, false, List, [], ◌∷◌, some, get_elem?, Result,
  ok, err, ◌>>=◌,
}
use relay_dev.Common.{Bool-cases, Option-cases}
use relay_dev.Text.{Bytes, equal}
use relay_dev.Data.{NetlistData, new_io}
use relay_dev.Input.Netlist.{Row, rows}
use relay_dev.Input.Chain.{is_dout, find_din, find_first, Devices, Pass}
use relay_dev.Input.Chain
use relay_dev.Legacy.Chain.{
  Order, follow, visit, scan_rows, scan_groups, follow_chain, get_first_device, get_device_order,
}

-- The service counts the devices, and the console program has the index of the last one.
abbrev devices : Order → Devices
devices s = record { io_data = s.io_data; expanders = suc s.expanders }

abbrev pass : Result (Order × Bool) → Result Pass
pass (ok (s, last_device)) = ok (devices s, last_device)
pass (err e) = err e

visit-pass :
    (group : List Row) (r : Row) (s : Order)
    → Chain.visit group r (devices s) ≡ pass (visit group r s)
unfolding Chain.visit Chain.follow Chain.last_identifier visit follow
visit-pass group r s = elim (Bool-cases (is_dout r)) [
  | inr other ↦ rw other
  | inl dout ↦ rw dout (elim (Option-cases (get_elem? s.io_data s.expanders)) [
    | inl gone ↦ rw (gone, Chain.last_identifier)
    | inr (io, found) ↦
        rw (found, Chain.last_identifier)
          (elim (Bool-cases (equal r.identifier io.identifier)) [
            | inr differ ↦ rw differ
            | inl same ↦ rw same (elim (Option-cases (find_din group)) [
              | inl ends ↦ rw (ends, Chain.follow, follow)
              | inr (b, goes_on) ↦ rw (goes_on, Chain.follow, follow)
            ])
          ])
  ])
]

scan_rows-pass :
    (group rs : List Row) (s : Order)
    → Chain.scan_rows group rs (devices s) ≡ pass (scan_rows group rs s)
unfolding Chain.scan_rows scan_rows
scan_rows-pass group [] s = refl
scan_rows-pass group (r ∷ rs) s =
    rw (visit-pass group r s) (go (visit group r s) (scan_rows-pass group rs))
  where
    go :
        (m : Result (Order × Bool))
        → ((t : Order) → Chain.scan_rows group rs (devices t) ≡ pass (scan_rows group rs t))
        → (pass m >>= λ (s', last_device). elim last_device [
          | true ↦ ok (s', true)
          | false ↦ Chain.scan_rows group rs s'
        ])
          ≡ pass (
              m >>= λ (s', last_device). elim last_device [
                | true ↦ ok (s', true)
                | false ↦ scan_rows group rs s'
              ])
    go (err e) ih = refl
    go (ok (s', true)) ih = refl
    go (ok (s', false)) ih = ih s'

scan_groups-pass :
    (gs : List NetlistData) (s : Order) → Chain.scan_groups gs (devices s) ≡ pass (scan_groups gs s)
unfolding Chain.scan_groups scan_groups
scan_groups-pass [] s = refl
scan_groups-pass (g ∷ gs) s =
    rw (scan_rows-pass (rows g) (rows g) s)
      (go (scan_rows (rows g) (rows g) s) (scan_groups-pass gs))
  where
    go :
        (m : Result (Order × Bool))
        → ((t : Order) → Chain.scan_groups gs (devices t) ≡ pass (scan_groups gs t))
        → (pass m >>= λ (s', last_device). elim last_device [
          | true ↦ ok (s', true)
          | false ↦ Chain.scan_groups gs s'
        ])
          ≡ pass (
              m >>= λ (s', last_device). elim last_device [
                | true ↦ ok (s', true)
                | false ↦ scan_groups gs s'
              ])
    go (err e) ih = refl
    go (ok (s', true)) ih = refl
    go (ok (s', false)) ih = ih s'

follow_chain-agrees :
    (fuel : ℕ) (gs : List NetlistData) (s : Order)
    → Chain.follow_chain fuel gs (devices s) ≡ follow_chain fuel gs s
unfolding Chain.follow_chain follow_chain
follow_chain-agrees zero gs s = refl
follow_chain-agrees (suc fuel) gs s =
    rw (scan_groups-pass gs s) (go (scan_groups gs s) (follow_chain-agrees fuel gs))
  where
    go :
        (m : Result (Order × Bool))
        → ((t : Order) → Chain.follow_chain fuel gs (devices t) ≡ follow_chain fuel gs t)
        → (pass m >>= λ (s', last_device). elim last_device [
          | true ↦ ok s'.io_data
          | false ↦ Chain.follow_chain fuel gs s'
        ])
          ≡ (m >>= λ (s', last_device). elim last_device [
            | true ↦ ok s'.io_data
            | false ↦ follow_chain fuel gs s'
          ])
    go (err e) ih = refl
    go (ok (s', true)) ih = refl
    go (ok (s', false)) ih = ih s'

-- If the console program takes the expander that the service takes for the first one, both return
-- the same devices, stop alike, or need the same number of rounds.
pub get_device_order-agrees :
    (fuel : ℕ) (gs : List NetlistData) (first : Bytes)
    → find_first gs ≡ some first
    → get_first_device gs (new_io ∷ []) ≡ record { identifier = first; position = 1 } ∷ []
    → get_device_order fuel gs [] ≡ Chain.get_device_order fuel gs []
unfolding get_device_order Chain.get_device_order Chain.first_device
get_device_order-agrees fuel gs first here there =
    rw (here, there, get_device_order, Chain.get_device_order, Chain.first_device)
      (sym (
        follow_chain-agrees fuel gs
          (record { io_data = record { identifier = first; position = 1 } ∷ []; expanders = 0 })))
