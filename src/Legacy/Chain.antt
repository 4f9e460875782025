-- ===== src/Legacy/Chain.antt =====
-- getFirstDevice and getDeviceOrder of relay.cpp.
pub mod First
pub mod Agreement
use relay_dev.Common.{
  ℕ, zero, suc, ◌+◌, Bool, true, false, not, ◌&&◌, List, [], ◌∷◌, ◌++◌, Option, none, some,
  if◌then◌else◌, get_elem?, modify, Result, ok, err, out_of_fuel, defined, ◌>>=◌,
}
use relay_dev.Text.{Bytes, equal}
use relay_dev.Data.{NetlistData, IoData, new_io}
use relay_dev.Input.Netlist.{Row, rows}
use relay_dev.Input.Filter.{is_expander}
use relay_dev.Input.Chain.{is_din, is_dout, find_din}

-- The flags `input` and `output` after the lines of one group.
unfoldable pub scan_flags : List Row → Bool → Bool × Bool
scan_flags [] input = (input, false)
scan_flags (r ∷ rs) input = elim (is_din r) [
  | true ↦ scan_flags rs true
  | false ↦ elim (is_dout r) [ true ↦ (input, true) | false ↦ scan_flags rs input ]
]

-- The first line of the group with an expander, on whatever pin.
unfoldable pub find_expander : List Row → Option Bytes
find_expander [] = none
find_expander (r ∷ rs) = if is_expander r then some r.identifier else find_expander rs

abbrev pub set_first : Option Bytes → List IoData → List IoData
set_first none list = list
set_first (some identifier) list =
    modify 0 (λ _. record { identifier = identifier; position = 1 }) list

unfoldable pub get_first_device : List NetlistData → List IoData → List IoData
unfolding scan_flags find_expander
get_first_device [] list = list
get_first_device (g ∷ gs) list =
    let (input, output) = scan_flags (rows g) false in
    if input && not output
    then set_first (find_expander (rows g)) list
    else get_first_device gs list

-- `expanders` is the index of the last device.
pub record Order : Type 0 where
  pub io_data : List IoData
  pub expanders : ℕ

abbrev pub add_device : Bytes → Order → Order
add_device identifier s = record {
  io_data =
      modify (suc s.expanders)
        (λ _. record { identifier = identifier; position = suc s.expanders + 1 })
        (s.io_data ++ new_io ∷ []);
  expanders = suc s.expanders;
}

-- At the DOUT of the last device: the chain goes on to the DIN of the group, or it is complete.
unfoldable pub follow : List Row → Order → Order × Bool
unfolding find_din
follow group s = elim (find_din group) [
  | none ↦ (s, true)
  | some identifier ↦ (add_device identifier s, false)
]

unfoldable pub visit : List Row → Row → Order → Result (Order × Bool)
unfolding follow
visit group r s =
    if is_dout r
    then defined (get_elem? s.io_data s.expanders)
      >>= (λ io. ok (if equal r.identifier io.identifier then follow group s else (s, false)))
    else ok (s, false)

unfoldable pub scan_rows : List Row → List Row → Order → Result (Order × Bool)
unfolding visit
scan_rows group [] s = ok (s, false)
scan_rows group (r ∷ rs) s = visit group r s >>= λ (s', last_device). elim last_device [
  | true ↦ ok (s', true)
  | false ↦ scan_rows group rs s'
]

unfoldable pub scan_groups : List NetlistData → Order → Result (Order × Bool)
unfolding scan_rows
scan_groups [] s = ok (s, false)
scan_groups (g ∷ gs) s = scan_rows (rows g) (rows g) s >>= λ (s', last_device). elim last_device [
  | true ↦ ok (s', true)
  | false ↦ scan_groups gs s'
]

-- `while (!lastDevice)`
unfoldable pub follow_chain : ℕ → List NetlistData → Order → Result (List IoData)
unfolding scan_groups
follow_chain zero netlist_data s = err out_of_fuel
follow_chain (suc fuel) netlist_data s = scan_groups netlist_data s >>= λ (s', last_device).
    elim last_device [ true ↦ ok s'.io_data | false ↦ follow_chain fuel netlist_data s' ]

unfoldable pub get_device_order : ℕ → List NetlistData → List IoData → Result (List IoData)
unfolding get_first_device follow_chain
get_device_order fuel netlist_data io_data =
    follow_chain fuel netlist_data
      (record { io_data = get_first_device netlist_data (io_data ++ new_io ∷ []); expanders = 0 })
