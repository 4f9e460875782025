-- ===== src/Input/Chain.antt =====
-- Input::getDeviceOrder of Input.cpp: the daisy chain of the IO expanders.
pub mod Links
pub mod Endless
pub mod Finite
pub mod Abridged
pub mod Rounds
pub mod Unique
pub mod Order
pub mod Empty
use relay_dev.Common.{
  ℕ, zero, suc, ◌+◌, ◌-◌, Bool, true, false, not, ◌&&◌, List, [], ◌∷◌, ◌++◌, Option, none, some,
  if◌then◌else◌, ◌==◌, length, get_elem?, modify, Result, ok, err, undefined, out_of_fuel, ◌>>=◌,
}
use relay_dev.Text.{Bytes, codes, equal}
use relay_dev.Data.{NetlistData, IoData, new_io}
use relay_dev.Input.Netlist.{Row, rows}
use relay_dev.Input.Filter.{is_expander}

-- The expander's data input and data output.
unfoldable pub is_din : Row → Bool
is_din r = is_expander r && equal r.connection (codes "33")

unfoldable pub is_dout : Row → Bool
is_dout r = is_expander r && equal r.connection (codes "40")

abbrev pub output_mark : Bytes
output_mark = codes "OUTPUT"

-- The lines of one group: its first DIN, or "OUTPUT" once there is a DOUT.
unfoldable pub scan_first : List Row → Bytes → Bytes
scan_first [] identifier = identifier
scan_first (r ∷ rs) identifier = elim (is_din r && equal identifier []) [
  | true ↦ scan_first rs r.identifier
  | false ↦ elim (is_dout r) [ true ↦ output_mark | false ↦ scan_first rs identifier ]
]

-- The first group with a DIN and no DOUT before its end gives the first expander.
unfoldable pub find_first : List NetlistData → Option Bytes
unfolding scan_first
find_first [] = none
find_first (g ∷ gs) =
    let identifier = scan_first (rows g) [] in
    if not (equal identifier []) && not (equal identifier output_mark)
    then some identifier
    else find_first gs

-- The DIN that belongs to a DOUT: the first one of the group.
unfoldable pub find_din : List Row → Option Bytes
find_din [] = none
find_din (r ∷ rs) = if is_din r then some r.identifier else find_din rs

pub record Devices : Type 0 where
  pub io_data : List IoData
  pub expanders : ℕ

-- `input.ioData[expanders - 1].identifier`
unfoldable pub last_identifier : Devices → Result Bytes
last_identifier s = elim s.expanders [
  | zero ↦ err undefined
  | suc n ↦ elim (get_elem? s.io_data n) [ none ↦ err undefined | some io ↦ ok io.identifier ]
]

-- `push_back`, and the assignments to `input.ioData[expanders]`.
abbrev pub add_device : Bytes → Devices → Devices
add_device identifier s = record {
  io_data =
      modify s.expanders (λ _. record { identifier = identifier; position = s.expanders + 1 })
        (s.io_data ++ new_io ∷ []);
  expanders = suc s.expanders;
}

-- What a loop leaves: the devices, and `lastDevice`.
abbrev pub Pass : Type 0
Pass = Devices × Bool

-- At the DOUT of the last device: the chain goes on to the DIN of the group, or it is complete.
unfoldable pub follow : List Row → Devices → Pass
unfolding find_din
follow group s = elim (find_din group) [
  | none ↦ (s, true)
  | some identifier ↦ (add_device identifier s, false)
]

-- A DOUT, compared with the last device.
unfoldable pub visit : List Row → Row → Devices → Result Pass
unfolding follow
visit group r s =
    if is_dout r
    then last_identifier s
      >>= (λ identifier. ok (if equal r.identifier identifier then follow group s else (s, false)))
    else ok (s, false)

-- The loop over the lines of one group.
unfoldable pub scan_rows : List Row → List Row → Devices → Result Pass
scan_rows group [] s = ok (s, false)
scan_rows group (r ∷ rs) s = visit group r s >>= λ (s', last_device). elim last_device [
  | true ↦ ok (s', true)
  | false ↦ scan_rows group rs s'
]

-- One round of the outer loop.
unfoldable pub scan_groups : List NetlistData → Devices → Result Pass
scan_groups [] s = ok (s, false)
scan_groups (g ∷ gs) s = scan_rows (rows g) (rows g) s >>= λ (s', last_device). elim last_device [
  | true ↦ ok (s', true)
  | false ↦ scan_groups gs s'
]

-- `while (!lastDevice)`
unfoldable pub follow_chain : ℕ → List NetlistData → Devices → Result (List IoData)
follow_chain zero netlist_data s = err out_of_fuel
follow_chain (suc fuel) netlist_data s = scan_groups netlist_data s >>= λ (s', last_device).
    elim last_device [ true ↦ ok s'.io_data | false ↦ follow_chain fuel netlist_data s' ]

-- The devices after the search for the first one.
unfoldable pub first_device : List NetlistData → List IoData → Devices
unfolding find_first
first_device netlist_data io_data = elim (find_first netlist_data) [
  | none ↦ record { io_data = io_data ++ new_io ∷ []; expanders = 0 }
  | some identifier ↦ record {
    io_data =
        modify 0 (λ _. record { identifier = identifier; position = 1 }) (io_data ++ new_io ∷ []);
    expanders = 1;
  }
]

unfoldable pub get_device_order : ℕ → List NetlistData → List IoData → Result (List IoData)
unfolding first_device follow_chain
get_device_order fuel netlist_data io_data =
    follow_chain fuel netlist_data (first_device netlist_data io_data)
