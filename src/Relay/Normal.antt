-- ===== src/Relay/Normal.antt =====
-- Relay::convertNormalState of Relay.cpp.
pub mod Ground
use relay_dev.Common.{
  ℕ, suc, Bool, true, false, not, ◌&&◌, ◌||◌, List, [], ◌∷◌, if◌then◌else◌, ◌==◌, any,
}
use relay_dev.Text.{Bytes, codes, equal, contains}
use relay_dev.Data.{NetlistData, ModelData}
use relay_dev.Input.Netlist.{Row, rows}

abbrev pub relay_no : Bytes
relay_no = codes "RELAY_NO"

abbrev pub relay_nc : Bytes
relay_nc = codes "RELAY_NC"

-- The loop over one group of the netlist: `gndConnection` and `tracker`.
unfoldable pub scan_pins : Bytes → List Row → ℕ → Bool × ℕ
scan_pins resistor [] tracker = (false, tracker)
scan_pins resistor (r ∷ rs) tracker =
    let here = scan_pins resistor rs (suc tracker) in
    let next = scan_pins resistor rs tracker in
    if equal r.identifier resistor
    then (if equal r.name (codes "GND")
        then (true, tracker)
        else if suc tracker == 2
        then (false, suc tracker)
        else here)
    else next

-- The loop over the netlist, until the ground or two connections have been found.
unfoldable pub scan_netlist : Bytes → List NetlistData → ℕ → Bool
unfolding scan_pins
scan_netlist resistor [] tracker = false
scan_netlist resistor (g ∷ gs) tracker =
    let (gnd_connection, tracker') = scan_pins resistor (rows g) tracker in
    let rest = scan_netlist resistor gs tracker' in
    if gnd_connection || tracker' == 2 then gnd_connection else rest

-- The loop over the lines of the relay, with `resistorIdentifier` and `presentRelay`.
unfoldable pub scan_relay : List NetlistData → List ModelData → List Row → Bytes → Bool → Bytes
unfolding scan_netlist
scan_relay netlist_data model_data [] resistor present = relay_no
scan_relay netlist_data model_data (r ∷ rs) resistor present =
    let resistor' = if contains r.device (codes "RESISTOR") then r.identifier else resistor in
    let present' = present || any (λ m. contains r.device m.relay_model) model_data in
    let rest = scan_relay netlist_data model_data rs resistor' present' in
    if present' && not (equal resistor' [])
    then (if scan_netlist resistor' netlist_data 0 then relay_nc else relay_no)
    else rest

unfoldable pub convert_normal_state : List NetlistData → List ModelData → List Row → Bytes
unfolding scan_relay
convert_normal_state netlist_data model_data group =
    scan_relay netlist_data model_data group [] false
