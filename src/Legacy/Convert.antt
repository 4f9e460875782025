-- ===== src/Legacy/Convert.antt =====
-- The conversions of relay.cpp. Those of the pin, the enumeration and the port are the same code as
-- in Relay.cpp.
pub mod Strength
pub mod State
pub mod Agreement
use relay_dev.Common.{
  ℕ, zero, suc, ◌+◌, Bool, true, List, [], ◌∷◌, ◌++◌, if◌then◌else◌, get_elem?, Result, ok, defined,
  ◌>>=◌, ℤ, pos, any, ◌==◌, not,
}
use relay_dev.Text.{Bytes, codes, equal, contains, front}
use relay_dev.Data.{RelayData, NetlistData, BillData, IoData, new_relay}
use relay_dev.Input.Netlist.{Row, rows}
use relay_dev.Input.Filter.{is_expander}
use relay_dev.Relay.Pin
use relay_dev.Relay.Enum
use relay_dev.Relay.Port
use relay_dev.Legacy.Netlist.{gnd_name}

pub record InputData : Type 0 where
  pub board_type : Bytes
  pub bill_data : List BillData
  pub io_data : List IoData
  pub netlist_data : List NetlistData
  pub relay_list : List NetlistData
  pub gnd_data : List Bytes

abbrev pub convert_pin : Bytes → Result Bytes
convert_pin relay_name = Pin.convert_pin relay_name

abbrev pub convert_enum : Bytes → Result Bytes
convert_enum relay_name = Enum.convert_enum relay_name

unfoldable pub conver_chain : Bytes → ℤ
conver_chain board_type =
    if equal board_type (codes "Power")
    then pos 0
    else if equal board_type (codes "Precision")
    then pos 1
    else pos 0

-- The loop over the IO expanders.
unfoldable pub find_position : Bytes → List IoData → ℕ
find_position identifier [] = 0
find_position identifier (io ∷ expanders) =
    if equal io.identifier identifier then io.position else find_position identifier expanders

-- The loop over the lines of the relay.
unfoldable pub find_device : List IoData → List Row → ℕ
unfolding find_position
find_device expanders [] = 0
find_device expanders (r ∷ rs) =
    if is_expander r then find_position r.identifier expanders else find_device expanders rs

unfoldable pub convert_device : List Row → Bytes → List IoData → ℕ
unfolding find_device
convert_device group board_type expanders =
    find_device expanders group
    + (if equal board_type (codes "Power")
        then 21
        else if equal board_type (codes "Precision")
        then 18
        else 0)

abbrev pub convert_port : List Row → Result Bytes
convert_port group = Port.convert_port group

-- `mapDriveStrength`, in the order in which a map is traversed.
abbrev pub drive_strengths : List (Bytes × Bytes)
drive_strengths =
    (codes "120-1-A-5/1", codes "CONFIG_LED_21p0_mA")
    ∷ (codes "50935", codes "CONFIG_LED_21p0_mA")
    ∷ (codes "9901-05-20", codes "CONFIG_LED_18p0_mA")
    ∷ (codes "AQY225R3TY", codes "CONFIG_LED_10p5_mA")
    ∷ (codes "G3VM-101QR1", codes "CONFIG_LED_10p5_mA")
    ∷ (codes "G3VM-41QR10", codes "CONFIG_LED_10p5_mA")
    ∷ []

unfoldable pub find_strength : Bytes → List (Bytes × Bytes) → Bytes
find_strength device [] = []
find_strength device ((model, strength) ∷ more) =
    if contains device model then strength else find_strength device more

unfoldable pub get_strength_from_map : Bytes → Bytes
unfolding find_strength
get_strength_from_map device = find_strength device drive_strengths

-- The line says that the relay is normally closed, or an enabling one.
unfoldable pub is_config_out : Row → Bool
is_config_out r =
    if contains r.identifier (codes "_NC_") then true else contains r.name (codes "_EN")

-- The loop over the lines.
unfoldable pub scan_strength : List Row → Bytes → Bytes
unfolding get_strength_from_map is_config_out
scan_strength [] drive_strength = drive_strength
scan_strength (r ∷ rs) drive_strength =
    let strength = get_strength_from_map r.device in
    let rest = scan_strength rs strength in
    if is_config_out r
    then codes "CONFIG_OUT"
    else if not (equal strength [])
    then strength
    else rest

abbrev pub default_strength : Bytes
default_strength = codes "CONFIG_LED_10p5_mA"

unfoldable pub convert_drive_strength : List Row → Bytes
unfolding scan_strength
convert_drive_strength group = scan_strength group default_strength

-- The loop over the lines: one whose relay has a ground makes it normally closed.
unfoldable pub scan_state : List Bytes → List Row → Bytes → Bytes
scan_state gnd_data [] normal_state = normal_state
scan_state gnd_data (r ∷ rs) normal_state =
    let skip = scan_state gnd_data rs normal_state in
    let closed = scan_state gnd_data rs (codes "RELAY_NC") in
    if front r.identifier == b'K'
    then (if any (λ name. equal name (gnd_name r)) gnd_data then closed else skip)
    else skip

unfoldable pub convert_normal_state : List Bytes → List Row → Bytes
unfolding scan_state
convert_normal_state gnd_data group = scan_state gnd_data group (codes "RELAY_NO")

-- One round of the loop: every field but the times is assigned anew.
unfoldable pub convert_relay : InputData → NetlistData → RelayData → Result RelayData
convert_relay input g temp = do
  relay_name ← defined (get_elem? g.name 0)
  pin ← convert_pin relay_name
  enumeration ← convert_enum relay_name
  port_number ← convert_port (rows g)
  ok (record temp {
    pin = pin;
    enumeration = enumeration;
    chain_number = conver_chain input.board_type;
    device_number = pos (convert_device (rows g) input.board_type input.io_data);
    port_number = port_number;
    drive_strength = convert_drive_strength (rows g);
    normal_state = convert_normal_state input.gnd_data (rows g);
    relay_name = relay_name;
  })

-- `for (i = …; i < relayAmount; i++)`, with the rounds that are left.
unfoldable pub convert_relays :
    ℕ → ℕ → InputData → RelayData → List RelayData → Result (List RelayData)
unfolding convert_relay
convert_relays zero i input temp relay_data = ok relay_data
convert_relays (suc left) i input temp relay_data = defined (get_elem? input.relay_list i) >>= λ g.
    convert_relay input g temp >>= λ temp'.
    convert_relays left (suc i) input temp' (relay_data ++ temp' ∷ [])

unfoldable pub relay_convert : InputData → ℕ → List RelayData → Result (List RelayData)
unfolding convert_relays
relay_convert input relay_amount relay_data =
    convert_relays relay_amount 0 input new_relay relay_data
