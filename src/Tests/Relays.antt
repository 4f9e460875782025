-- ===== src/Tests/Relays.antt =====
-- The conversions of a relay.
use relay_dev.Common.{
  ◌||◌, ◌==◌, ◌+◌, ◌-◌, ◌<◌, ◌≡◌, refl, List, [], ◌∷◌, ◌++◌, arith, any, leb, length, take, ok, pos,
}
use relay_dev.Text.{Bytes, codes, equal, is_digit, last, find_text}
use relay_dev.Text
use relay_dev.Text.Number.{to_string}
use relay_dev.Text.Search.{all-Lacks}
use relay_dev.Data.{NetlistData, IoData, ModelData}
use relay_dev.Input.Netlist.{Row, rows}
use relay_dev.Input.Netlist
use relay_dev.Input.Netlist.Lines.{all_rows}
use relay_dev.Input.Filter.{is_reserved, is_expander}
use relay_dev.Input.Models.{InputData, relay_models}
use relay_dev.Relay.Pin.{convert_pin}
use relay_dev.Relay.Enum.{convert_enum}
use relay_dev.Relay.Port
use relay_dev.Relay.Normal
use relay_dev.Relay.Device
use relay_dev.Relay.Enum.Shape.{convert_enum-cut}
use relay_dev.Relay.Port.{port_of, find_case}
use relay_dev.Relay.Port.Pins.{set_aside, port_of-eq-nil}
use relay_dev.Relay.Device.{convert_device}
use relay_dev.Relay.Drive.{convert_drive_strength}
use relay_dev.Relay.Drive.Models.{first_model, strength_or_out, convert_drive_strength-first_model}
use relay_dev.Relay.Normal.{scan_netlist}
use relay_dev.Relay.Normal.Ground.{is_ground, connections, scan_netlist-ground}
use relay_dev.Relay.Convert.{Junk, RelayState, relay_convert, convert_relay, convert_relays}
use relay_dev.Relay.Convert.Kinds.{IsTyped, relay_convert-IsTyped}
use relay_dev.Common.{All}
use relay_dev.Relay.Convert.Relays.{board_chain, RowsOf, relay_convert-RowsOf}
use relay_dev.Server.{new_relay_state}
use relay_dev.Tests.Samples.{board, relay_group, plain_relay}

-- A name of 60 characters: the first 49 are kept.
abbrev long_word : Bytes
long_word = codes "ABCDEFGHIJABCDEFGHIJABCDEFGHIJABCDEFGHIJABCDEFGHIJABCDEFG0"

convert_enum-cut_example :
    (convert_enum (codes "K" ++ b'_' ∷ long_word)
      ≡ ok (codes "K" ++ b'_' ∷ (codes "CIB" ++ take (b'0' + 1 - 1) (b'_' ∷ long_word))))
    × (b'0' + 1 - 1 < length (b'_' ∷ long_word))
unfolding last is_digit
convert_enum-cut_example =
    convert_enum-cut (codes "K") long_word (codes "K") long_word b'0' refl
      (all-Lacks b'_' (codes "K") refl) (all-Lacks b'_' long_word refl) refl refl (omega arith)
      (omega arith)

port_of-eq-nil_example :
    (is_reserved (pos 41) ≡ set_aside 41)
    × (equal (port_of (pos 41)) [] ≡ (is_reserved (pos 41) || ((41 == 0) || leb 41 41)))
port_of-eq-nil_example = port_of-eq-nil 41

abbrev devices : List IoData
devices =
    record { identifier = codes "U1"; position = 1 }
    ∷ record { identifier = codes "U2"; position = 2 }
    ∷ []

abbrev Linked : Bytes → Bytes → Type 0
Linked a b = (a ≡ codes "U1") × (b ≡ codes "U2")

convert_drive_strength-first_model_example :
    convert_drive_strength relay_models (rows relay_group)
    ≡ strength_or_out (first_model relay_models (rows relay_group))
unfolding equal
convert_drive_strength-first_model_example =
    convert_drive_strength-first_model relay_models (rows relay_group)
      (refl, (refl, (refl, (refl, (refl, (refl, tt))))))

scan_netlist-ground_example :
    scan_netlist (codes "U2") board 0
    ≡ any is_ground (take 2 (connections (codes "U2") (all_rows board)))
scan_netlist-ground_example = scan_netlist-ground (codes "U2") board

abbrev input : InputData
input = record {
  netlist_name = [];
  bill_name = [];
  board_type = codes "Power";
  bill_data = [];
  io_data = devices;
  netlist_data = board;
  relay_list = relay_group ∷ [];
  model_data = relay_models;
}

abbrev junk : Junk
junk = record { chain = pos 0; device = λ n. pos 0 }

abbrev converted : RelayState
converted = record {
  device_modifier = 21;
  current_relay = 1;
  relay_data = plain_relay ∷ [];
  relay_amount = 1;
}

convert-board : relay_convert input junk new_relay_state ≡ ok converted
unfolding relay_convert convert_relays convert_relay convert_pin convert_enum convert_device
    convert_drive_strength scan_netlist rows Netlist.zip_rows equal last is_digit Port.convert_port
    relay_dev.Text.Number.stoi is_expander Device.convert_chain to_string
    Normal.convert_normal_state relay_dev.Data.new_relay Text.contains
convert-board = refl

relay_convert-RowsOf_example :
    RowsOf input (board_chain input junk) input.relay_list converted.relay_data
    × (converted.relay_amount ≡ length converted.relay_data)
relay_convert-RowsOf_example =
    relay_convert-RowsOf input junk new_relay_state converted refl convert-board

relay_convert-IsTyped_example : All (IsTyped input.model_data) converted.relay_data
relay_convert-IsTyped_example =
    relay_convert-IsTyped input junk new_relay_state converted refl convert-board
