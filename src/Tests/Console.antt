-- ===== src/Tests/Console.antt =====
-- The console program.
use relay_dev.Common.{◌≡◌, refl, List, [], ◌∷◌, map, some, ok, ◌>>=◌, if◌then◌else◌, any, false}
use relay_dev.Text.{Bytes, codes, upper}
use relay_dev.Data.{new_io}
use relay_dev.Input.Netlist.{Row, rows}
use relay_dev.Input.Netlist
use relay_dev.Input.Filter.{filter_netlist_data}
use relay_dev.Input.Filter
use relay_dev.Input.Chain
use relay_dev.Input.Chain.{find_first}
use relay_dev.Text
use relay_dev.Legacy.Main.{main, done, no_paths}
use relay_dev.Legacy.Netlist.{Reading, get_netlist_data}
use relay_dev.Legacy.Convert.State.{is_tied, convert_normal_state-tied}
use relay_dev.Text.Search.{all-Lacks}
use relay_dev.Legacy.Netlist.OnePass.{get_netlist_data-filter}
use relay_dev.Legacy.Chain.{get_first_device, get_device_order, scan_flags, find_expander}
use relay_dev.Legacy.Convert.{convert_drive_strength}
use relay_dev.Legacy.Convert.Strength.{first_strength, convert_drive_strength-first}
use relay_dev.Common.{true}
use relay_dev.Legacy.Csv.{write_csv}
use relay_dev.Data.{IoData, NetlistData}
use relay_dev.Legacy.Convert
use relay_dev.Tests.Samples.{row, netlist_lines}

get_netlist_data-filter_example :
    (get_netlist_data (map (map upper) netlist_lines) >>= λ s. ok s.relay_list)
    ≡ filter_netlist_data (Netlist.get_netlist_data netlist_lines []) []
get_netlist_data-filter_example = get_netlist_data-filter netlist_lines

abbrev plain_row : Row
plain_row = row (codes "K_REL") (codes "R7") (codes "1") (codes "RESISTOR")

convert_drive_strength-first_example :
    convert_drive_strength (plain_row ∷ []) ≡ first_strength (plain_row ∷ [])
convert_drive_strength-first_example = convert_drive_strength-first plain_row []

-- A netlist where the part K12 has a line on the ground.
abbrev tied_lines : List Bytes
tied_lines = codes "GND K12 8 G3VM-101QR1" ∷ codes "K_REL_12 K12 1 G3VM-101QR1" ∷ []

abbrev tied_row : Row
tied_row = row (codes "K_REL_12") (codes "K12") (codes "1") (codes "G3VM-101QR1")

abbrev one_row : Row → NetlistData
one_row r = record {
  name = r.name ∷ [];
  identifier = r.identifier ∷ [];
  connection = r.connection ∷ [];
  device = r.device ∷ [];
}

abbrev tied_reading : Reading
tied_reading = record {
  netlist_data =
      one_row (row (codes "GND") (codes "K12") (codes "8") (codes "G3VM-101QR1"))
      ∷ one_row tied_row
      ∷ [];
  relay_list = [];
  gnd_data = codes "K12_G3VM-101QR1" ∷ [];
  loop_counter = 1;
  relay_counter = 0;
  relay_connection = false;
}

tied-read : get_netlist_data tied_lines ≡ ok tied_reading
unfolding relay_dev.Text.equal relay_dev.Text.front relay_dev.Text.find_char
    relay_dev.Text.substr_to relay_dev.Text.erase_to relay_dev.Text.cell relay_dev.Text.after_cell
    relay_dev.Text.skip_blanks relay_dev.Input.Netlist.read_row relay_dev.Input.Netlist.starts_group
    relay_dev.Input.Filter.is_expander relay_dev.Legacy.Netlist.flush
    relay_dev.Legacy.Netlist.change_group relay_dev.Legacy.Netlist.mark
    relay_dev.Legacy.Netlist.is_gnd relay_dev.Legacy.Netlist.store
    relay_dev.Legacy.Netlist.read_lines relay_dev.Legacy.Netlist.new_reading get_netlist_data
tied-read = refl

convert_normal_state-tied_example :
    Convert.convert_normal_state tied_reading.gnd_data (tied_row ∷ [])
    ≡ (if any (is_tied tied_lines) (tied_row ∷ []) then codes "RELAY_NC" else codes "RELAY_NO")
unfolding relay_dev.Text.equal relay_dev.Text.find_char relay_dev.Text.substr_to
    relay_dev.Text.erase_to relay_dev.Text.cell relay_dev.Text.after_cell relay_dev.Text.skip_blanks
    relay_dev.Input.Netlist.read_row
convert_normal_state-tied_example =
    convert_normal_state-tied tied_lines tied_reading (tied_row ∷ []) tied-read
      (all-Lacks b'_' (codes "K12") refl, (all-Lacks b'_' (codes "K12") refl, tt))
      (all-Lacks b'_' (codes "K12") refl, tt)

-- A whole run of the program on one netlist.
console_run :
    main 3
      (λ path. netlist_lines)
      (λ path. true)
      (codes "relay" ∷ codes "bom.txt" ∷ codes "netlist.txt" ∷ [])
    ≡ done (
        some (
          codes
            "DUT_PIN_12,K_CIB_12,0,22,P5,CONFIG_LED_10p5_mA,RELAY_NO,0,60,200,0,100,500,K_REL_12"))
unfolding relay_dev.Text.equal relay_dev.Text.front relay_dev.Text.find_char
    relay_dev.Text.substr_to relay_dev.Text.erase_to relay_dev.Text.cell relay_dev.Text.after_cell
    relay_dev.Text.is_digit relay_dev.Text.upper relay_dev.Text.starts_with relay_dev.Text.find_text
    relay_dev.Text.contains relay_dev.Text.last relay_dev.Text.skip_blanks
    relay_dev.Text.Number.read_digits relay_dev.Text.Number.stoi relay_dev.Text.Number.decimal_from
    relay_dev.Text.Number.decimal relay_dev.Text.Number.to_string relay_dev.Data.new_relay
    relay_dev.Input.Bill.is_after relay_dev.Input.Bill.quoted_identifiers
    relay_dev.Input.Bill.read_identifiers relay_dev.Input.Bill.read_description
    relay_dev.Input.Bill.read_bill relay_dev.Input.Bill.get_bill_data
    relay_dev.Input.Netlist.read_row relay_dev.Input.Netlist.starts_group
    relay_dev.Input.Netlist.read_netlist relay_dev.Input.Netlist.get_netlist_data
    relay_dev.Input.Netlist.zip_rows relay_dev.Input.Netlist.rows relay_dev.Input.Filter.is_expander
    relay_dev.Input.Filter.is_reserved relay_dev.Input.Filter.drives_relay
    relay_dev.Input.Filter.scan_group relay_dev.Input.Filter.filter_groups
    relay_dev.Input.Filter.filter_netlist_data relay_dev.Input.Chain.is_din
    relay_dev.Input.Chain.is_dout relay_dev.Input.Chain.scan_first relay_dev.Input.Chain.find_first
    relay_dev.Input.Chain.find_din relay_dev.Input.Chain.last_identifier
    relay_dev.Input.Chain.follow relay_dev.Input.Chain.visit relay_dev.Input.Chain.scan_rows
    relay_dev.Input.Chain.scan_groups relay_dev.Input.Chain.follow_chain
    relay_dev.Input.Chain.first_device relay_dev.Input.Chain.get_device_order
    relay_dev.Relay.Pin.second_last relay_dev.Relay.Pin.convert_pin relay_dev.Relay.Enum.find_from
    relay_dev.Relay.Enum.find_breaks relay_dev.Relay.Enum.breaks_of relay_dev.Relay.Enum.first
    relay_dev.Relay.Enum.suffix relay_dev.Relay.Enum.convert_enum
    relay_dev.Relay.Port.port_identifier relay_dev.Relay.Port.find_case relay_dev.Relay.Port.port_of
    relay_dev.Relay.Port.convert_port relay_dev.Legacy.Bill.read_lines
    relay_dev.Legacy.Bill.get_bill_data relay_dev.Legacy.Netlist.check_connection
    relay_dev.Legacy.Netlist.flush relay_dev.Legacy.Netlist.change_group
    relay_dev.Legacy.Netlist.mark relay_dev.Legacy.Netlist.is_gnd relay_dev.Legacy.Netlist.store
    relay_dev.Legacy.Netlist.read_lines relay_dev.Legacy.Netlist.new_reading
    relay_dev.Legacy.Netlist.get_netlist_data relay_dev.Legacy.Chain.scan_flags
    relay_dev.Legacy.Chain.find_expander relay_dev.Legacy.Chain.get_first_device
    relay_dev.Legacy.Chain.follow relay_dev.Legacy.Chain.visit relay_dev.Legacy.Chain.scan_rows
    relay_dev.Legacy.Chain.scan_groups relay_dev.Legacy.Chain.follow_chain
    relay_dev.Legacy.Chain.get_device_order relay_dev.Legacy.Convert.conver_chain
    relay_dev.Legacy.Convert.find_position relay_dev.Legacy.Convert.find_device
    relay_dev.Legacy.Convert.convert_device relay_dev.Legacy.Convert.find_strength
    relay_dev.Legacy.Convert.get_strength_from_map relay_dev.Legacy.Convert.is_config_out
    relay_dev.Legacy.Convert.scan_strength relay_dev.Legacy.Convert.convert_drive_strength
    relay_dev.Legacy.Convert.scan_state relay_dev.Legacy.Convert.convert_normal_state
    relay_dev.Legacy.Convert.convert_relay relay_dev.Legacy.Convert.convert_relays
    relay_dev.Legacy.Convert.relay_convert relay_dev.Legacy.Csv.write_relay
    relay_dev.Legacy.Csv.write_relays relay_dev.Legacy.Csv.write_csv relay_dev.Legacy.Main.paths_of
    relay_dev.Legacy.Main.convert_files relay_dev.Legacy.Main.main
console_run = refl

no_arguments : main 3 (λ path. netlist_lines) (λ path. true) (codes "relay" ∷ []) ≡ no_paths
unfolding main relay_dev.Legacy.Main.paths_of relay_dev.Text.equal
no_arguments = refl
