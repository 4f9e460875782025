-- ===== src/Tests/Conversions.antt =====
-- What the files of a board are converted to.
use relay_dev.Common.{false, none}
use relay_dev.Common.{ℕ, ◌+◌, ◌≡◌, refl, List, [], ◌∷◌, ◌++◌, some, length, pos}
use relay_dev.Text.{Bytes, codes}
use relay_dev.Text.Number.{to_string}
use relay_dev.Relay.Convert.{RelayState, relay_convert, convert_relays}
use relay_dev.Relay.Device.{convert_chain}
use relay_dev.Input.Chain.{get_device_order, first_device, follow_chain, find_first, scan_groups}
use relay_dev.Input.Models.{InputData, get_input_data, get_relay_models}
use relay_dev.Input.Bill.{get_bill_data}
use relay_dev.Input.Netlist.{get_netlist_data, read_netlist}
use relay_dev.Input.Filter.{filter_netlist_data, filter_groups}
use relay_dev.Pool.{got, new_pool, fill, take_front, waits, get_connection, release_connection}
use relay_dev.Server.{
  Request, respond, Server, Reply, response, waiting, Request, query, process, convert, caught,
  new_input, handle_query, new_relay_state,
}
use relay_dev.Common.{length}
use relay_dev.Data.{NetlistData}
use relay_dev.Server.{Converted}
use relay_dev.Tests.Samples.{server, with_netlist, plain_relay}
use relay_dev.Output.Csv.{write_relay}
use relay_dev.Common.{inl, ok, ◌<◌, ◌+◌, get_elem?, is_pos, if◌then◌else◌}
use relay_dev.Data.{BillData, new_netlist, IoData, RelayData}
use relay_dev.Input.Netlist.{rows, zip_rows}
use relay_dev.Input.Filter.{is_expander, expander_device}
use relay_dev.Input.Models.{relay_models}
use relay_dev.Relay.Convert.Rows.{modifier_of}
use relay_dev.Server.Rounds.{enough, with_enough, handle_query-rounds}
use relay_dev.Input.Chain.Rounds.{inputs, din_rows}
use relay_dev.Server.{Outside}
use relay_dev.Input.Netlist.{get_netlist_data, read_netlist}
use relay_dev.Common.{arith}
use relay_dev.Server.Success.{handle_query-answered, file_after, saved, handle_query-success}
use relay_dev.Output.Save.{Value, int, text}
use relay_dev.Output.Save.Statements.{Reads, nil, cons}
use relay_dev.Pool.{got, get_connection, release_connection, new_pool, fill}
use relay_dev.Server.Devices.{convert-device}
use relay_dev.Tests.Samples.{input_group, single_line}
use relay_dev.Relay.Device.Numbers.{expander_of}
use relay_dev.Common.{true, [], ◌∷◌}

abbrev configuration : Request
configuration = query (codes "bom") []

-- The data output of the first expander.
abbrev pub output_on_first : NetlistData
output_on_first = single_line (codes "SDO") (codes "U1") (codes "40")

-- The relay K12 on pin 28 of the only expander.
abbrev pub relay_on_first : NetlistData
relay_on_first = record {
  name = codes "K_REL_12" ∷ codes "K_REL_12" ∷ [];
  identifier = codes "K12" ∷ codes "U1" ∷ [];
  connection = codes "1" ∷ codes "28" ∷ [];
  device = codes "G3VM-101QR1" ∷ expander_device ∷ [];
}

abbrev pub relay_row : RelayData
relay_row = record plain_relay { device_number = pos 22 }

abbrev pub part : BillData
part = record {
  item = codes "7";
  quantity = codes "2";
  manufacturer = codes "OMRON";
  part_number = codes "G3VM";
  identifier = codes "K12" ∷ [];
  description = codes "RELAY";
  dni = [];
  status = codes "OK";
  max_temp = codes "85C";
}

abbrev pub result : Converted
result = record {
  input = record {
    netlist_name = [];
    bill_name = codes "bom";
    board_type = [];
    bill_data = part ∷ [];
    io_data = record { identifier = codes "U1"; position = 1 } ∷ [];
    netlist_data = input_group ∷ output_on_first ∷ relay_on_first ∷ new_netlist ∷ [];
    relay_list = relay_on_first ∷ [];
    model_data = relay_models;
  };
  relay = record {
    device_modifier = 21;
    current_relay = 1;
    relay_data = relay_row ∷ [];
    relay_amount = 1;
  };
  content = some (write_relay relay_row);
}

pub convert-result : convert with_netlist (codes "bom") [] ≡ ok result
unfolding relay_dev.Text.equal relay_dev.Text.front relay_dev.Text.find_char
    relay_dev.Text.substr_to relay_dev.Text.erase_to relay_dev.Text.cell relay_dev.Text.after_cell
    relay_dev.Text.is_digit relay_dev.Text.upper relay_dev.Text.starts_with relay_dev.Text.find_text
    relay_dev.Text.contains relay_dev.Text.last relay_dev.Text.skip_blanks
    relay_dev.Text.Number.read_digits relay_dev.Text.Number.stoi relay_dev.Text.Number.decimal_from
    relay_dev.Text.Number.decimal relay_dev.Text.Number.to_string relay_dev.Data.new_relay
    relay_dev.Input.Bill.is_after relay_dev.Input.Bill.quoted_identifiers
    relay_dev.Input.Bill.read_identifiers relay_dev.Input.Bill.read_description
    relay_dev.Input.Bill.read_bill relay_dev.Input.Bill.get_bill_data
    relay_dev.Input.Netlist.read_row relay_dev.Input.Netlist.starts_group
    relay_dev.Input.Netlist.read_netlist relay_dev.Input.Netlist.get_netlist_data
    relay_dev.Input.Netlist.zip_rows relay_dev.Input.Netlist.rows relay_dev.Input.Filter.is_expander
    relay_dev.Input.Filter.is_reserved relay_dev.Input.Filter.drives_relay
    relay_dev.Input.Filter.scan_group relay_dev.Input.Filter.filter_groups
    relay_dev.Input.Filter.filter_netlist_data relay_dev.Input.Chain.is_din
    relay_dev.Input.Chain.is_dout relay_dev.Input.Chain.scan_first relay_dev.Input.Chain.find_first
    relay_dev.Input.Chain.find_din relay_dev.Input.Chain.last_identifier
    relay_dev.Input.Chain.follow relay_dev.Input.Chain.visit relay_dev.Input.Chain.scan_rows
    relay_dev.Input.Chain.scan_groups relay_dev.Input.Chain.follow_chain
    relay_dev.Input.Chain.first_device relay_dev.Input.Chain.get_device_order
    relay_dev.Input.Models.get_relay_models relay_dev.Input.Models.get_input_data
    relay_dev.Relay.Pin.second_last relay_dev.Relay.Pin.convert_pin relay_dev.Relay.Enum.find_from
    relay_dev.Relay.Enum.find_breaks relay_dev.Relay.Enum.breaks_of relay_dev.Relay.Enum.first
    relay_dev.Relay.Enum.suffix relay_dev.Relay.Enum.convert_enum
    relay_dev.Relay.Port.port_identifier relay_dev.Relay.Port.find_case relay_dev.Relay.Port.port_of
    relay_dev.Relay.Port.convert_port relay_dev.Relay.Device.convert_chain
    relay_dev.Relay.Device.find_device relay_dev.Relay.Device.convert_device
    relay_dev.Relay.Drive.match_models relay_dev.Relay.Drive.scan_devices
    relay_dev.Relay.Drive.convert_drive_strength relay_dev.Relay.Normal.scan_pins
    relay_dev.Relay.Normal.scan_netlist relay_dev.Relay.Normal.scan_relay
    relay_dev.Relay.Normal.convert_normal_state relay_dev.Relay.Convert.convert_relay
    relay_dev.Relay.Convert.convert_relays relay_dev.Relay.Convert.relay_convert
    relay_dev.Output.Csv.write_relay relay_dev.Output.Csv.write_relays
    relay_dev.Output.Csv.output_relay_data relay_dev.Output.Save.bill_values
    relay_dev.Output.Save.save_bills relay_dev.Output.Save.save_rows
    relay_dev.Output.Save.save_netlist relay_dev.Output.Save.save_relays
    relay_dev.Output.Save.save_data relay_dev.Server.new_input relay_dev.Server.caught
    relay_dev.Server.convert relay_dev.Server.process relay_dev.Server.respond new_pool fill
    handle_query relay_dev.Pool.get_connection relay_dev.Pool.take_front
    relay_dev.Pool.release_connection
convert-result = refl

convert-device_example :
    (k : ℕ) × (io : IoData) × (k < length result.input.io_data)
    × (get_elem? result.input.io_data k ≡ some io)
    × (io.identifier ≡ codes "U1")
    × (relay_row.device_number ≡ pos (1 + k + modifier_of relay_row.chain_number))
    × (relay_row.chain_number ≡ (if is_pos 1 with_netlist.junk.chain then pos 1 else pos 0))
unfolding expander_of is_expander rows zip_rows relay_dev.Text.equal
convert-device_example =
    convert-device with_netlist (codes "bom") [] result 0 relay_on_first relay_row (codes "U1")
      convert-result refl refl refl (inl refl)

abbrev patient : Outside ℕ
patient = record with_netlist { fuel = 100 }

two_rounds : enough patient (codes "bom") [] ≡ 2
unfolding inputs din_rows get_netlist_data read_netlist relay_dev.Input.Netlist.starts_group
    relay_dev.Input.Netlist.read_row rows zip_rows is_expander relay_dev.Input.Chain.is_din
    relay_dev.Text.equal relay_dev.Text.cell relay_dev.Text.after_cell relay_dev.Text.find_char
    relay_dev.Text.substr_to relay_dev.Text.erase_to relay_dev.Text.skip_blanks relay_dev.Text.upper
two_rounds = refl

handle_query-rounds_example :
    handle_query patient configuration server
    ≡ handle_query (with_enough patient (codes "bom") []) configuration server
handle_query-rounds_example =
    handle_query-rounds patient (codes "bom") [] server (omega (arith, two_rounds))

abbrev pub part_values : List Value
part_values =
    int (pos 1)
    ∷ int (pos 7)
    ∷ int (pos 2)
    ∷ text (codes "OMRON")
    ∷ text (codes "G3VM")
    ∷ text (codes "K12")
    ∷ text (codes "RELAY")
    ∷ text []
    ∷ text (codes "OK")
    ∷ text (codes "85C")
    ∷ []

pub part-Reads : Reads result.input.bill_data (part_values ∷ [])
unfolding relay_dev.Output.Save.bill_values relay_dev.Text.Number.stoi
part-Reads = cons refl nil

pub first_connection : get_connection true server.pool ≡ got 0 (record (new_pool 1) { pool = [] })
unfolding get_connection relay_dev.Pool.take_front new_pool fill
first_connection = refl

handle_query-success_example : handle_query with_netlist configuration server ≡ (
  response 200 (codes "relayAmount:" ++ to_string (pos (length result.relay.relay_data))),
  record {
    pool = release_connection 0 (record (new_pool 1) { pool = [] });
    db = saved with_netlist result (part_values ∷ []) server.db;
    file = file_after with_netlist result server.file;
  },
)
handle_query-success_example =
    handle_query-success with_netlist (codes "bom") [] server 0 (record (new_pool 1) { pool = [] })
      result (part_values ∷ []) first_connection convert-result (λ q db. refl) part-Reads

-- The same server with a database that refuses every statement.
abbrev refused : Outside ℕ
refused = record with_netlist {
  database = record { prepare = λ q n. false; execute = λ q values n. none };
}

handle_query-answered_example :
    (db : ℕ) × (handle_query refused configuration server ≡ (
      response 200 (codes "relayAmount:" ++ to_string (pos (length result.relay.relay_data))),
      record {
        pool = release_connection 0 (record (new_pool 1) { pool = [] });
        db = db;
        file = file_after refused result server.file;
      },
    ))
unfolding convert new_input
handle_query-answered_example =
    handle_query-answered refused (codes "bom") [] server 0 (record (new_pool 1) { pool = [] })
      result (part_values ∷ []) first_connection convert-result part-Reads
