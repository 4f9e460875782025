-- ===== src/Tests/Runs.antt =====
-- A query on a board with one expander and one relay.
use relay_dev.Common.{ℕ, ◌≡◌, refl, ap, List, [], ◌++◌, some, length, pos}
use relay_dev.Text.{Bytes, codes}
use relay_dev.Text.Number.{to_string}
use relay_dev.Relay.Convert.{RelayState, relay_convert, convert_relays}
use relay_dev.Relay.Device.{convert_chain}
use relay_dev.Input.Chain.{get_device_order, first_device, follow_chain, find_first, scan_groups}
use relay_dev.Input.Models.{InputData, get_input_data, get_relay_models}
use relay_dev.Input.Bill.{get_bill_data}
use relay_dev.Input.Netlist.{get_netlist_data, read_netlist}
use relay_dev.Input.Filter.{filter_netlist_data, filter_groups}
use relay_dev.Pool.{got, new_pool, fill, take_front, waits, get_connection, release_connection}
use relay_dev.Server.{
  Request, respond, Server, Reply, response, waiting, Request, query, process, convert, caught,
  new_input, handle_query, new_relay_state,
}
use relay_dev.Common.{length}
use relay_dev.Data.{NetlistData}
use relay_dev.Server.{Converted, write_file}
use relay_dev.Server.Rows.{IsConverted, handle_query-rows}
use relay_dev.Tests.Samples.{server, with_netlist, plain_relay}
use relay_dev.Output.Csv.{write_relay}
use relay_dev.Data.{BillData, new_netlist, IoData, RelayData}
use relay_dev.Input.Netlist.{rows, zip_rows}
use relay_dev.Input.Filter.{is_expander, expander_device}
use relay_dev.Input.Models.{relay_models}
use relay_dev.Output.Csv.Rows.{AreFree-Lacks}
use relay_dev.Server.File.{Says, handle_query-file}
use relay_dev.Server.{Outside}
use relay_dev.Input.Netlist.{get_netlist_data, read_netlist}
use relay_dev.Output.Save.{Value, int, text}
use relay_dev.Pool.{got, get_connection, release_connection, new_pool, fill}
use relay_dev.Tests.Samples.{netlist_lines}

abbrev written : Server ℕ
written = record server {
  db = 6;
  file = some (write_relay (record plain_relay { device_number = pos 22 }));
}

abbrev configuration : Request
configuration = query (codes "bom") []

-- A whole run: the relay is answered, stored and written, and the connection is back in the pool.
whole_run : handle_query with_netlist configuration server ≡ (
  response 200 (codes "relayAmount:" ++ to_string (pos 1)),
  record written { pool = release_connection 0 (record (new_pool 1) { pool = [] }) },
)
unfolding relay_dev.Text.equal relay_dev.Text.front relay_dev.Text.find_char
    relay_dev.Text.substr_to relay_dev.Text.erase_to relay_dev.Text.cell relay_dev.Text.after_cell
    relay_dev.Text.is_digit relay_dev.Text.upper relay_dev.Text.starts_with relay_dev.Text.find_text
    relay_dev.Text.contains relay_dev.Text.last relay_dev.Text.skip_blanks
    relay_dev.Text.Number.read_digits relay_dev.Text.Number.stoi relay_dev.Text.Number.decimal_from
    relay_dev.Text.Number.decimal relay_dev.Text.Number.to_string relay_dev.Data.new_relay
    relay_dev.Input.Bill.is_after relay_dev.Input.Bill.quoted_identifiers
    relay_dev.Input.Bill.read_identifiers relay_dev.Input.Bill.read_description
    relay_dev.Input.Bill.read_bill relay_dev.Input.Bill.get_bill_data
    relay_dev.Input.Netlist.read_row relay_dev.Input.Netlist.starts_group
    relay_dev.Input.Netlist.read_netlist relay_dev.Input.Netlist.get_netlist_data
    relay_dev.Input.Netlist.zip_rows relay_dev.Input.Netlist.rows relay_dev.Input.Filter.is_expander
    relay_dev.Input.Filter.is_reserved relay_dev.Input.Filter.drives_relay
    relay_dev.Input.Filter.scan_group relay_dev.Input.Filter.filter_groups
    relay_dev.Input.Filter.filter_netlist_data relay_dev.Input.Chain.is_din
    relay_dev.Input.Chain.is_dout relay_dev.Input.Chain.scan_first relay_dev.Input.Chain.find_first
    relay_dev.Input.Chain.find_din relay_dev.Input.Chain.last_identifier
    relay_dev.Input.Chain.follow relay_dev.Input.Chain.visit relay_dev.Input.Chain.scan_rows
    relay_dev.Input.Chain.scan_groups relay_dev.Input.Chain.follow_chain
    relay_dev.Input.Chain.first_device relay_dev.Input.Chain.get_device_order
    relay_dev.Input.Models.get_relay_models relay_dev.Input.Models.get_input_data
    relay_dev.Relay.Pin.second_last relay_dev.Relay.Pin.convert_pin relay_dev.Relay.Enum.find_from
    relay_dev.Relay.Enum.find_breaks relay_dev.Relay.Enum.breaks_of relay_dev.Relay.Enum.first
    relay_dev.Relay.Enum.suffix relay_dev.Relay.Enum.convert_enum
    relay_dev.Relay.Port.port_identifier relay_dev.Relay.Port.find_case relay_dev.Relay.Port.port_of
    relay_dev.Relay.Port.convert_port relay_dev.Relay.Device.convert_chain
    relay_dev.Relay.Device.find_device relay_dev.Relay.Device.convert_device
    relay_dev.Relay.Drive.match_models relay_dev.Relay.Drive.scan_devices
    relay_dev.Relay.Drive.convert_drive_strength relay_dev.Relay.Normal.scan_pins
    relay_dev.Relay.Normal.scan_netlist relay_dev.Relay.Normal.scan_relay
    relay_dev.Relay.Normal.convert_normal_state relay_dev.Relay.Convert.convert_relay
    relay_dev.Relay.Convert.convert_relays relay_dev.Relay.Convert.relay_convert
    relay_dev.Output.Csv.write_relay relay_dev.Output.Csv.write_relays
    relay_dev.Output.Csv.output_relay_data relay_dev.Output.Save.bill_values
    relay_dev.Output.Save.save_bills relay_dev.Output.Save.save_rows
    relay_dev.Output.Save.save_netlist relay_dev.Output.Save.save_relays
    relay_dev.Output.Save.save_data relay_dev.Server.new_input relay_dev.Server.caught
    relay_dev.Server.convert relay_dev.Server.process relay_dev.Server.respond new_pool fill
    handle_query relay_dev.Pool.get_connection relay_dev.Pool.take_front
    relay_dev.Pool.release_connection
whole_run = refl

handle_query-rows_example :
    (c : Converted) × (relays : List NetlistData) × IsConverted with_netlist
      (codes "bom")
      []
      c
      relays
    × (codes "relayAmount:" ++ to_string (pos 1)
        ≡ codes "relayAmount:" ++ to_string (pos (length c.relay.relay_data)))
    × ((handle_query with_netlist configuration server).1.file ≡ write_file c.content server.file)
handle_query-rows_example =
    handle_query-rows with_netlist (codes "bom") [] server
      (codes "relayAmount:" ++ to_string (pos 1)) (ap (λ m. m.0) whole_run)

handle_query-file_example :
    (c : Converted) × (relays : List NetlistData) × IsConverted with_netlist
      (codes "bom")
      []
      c
      relays
    × (content : Bytes) × ((handle_query with_netlist configuration server).1.file ≡ some content)
    × Says content c.relay.relay_data
unfolding relay_dev.Text.equal
handle_query-file_example =
    handle_query-file with_netlist (codes "bom") [] server
      (codes "relayAmount:" ++ to_string (pos 1)) refl (AreFree-Lacks b',' netlist_lines refl)
      (AreFree-Lacks b'\n' netlist_lines refl) (ap (λ m. m.0) whole_run)
