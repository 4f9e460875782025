-- ===== src/Tests/Samples.antt =====
-- Inputs for the tests: a board with two IO expanders in a daisy chain and one relay.
use relay_dev.Common.{List, [], ◌∷◌, none, ℕ, suc, some, pos, true, if◌then◌else◌}
use relay_dev.Text.{Bytes, codes, equal}
use relay_dev.Data.{NetlistData, BillData, RelayData}
use relay_dev.Input.Netlist.{Row}
use relay_dev.Input.Filter.{expander_device}
use relay_dev.Output.Save.{Database}
use relay_dev.Server.{Outside, Server}
use relay_dev.Pool.{new_pool}

abbrev pub row : Bytes → Bytes → Bytes → Bytes → Row
row n i c d = record { name = n; identifier = i; connection = c; device = d }

abbrev pub din : Bytes → Row
din i = row (codes "SDI") i (codes "33") expander_device

-- A group of one line.
abbrev pub single_line : Bytes → Bytes → Bytes → NetlistData
single_line n i c = record {
  name = n ∷ [];
  identifier = i ∷ [];
  connection = c ∷ [];
  device = expander_device ∷ [];
}

-- The data input of the first expander.
abbrev pub input_group : NetlistData
input_group = single_line (codes "SDI") (codes "U1") (codes "33")

-- From the first expander to the second.
abbrev pub link_group : NetlistData
link_group = record {
  name = codes "LINK" ∷ codes "LINK" ∷ [];
  identifier = codes "U1" ∷ codes "U2" ∷ [];
  connection = codes "40" ∷ codes "33" ∷ [];
  device = expander_device ∷ expander_device ∷ [];
}

-- The data output of the second.
abbrev pub output_group : NetlistData
output_group = single_line (codes "SDO") (codes "U2") (codes "40")

-- The relay K12, on pin 28 of the second expander, which is port P5.
abbrev pub relay_group : NetlistData
relay_group = record {
  name = codes "K_REL_12" ∷ codes "K_REL_12" ∷ [];
  identifier = codes "K12" ∷ codes "U2" ∷ [];
  connection = codes "1" ∷ codes "28" ∷ [];
  device = codes "G3VM-101QR1" ∷ expander_device ∷ [];
}

abbrev pub board : List NetlistData
board = input_group ∷ link_group ∷ output_group ∷ relay_group ∷ []

abbrev pub chain_groups : List NetlistData
chain_groups = input_group ∷ link_group ∷ output_group ∷ []

abbrev pub bill : BillData
bill = record {
  item = codes "7";
  quantity = codes "2";
  manufacturer = codes "OMRON";
  part_number = codes "G3VM";
  identifier = codes "K1" ∷ codes "K2" ∷ [];
  description = codes "RELAY, SMD";
  dni = [];
  status = codes "OK";
  max_temp = codes "85C";
}

abbrev pub plain_relay : RelayData
plain_relay = record {
  pin = codes "DUT_PIN_12";
  enumeration = codes "K_CIB_12";
  chain_number = pos 0;
  device_number = pos 23;
  port_number = codes "P5";
  drive_strength = codes "CONFIG_LED_10p5_mA";
  normal_state = codes "RELAY_NO";
  min_open_time = pos 0;
  typ_open_time = pos 60;
  max_open_time = pos 200;
  min_close_time = pos 0;
  typ_close_time = pos 100;
  max_close_time = pos 500;
  relay_name = codes "K_REL_12";
}

-- A database that counts the statements.
abbrev pub counter : Database ℕ
counter = record { prepare = λ q n. true; execute = λ q values n. some (suc n) }

-- The lines of a netlist with one expander and one relay.
abbrev pub netlist_lines : List Bytes
netlist_lines =
    codes "SDI U1 33 MAX6957ATL_TQFN-40-MAX6957ATL+"
    ∷ codes "SDO U1 40 MAX6957ATL_TQFN-40-MAX6957ATL+"
    ∷ codes "K_REL_12 K12 1 G3VM-101QR1"
    ∷ codes "K_REL_12 U1 28 MAX6957ATL_TQFN-40-MAX6957ATL+"
    ∷ []

-- A server whose files are all empty.
abbrev pub outside : Outside ℕ
outside = record {
  what = λ e. [];
  lines_of = λ path. [];
  file_opens = true;
  connects = true;
  junk = record { chain = pos 0; device = λ n. pos 0 };
  fuel = 3;
  database = counter;
}

-- The lines of a bill with one part.
abbrev pub bill_lines : List Bytes
bill_lines = codes "Item,Qty" ∷ codes "7,2,Omron,G3VM,K12,Relay,,OK,85C" ∷ []

-- A server whose files hold this netlist, but for the bill.
abbrev pub with_netlist : Outside ℕ
with_netlist = record outside {
  lines_of = λ path. if equal path (codes "bom") then bill_lines else netlist_lines;
}

abbrev pub server : Server ℕ
server = record { pool = new_pool 1; db = 0; file = none }
