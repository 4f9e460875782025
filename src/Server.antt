-- ===== src/Server.antt =====
-- The handler `handleQuery` of main.cpp. What the web framework and the JSON reader do is given: a
-- request comes as what the reader made of its body, and the response is the value of a call.
pub mod Connections
pub mod Capacity
pub mod Cost
pub mod Rows
pub mod File
pub mod Writes
pub mod Total
pub mod Success
pub mod Written
pub mod Interleaved
pub mod Contract
pub mod Phases
pub mod Rounds
pub mod Devices
pub mod Places
use relay_dev.Common.{
  ℕ, Bool, true, false, List, [], ◌∷◌, ◌++◌, Option, none, some, Result, ok, err, Stop,
  invalid_argument, out_of_range, sql_error, undefined, out_of_fuel, ◌>>=◌, pos,
}
use relay_dev.Text.{Bytes, codes}
use relay_dev.Text.Number.{to_string}
use relay_dev.Data.{RelayData}
use relay_dev.Input.Models.{InputData, get_input_data}
use relay_dev.Relay.Convert.{Junk, RelayState, relay_convert}
use relay_dev.Output.Csv.{output_relay_data}
use relay_dev.Output.Save.{Database, save_data}
use relay_dev.Pool.{Pool, Got, got, thrown, waits, get_connection, release_connection}

-- A body that is no JSON, one without the two paths, and one with them.
pub data Request : Type 0 where
  invalid_json missing_paths : Request
  query : (bom_path netlist_path : Bytes) → Request

-- A response, a request that waits for a connection, and a call that never responds.
pub data Reply : Type 0 where
  response : (status : ℕ) → Bytes → Reply
  waiting : Reply
  no_response : Reply

-- What the handler meets outside: the text of an exception, the lines of a file, whether the output
-- file opens and the database server answers, and what unassigned locals hold. The fuel is that of
-- the loop over the daisy chain.
pub record Outside (Db : Type 0) : Type 0 where
  pub what : Stop → Bytes
  pub lines_of : Bytes → List Bytes
  pub file_opens : Bool
  pub connects : Bool
  pub junk : Junk
  pub fuel : ℕ
  pub database : Database Db

-- `file` is the content of Configuration.csv, once it has been written.
pub record Server (Db : Type 0) : Type 0 where
  pub pool : Pool
  pub db : Db
  pub file : Option Bytes

-- A new Input with the two paths; the board type is left empty.
unfoldable pub new_input : Bytes → Bytes → InputData
new_input bom_path netlist_path = record {
  netlist_name = netlist_path;
  bill_name = bom_path;
  board_type = [];
  bill_data = [];
  io_data = [];
  netlist_data = [];
  relay_list = [];
  model_data = [];
}

abbrev pub new_relay_state : RelayState
new_relay_state = record {
  device_modifier = 0;
  current_relay = 0;
  relay_data = [];
  relay_amount = 0;
}

-- The `catch` clauses. Undefined behaviour and an endless loop are no exceptions.
unfoldable pub caught : {Db : Type 0} → Outside Db → Stop → Reply
caught o sql_error = response 500 (codes "Database error: " ++ o.what sql_error)
caught o invalid_argument = response 500 (codes "Error: " ++ o.what invalid_argument)
caught o out_of_range = response 500 (codes "Error: " ++ o.what out_of_range)
caught o undefined = no_response
caught o out_of_fuel = no_response

-- What has been read and converted, and the text that goes to the file if it opens.
pub record Converted : Type 0 where
  pub input : InputData
  pub relay : RelayState
  pub content : Option Bytes

unfoldable pub convert : {Db : Type 0} → Outside Db → Bytes → Bytes → Result Converted
unfolding new_input
convert o bom_path netlist_path = do
  input ← get_input_data o.fuel o.lines_of (new_input bom_path netlist_path)
  relay ← relay_convert input o.junk new_relay_state
  content ← output_relay_data o.file_opens relay
  ok (record { input = input; relay = relay; content = content })

abbrev pub write_file : Option Bytes → Option Bytes → Option Bytes
write_file none old = old
write_file (some content) old = some content

abbrev pub after_save :
    {Db : Type 0} → RelayState → Server Db → Db × Option Stop → Result RelayState × Server Db
after_save relay s (db, none) = (ok relay, record s { db = db })
after_save relay s (db, some e) = (err e, record s { db = db })

-- What is done while the connection is held.
unfoldable pub process :
    {Db : Type 0} → Outside Db → Bytes → Bytes → Server Db → Result RelayState × Server Db
unfolding convert
process o bom_path netlist_path s = elim (convert o bom_path netlist_path) [
  | err e ↦ (err e, s)
  | ok c ↦
      after_save c.relay (record s { file = write_file c.content s.file })
        (save_data o.database c.input c.relay s.db)
]

-- The connection is released only if nothing has been thrown.
unfoldable pub respond :
    {Db : Type 0} → Outside Db → ℕ → Pool → Result RelayState × Server Db → Reply × Server Db
unfolding caught
respond o conn pool (ok relay, s) = (
  response 200 (codes "relayAmount:" ++ to_string (pos relay.relay_amount)),
  record s { pool = release_connection conn pool },
)
respond o conn pool (err e, s) = (caught o e, record s { pool = pool })

unfoldable pub handle_query : {Db : Type 0} → Outside Db → Request → Server Db → Reply × Server Db
unfolding process respond caught
handle_query o invalid_json s = (response 400 (codes "Invalid JSON format."), s)
handle_query o missing_paths s = (response 400 (codes "BomPath or NetListPath empty."), s)
handle_query o (query bom_path netlist_path) s = elim (get_connection o.connects s.pool) [
  | got conn pool ↦ respond o conn pool (process o bom_path netlist_path s)
  | thrown pool ↦ (caught o sql_error, record s { pool = pool })
  | waits ↦ (waiting, s)
]
