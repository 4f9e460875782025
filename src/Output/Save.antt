-- ===== src/Output/Save.antt =====
-- Output::saveData of Output.cpp, over a database that the caller gives.
pub mod Statements
pub mod Silent
use relay_dev.Common.{
  ℕ, zero, suc, ◌+◌, Bool, true, false, List, [], ◌∷◌, Option, none, some, if◌then◌else◌, get_elem?,
  Result, ok, err, Stop, sql_error, defined, ◌>>=◌, ℤ, pos,
}
use relay_dev.Text.{Bytes}
use relay_dev.Text.Number.{stoi}
use relay_dev.Data.{BillData, NetlistData, RelayData}
use relay_dev.Input.Netlist.{Row, rows}
use relay_dev.Input.Models.{InputData}
use relay_dev.Relay.Convert.{RelayState}

-- The three INSERT statements.
pub data Query : Type 0 where
  input_bom input_netlist output_config : Query

-- What `setInt` and `setString` bind.
pub data Value : Type 0 where
  int : ℤ → Value
  text : Bytes → Value

-- The connector: `prepareStatement`, which may throw a SQLException, and the bound statement's
-- `execute`, which changes the database or throws one.
pub record Database (Db : Type 0) : Type 0 where
  pub prepare : Query → Db → Bool
  pub execute : Query → List Value → Db → Option Db

-- How a `try` block ends: the database, and the exception that leaves the function.
abbrev pub Saved : Type 0 → Type 0
Saved Db = Db × Option Stop

unfoldable pub bill_values : BillData → Result (List Value)
bill_values bill = do
  item ← stoi bill.item
  quantity ← stoi bill.quantity
  identifier ← defined (get_elem? bill.identifier 0)
  ok (
      int (pos 1)
      ∷ int item
      ∷ int quantity
      ∷ text bill.manufacturer
      ∷ text bill.part_number
      ∷ text identifier
      ∷ text bill.description
      ∷ text bill.dni
      ∷ text bill.status
      ∷ text bill.max_temp
      ∷ [])

abbrev pub netlist_values : Row → List Value
netlist_values r =
    int (pos 1)
    ∷ int (pos 1)
    ∷ text r.name
    ∷ text r.identifier
    ∷ text r.connection
    ∷ text r.device
    ∷ []

abbrev pub relay_values : ℕ → RelayData → List Value
relay_values i r =
    int (pos 1)
    ∷ int (pos i)
    ∷ text r.pin
    ∷ text r.enumeration
    ∷ int r.chain_number
    ∷ int r.device_number
    ∷ text r.port_number
    ∷ text r.drive_strength
    ∷ text r.normal_state
    ∷ int r.min_open_time
    ∷ int r.typ_open_time
    ∷ int r.max_open_time
    ∷ int r.min_close_time
    ∷ int r.typ_close_time
    ∷ int r.max_close_time
    ∷ text r.relay_name
    ∷ []

-- A SQLException in one group ends the loop over the groups.
abbrev pub then_groups : {Db : Type 0} → Db × Bool → (Db → Db) → Db
then_groups (db, true) next = db
then_groups (db, false) next = next db

-- Another exception leaves the function.
abbrev pub then_block : {Db : Type 0} → Saved Db → (Db → Saved Db) → Saved Db
then_block (db, some e) next = (db, some e)
then_block (db, none) next = next db

module _ {Db : Type 0} (database : Database Db) where
  -- A SQLException is caught, and ends the block.
  unfoldable pub save_bills : List BillData → Db → Saved Db
  unfolding bill_values
  save_bills [] db = (db, none)
  save_bills (bill ∷ bill_data) db = elim (bill_values bill) [
    | err e ↦ (db, some e)
    | ok values ↦ elim (database.execute input_bom values db) [
      | none ↦ (db, none)
      | some db' ↦ save_bills bill_data db'
    ]
  ]

  -- The lines of one group: the database, and whether a SQLException was thrown.
  unfoldable pub save_rows : List Row → Db → Db × Bool
  save_rows [] db = (db, false)
  save_rows (r ∷ rs) db = elim (database.execute input_netlist (netlist_values r) db) [
    | none ↦ (db, true)
    | some db' ↦ save_rows rs db'
  ]

  unfoldable pub save_netlist : List NetlistData → Db → Db
  unfolding save_rows
  save_netlist [] db = db
  save_netlist (g ∷ gs) db = then_groups (save_rows (rows g) db) (save_netlist gs)

  -- `for (i = …; i < relayAmount; i++)`, with the rounds that are left.
  unfoldable pub save_relays : ℕ → ℕ → List RelayData → Db → Saved Db
  save_relays zero i relay_data db = (db, none)
  save_relays (suc left) i relay_data db = elim (defined (get_elem? relay_data i)) [
    | err e ↦ (db, some e)
    | ok r ↦ elim (database.execute output_config (relay_values i r) db) [
      | none ↦ (db, none)
      | some db' ↦ save_relays left (suc i) relay_data db'
    ]
  ]

  -- A block is skipped if its statement cannot be prepared.
  unfoldable pub save_data : InputData → RelayState → Db → Saved Db
  unfolding save_bills save_netlist save_relays
  save_data input relay db =
      then_block
        (if database.prepare input_bom db then save_bills input.bill_data db else (db, none))
        (λ db1.
          then_block
            (if database.prepare input_netlist db1
              then (save_netlist input.netlist_data db1, none)
              else (db1, none))
            (λ db2.
              if database.prepare output_config db2
              then save_relays relay.relay_amount 0 relay.relay_data db2
              else (db2, none)))
