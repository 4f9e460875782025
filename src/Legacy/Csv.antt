-- ===== src/Legacy/Csv.antt =====
-- writeCSV of relay.cpp.
pub mod Lines
use relay_dev.Common.{
  ℕ, zero, suc, ◌-◌, Bool, true, false, List, [], ◌∷◌, ◌++◌, Option, none, some, if◌then◌else◌, ltb,
  get_elem?, Result, ok, defined, ◌>>=◌,
}
use relay_dev.Text.{Bytes}
use relay_dev.Text.Join.{join}
use relay_dev.Text.Number.{to_string}
use relay_dev.Data.{RelayData}

-- One relay: its fourteen columns, with a comma between two of them.
unfoldable pub write_relay : RelayData → Bytes
write_relay r = join b',' (
    r.pin
    ∷ r.enumeration
    ∷ to_string r.chain_number
    ∷ to_string r.device_number
    ∷ r.port_number
    ∷ r.drive_strength
    ∷ r.normal_state
    ∷ to_string r.min_open_time
    ∷ to_string r.typ_open_time
    ∷ to_string r.max_open_time
    ∷ to_string r.min_close_time
    ∷ to_string r.typ_close_time
    ∷ to_string r.max_close_time
    ∷ r.relay_name
    ∷ [])

-- `for (i = …; i < relayAmount; i++)`, with the rounds that are left.
unfoldable pub write_relays : ℕ → ℕ → ℕ → List RelayData → Result Bytes
unfolding write_relay
write_relays zero i relay_amount relay_data = ok []
write_relays (suc left) i relay_amount relay_data = defined (get_elem? relay_data i) >>= λ r.
    write_relays left (suc i) relay_amount relay_data >>= λ rest.
    ok (write_relay r ++ (if ltb i (relay_amount - 1) then b'\n' ∷ rest else rest))

-- Nothing is written if the file cannot be opened.
unfoldable pub write_csv : Bool → ℕ → List RelayData → Result (Option Bytes)
unfolding write_relays
write_csv false relay_amount relay_data = ok none
write_csv true relay_amount relay_data =
    write_relays relay_amount 0 relay_amount relay_data >>= λ content. ok (some content)
