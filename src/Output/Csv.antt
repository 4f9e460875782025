-- ===== src/Output/Csv.antt =====
-- Output::outputRelayData of Output.cpp: the text of the file that it writes.
pub mod RoundTrip
pub mod Rows
pub mod Stream
use relay_dev.Common.{
  ℕ, zero, suc, ◌-◌, Bool, true, false, List, [], ◌∷◌, ◌++◌, Option, none, some, if◌then◌else◌, ltb,
  get_elem?, Result, ok, defined, ◌>>=◌,
}
use relay_dev.Text.{Bytes, codes}
use relay_dev.Text.Number.{to_string}
use relay_dev.Data.{RelayData}
use relay_dev.Relay.Convert.{RelayState}

abbrev pub comma : Bytes → Bytes
comma rest = b',' ∷ rest

-- One relay, as `<<` writes it.
unfoldable pub write_relay : RelayData → Bytes
write_relay r =
    codes "RELAY("
    ++ (r.pin
        ++ comma (
            r.enumeration
            ++ comma (
                to_string r.chain_number
                ++ comma (
                    to_string r.device_number
                    ++ comma (
                        r.port_number
                        ++ comma (
                            r.drive_strength
                            ++ comma (
                                r.normal_state
                                ++ comma (
                                    to_string r.min_open_time
                                    ++ comma (
                                        to_string r.typ_open_time
                                        ++ comma (
                                            to_string r.max_open_time
                                            ++ comma (
                                                to_string r.min_close_time
                                                ++ comma (
                                                    to_string r.typ_close_time
                                                    ++ comma (
                                                        to_string r.max_close_time
                                                        ++ comma
                                                            (r.relay_name ++ codes ")"))))))))))))))

-- `for (i = …; i < relayAmount; i++)`, with the rounds that are left; a line feed stands behind
-- every relay but the last.
unfoldable pub write_relays : ℕ → ℕ → RelayState → Result Bytes
unfolding write_relay
write_relays zero i relay = ok []
write_relays (suc left) i relay = defined (get_elem? relay.relay_data i) >>= λ r.
    write_relays left (suc i) relay >>= λ rest.
    ok (write_relay r ++ (if ltb i (relay.relay_amount - 1) then b'\n' ∷ rest else rest))

-- Nothing is written if the file cannot be opened.
unfoldable pub output_relay_data : Bool → RelayState → Result (Option Bytes)
unfolding write_relays
output_relay_data false relay = ok none
output_relay_data true relay =
    write_relays relay.relay_amount 0 relay >>= λ content. ok (some content)
