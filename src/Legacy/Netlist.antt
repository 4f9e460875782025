-- ===== src/Legacy/Netlist.antt =====
-- getNetlistData and checkConnection of relay.cpp: the netlist and the relay list in one pass. The
-- columns of a line are read as in Input.cpp.
pub mod Growing
pub mod OnePass
pub mod Groups
pub mod Ground
use relay_dev.Common.{
  ℕ, suc, Bool, true, false, not, ◌&&◌, List, [], ◌∷◌, ◌++◌, if◌then◌else◌, ◌==◌, all, modify,
  get_elem?, Result, ok, defined, ◌>>=◌,
}
use relay_dev.Text.{Bytes, codes, equal, front, is_digit}
use relay_dev.Text.Number.{stoi}
use relay_dev.Data.{NetlistData, new_netlist}
use relay_dev.Input.Netlist.{Row, read_row, push_row, starts_group}
use relay_dev.Input.Filter.{is_expander, is_reserved, append_group}

-- The case labels of the switch are those of Input.cpp.
unfoldable pub check_connection : Row → Result Bool
unfolding is_reserved
check_connection r =
    if all is_digit r.connection
    then stoi r.connection >>= (λ z. ok (not (is_reserved z)))
    else ok false

-- The vectors of the Input that the loop fills, and its locals.
pub record Reading : Type 0 where
  pub netlist_data : List NetlistData
  pub relay_list : List NetlistData
  pub gnd_data : List Bytes
  pub loop_counter : ℕ
  pub relay_counter : ℕ
  pub relay_connection : Bool

-- With the flag set, the group that has been read is copied into the relay list.
unfoldable pub flush : Reading → Result Reading
flush s = elim s.relay_connection [
  | false ↦ ok s
  | true ↦ defined (get_elem? s.netlist_data s.loop_counter) >>= λ g. ok (record s {
    relay_list = modify s.relay_counter (append_group g) (s.relay_list ++ new_netlist ∷ []);
    relay_counter = suc s.relay_counter;
    relay_connection = false;
  })
]

-- Where the name changes, the group before is complete.
unfoldable pub change_group : Bytes → Bytes → Reading → Result Reading
unfolding flush
change_group comparator holder s = elim (starts_group comparator holder) [
  | false ↦ ok s
  | true ↦ flush s >>= λ s'. ok (record s' { loop_counter = suc s'.loop_counter })
]

-- The flag is set at the first line of the group that drives a relay.
unfoldable pub mark : Row → Reading → Result Reading
unfolding check_connection
mark r s = elim (is_expander r && not s.relay_connection) [
  | false ↦ ok s
  | true ↦
      check_connection r >>= λ found. ok (if found then record s { relay_connection = true } else s)
]

unfoldable pub is_gnd : Row → Bool
is_gnd r = equal r.name (codes "GND") && (front r.identifier == b'K')

-- An identifier and a device, as `gndData` has them.
abbrev pub gnd_name : Row → Bytes
gnd_name r = r.identifier ++ b'_' ∷ r.device

unfoldable pub store : Row → Reading → Reading
unfolding is_gnd
store r s = record s {
  netlist_data = modify s.loop_counter (push_row r) (s.netlist_data ++ new_netlist ∷ []);
  gnd_data = if is_gnd r then s.gnd_data ++ gnd_name r ∷ [] else s.gnd_data;
}

-- The loop over the lines, and the check behind it.
unfoldable pub read_lines : Bytes → List Bytes → Reading → Result Reading
unfolding change_group mark store
read_lines comparator [] s = flush s
read_lines comparator (holder ∷ lines) s = change_group comparator holder s >>= λ s1.
    mark (read_row holder) s1 >>= λ s2. read_lines holder lines (store (read_row holder) s2)

-- The vectors of a new Input. The number of relays that is returned is `relay_counter`.
unfoldable pub new_reading : Reading
new_reading = record {
  netlist_data = [];
  relay_list = [];
  gnd_data = [];
  loop_counter = 0;
  relay_counter = 0;
  relay_connection = false;
}

unfoldable pub get_netlist_data : List Bytes → Result Reading
unfolding read_lines new_reading
get_netlist_data lines = read_lines (b' ' ∷ []) lines new_reading
