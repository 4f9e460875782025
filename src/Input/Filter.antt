-- ===== src/Input/Filter.antt =====
-- Input::filterNetlistData of Input.cpp.
pub mod Spec
pub mod Empty
use relay_dev.Common.{
  ℕ, suc, ◌+◌, Bool, true, false, not, ◌&&◌, List, [], ◌∷◌, ◌++◌, if◌then◌else◌, ltb, length, any,
  all, modify, Result, ok, ◌>>=◌, ℤ, is_pos,
}
use relay_dev.Text.{Bytes, codes, equal, is_digit}
use relay_dev.Text.Number.{stoi}
use relay_dev.Data.{NetlistData, new_netlist}
use relay_dev.Input.Netlist.{Row, rows}

-- The device column of an IO expander.
abbrev pub expander_device : Bytes
expander_device = codes "MAX6957ATL_TQFN-40-MAX6957ATL+"

unfoldable pub is_expander : Row → Bool
is_expander r = equal r.device expander_device

-- The case labels: pins of the expander that drive no relay.
abbrev pub reserved_pins : List ℕ
reserved_pins = 11 ∷ 20 ∷ 31 ∷ 32 ∷ 33 ∷ 34 ∷ 35 ∷ 36 ∷ 37 ∷ 38 ∷ 39 ∷ 40 ∷ []

unfoldable pub is_reserved : ℤ → Bool
is_reserved z = any (λ n. is_pos n z) reserved_pins

-- The test on one line, and the switch under it: is this line the connection of a relay?
unfoldable pub drives_relay : Row → Result Bool
unfolding is_expander is_reserved
drives_relay r =
    if is_expander r && all is_digit r.connection
    then stoi r.connection >>= (λ z. ok (not (is_reserved z)))
    else ok false

-- The copy of the four vectors into `input.relayList[relayCounter]`.
abbrev pub append_group : NetlistData → NetlistData → NetlistData
append_group g old = record {
  name = old.name ++ g.name;
  identifier = old.identifier ++ g.identifier;
  connection = old.connection ++ g.connection;
  device = old.device ++ g.device;
}

-- The loop over the lines of one group. It ends when the list has grown past the counter.
unfoldable pub scan_group :
    NetlistData → List Row → ℕ → List NetlistData → Result (List NetlistData × ℕ)
scan_group g [] relay_counter relay_list = ok (relay_list, relay_counter)
scan_group g (r ∷ rs) relay_counter relay_list = drives_relay r >>= λ found.
    let relay_list' =
      if found
      then modify relay_counter (append_group g) (relay_list ++ new_netlist ∷ [])
      else relay_list in
    let rest = scan_group g rs relay_counter relay_list' in
    if ltb relay_counter (length relay_list') then ok (relay_list', suc relay_counter) else rest

unfoldable pub filter_groups : List NetlistData → ℕ → List NetlistData → Result (List NetlistData)
unfolding scan_group
filter_groups [] relay_counter relay_list = ok relay_list
filter_groups (g ∷ gs) relay_counter relay_list =
    scan_group g (rows g) relay_counter relay_list >>= λ (relay_list', relay_counter').
    filter_groups gs relay_counter' relay_list'

unfoldable pub filter_netlist_data : List NetlistData → List NetlistData → Result (List NetlistData)
unfolding filter_groups
filter_netlist_data netlist_data relay_list = filter_groups netlist_data 0 relay_list
