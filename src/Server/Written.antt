-- ===== src/Server/Written.antt =====
-- A query of main.cpp whose netlist has been written from groups.
use relay_dev.Common.{ℕ, ◌≡◌, sym, ap, ◌∙◌, List, [], ◌∷◌, ◌++◌, map, replicate, All, ok}
use relay_dev.Text.{Bytes}
use relay_dev.Data.{NetlistData, new_netlist}
use relay_dev.Input.Netlist.{rows, get_netlist_data}
use relay_dev.Input.Netlist.Columns.{write_row}
use relay_dev.Input.Netlist.Lines.{all_rows, IsAligned}
use relay_dev.Input.Netlist.Names.{Alternates}
use relay_dev.Input.Netlist.RoundTrip.{get_netlist_data-write}
use relay_dev.Input.Netlist.RoundTrip.Written.{IsLine}
use relay_dev.Input.Filter.Spec.{relay_groups}
use relay_dev.Input.Filter.Empty.{relay_groups-replicate}
use relay_dev.Input.Chain.{get_device_order}
use relay_dev.Input.Chain.Empty.{get_device_order-replicate}
use relay_dev.Relay.Convert.Relays.{board_chain, RowsOf}
use relay_dev.Server.{Outside, Converted, new_input, convert}
use relay_dev.Server.Rows.{convert-IsConverted}

-- Let the netlist of a query be written line by line from groups, each with lines of one name, and
-- neighbours of different names; let the columns be in upper case, the first three words of one
-- character or more without a blank, and the fourth without a blank in front. If the two files are
-- converted, the relays are those groups that drive one, the IO expanders are those that
-- `getDeviceOrder` finds in the groups, in its order, and each relay has its row, in order.
pub convert-write :
    {Db : Type 0} (o : Outside Db) (bom netlist : Bytes) (k : Converted) (a b c : ℕ) (n : Bytes)
    (g : NetlistData) (gs : List NetlistData)
    → o.lines_of netlist ≡ map (write_row a b c) (all_rows (g ∷ gs))
    → Alternates n (g ∷ gs)
    → All IsAligned (g ∷ gs)
    → All (λ h. All IsLine (rows h)) (g ∷ gs)
    → convert o bom netlist ≡ ok k
    → (relay_groups (g ∷ gs) ≡ ok k.input.relay_list)
      × (get_device_order o.fuel (g ∷ gs) [] ≡ ok k.input.io_data)
      × RowsOf k.input (board_chain k.input o.junk) k.input.relay_list k.relay.relay_data
unfolding new_input
convert-write o bom netlist k a b c n g gs lines alt al ls h =
    let done = convert-IsConverted o bom netlist k h in
    let (m, back) = get_netlist_data-write a b c n g gs alt al ls in
    let read : get_netlist_data (o.lines_of netlist) [] ≡ (g ∷ gs) ++ replicate m new_netlist =
      ap (λ l. get_netlist_data l []) lines ∙ back in
    (
      sym (relay_groups-replicate (g ∷ gs) m) ∙ sym (ap relay_groups read) ∙ done.groups,
      sym (get_device_order-replicate o.fuel (g ∷ gs) m [])
          ∙ ap (λ d. get_device_order o.fuel d []) (sym (done.read.netlist ∙ read))
          ∙ done.read.devices,
      done.each,
    )
