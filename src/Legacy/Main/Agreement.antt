-- ===== src/Legacy/Main/Agreement.antt =====
-- Where the console program does what the service does with the same files.
use relay_dev.Common.{
  suc, ◌≡◌, refl, sym, ap, subst, ◌∙◌, Bool, false, List, [], ◌∷◌, map, All, length, length-map, ok,
  ◌>>=◌, >>=-eq-ok, ℤ, is_pos,
}
use relay_dev.Text.{Bytes, codes, upper, equal}
use relay_dev.Data.{RelayData, NetlistData, new_io}
use relay_dev.Input.Netlist
use relay_dev.Input.Models
use relay_dev.Input.Filter.{filter_netlist_data}
use relay_dev.Relay.Device
use relay_dev.Relay.Convert.Relays.{RowsOf, nil, cons}
use relay_dev.Server.{Outside, Converted, new_input, new_relay_state, convert}
use relay_dev.Server.Rows.{IsConverted, convert-IsConverted}
use relay_dev.Legacy.Bill.Agreement.{get_bill_data-agrees}
use relay_dev.Legacy.Netlist.{Reading, get_netlist_data}
use relay_dev.Legacy.Netlist.OnePass.{get_netlist_data-filter}
use relay_dev.Legacy.Netlist.Groups.{get_netlist_data-groups}
use relay_dev.Legacy.Chain.{set_first, get_device_order}
use relay_dev.Legacy.Chain.First.{StartsAlike, get_first_device-agrees}
use relay_dev.Input.Chain.Endless.{get_device_order-found}
use relay_dev.Legacy.Chain.Agreement.{get_device_order-agrees}
use relay_dev.Legacy.Convert.{InputData, relay_convert}
use relay_dev.Legacy.Convert.Agreement.{shared, HasDevice, relay_convert-agrees}
use relay_dev.Legacy.Csv.{write_csv}
use relay_dev.Legacy.Main.{convert_files}

RowsOf-length :
    {input : Models.InputData} {chain : ℤ} (gs : List NetlistData) (rs : List RelayData)
    → RowsOf input chain gs rs
    → length rs ≡ length gs
RowsOf-length [] [] nil = refl
RowsOf-length [] (r ∷ rs) h = elim h [ ]
RowsOf-length (g ∷ gs) [] h = elim h [ ]
RowsOf-length (g ∷ gs) (r ∷ rs) (cons row rest) = ap suc (RowsOf-length gs rs rest)

module _ {Db : Type 0} (o : Outside Db) (bom netlist : Bytes) (c : Converted)
    (done : IsConverted o bom netlist c c.input.relay_list) where
  -- The lines that the console program gets.
  abbrev pub upper_lines : Bytes → List Bytes
  upper_lines path = map (map upper) (o.lines_of path)

  reading-agrees :
      (s : Reading) × (get_netlist_data (upper_lines netlist) ≡ ok s)
      × (s.netlist_data ≡ c.input.netlist_data)
      × (s.relay_list ≡ c.input.relay_list)
      × (s.relay_counter ≡ length s.relay_list)
  unfolding new_input
  reading-agrees =
      let filtered : filter_netlist_data (Netlist.get_netlist_data (o.lines_of netlist) []) []
          ≡ ok c.input.relay_list =
        subst (λ n. filter_netlist_data n [] ≡ ok c.input.relay_list) done.read.netlist
          done.read.relays in
      let (s, read, last) =
        >>=-eq-ok (get_netlist_data (upper_lines netlist)) (λ (s : Reading). ok s.relay_list)
          (get_netlist_data-filter (o.lines_of netlist) ∙ filtered) in
      let (groups, counted) = get_netlist_data-groups (o.lines_of netlist) s read in
      (s, read, groups ∙ sym done.read.netlist, cc last, counted)

  order-agrees :
      All StartsAlike c.input.netlist_data
      → get_device_order o.fuel c.input.netlist_data [] ≡ ok c.input.io_data
  unfolding new_input
  order-agrees alike =
      let gs = c.input.netlist_data in
      let (first, here, _) = get_device_order-found o.fuel gs c.input.io_data done.read.devices in
      let there = get_first_device-agrees gs (new_io ∷ []) alike in
      get_device_order-agrees o.fuel gs first here
        (there ∙ ap (λ m. set_first m (new_io ∷ [])) here)
      ∙ done.read.devices

  rows-agree :
      (input : InputData)
      → is_pos 1 o.junk.chain ≡ false
      → input.board_type ≡ codes "Power"
      → input.io_data ≡ c.input.io_data
      → input.relay_list ≡ c.input.relay_list
      → All (HasDevice c.input.io_data) c.input.relay_list
      → (rs : List RelayData) × (relay_convert input (length input.relay_list) [] ≡ ok rs)
        × (map shared rs ≡ map shared c.relay.relay_data)
  unfolding new_input Device.convert_chain equal
  rows-agree input other power io same listed =
      let chain : is_pos 1 (Device.convert_chain o.junk.chain c.input.board_type) ≡ false =
        rw done.read.board other in
      let both =
        relay_convert-agrees input c.input o.junk new_relay_state power chain io same listed refl in
      let made : (relay_convert input (length input.relay_list) [] >>= λ rs. ok (map shared rs))
          ≡ ok (map shared c.relay.relay_data) =
        both ∙ ap (λ m. m >>= λ r. ok (map shared r.relay_data)) done.conversion in
      let (rs, converted, last) =
        >>=-eq-ok (relay_convert input (length input.relay_list) []) (λ rs. ok (map shared rs))
          made in
      (rs, converted, cc last)

-- The console program on a Power board, with the lines in upper case of the files that the service
-- converts: if the service's unassigned `chain` is not 1, in each group with an expander's data input
-- and no data output the first line of an expander is that of its first data input and has an
-- identifier other than OUTPUT, and every relay's expander is in the chain, then the console program
-- converts the files too. The rows that it writes are those of the service, but for the drive strength
-- and the normal state.
pub convert_files-agrees :
    {Db : Type 0} (o : Outside Db) (opens : Bool) (bom netlist : Bytes) (c : Converted)
    → convert o bom netlist ≡ ok c
    → is_pos 1 o.junk.chain ≡ false
    → All StartsAlike c.input.netlist_data
    → All (HasDevice c.input.io_data) c.input.relay_list
    → (rs : List RelayData) × (map shared rs ≡ map shared c.relay.relay_data)
      × (convert_files o.fuel (λ path. map (map upper) (o.lines_of path)) opens bom netlist
          ≡ write_csv opens (length rs) rs)
unfolding convert_files new_input
convert_files-agrees o opens bom netlist c h other alike listed =
    let done = convert-IsConverted o bom netlist c h in
    let (s, read, groups, relays, counted) = reading-agrees o bom netlist c done in
    let input : InputData = record {
      board_type = codes "Power";
      bill_data = c.input.bill_data;
      io_data = c.input.io_data;
      netlist_data = c.input.netlist_data;
      relay_list = s.relay_list;
      gnd_data = s.gnd_data;
    } in
    let (rs, converted, same) =
      rows-agree o bom netlist c done input other refl refl relays listed in
    let size : length s.relay_list ≡ length rs =
      ap length relays
      ∙ sym (RowsOf-length c.input.relay_list c.relay.relay_data done.each)
      ∙ sym (length-map shared c.relay.relay_data)
      ∙ ap length (sym same)
      ∙ length-map shared rs in
    let bills = get_bill_data-agrees (o.lines_of bom) [] ∙ done.read.bills in
    let order = order-agrees o bom netlist c done alike in
    (
      rs,
      same,
      rw (bills, read, groups, order, counted, converted) (ap (λ k. write_csv opens k rs) size),
    )
