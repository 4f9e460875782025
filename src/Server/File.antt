-- ===== src/Server/File.antt =====
-- What the configuration file says after a query.
use relay_dev.Common.{
  ◌≡◌, refl, ap, subst, ◌∙◌, ◌⊎◌, inl, inr, true, List, [], ◌∷◌, map, some, arith, All, ok, length,
  ◌≢◌,
}
use relay_dev.Text.{Bytes}
use relay_dev.Text.Search.{Lacks}
use relay_dev.Data.{RelayData, NetlistData}
use relay_dev.Input.Netlist.{get_netlist_data}
use relay_dev.Input.Netlist.Plain.{NamesLack, get_netlist_data-NamesLack, relay_groups-All}
use relay_dev.Relay.Convert.{RelayState}
use relay_dev.Relay.Convert.Kinds.{board_chain_bit}
use relay_dev.Relay.Convert.Relays.{board_chain}
use relay_dev.Output.Csv.{output_relay_data, write_relays}
use relay_dev.Output.Csv.RoundTrip.{cells, read_file, IsPlain, output_relay_data-read}
use relay_dev.Output.Csv.Rows.{RowsOf-IsPlain}
use relay_dev.Server.{
  query, response, Outside, Server, Converted, new_input, write_file, handle_query,
}
use relay_dev.Server.Rows.{IsConverted, handle_query-rows}

-- The file is empty if there are no rows, and reads back to the columns of the rows otherwise.
abbrev pub Says : Bytes → List RelayData → Type 0
Says content rs = ((rs ≡ []) × (content ≡ [])) ⊎ (read_file content ≡ map cells rs)

output_relay_data-Says :
    (relay : RelayState) (rs : List RelayData)
    → relay.relay_data ≡ rs
    → relay.relay_amount ≡ length relay.relay_data
    → All IsPlain relay.relay_data
    → (content : Bytes) × (output_relay_data true relay ≡ ok (some content)) × Says content rs
unfolding output_relay_data write_relays
output_relay_data-Says relay [] e size plain =
    let none_left : relay.relay_amount ≡ 0 = size ∙ ap length e in
    ([], rw none_left, inl (refl, refl))
output_relay_data-Says relay (r ∷ rs) e size plain =
    let some_rows : relay.relay_data ≢ [] = λ nothing. cc in
    let (content, written, back) = output_relay_data-read relay size some_rows plain in
    (content, written, inr (back ∙ ap (map cells) e))

-- What a conversion writes says its rows.
pub convert-Says :
    {Db : Type 0} (o : Outside Db) (bom netlist : Bytes) (c : Converted) (relays : List NetlistData)
    → o.file_opens ≡ true
    → All (Lacks b',') (o.lines_of netlist)
    → All (Lacks b'\n') (o.lines_of netlist)
    → IsConverted o bom netlist c relays
    → (content : Bytes) × (c.content ≡ some content) × Says content c.relay.relay_data
unfolding new_input
convert-Says o bom netlist c relays opens commas feeds done =
    let gs = get_netlist_data (o.lines_of netlist) [] in
    let names = get_netlist_data-NamesLack b',' (omega arith) (o.lines_of netlist) commas in
    let names' = get_netlist_data-NamesLack b'\n' (omega arith) (o.lines_of netlist) feeds in
    let plain =
      RowsOf-IsPlain c.input (board_chain c.input o.junk) relays c.relay.relay_data done.read.models
        (board_chain_bit c.input o.junk)
        (relay_groups-All (NamesLack b',') gs relays names done.groups)
        (relay_groups-All (NamesLack b'\n') gs relays names' done.groups) done.each in
    let (content, written, says) =
      output_relay_data-Says c.relay c.relay.relay_data refl done.amount plain in
    let opened : output_relay_data true c.relay ≡ ok c.content =
      subst (λ b. output_relay_data b c.relay ≡ ok c.content) opens done.written in
    (content, cc (opened, written), says)

-- If the file opens, no line of the netlist has a comma or a line feed in it, and a query is answered
-- with status 200, then the configuration file holds a line for each row that was converted, which
-- splits at the commas into the row's fourteen columns; with no rows it is empty.
pub handle_query-file :
    {Db : Type 0} (o : Outside Db) (bom netlist : Bytes) (s : Server Db) (body : Bytes)
    → o.file_opens ≡ true
    → All (Lacks b',') (o.lines_of netlist)
    → All (Lacks b'\n') (o.lines_of netlist)
    → (handle_query o (query bom netlist) s).0 ≡ response 200 body
    → (c : Converted) × (relays : List NetlistData) × IsConverted o bom netlist c relays
      × (content : Bytes) × ((handle_query o (query bom netlist) s).1.file ≡ some content)
      × Says content c.relay.relay_data
handle_query-file o bom netlist s body opens commas feeds answer =
    let (c, relays, done, _, stored) = handle_query-rows o bom netlist s body answer in
    let (content, same, says) = convert-Says o bom netlist c relays opens commas feeds done in
    (c, relays, done, content, stored ∙ ap (λ w. write_file w s.file) same, says)
