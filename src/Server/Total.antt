-- ===== src/Server/Total.antt =====
-- Files that a query is answered for.
use relay_dev.Common.{
  ℕ, ◌<◌, ◌≡◌, refl, sym, ap, subst, ◌∙◌, Bool, true, false, map, arith, List, [], ◌++◌, some, All,
  ok, ◌>>=◌, length, pos, Option, none,
}
use relay_dev.Text.{Bytes, codes}
use relay_dev.Text.Number.{to_string}
use relay_dev.Data.{BillData, NetlistData}
use relay_dev.Input.Bill.{get_bill_data}
use relay_dev.Input.Netlist.{get_netlist_data}
use relay_dev.Input.Filter.Spec.{relay_groups, filter_netlist_data-relay_groups}
use relay_dev.Input.Chain.{find_first}
use relay_dev.Input.Chain.Finite.{IsFinite, get_device_order-total}
use relay_dev.Input.Models.{InputData, get_input_data, get_relay_models}
use relay_dev.Relay.Convert.{RelayState}
use relay_dev.Relay.Convert.Total.{IsConvertible, relay_convert-total}
use relay_dev.Relay.Convert.Relays.{relay_convert-RowsOf}
use relay_dev.Output.Csv.{write_relay, write_relays, output_relay_data}
use relay_dev.Output.Csv.RoundTrip.{write_relays-join}
use relay_dev.Text.Join.{join}
use relay_dev.Output.Save.{Value}
use relay_dev.Output.Save.Statements.{Reads}
use relay_dev.Pool.{Pool, got, get_connection}
use relay_dev.Server.{
  Outside, Server, Converted, query, response, new_input, new_relay_state, convert, handle_query,
}
use relay_dev.Server.Success.{handle_query-answered}

-- What the two files hold: part lines that can be read and have their values, relays that can be
-- converted, and a daisy chain that ends within the rounds.
pub record IsServable {Db : Type 0} (o : Outside Db) (bom netlist : Bytes) : Type 0 where
  pub bills : List BillData
  pub values : List (List Value)
  pub relays : List NetlistData
  pub first : Bytes
  pub rank : Bytes → ℕ
  pub billed : get_bill_data (o.lines_of bom) [] ≡ ok bills
  pub valued : Reads bills values
  pub grouped : relay_groups (get_netlist_data (o.lines_of netlist) []) ≡ ok relays
  pub convertible : All IsConvertible relays
  pub found : find_first (get_netlist_data (o.lines_of netlist) []) ≡ some first
  pub finite : IsFinite rank (get_netlist_data (o.lines_of netlist) []) first
  pub in_time : rank first < o.fuel

-- With as many rows as the amount says the file can be written.
output_relay_data-total :
    (opens : Bool) (relay : RelayState)
    → relay.relay_amount ≡ length relay.relay_data
    → (content : Option Bytes) × (output_relay_data opens relay ≡ ok content)
unfolding output_relay_data
output_relay_data-total false relay size = (none, refl)
output_relay_data-total true relay size = (
  some (join b'\n' (map write_relay relay.relay_data)),
  ap (λ k. write_relays k 0 relay >>= λ content. ok (some content)) size
      ∙ rw (write_relays-join [] relay.relay_data relay refl (omega arith)),
)

module _ {Db : Type 0} (o : Outside Db) (bom netlist : Bytes) (v : IsServable o bom netlist) where
  get_input_data-total :
      (input : InputData) × (get_input_data o.fuel o.lines_of (new_input bom netlist) ≡ ok input)
      × (input.bill_data ≡ v.bills)
      × (input.relay_list ≡ v.relays)
  unfolding get_input_data new_input get_relay_models
  get_input_data-total =
      let gs = get_netlist_data (o.lines_of netlist) [] in
      let (io, chained) =
        get_device_order-total v.rank o.fuel gs v.first v.found v.finite v.in_time in
      let filtered = filter_netlist_data-relay_groups gs ∙ v.grouped in
      (
        record (get_relay_models (new_input bom netlist)) {
          bill_data = v.bills;
          netlist_data = gs;
          relay_list = v.relays;
          io_data = io;
        },
        rw (v.billed, filtered, chained),
        refl,
        refl,
      )

  convert-total :
      (c : Converted) × (convert o bom netlist ≡ ok c) × Reads c.input.bill_data v.values
  unfolding convert
  convert-total =
      let (input, read, bills, relays) = get_input_data-total in
      let (relay, converted) =
        relay_convert-total input o.junk new_relay_state
          (subst (All IsConvertible) (sym relays) v.convertible) in
      let (_, size) = relay_convert-RowsOf input o.junk new_relay_state relay refl converted in
      let (content, written) = output_relay_data-total o.file_opens relay size in
      (
        record { input = input; relay = relay; content = content },
        rw (read, converted, written),
        subst (λ bs. Reads bs v.values) (sym bills) v.valued,
      )

-- If a query gets a connection and its files hold part lines that can be read and stored, relays that
-- can be converted, and a daisy chain that ends within the rounds, then it is answered with status 200.
pub handle_query-total :
    {Db : Type 0} (o : Outside Db) (bom netlist : Bytes) (s : Server Db) (conn : ℕ) (p : Pool)
    → get_connection o.connects s.pool ≡ got conn p
    → IsServable o bom netlist
    → (body : Bytes) × ((handle_query o (query bom netlist) s).0 ≡ response 200 body)
handle_query-total o bom netlist s conn p taken v =
    let (c, converted, reads) = convert-total o bom netlist v in
    let (db, answered) =
      handle_query-answered o bom netlist s conn p c v.values taken converted reads in
    (codes "relayAmount:" ++ to_string (pos (length c.relay.relay_data)), ap (λ m. m.0) answered)
