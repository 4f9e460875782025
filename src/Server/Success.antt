-- ===== src/Server/Success.antt =====
-- A query that goes well, from its connection to its response.
use relay_dev.Common.{
  ℕ, ◌≡◌, refl, sym, ap, ◌∙◌, Bool, true, false, List, [], ◌++◌, Option, none, some, if◌then◌else◌,
  arith, map, length, ok, ◌>>=◌, pos,
}
use relay_dev.Text.{Bytes, codes}
use relay_dev.Text.Join.{join}
use relay_dev.Text.Number.{to_string}
use relay_dev.Input.Netlist.Lines.{all_rows}
use relay_dev.Pool.{Pool, got, get_connection, release_connection}
use relay_dev.Relay.Convert.{RelayState}
use relay_dev.Output.Csv.{write_relay, write_relays, output_relay_data}
use relay_dev.Output.Csv.RoundTrip.{write_relays-join}
use relay_dev.Output.Save.{Query, input_bom, input_netlist, output_config, Value, netlist_values}
use relay_dev.Output.Save.Silent.{save_data-returns}
use relay_dev.Output.Save.Statements.{numbered, Reads, run, save_data-run}
use relay_dev.Server.{
  query, response, Outside, Server, Converted, convert, write_file, process, respond, handle_query,
}
use relay_dev.Server.Rows.{convert-IsConverted}

-- The database when the three blocks of statements have been run.
-- Each block goes as far as its first statement that the database refuses.
abbrev pub saved : {Db : Type 0} → Outside Db → Converted → List (List Value) → Db → Db
saved o c values db = run o.database output_config (numbered 0 c.relay.relay_data) (
    run o.database input_netlist (map netlist_values (all_rows c.input.netlist_data))
      (run o.database input_bom values db))

-- The configuration file behind a query: the rows with a line feed between two of them, if it opens.
abbrev pub file_after : {Db : Type 0} → Outside Db → Converted → Option Bytes → Option Bytes
file_after o c old =
    if o.file_opens then some (join b'\n' (map write_relay c.relay.relay_data)) else old

output_relay_data-join :
    (opens : Bool) (relay : RelayState)
    → relay.relay_amount ≡ length relay.relay_data
    → output_relay_data opens relay
      ≡ ok (if opens then some (join b'\n' (map write_relay relay.relay_data)) else none)
unfolding output_relay_data
output_relay_data-join false relay size = refl
output_relay_data-join true relay size =
    ap (λ k. write_relays k 0 relay >>= λ content. ok (some content)) size
    ∙ rw (write_relays-join [] relay.relay_data relay refl (omega arith))

write_file-if :
    (opens : Bool) (content old : Option Bytes) (text : Bytes)
    → content ≡ (if opens then some text else none)
    → write_file content old ≡ (if opens then some text else old)
write_file-if true content old text e = rw e
write_file-if false content old text e = rw e

convert-file :
    {Db : Type 0} (o : Outside Db) (bom netlist : Bytes) (c : Converted) (old : Option Bytes)
    → convert o bom netlist ≡ ok c
    → write_file c.content old ≡ file_after o c old
convert-file o bom netlist c old converted =
    let done = convert-IsConverted o bom netlist c converted in
    let text = join b'\n' (map write_relay c.relay.relay_data) in
    let joined : c.content ≡ (if o.file_opens then some text else none) =
      cc (sym done.written ∙ output_relay_data-join o.file_opens c.relay done.amount) in
    write_file-if o.file_opens c.content old text joined

-- If a query gets a connection, its files are converted, the statements can be prepared, and each
-- part line has its values, then it is answered with status 200 and the number of rows, and the
-- connection is back in the pool. The database is as three blocks of statements leave it, one after
-- the other: those for the part lines, for the lines of the netlist and for the rows, each up to the
-- first that the database refuses. The file holds the rows, with a line feed between two of them, if
-- it opens, and what it held before if it does not.
pub handle_query-success :
    {Db : Type 0} (o : Outside Db) (bom netlist : Bytes) (s : Server Db) (conn : ℕ) (p : Pool)
    (c : Converted) (values : List (List Value))
    → get_connection o.connects s.pool ≡ got conn p
    → convert o bom netlist ≡ ok c
    → ((q : Query) (db : Db) → o.database.prepare q db ≡ true)
    → Reads c.input.bill_data values
    → handle_query o (query bom netlist) s ≡ (
      response 200 (codes "relayAmount:" ++ to_string (pos (length c.relay.relay_data))),
      record {
        pool = release_connection conn p;
        db = saved o c values s.db;
        file = file_after o c s.file;
      },
    )
unfolding handle_query respond
handle_query-success o bom netlist s conn p c values taken converted prepared reads =
    let done = convert-IsConverted o bom netlist c converted in
    rw (
      taken,
      handle_query,
      converted,
      process,
      save_data-run o.database c.input c.relay values s.db prepared reads done.amount,
      done.amount,
      convert-file o bom netlist c s.file converted,
    )

-- If a query gets a connection, its files are converted, and each part line has its values, then it is
-- answered with status 200 and the number of rows, and the connection is back in the pool, whichever
-- statements the database refuses: even if it takes none. The file holds the rows, with a line feed
-- between two of them, if it opens, and what it held before if it does not.
pub handle_query-answered :
    {Db : Type 0} (o : Outside Db) (bom netlist : Bytes) (s : Server Db) (conn : ℕ) (p : Pool)
    (c : Converted) (values : List (List Value))
    → get_connection o.connects s.pool ≡ got conn p
    → convert o bom netlist ≡ ok c
    → Reads c.input.bill_data values
    → (db : Db) × (handle_query o (query bom netlist) s ≡ (
      response 200 (codes "relayAmount:" ++ to_string (pos (length c.relay.relay_data))),
      record { pool = release_connection conn p; db = db; file = file_after o c s.file },
    ))
unfolding handle_query respond
handle_query-answered o bom netlist s conn p c values taken converted reads =
    let done = convert-IsConverted o bom netlist c converted in
    let (db, kept) = save_data-returns o.database c.input c.relay values s.db reads done.amount in
    (
      db,
      rw (
        taken,
        handle_query,
        converted,
        process,
        kept,
        done.amount,
        convert-file o bom netlist c s.file converted,
      ),
    )
