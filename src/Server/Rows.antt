-- ===== src/Server/Rows.antt =====
-- What a query answers, from the files to the rows.
use relay_dev.Common.{
  ℕ, ◌≡◌, refl, sym, ap, subst, ◌∙◌, List, [], ◌++◌, Option, none, some, arith, length, Result, ok,
  err, sql_error, pos, Stop,
}
use relay_dev.Common.{>>=-eq-ok}
use relay_dev.Text.{Bytes, codes}
use relay_dev.Text.Number.{to_string}
use relay_dev.Data.{NetlistData}
use relay_dev.Input.Netlist.{get_netlist_data}
use relay_dev.Input.Filter.Spec.{relay_groups, filter_netlist_data-relay_groups}
use relay_dev.Input.Models.{get_input_data}
use relay_dev.Input.Models.Reading.{IsRead, get_input_data-IsRead}
use relay_dev.Relay.Convert.{relay_convert}
use relay_dev.Relay.Convert.Relays.{board_chain, RowsOf, relay_convert-RowsOf}
use relay_dev.Output.Csv.{output_relay_data}
use relay_dev.Output.Save.{save_data}
use relay_dev.Server.Cost.{cost, caught-cost}
use relay_dev.Input.Filter.{filter_netlist_data}
use relay_dev.Pool.{Pool, Got, got, thrown, waits, get_connection}
use relay_dev.Server.{
  query, response, Outside, Server, Converted, new_input, new_relay_state, convert, write_file,
  after_save, process, respond, caught, handle_query,
}

module _ {Db : Type 0} (o : Outside Db) (bom netlist : Bytes) where
  -- The relays are the groups of the netlist that drive one, and have a row each.
  pub record IsConverted (c : Converted) (relays : List NetlistData) : Type 0 where
    pub converted : convert o bom netlist ≡ ok c
    pub groups : relay_groups (get_netlist_data (o.lines_of netlist) []) ≡ ok relays
    pub each : RowsOf c.input (board_chain c.input o.junk) relays c.relay.relay_data
    pub read : IsRead o.fuel o.lines_of (new_input bom netlist) c.input
    pub conversion : relay_convert c.input o.junk new_relay_state ≡ ok c.relay
    pub written : output_relay_data o.file_opens c.relay ≡ ok c.content
    pub amount : c.relay.relay_amount ≡ length c.relay.relay_data

  pub convert-IsConverted :
      (c : Converted) → convert o bom netlist ≡ ok c → IsConverted c c.input.relay_list
  unfolding convert new_input
  convert-IsConverted c returned =
      let (input, i, rest) =
        >>=-eq-ok (get_input_data o.fuel o.lines_of (new_input bom netlist)) _ returned in
      let (relay, r, rest') = >>=-eq-ok (relay_convert input o.junk new_relay_state) _ rest in
      let (content, w, last) = >>=-eq-ok (output_relay_data o.file_opens relay) _ rest' in
      let made : Converted = record { input = input; relay = relay; content = content } in
      let same : made ≡ c = cc last in
      let read = get_input_data-IsRead o.fuel o.lines_of (new_input bom netlist) input i in
      let (each, amount) = relay_convert-RowsOf input o.junk new_relay_state relay refl r in
      let netlist_data = get_netlist_data (o.lines_of netlist) [] in
      let filtered =
        subst (λ n. filter_netlist_data n [] ≡ ok input.relay_list) read.netlist read.relays in
      subst (λ d. IsConverted d d.input.relay_list) same
        (record {
          converted = returned ∙ ap ok (sym same);
          groups = sym (filter_netlist_data-relay_groups netlist_data) ∙ filtered;
          each = each;
          read = read;
          conversion = r;
          written = w;
          amount = amount;
        })

  caught-ne-ok : (e : Stop) (body : Bytes) → caught o e ≡ response 200 body → ⊥
  unfolding cost
  caught-ne-ok e body h = absurd (omega (arith, ap cost h, caught-cost o e))

  -- The body and the file are those of the rows.
  abbrev IsAnswer : Bytes → Option Bytes → Option Bytes → Type 0
  IsAnswer body old new =
      (c : Converted) × (relays : List NetlistData) × IsConverted c relays
      × (body ≡ codes "relayAmount:" ++ to_string (pos (length c.relay.relay_data)))
      × (new ≡ write_file c.content old)

  saved-IsAnswer :
      (conn : ℕ) (p : Pool) (c : Converted) (s : Server Db) (m : Db × Option Stop) (body : Bytes)
      → convert o bom netlist ≡ ok c
      → (respond o conn p
          (after_save c.relay (record s { file = write_file c.content s.file }) m)).0
        ≡ response 200 body
      → IsAnswer body s.file
          (respond o conn p
            (after_save c.relay (record s { file = write_file c.content s.file }) m)).1.file
  unfolding respond
  saved-IsAnswer conn p c s (db, some e) body h answer = absurd (caught-ne-ok e body answer)
  saved-IsAnswer conn p c s (db, none) body h answer =
      let done = convert-IsConverted c h in
      let text : body ≡ codes "relayAmount:" ++ to_string (pos c.relay.relay_amount) = cc answer in
      (
        c,
        c.input.relay_list,
        done,
        text ∙ ap (λ n. codes "relayAmount:" ++ to_string (pos n)) done.amount,
        refl,
      )

  held-IsAnswer :
      (conn : ℕ) (p : Pool) (s : Server Db) (body : Bytes)
      → (respond o conn p (process o bom netlist s)).0 ≡ response 200 body
      → IsAnswer body s.file (respond o conn p (process o bom netlist s)).1.file
  unfolding process
  held-IsAnswer conn p s body = go (convert o bom netlist) refl
    where
      go :
          (m : Result Converted)
          → convert o bom netlist ≡ m
          → (respond o conn p (process o bom netlist s)).0 ≡ response 200 body
          → IsAnswer body s.file (respond o conn p (process o bom netlist s)).1.file
      go (err e) h =
          rw (h, process) (λ answer. absurd (caught-ne-ok e body (unfold respond in answer)))
      go (ok c) h =
          rw (h, process)
            (saved-IsAnswer conn p c s
              (save_data o.database c.input c.relay
                (record s { file = write_file c.content s.file }).db)
              body h)

-- If a query is answered with status 200, both files were read and converted: the groups of the
-- netlist that drive a relay are its relays, each has its row, in order, the body says how many rows
-- there are, and the configuration file has what was written of them, or is as before if it could not
-- be opened.
pub handle_query-rows :
    {Db : Type 0} (o : Outside Db) (bom netlist : Bytes) (s : Server Db) (body : Bytes)
    → (handle_query o (query bom netlist) s).0 ≡ response 200 body
    → (c : Converted) × (relays : List NetlistData) × IsConverted o bom netlist c relays
      × (body ≡ codes "relayAmount:" ++ to_string (pos (length c.relay.relay_data)))
      × ((handle_query o (query bom netlist) s).1.file ≡ write_file c.content s.file)
unfolding handle_query
handle_query-rows {Db} o bom netlist s body = go (get_connection o.connects s.pool) refl
  where
    go :
        (g : Got)
        → get_connection o.connects s.pool ≡ g
        → (handle_query o (query bom netlist) s).0 ≡ response 200 body
        → IsAnswer o bom netlist body s.file (handle_query o (query bom netlist) s).1.file
    go (got conn p) e = rw (e, handle_query) (held-IsAnswer o bom netlist conn p s body)
    go (thrown p) e =
        rw (e, handle_query) (λ answer. absurd (caught-ne-ok o bom netlist sql_error body answer))
    go waits e = rw (e, handle_query) (λ answer. cc)
