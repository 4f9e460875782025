-- ===== src/Server/Rounds.antt =====
-- How many rounds over the daisy chain decide what a query answers.
use relay_dev.Common.{
  ℕ, suc, ◌≤◌, ◌≡◌, refl, ap, ◌∙◌, Result, ok, err, Stop, invalid_argument, out_of_range, sql_error,
  undefined, out_of_fuel, [], length,
}
use relay_dev.Text.{Bytes}
use relay_dev.Input.Netlist.{get_netlist_data}
use relay_dev.Input.Models.{get_input_data, get_relay_models}
use relay_dev.Input.Chain.Rounds.{inputs, get_device_order-rounds}
use relay_dev.Relay.Convert.{RelayState}
use relay_dev.Pool.{Pool, Got, got, thrown, waits, get_connection}
use relay_dev.Server.{
  query, Outside, Server, new_input, convert, process, respond, caught, handle_query,
}

module _ {Db : Type 0} (o : Outside Db) (bom netlist : Bytes) where
  -- One more than the data inputs of the netlist.
  abbrev pub enough : ℕ
  enough = suc (length (inputs (get_netlist_data (o.lines_of netlist) [])))

  abbrev pub with_enough : Outside Db
  with_enough = record o { fuel = enough }

  convert-rounds : enough ≤ o.fuel → convert o bom netlist ≡ convert with_enough bom netlist
  unfolding convert new_input get_input_data get_relay_models
  convert-rounds le =
      rw (get_device_order-rounds o.fuel (get_netlist_data (o.lines_of netlist) []) le)

  process-rounds :
      (s : Server Db)
      → enough ≤ o.fuel
      → process o bom netlist s ≡ process with_enough bom netlist s
  unfolding process
  process-rounds s le = rw (convert-rounds le, process)

  -- The fuel has no part in what is answered to an exception.
  caught-rounds : (e : Stop) → caught o e ≡ caught with_enough e
  unfolding caught
  caught-rounds invalid_argument = refl
  caught-rounds out_of_range = refl
  caught-rounds sql_error = refl
  caught-rounds undefined = refl
  caught-rounds out_of_fuel = refl

  respond-rounds :
      (conn : ℕ) (p : Pool) (m : Result RelayState × Server Db)
      → respond o conn p m ≡ respond with_enough conn p m
  unfolding respond
  respond-rounds conn p (ok relay, s) = refl
  respond-rounds conn p (err e, s) = ap (λ r. (r, record s { pool = p })) (caught-rounds e)

-- With at least one round more than the netlist has data inputs, a query's answer and all that it
-- leaves behind are the same as with just so many.
pub handle_query-rounds :
    {Db : Type 0} (o : Outside Db) (bom netlist : Bytes) (s : Server Db)
    → enough o bom netlist ≤ o.fuel
    → handle_query o (query bom netlist) s
      ≡ handle_query (with_enough o bom netlist) (query bom netlist) s
unfolding handle_query
handle_query-rounds {Db} o bom netlist s le = go (get_connection o.connects s.pool) refl
  where
    go :
        (g : Got)
        → get_connection o.connects s.pool ≡ g
        → handle_query o (query bom netlist) s
          ≡ handle_query (with_enough o bom netlist) (query bom netlist) s
    go (got conn p) e =
        rw (e, handle_query)
          (respond-rounds o bom netlist conn p (process o bom netlist s)
            ∙ ap (respond (with_enough o bom netlist) conn p) (process-rounds o bom netlist s le))
    go (thrown p) e =
        rw (e, handle_query)
          (ap (λ r. (r, record s { pool = p })) (caught-rounds o bom netlist sql_error))
    go waits e = rw (e, handle_query)
