-- ===== src/Server/Cost.antt =====
-- What a request costs the pool.
use relay_dev.Common.{
  ℕ, suc, ◌+◌, ◌≡◌, refl, [], ◌∷◌, ◌++◌, arith, if◌then◌else◌, Result, ok, err, out_of_fuel,
  undefined, invalid_argument, out_of_range, sql_error, pos, Stop,
}
use relay_dev.Common.{length-append, ◌==◌}
use relay_dev.Text.{codes}
use relay_dev.Text.Number.{to_string}
use relay_dev.Relay.Convert.{RelayState}
use relay_dev.Pool.{Pool, Got, got, thrown, waits, get_connection, release_connection}
use relay_dev.Server.{
  Request, invalid_json, missing_paths, query, Reply, response, waiting, no_response, Outside,
  Server, process, respond, caught, handle_query,
}
use relay_dev.Server.Capacity.{capacity, take_front-capacity}

-- The connections that are gone for good: one for a reply of status 500, and one if there is none.
unfoldable pub cost : Reply → ℕ
cost (response status body) = if status == 500 then 1 else 0
cost waiting = 0
cost no_response = 1

pub caught-cost : {Db : Type 0} (o : Outside Db) (e : Stop) → cost (caught o e) ≡ 1
unfolding cost caught
caught-cost o invalid_argument = refl
caught-cost o out_of_range = refl
caught-cost o sql_error = refl
caught-cost o undefined = refl
caught-cost o out_of_fuel = refl

release-capacity : (conn : ℕ) (p : Pool) → capacity (release_connection conn p) ≡ suc (capacity p)
unfolding capacity release_connection
release-capacity conn p = omega (arith, length-append p.pool (conn ∷ []))

respond-cost :
    {Db : Type 0} (o : Outside Db) (conn : ℕ) (p : Pool) (m : Result RelayState × Server Db)
    → capacity (respond o conn p m).1.pool + cost (respond o conn p m).0 ≡ suc (capacity p)
unfolding respond
respond-cost o conn p (ok relay, s) =
    let free : cost (response 200 (codes "relayAmount:" ++ to_string (pos relay.relay_amount)))
        ≡ 0 =
      unfold cost in refl in
    omega (arith, release-capacity conn p, free)
respond-cost o conn p (err e, s) = omega (arith, caught-cost o e)

-- Whatever the request and the server, a reply with status 200 or 400 and a request that waits leave
-- the pool as many connections to hand out as before, and every other outcome leaves it one less.
pub handle_query-cost :
    {Db : Type 0} (o : Outside Db) (req : Request) (s : Server Db)
    → capacity (handle_query o req s).1.pool + cost (handle_query o req s).0 ≡ capacity s.pool
unfolding handle_query
handle_query-cost o invalid_json s = unfold cost in omega arith
handle_query-cost o missing_paths s = unfold cost in omega arith
handle_query-cost {Db} o (query bom netlist) s = go (get_connection o.connects s.pool) refl
  where
    go :
        (g : Got)
        → get_connection o.connects s.pool ≡ g
        → capacity (handle_query o (query bom netlist) s).1.pool
            + cost (handle_query o (query bom netlist) s).0
          ≡ capacity s.pool
    go (got conn p) e =
        let used =
          (take_front-capacity s.pool.pool o.connects s.pool refl (got conn p)
              (unfold get_connection in e)).0
            conn p refl in
        rw (e, handle_query) (omega (arith, used, respond-cost o conn p (process o bom netlist s)))
    go (thrown p) e =
        let used =
          (take_front-capacity s.pool.pool o.connects s.pool refl (thrown p)
              (unfold get_connection in e)).1
            p refl in
        rw (e, handle_query) (omega (arith, used, caught-cost o sql_error))
    go waits e = rw (e, handle_query) (unfold cost in omega arith)
