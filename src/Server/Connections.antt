-- ===== src/Server/Connections.antt =====
-- What a request does to the pool.
use relay_dev.Common.{ℕ, ◌≡◌, refl, List, [], Result, ok, err}
use relay_dev.Relay.Convert.{RelayState}
use relay_dev.Pool.{Pool, Got, got, thrown, waits, get_connection}
use relay_dev.Pool.Steps.{World, take, fail, give_back, lose, Reach, next}
use relay_dev.Server.{
  Request, invalid_json, missing_paths, query, Outside, Server, process, respond, handle_query,
}

got-Reach :
    {Db : Type 0} (o : Outside Db) (start : World) (pool p : Pool) (lent : List ℕ) (conn : ℕ)
    (m : Result RelayState × Server Db)
    → Reach start (record { pool = pool; lent = lent })
    → get_connection o.connects pool ≡ got conn p
    → Reach start (record { pool = (respond o conn p m).1.pool; lent = lent })
unfolding respond
got-Reach o start pool p lent conn (ok relay, t) r e =
    next (next r (take o.connects e)) (give_back conn [] lent refl)
got-Reach o start pool p lent conn (err x, t) r e =
    next (next r (take o.connects e)) (lose conn [] lent refl)

-- Whatever the request, the handler uses the pool in the steps of its threads: it takes a
-- connection, and returns or loses it, or fails to make one, or waits.
pub handle_query-Reach :
    {Db : Type 0} (o : Outside Db) (start : World) (lent : List ℕ) (req : Request) (s : Server Db)
    → Reach start (record { pool = s.pool; lent = lent })
    → Reach start (record { pool = (handle_query o req s).1.pool; lent = lent })
unfolding handle_query
handle_query-Reach o start lent invalid_json s r = r
handle_query-Reach o start lent missing_paths s r = r
handle_query-Reach {Db} o start lent (query bom netlist) s r =
    go (get_connection o.connects s.pool) refl
  where
    go :
        (g : Got)
        → get_connection o.connects s.pool ≡ g
        → Reach start (record { pool = (handle_query o (query bom netlist) s).1.pool; lent = lent })
    go (got conn p) e =
        rw (e, handle_query) (got-Reach o start s.pool p lent conn (process o bom netlist s) r e)
    go (thrown p) e = rw (e, handle_query) (next r (fail o.connects e))
    go waits e = rw (e, handle_query) r
