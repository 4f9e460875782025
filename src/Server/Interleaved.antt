-- ===== src/Server/Interleaved.antt =====
-- Requests that overlap: each holds its connection from `getConnection` until it has responded, while
-- others come and go.
use relay_dev.Common.{
  ℕ, ◌+◌, ◌≤◌, ◌≡◌, sym, ap, subst, ◌∙◌, List, [], ◌∷◌, ◌++◌, map, arith, length, length-map,
  Result, ok, err,
}
use mathlib.Core.List.{map-append, Nodup}
use relay_dev.Text.{Bytes}
use relay_dev.Relay.Convert.{RelayState}
use relay_dev.Pool.{Pool, got, thrown, new_pool, get_connection}
use relay_dev.Pool.Steps.{World, Step, take, fail, give_back, lose, Reach, new_world}
use relay_dev.Pool.Steps
use relay_dev.Pool.Count.{Reach-made}
use relay_dev.Pool.Owners.{Reach-IsDistinct}
use relay_dev.Server.{Outside, Server, process, respond}

-- A query that has its connection.
pub record Job (Db : Type 0) : Type 0 where
  pub outside : Outside Db
  pub bom_path : Bytes
  pub netlist_path : Bytes
  pub conn : ℕ

pub record Busy (Db : Type 0) : Type 0 where
  pub server : Server Db
  pub jobs : List (Job Db)

-- The work between the two calls of the pool, and the response.
unfoldable pub finish : {Db : Type 0} → Job Db → Server Db → Server Db
unfolding process respond
finish j s = (respond j.outside j.conn s.pool (process j.outside j.bom_path j.netlist_path s)).1

-- A query comes and gets a connection, or none can be made for it, or one of the queries that have
-- their connection is done.
pub data Move {Db : Type 0} : Busy Db → Busy Db → Type 0 where
  arrive :
      {b : Busy Db} {p : Pool} (j : Job Db)
      → get_connection j.outside.connects b.server.pool ≡ got j.conn p
      → Move b (record { server = record b.server { pool = p }; jobs = j ∷ b.jobs })
  refuse :
      {b : Busy Db} {p : Pool} (o : Outside Db)
      → get_connection o.connects b.server.pool ≡ thrown p
      → Move b (record b { server = record b.server { pool = p } })
  done :
      {b : Busy Db} (j : Job Db) (before after : List (Job Db))
      → b.jobs ≡ before ++ j ∷ after
      → Move b (record { server = finish j b.server; jobs = before ++ after })

pub data Moves {Db : Type 0} (b : Busy Db) : Busy Db → Type 0 where
  here : Moves b b
  next : {c d : Busy Db} → Moves b c → Move c d → Moves b d

-- The pool and the loans, as Steps has them.
abbrev pub world_of : {Db : Type 0} → Busy Db → World
world_of b = record { pool = b.server.pool; lent = map (λ j. j.conn) b.jobs }

pub respond-Step :
    {Db : Type 0} (o : Outside Db) (conn : ℕ) (p : Pool) (m : Result RelayState × Server Db)
    (lent before after : List ℕ)
    → lent ≡ before ++ conn ∷ after
    → Step
        (record { pool = p; lent = lent })
        (record { pool = (respond o conn p m).1.pool; lent = before ++ after })
unfolding respond
respond-Step o conn p (ok relay, s) lent before after e = give_back conn before after e
respond-Step o conn p (err x, s) lent before after e = lose conn before after e

Move-Step : {Db : Type 0} {b c : Busy Db} → Move b c → Step (world_of b) (world_of c)
unfolding finish
Move-Step (arrive j e) = take j.outside.connects e
Move-Step (refuse o e) = fail o.connects e
Move-Step {Db} {b} (done j before after e) =
    let conn_of : Job Db → ℕ = λ x. x.conn in
    subst (λ l. Step (world_of b) (record { pool = (finish j b.server).pool; lent = l }))
      (sym (map-append conn_of before after))
      (respond-Step j.outside j.conn b.server.pool
        (process j.outside j.bom_path j.netlist_path b.server) (map conn_of b.jobs)
        (map conn_of before) (map conn_of after)
        (ap (map conn_of) e ∙ map-append conn_of before (j ∷ after)))

pub Moves-Reach : {Db : Type 0} {b c : Busy Db} → Moves b c → Reach (world_of b) (world_of c)
Moves-Reach here = Steps.here
Moves-Reach (next ms m) = Steps.next (Moves-Reach ms) (Move-Step m)

-- However queries overlap on a server with a new pool of size `n`, at most `2 n` of them are at work
-- at once, and no two hold one connection.
pub Moves-apart :
    {Db : Type 0} (n : ℕ) (s : Server Db) {c : Busy Db}
    → s.pool ≡ new_pool n
    → Moves (record { server = s; jobs = [] }) c
    → (length c.jobs ≤ n + n) × Nodup (c.server.pool.pool ++ map (λ j. j.conn) c.jobs)
unfolding new_world
Moves-apart n s {c} fresh ms =
    let r : Reach (new_world n) (world_of c) =
      subst (λ p. Reach (record { pool = p; lent = [] }) (world_of c)) fresh (Moves-Reach ms) in
    let (made, open_ones) = Reach-made n r in
    (
      omega (arith, made, open_ones, length-map (λ j. j.conn) c.jobs),
      (Reach-IsDistinct n r).distinct,
    )
