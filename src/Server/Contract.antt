-- ===== src/Server/Contract.antt =====
-- The pool of CIBData.h under the queries of main.cpp that overlap.
use relay_dev.Common.{ℕ, ◌≡◌, ◌↔◌, subst, Bool, []}
use relay_dev.Pool.{waits, new_pool, get_connection}
use relay_dev.Pool.Steps.{Reach, new_world}
use relay_dev.Pool.Contract.{bag, Acts}
use relay_dev.Pool.Contract.Refines.{store_of, new_store, Reach-Acts}
use relay_dev.Server.{Server}
use relay_dev.Server.Interleaved.{Busy, Moves, world_of, Moves-Reach}

-- However queries overlap on a server with a new pool of size `n`, what they do to the pool is a
-- sequence of acts of its contract, which keeps the connections in no order: it has the `n` connections
-- of the constructor to lend and asks for another one at most `n` times, only when none is idle. And
-- the next call of `getConnection` waits exactly if then none is idle and none may be asked for.
pub Moves-Acts :
    {Db : Type 0} (n : ℕ) (s : Server Db) {c : Busy Db} (connects : Bool)
    → s.pool ≡ new_pool n
    → Moves (record { server = s; jobs = [] }) c
    → Acts (new_store n) (store_of (world_of c))
      × ((get_connection connects c.server.pool ≡ waits)
          ↔ (((store_of (world_of c)).idle ≡ bag []) × ((store_of (world_of c)).left ≡ 0)))
unfolding new_world
Moves-Acts n s {c} connects fresh ms =
    let r : Reach (new_world n) (world_of c) =
      subst (λ p. Reach (record { pool = p; lent = [] }) (world_of c)) fresh (Moves-Reach ms) in
    let (acts, waits_if) = Reach-Acts n r in (acts, waits_if connects)
