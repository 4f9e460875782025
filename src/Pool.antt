-- ===== src/Pool.antt =====
-- The class MySQLConnectionPool of CIBData.h. A connection is a number, new for each that is made.
pub mod Steps
pub mod Count
pub mod Leak
pub mod Owners
pub mod Threads
pub mod Waits
pub mod Startup
pub mod Contract
use relay_dev.Common.{ℕ, zero, suc, ◌+◌, Bool, true, false, List, [], ◌∷◌, ◌++◌, if◌then◌else◌, ltb}

pub record Pool : Type 0 where
  pub pool : List ℕ
  pub active_connections : ℕ
  pub pool_size : ℕ
  pub created : ℕ

-- `createConnection` succeeds, with the next connection.
abbrev pub create_connection : Pool → Pool
create_connection p = record p { created = suc p.created }

-- The loop of the constructor.
unfoldable pub fill : ℕ → Pool → Pool
fill zero p = p
fill (suc left) p = fill left (record (create_connection p) { pool = p.pool ++ p.created ∷ [] })

-- The constructor, where every connection can be made.
unfoldable pub new_pool : ℕ → Pool
unfolding fill
new_pool pool_size =
    fill pool_size
      (record { pool = []; active_connections = 0; pool_size = pool_size; created = 0 })

-- What one pass through `getConnection` does: it hands out a connection, throws, or waits.
pub data Got : Type 0 where
  got : ℕ → Pool → Got
  thrown : Pool → Got
  waits : Got

-- The counter goes up before the connection is made, and stays up if that fails. `connects` says
-- whether the server can be reached.
unfoldable pub take_front : List ℕ → Bool → Pool → Got
take_front (conn ∷ rest) connects p = got conn (record p { pool = rest })
take_front [] connects p =
    if ltb p.active_connections p.pool_size
    then (let q = record p { active_connections = suc p.active_connections } in
        if connects then got p.created (create_connection q) else thrown q)
    else waits

unfoldable pub get_connection : Bool → Pool → Got
unfolding take_front
get_connection connects p = take_front p.pool connects p

unfoldable pub release_connection : ℕ → Pool → Pool
release_connection conn p = record p { pool = p.pool ++ conn ∷ [] }
