-- ===== src/Service.antt =====
-- `main` and `stopService` of main.cpp. The web framework is given: which of the registered handlers
-- it selects for a request, and which of the calls that `main` makes of it throw.
pub mod Stop
pub mod File
pub mod Capacity
pub mod Exit
use relay_dev.Common.{
  ℕ, Bool, true, false, ◌&&◌, List, [], ◌∷◌, Option, none, some, if◌then◌else◌, Result, ok, err,
}
use relay_dev.Text.{Bytes, codes}
use relay_dev.Pool.{Pool}
use relay_dev.Pool.Startup.{make_pool}
use relay_dev.Server.{Request, Reply, response, Outside, Server, handle_query}

pub data Handler : Type 0 where
  stop_service query_handler : Handler

pub data Method : Type 0 where
  post : Method

-- What `registerHandler` is called with; no methods stand for all.
pub record Route : Type 0 where
  pub path : Bytes
  pub handler : Handler
  pub methods : List Method

abbrev pub routes : List Route
routes =
    record { path = codes "/stop"; handler = stop_service; methods = [] }
    ∷ record { path = codes "/query"; handler = query_handler; methods = post ∷ [] }
    ∷ []

-- What `main` meets: the framework, and for each request what its handler meets. `connects i` says
-- whether the i-th connection of the pool can be made, `config_loads` whether `loadConfigFile`
-- returns, `listens` whether `addListener` does, and `runs` whether `run` does, rather than throw. If
-- `run` throws, the requests are those that have come before.
pub record App (Db Http : Type 0) : Type 0 where
  pub connects : ℕ → Bool
  pub config_loads : Bool
  pub listens : Bool
  pub runs : Bool
  pub select : List Route → Http → Option Handler
  pub outside : Http → Outside Db
  pub request : Http → Request

-- The responses, where none is one of the framework's own, and the server behind them.
pub record Served (Db : Type 0) : Type 0 where
  pub replies : List (Option Reply)
  pub server : Server Db

abbrev pub stop_reply : Reply
stop_reply = response 200 (codes "Service will stop.")

abbrev pub answered : {Db : Type 0} → Option Reply → Served Db → Served Db
answered reply rest = record rest { replies = reply ∷ rest.replies }

-- One request and those that follow, which are not handled behind `quit`. A request that waits or
-- does not end keeps its thread, and the next has another.
unfoldable pub dispatch :
    {Db Http : Type 0}
    → App Db Http
    → Http
    → Option Handler
    → (Server Db → Served Db)
    → Server Db
    → Served Db
unfolding handle_query
dispatch app h none next s = answered none (next s)
dispatch app h (some stop_service) next s = record { replies = some stop_reply ∷ []; server = s }
dispatch app h (some query_handler) next s =
    let (reply, s') = handle_query (app.outside h) (app.request h) s in
    answered (some reply) (next s')

unfoldable pub run : {Db Http : Type 0} → App Db Http → List Http → Server Db → Served Db
unfolding dispatch
run app [] s = record { replies = []; server = s }
run app (h ∷ hs) s = dispatch app h (app.select routes h) (run app hs) s

-- The number that `main` returns, and what has been served.
pub record Ended (Db : Type 0) : Type 0 where
  pub code : ℕ
  pub served : Option (Served Db)

abbrev pub failed : {Db : Type 0} → Ended Db
failed = record { code = 1; served = none }

-- What `main` does with the pool; an exception ends it. One of `run` leaves what has been served.
unfoldable pub start :
    {Db Http : Type 0} → App Db Http → List Http → Db → Option Bytes → Result Pool → Ended Db
unfolding run
start app requests db file (err e) = failed
start app requests db file (ok pool) =
    if app.config_loads && app.listens
    then record {
      code = if app.runs then 0 else 1;
      served = some (run app requests (record { pool = pool; db = db; file = file }));
    }
    else failed

-- The requests come in this order; `db` and `file` are what the database and the file hold before.
unfoldable pub main : {Db Http : Type 0} → App Db Http → List Http → Db → Option Bytes → Ended Db
unfolding make_pool start
main app requests db file = start app requests db file (make_pool app.connects 5)
