-- ===== src/Service/Capacity.antt =====
-- How many failing requests one run of the service survives.
use relay_dev.Common.{
  ℕ, ◌+◌, ◌≡◌, sym, ap, ◌∙◌, subst, Bool, true, false, ◌&&◌, List, [], ◌∷◌, Option, none, some,
  arith, all, if◌then◌else◌,
}
use relay_dev.Text.{Bytes}
use relay_dev.Pool.{new_pool, fill}
use relay_dev.Pool.Startup.{numbers}
use relay_dev.Server.{Reply, Server, handle_query}
use relay_dev.Server.Capacity.{capacity}
use relay_dev.Server.Cost.{cost, handle_query-cost}
use relay_dev.Service.{
  Handler, stop_service, query_handler, routes, App, Served, dispatch, run, failed, main,
}
use relay_dev.Service.Stop.{main-run}

-- The cost of a response; one of the framework's own costs nothing.
abbrev pub reply_cost : Option Reply → ℕ
reply_cost none = 0
reply_cost (some reply) = cost reply

abbrev pub total_cost : List (Option Reply) → ℕ
total_cost [] = 0
total_cost (r ∷ rs) = reply_cost r + total_cost rs

run-cost :
    {Db Http : Type 0} (app : App Db Http) (hs : List Http) (s : Server Db)
    → capacity (run app hs s).server.pool + total_cost (run app hs s).replies ≡ capacity s.pool
unfolding run dispatch
run-cost app [] s = omega arith
run-cost {Db} {Http} app (h ∷ hs) s = go (app.select routes h) (run-cost app hs)
  where
    go :
        (m : Option Handler)
        → ((s' : Server Db)
            → capacity (run app hs s').server.pool + total_cost (run app hs s').replies
              ≡ capacity s'.pool)
        → capacity (dispatch app h m (run app hs) s).server.pool
            + total_cost (dispatch app h m (run app hs) s).replies
          ≡ capacity s.pool
    go none ih = let rest = ih s in omega (arith, rest)
    go (some stop_service) ih = unfold cost in omega arith
    go (some query_handler) ih =
        let rest = ih (handle_query (app.outside h) (app.request h) s).1 in
        let once = handle_query-cost (app.outside h) (app.request h) s in omega (arith, rest, once)

-- If `main` has come to serve requests, then whatever they were and in whatever order, each that was
-- answered with status 500, and each that got a connection and whose handling never ends, took one of
-- ten connections for good. Those that were answered otherwise, and those that still wait for a
-- connection, took none. The rest of the ten are what its pool can still hand out.
pub main-cost :
    {Db Http : Type 0} (app : App Db Http) (requests : List Http) (db : Db) (file : Option Bytes)
    (v : Served Db)
    → (main app requests db file).served ≡ some v
    → capacity v.server.pool + total_cost v.replies ≡ 10
unfolding capacity new_pool fill
main-cost {Db} app requests db file v h =
    go (all app.connects (numbers 5 0) && (app.config_loads && app.listens))
      (sym (ap (λ m. m.served) (main-run app requests db file)) ∙ h)
  where
    s : Server Db
    s = record { pool = new_pool 5; db = db; file = file }

    go :
        (b : Bool)
        → (if b
            then record { code = if app.runs then 0 else 1; served = some (run app requests s) }
            else failed).served
          ≡ some v
        → capacity v.server.pool + total_cost v.replies ≡ 10
    go true e =
        let same : run app requests s ≡ v = cc e in
        subst (λ w. capacity w.server.pool + total_cost w.replies ≡ 10) same
          (run-cost app requests s)
    go false e = cc
