-- ===== src/Service/Stop.antt =====
-- When the service starts, and what stops it.
use relay_dev.Common.{
  ◌≡◌, ◌≢◌, refl, ap, Bool, true, false, ◌&&◌, List, [], ◌∷◌, ◌++◌, Option, none, some,
  if◌then◌else◌, all, All, ok, err, sql_error,
}
use mathlib.Core.Option
use relay_dev.Text.{Bytes}
use relay_dev.Pool.{new_pool}
use relay_dev.Pool.Startup.{numbers, make_pool-new_pool}
use relay_dev.Server.{Server, handle_query}
use relay_dev.Service.{
  Handler, stop_service, query_handler, routes, App, Served, stop_reply, answered, dispatch, run,
  Ended, failed, start, main,
}

-- `main` from the pool on: with five connections, a configuration that loads and a port to listen to,
-- it serves the requests.
pub main-run :
    {Db Http : Type 0} (app : App Db Http) (requests : List Http) (db : Db) (file : Option Bytes)
    → main app requests db file ≡ (
        if all app.connects (numbers 5 0) && (app.config_loads && app.listens)
        then record {
          code = if app.runs then 0 else 1;
          served = some (run app requests (record { pool = new_pool 5; db = db; file = file }));
        }
        else failed)
unfolding main start
main-run app requests db file =
    rw (make_pool-new_pool app.connects 5) (go (all app.connects (numbers 5 0)))
  where
    go :
        (b : Bool)
        → start app requests db file (if b then ok (new_pool 5) else err sql_error) ≡ (
            if b && (app.config_loads && app.listens)
            then record {
              code = if app.runs then 0 else 1;
              served = some (run app requests (record { pool = new_pool 5; db = db; file = file }));
            }
            else failed)
    go true = refl
    go false = refl

-- One more reply at the end.
abbrev pub stopped : {Db : Type 0} → Served Db → Served Db
stopped v = record v { replies = v.replies ++ some stop_reply ∷ [] }

module _ {Db Http : Type 0} (app : App Db Http) (h : Http) (after : List Http)
    (stop : app.select routes h ≡ some stop_service) where
  run-stopped :
      (before : List Http) (s : Server Db)
      → All (λ x. app.select routes x ≢ some stop_service) before
      → run app (before ++ h ∷ after) s ≡ stopped (run app before s)
  unfolding run dispatch
  run-stopped [] s others = rw stop
  run-stopped (x ∷ before) s others =
      go (app.select routes x) refl (λ s'. run-stopped before s' others.1)
    where
      go :
          (m : Option Handler)
          → app.select routes x ≡ m
          → ((s' : Server Db) → run app (before ++ h ∷ after) s' ≡ stopped (run app before s'))
          → dispatch app x m (run app (before ++ h ∷ after)) s
            ≡ stopped (dispatch app x m (run app before) s)
      go none e ih = rw (ih s)
      go (some stop_service) e ih = absurd (others.0 e)
      go (some query_handler) e ih =
          ap (answered (some (handle_query (app.outside x) (app.request x) s).0))
            (ih (handle_query (app.outside x) (app.request x) s).1)

-- A request that the framework gives to `stopService` is answered and ends the service: if none before
-- it is one, `main` ends as if it had only the requests before it, but for that answer, whatever comes
-- after.
pub main-stopped :
    {Db Http : Type 0} (app : App Db Http) (before after : List Http) (h : Http) (db : Db)
    (file : Option Bytes)
    → app.select routes h ≡ some stop_service
    → All (λ x. app.select routes x ≢ some stop_service) before
    → main app (before ++ h ∷ after) db file ≡ record (main app before db file) {
      served = Option.map stopped (main app before db file).served;
    }
main-stopped {Db} app before after h db file stop others =
    rw (main-run app (before ++ h ∷ after) db file, main-run app before db file)
      (go (all app.connects (numbers 5 0) && (app.config_loads && app.listens)))
  where
    s : Server Db
    s = record { pool = new_pool 5; db = db; file = file }

    ended : Bool → Served Db → Ended Db
    ended b v = if b then record { code = if app.runs then 0 else 1; served = some v } else failed

    go :
        (b : Bool)
        → ended b (run app (before ++ h ∷ after) s) ≡ record (ended b (run app before s)) {
          served = Option.map stopped (ended b (run app before s)).served;
        }
    go true =
        ap (λ v. record { code = if app.runs then 0 else 1; served = some v })
          (run-stopped app h after stop before s others)
    go false = refl
