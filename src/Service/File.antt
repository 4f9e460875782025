-- ===== src/Service/File.antt =====
-- The configuration file over a whole run of the service of main.cpp.
use relay_dev.Common.{
  ◌≡◌, refl, sym, subst, ◌∙◌, ◌⊎◌, inl, inr, Bool, true, false, ◌&&◌, List, [], ◌∷◌, Option, none,
  some, if◌then◌else◌, all, All,
}
use relay_dev.Common.Rounds.{Occurs}
use relay_dev.Text.{Bytes}
use relay_dev.Pool.{new_pool}
use relay_dev.Pool.Startup.{numbers}
use relay_dev.Server.{Server, handle_query}
use relay_dev.Server.Writes.{IsFit, Writes, handle_query-Writes}
use relay_dev.Service.{
  Handler, stop_service, query_handler, routes, App, Served, dispatch, run, Ended, failed, main,
}
use relay_dev.Service.Stop.{main-run}

-- The file is as before, or the query of one of the requests has written it.
abbrev pub FileFrom :
    {Db Http : Type 0} → App Db Http → List Http → Option Bytes → Option Bytes → Type 0
FileFrom app requests old new =
    (new ≡ old)
    ⊎ ((h : _) × Occurs h requests
        × (app.select routes h ≡ some query_handler)
        × Writes (app.outside h) (app.request h) new)

module _ {Db Http : Type 0} (app : App Db Http) where
  run-FileFrom :
      (requests : List Http) (s : Server Db)
      → All (λ h. IsFit (app.outside h) (app.request h)) requests
      → FileFrom app requests s.file (run app requests s).server.file
  unfolding run dispatch
  run-FileFrom [] s fit = inl refl
  run-FileFrom (h ∷ hs) s fit = go (app.select routes h) refl (λ s'. run-FileFrom hs s' fit.1)
    where
      later : {old new : Option Bytes} → FileFrom app hs old new → FileFrom app (h ∷ hs) old new
      later (inl same) = inl same
      later (inr (k, o, selected, writes)) = inr (k, inr o, selected, writes)

      -- Behind a query the file is as the query has left it, or a later one has written it.
      behind :
          {mid new : Option Bytes}
          → app.select routes h ≡ some query_handler
          → (mid ≡ s.file) ⊎ Writes (app.outside h) (app.request h) mid
          → FileFrom app hs mid new
          → FileFrom app (h ∷ hs) s.file new
      behind selected now (inr (k, o, chosen, writes)) = inr (k, inr o, chosen, writes)
      behind selected (inl kept) (inl same) = inl (same ∙ kept)
      behind selected (inr writes) (inl same) =
          inr (
            h,
            inl refl,
            selected,
            subst (Writes (app.outside h) (app.request h)) (sym same) writes,
          )

      go :
          (m : Option Handler)
          → app.select routes h ≡ m
          → ((s' : Server Db) → FileFrom app hs s'.file (run app hs s').server.file)
          → FileFrom app (h ∷ hs) s.file (dispatch app h m (run app hs) s).server.file
      go none e ih = later (ih s)
      go (some stop_service) e ih = inl refl
      go (some query_handler) e ih =
          behind e (handle_query-Writes (app.outside h) (app.request h) s fit.0)
            (ih (handle_query (app.outside h) (app.request h) s).1)

-- Let the service handle its requests one after another. If no query names a netlist with a comma or a
-- line feed in a line, the configuration file that a run leaves is the one that it found, or it holds
-- all the rows to which one of the queries is converted.
pub main-file :
    {Db Http : Type 0} (app : App Db Http) (requests : List Http) (db : Db) (file : Option Bytes)
    (v : Served Db)
    → All (λ h. IsFit (app.outside h) (app.request h)) requests
    → (main app requests db file).served ≡ some v
    → FileFrom app requests file v.server.file
main-file {Db} {Http} app requests db file v fit =
    rw (main-run app requests db file)
      (go (all app.connects (numbers 5 0) && (app.config_loads && app.listens)))
  where
    s : Server Db
    s = record { pool = new_pool 5; db = db; file = file }

    ended : Bool → Ended Db
    ended b =
        if b
        then record { code = if app.runs then 0 else 1; served = some (run app requests s) }
        else failed

    go : (b : Bool) → (ended b).served ≡ some v → FileFrom app requests file v.server.file
    go true e =
        let same : run app requests s ≡ v = cc e in
        subst (λ w. FileFrom app requests file w.server.file) same (run-FileFrom app requests s fit)
    go false e = cc
