-- ===== src/Tests/Services.antt =====
-- One run of the service.
use relay_dev.Common.{
  ◌↔◌, false, ℕ, ◌+◌, ◌≡◌, refl, true, List, [], ◌∷◌, ◌++◌, Option, none, some, if◌then◌else◌,
}
use mathlib.Core.Option
use relay_dev.Text.{Bytes, codes, equal}
use relay_dev.Pool.{new_pool, fill}
use relay_dev.Pool.Startup.{make_pool, fill_while}
use relay_dev.Server.{Server, query}
use relay_dev.Server.Capacity.{capacity}
use relay_dev.Service.{Handler, Route, App, Served, run, start, main}
use relay_dev.Service.Stop.{main-stopped, stopped}
use relay_dev.Service.Exit.{Starts, main-returns}
use relay_dev.Service.Capacity.{main-cost, total_cost}
use relay_dev.Service.File.{FileFrom, main-file}
use relay_dev.Output.Csv.Rows.{AreFree-Lacks}
use relay_dev.Server.Writes.{IsFit}
use relay_dev.Tests.Samples.{outside, with_netlist, netlist_lines}

-- The route with the path of the request.
abbrev select_path : List Route → Bytes → Option Handler
select_path [] path = none
select_path (r ∷ rs) path = if equal r.path path then some r.handler else select_path rs path

abbrev app : App ℕ Bytes
app = record {
  connects = λ i. true;
  config_loads = true;
  listens = true;
  runs = true;
  select = select_path;
  outside = λ path. outside;
  request = λ path. query [] [];
}

abbrev before : List Bytes
before = codes "/query" ∷ codes "/" ∷ codes "/query" ∷ []

main-stopped_example :
    main app (before ++ codes "/stop" ∷ codes "/query" ∷ []) 0 none
    ≡ record (main app before 0 none) {
      served = Option.map stopped (main app before 0 none).served;
    }
unfolding equal
main-stopped_example =
    main-stopped app before (codes "/query" ∷ []) (codes "/stop") 0 none refl
      ((λ e. cc), ((λ e. cc), ((λ e. cc), tt)))

abbrev five : Server ℕ
five = record { pool = new_pool 5; db = 0; file = none }

main-returns_example :
    (((main app before 0 none).code ≡ 0) ↔ (Starts app × (app.runs ≡ true)))
    × (((main app before 0 none).code ≡ 1) ↔ ¬ (Starts app × (app.runs ≡ true)))
    × (((v : Served ℕ) × ((main app before 0 none).served ≡ some v)) ↔ Starts app)
main-returns_example = main-returns app before 0 none

-- The service on a port that is taken.
abbrev taken : App ℕ Bytes
taken = record app { listens = false }

main-taken : main taken before 0 none ≡ record { code = 1; served = none }
unfolding main start make_pool fill_while
main-taken = refl

-- A run that ends with an exception after the requests.
abbrev thrown_at_last : App ℕ Bytes
thrown_at_last = record app { runs = false }

main-thrown :
    main thrown_at_last before 0 none
    ≡ record { code = 1; served = some (run thrown_at_last before five) }
unfolding main start make_pool fill_while new_pool fill
main-thrown = refl

main-served : (main app before 0 none).served ≡ some (run app before five)
unfolding main start make_pool fill_while new_pool fill
main-served = refl

main-cost_example :
    capacity (run app before five).server.pool + total_cost (run app before five).replies ≡ 10
main-cost_example = main-cost app before 0 none (run app before five) main-served

-- The same service over files that hold a part and a netlist.
abbrev filled : App ℕ Bytes
filled = record app { outside = λ path. with_netlist; request = λ path. query (codes "bom") [] }

filled-served : (main filled before 0 none).served ≡ some (run filled before five)
unfolding main start make_pool fill_while new_pool fill
filled-served = refl

filled-IsFit : IsFit with_netlist (query (codes "bom") [])
unfolding relay_dev.Text.equal
filled-IsFit = (AreFree-Lacks b',' netlist_lines refl, AreFree-Lacks b'\n' netlist_lines refl)

main-file_example : FileFrom filled before none (run filled before five).server.file
main-file_example =
    main-file filled before 0 none (run filled before five)
      (filled-IsFit, (filled-IsFit, (filled-IsFit, tt))) filled-served
