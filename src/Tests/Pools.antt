-- ===== src/Tests/Pools.antt =====
-- A query, and what it costs the pool.
use relay_dev.Common.{◌+◌, ◌≡◌, []}
use relay_dev.Server.{Request, Request, query, handle_query}
use relay_dev.Server.Cost.{cost, handle_query-cost}
use relay_dev.Server.Capacity.{capacity}
use relay_dev.Tests.Samples.{server, with_netlist}

abbrev configuration : Request
configuration = query [] []

handle_query-cost_example :
    capacity (handle_query with_netlist configuration server).1.pool
      + cost (handle_query with_netlist configuration server).0
    ≡ capacity server.pool
handle_query-cost_example = handle_query-cost with_netlist configuration server
