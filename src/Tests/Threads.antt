-- ===== src/Tests/Threads.antt =====
-- Threads that sleep.
use relay_dev.Common.{ℕ, suc, ◌+◌, ◌≤◌, ◌≡◌, refl, true, [], ◌∷◌, arith, length}
use relay_dev.Pool.{Pool, got, new_pool, fill, take_front, get_connection, release_connection}
use relay_dev.Pool.Threads.{
  Threads, Turns, release, notify_one, call, take, sleep, give_back, lose, here, next, no_threads,
}
use relay_dev.Pool.Steps.{new_world}
use relay_dev.Server.Interleaved
use relay_dev.Server.Interleaved.{Job, Busy, Moves, arrive, world_of, Moves-apart}
use relay_dev.Server.Contract.{Moves-Acts}
use relay_dev.Pool.Contract.{bag, Acts}
use relay_dev.Pool.Contract.Refines.{store_of, new_store}
use relay_dev.Common.{◌↔◌}
use relay_dev.Pool.{waits}
use relay_dev.Tests.Samples.{outside, server}
use relay_dev.Pool.Waits.{Turns-awake, Turns-progress}

-- A pool of one connection: two threads take connections, two more sleep, the second connection
-- comes back, and the first is lost.
abbrev after_loss : Threads
after_loss = record {
  world = record {
    pool = record { pool = 1 ∷ []; active_connections = 1; pool_size = 1; created = 2 };
    lent = [];
  };
  ready = 1;
  waiting = 1;
  lost = 1;
}

after_loss-Turns : Turns (no_threads 1) after_loss
unfolding no_threads new_world new_pool fill get_connection take_front release notify_one
    release_connection
after_loss-Turns =
    next
      (next
        (next
          (next
            (next
              (next
                (next (next (next (next here call) (take true refl refl)) call)
                  (take true refl refl))
                call)
              (sleep true refl refl))
            call)
          (sleep true refl refl))
        (give_back 1 [] (0 ∷ []) refl))
      (lose 0 [] [] refl)

Turns-awake_example :
    (length after_loss.world.pool.pool ≤ after_loss.ready)
    × (length after_loss.world.pool.pool + length after_loss.world.lent + after_loss.lost ≡ 1 + 1)
Turns-awake_example = Turns-awake 1 after_loss-Turns (omega arith)

Turns-progress_example :
    (conn k : ℕ) × (p : Pool) × (after_loss.ready ≡ suc k)
    × (get_connection true after_loss.world.pool ≡ got conn p)
Turns-progress_example = Turns-progress 1 true after_loss-Turns (omega arith) refl (omega arith)

-- Two queries that overlap on a pool of one connection.
abbrev job : ℕ → Job ℕ
job n = record { outside = outside; bom_path = []; netlist_path = []; conn = n }

abbrev overlap : Busy ℕ
overlap = record {
  server = record server {
    pool = record { pool = []; active_connections = 1; pool_size = 1; created = 2 };
  };
  jobs = job 1 ∷ job 0 ∷ [];
}

overlap-Moves : Moves (record { server = server; jobs = [] }) overlap
unfolding new_pool fill get_connection take_front
overlap-Moves =
    Interleaved.next (Interleaved.next Interleaved.here (arrive (job 0) refl)) (arrive (job 1) refl)

Moves-Acts_example :
    Acts (new_store 1) (store_of (world_of overlap))
    × ((get_connection true overlap.server.pool ≡ waits) ↔ (
        ((store_of (world_of overlap)).idle ≡ bag []) × ((store_of (world_of overlap)).left ≡ 0)))
Moves-Acts_example = Moves-Acts 1 server true refl overlap-Moves
