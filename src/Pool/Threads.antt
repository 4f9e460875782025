-- ===== src/Pool/Threads.antt =====
-- The threads around the pool: those inside `getConnection`, and the condition variable.
use relay_dev.Common.{ℕ, zero, suc, Bool, List, ◌∷◌, ◌++◌, ◌≡◌}
use relay_dev.Pool.{Pool, got, thrown, waits, get_connection, release_connection}
use relay_dev.Pool.Steps.{World, new_world}

-- `ready` threads are to go through the loop of `getConnection` once they have the lock, `waiting`
-- ones sleep in `condition_.wait`. `lost` counts the connections whose holder ended with an
-- exception and the calls that were counted although no connection was made.
pub record Threads : Type 0 where
  pub world : World
  pub ready : ℕ
  pub waiting : ℕ
  pub lost : ℕ

-- `condition_.notify_one`: if a thread sleeps it is to go through the loop again.
unfoldable pub notify_one : ℕ → ℕ → ℕ × ℕ
notify_one ready zero = (ready, zero)
notify_one ready (suc waiting) = (suc ready, waiting)

-- `releaseConnection` by the holder of `conn`, of the loans `before ++ conn ∷ after`.
unfoldable pub release : ℕ → List ℕ → Threads → Threads
unfolding notify_one release_connection
release conn lent t =
    let (ready, waiting) = notify_one t.ready t.waiting in
    record t {
      world = record { pool = release_connection conn t.world.pool; lent = lent };
      ready = ready;
      waiting = waiting;
    }

-- What one thread does while it has the lock.
pub data Turn : Threads → Threads → Type 0 where
  call : {t : Threads} → Turn t (record t { ready = suc t.ready })
  take :
      {t : Threads} {p : Pool} {conn k : ℕ} (connects : Bool)
      → t.ready ≡ suc k
      → get_connection connects t.world.pool ≡ got conn p
      → Turn t (record t { world = record { pool = p; lent = conn ∷ t.world.lent }; ready = k })
  fail :
      {t : Threads} {p : Pool} {k : ℕ} (connects : Bool)
      → t.ready ≡ suc k
      → get_connection connects t.world.pool ≡ thrown p
      → Turn t (record t {
        world = record { pool = p; lent = t.world.lent };
        ready = k;
        lost = suc t.lost;
      })
  sleep :
      {t : Threads} {k : ℕ} (connects : Bool)
      → t.ready ≡ suc k
      → get_connection connects t.world.pool ≡ waits
      → Turn t (record t { ready = k; waiting = suc t.waiting })
  wake_up :
      {t : Threads} {k : ℕ}
      → t.waiting ≡ suc k
      → Turn t (record t { ready = suc t.ready; waiting = k })
  give_back :
      {t : Threads} (conn : ℕ) (before after : List ℕ)
      → t.world.lent ≡ before ++ conn ∷ after
      → Turn t (release conn (before ++ after) t)
  lose :
      {t : Threads} (conn : ℕ) (before after : List ℕ)
      → t.world.lent ≡ before ++ conn ∷ after
      → Turn t (record t {
        world = record { pool = t.world.pool; lent = before ++ after };
        lost = suc t.lost;
      })

pub data Turns (t : Threads) : Threads → Type 0 where
  here : Turns t t
  next : {u v : Threads} → Turns t u → Turn u v → Turns t v

unfoldable pub no_threads : ℕ → Threads
no_threads n = record { world = new_world n; ready = 0; waiting = 0; lost = 0 }
