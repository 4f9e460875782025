-- ===== src/Pool/Steps.antt =====
-- The pool in use: threads take connections, give them back, or lose them.
use relay_dev.Common.{ℕ, Bool, List, [], ◌∷◌, ◌++◌, ◌≡◌}
use relay_dev.Pool.{Pool, got, thrown, waits, new_pool, get_connection, release_connection}

-- The pool, and the connections that are lent out, the last one first.
pub record World : Type 0 where
  pub pool : Pool
  pub lent : List ℕ

-- One call that a thread completes. A connection is lost if its holder ends with an exception, as
-- `handleQuery` does; a thread that waits changes nothing.
pub data Step : World → World → Type 0 where
  take :
      {w : World} {p : Pool} {conn : ℕ} (connects : Bool)
      → get_connection connects w.pool ≡ got conn p
      → Step w (record { pool = p; lent = conn ∷ w.lent })
  fail :
      {w : World} {p : Pool} (connects : Bool)
      → get_connection connects w.pool ≡ thrown p
      → Step w (record w { pool = p })
  wait : {w : World} (connects : Bool) → get_connection connects w.pool ≡ waits → Step w w
  give_back :
      {w : World} (conn : ℕ) (before after : List ℕ)
      → w.lent ≡ before ++ conn ∷ after
      → Step w (record { pool = release_connection conn w.pool; lent = before ++ after })
  lose :
      {w : World} (conn : ℕ) (before after : List ℕ)
      → w.lent ≡ before ++ conn ∷ after
      → Step w (record w { lent = before ++ after })

pub data Reach (w : World) : World → Type 0 where
  here : Reach w w
  next : {u v : World} → Reach w u → Step u v → Reach w v

unfoldable pub new_world : ℕ → World
new_world n = record { pool = new_pool n; lent = [] }
