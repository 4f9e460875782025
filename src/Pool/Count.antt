-- ===== src/Pool/Count.antt =====
-- How many connections there can be.
use relay_dev.Common.{
  ℕ, zero, suc, ◌+◌, ◌≤◌, ◌≡◌, refl, ap, Bool, List, [], ◌∷◌, ◌++◌, arith, length, length-append,
}
use relay_dev.Pool.{
  Pool, got, thrown, fill, new_pool, take_front, get_connection, release_connection,
}
use relay_dev.Pool.Steps.{
  World, Step, take, fail, wait, give_back, lose, Reach, here, next, new_world,
}

-- The connections of the constructor are not counted as active, so that up to twice the size of the
-- pool can be open.
pub record IsCounted (n : ℕ) (w : World) : Type 0 where
  pub sized : w.pool.pool_size ≡ n
  pub counted : w.pool.active_connections ≤ n
  pub created : w.pool.created ≤ n + w.pool.active_connections
  pub open_ones : length w.pool.pool + length w.lent ≤ w.pool.created

take_front-IsCounted :
    (n : ℕ) (idle : List ℕ) (connects : Bool) (p q : Pool) (lent : List ℕ) (conn : ℕ)
    → p.pool ≡ idle
    → IsCounted n (record { pool = p; lent = lent })
    → take_front idle connects p ≡ got conn q
    → IsCounted n (record { pool = q; lent = conn ∷ lent })
unfolding take_front
take_front-IsCounted n (c ∷ idle) connects p q lent conn e v h = ground (arith, ap length e)
take_front-IsCounted n [] connects p q lent conn e v h = ground (arith, ap length e)

take_front-fails :
    (n : ℕ) (idle : List ℕ) (connects : Bool) (p q : Pool) (lent : List ℕ)
    → IsCounted n (record { pool = p; lent = lent })
    → take_front idle connects p ≡ thrown q
    → IsCounted n (record { pool = q; lent = lent })
unfolding take_front
take_front-fails n (c ∷ idle) connects p q lent v h = cc
take_front-fails n [] connects p q lent v h = ground arith

-- Every step keeps the count.
pub Step-IsCounted : {n : ℕ} {v w : World} → Step v w → IsCounted n v → IsCounted n w
unfolding get_connection release_connection
Step-IsCounted {n} {v} (take {p} {conn} connects e) c =
    take_front-IsCounted n v.pool.pool connects v.pool p v.lent conn refl c e
Step-IsCounted {n} {v} (fail {p} connects e) c =
    take_front-fails n v.pool.pool connects v.pool p v.lent c e
Step-IsCounted (wait connects e) c = c
Step-IsCounted {v} (give_back conn before after e) c = record {
  sized = c.sized;
  counted = c.counted;
  created = c.created;
  open_ones = omega (
    arith,
    c.open_ones,
    ap length e,
    length-append v.pool.pool (conn ∷ []),
    length-append before (conn ∷ after),
    length-append before after,
  );
}
Step-IsCounted (lose conn before after e) c = record {
  sized = c.sized;
  counted = c.counted;
  created = c.created;
  open_ones = omega (
    arith,
    c.open_ones,
    ap length e,
    length-append before (conn ∷ after),
    length-append before after,
  );
}

pub fill-counts :
    (left : ℕ) (p : Pool)
    → ((fill left p).pool_size ≡ p.pool_size)
      × ((fill left p).active_connections ≡ p.active_connections)
      × ((fill left p).created ≡ p.created + left)
      × (length (fill left p).pool ≡ length p.pool + left)
unfolding fill
fill-counts zero p = (refl, refl, omega arith, omega arith)
fill-counts (suc left) p =
    let q : Pool = record p { created = suc p.created; pool = p.pool ++ p.created ∷ [] } in
    let (sized, active, made, idle) = fill-counts left q in
    (sized, active, omega (arith, made), omega (arith, idle, length-append p.pool (p.created ∷ [])))

new_world-IsCounted : (n : ℕ) → IsCounted n (new_world n)
unfolding new_world new_pool
new_world-IsCounted n =
    let p : Pool = record { pool = []; active_connections = 0; pool_size = n; created = 0 } in
    let (sized, active, made, idle) = fill-counts n p in
    record {
      sized = sized;
      counted = omega (arith, active);
      created = omega (arith, made);
      open_ones = omega (arith, made, idle);
    }

pub Reach-IsCounted : (n : ℕ) {w : World} → Reach (new_world n) w → IsCounted n w
Reach-IsCounted n here = new_world-IsCounted n
Reach-IsCounted n (next r st) = Step-IsCounted st (Reach-IsCounted n r)

-- From a new pool of size `n`, in whatever order threads take, return and lose connections, at
-- most `2 n` connections are ever made, and those that wait in the pool or are lent out are no
-- more than have been made.
pub Reach-made :
    (n : ℕ) {w : World}
    → Reach (new_world n) w
    → (w.pool.created ≤ n + n) × (length w.pool.pool + length w.lent ≤ w.pool.created)
Reach-made n r = let c = Reach-IsCounted n r in (omega (arith, c.created, c.counted), c.open_ones)
