-- ===== src/Pool/Waits.antt =====
-- No thread sleeps while a connection waits in the pool that nobody is on the way to take.
use relay_dev.Common.{
  ℕ, zero, suc, ◌+◌, ◌-◌, ◌≤◌, ◌<◌, ◌≡◌, refl, ap, Bool, List, [], ◌∷◌, ◌++◌, arith, length,
  length-append,
}
use relay_dev.Pool.{
  Pool, got, thrown, waits, new_pool, take_front, get_connection, release_connection,
}
use relay_dev.Pool.Steps
use relay_dev.Pool.Steps.{World, Step, Reach, new_world}
use relay_dev.Pool.Count.{fill-counts, Reach-IsCounted}
use relay_dev.Pool.Threads.{
  Threads, notify_one, release, Turn, call, take, fail, sleep, wake_up, give_back, lose, Turns,
  here, next, no_threads,
}

-- Without its threads the pool takes the steps of Steps.
pub Turns-Reach : (n : ℕ) {t : Threads} → Turns (no_threads n) t → Reach (new_world n) t.world
unfolding no_threads release release_connection
Turns-Reach n here = Steps.here
Turns-Reach n (next r call) = Turns-Reach n r
Turns-Reach n (next r (take connects k e)) = Steps.next (Turns-Reach n r) (Steps.take connects e)
Turns-Reach n (next r (fail connects k e)) = Steps.next (Turns-Reach n r) (Steps.fail connects e)
Turns-Reach n (next r (sleep connects k e)) = Turns-Reach n r
Turns-Reach n (next r (wake_up k)) = Turns-Reach n r
Turns-Reach n (next r (give_back conn before after e)) =
    Steps.next (Turns-Reach n r) (Steps.give_back conn before after e)
Turns-Reach n (next r (lose conn before after e)) =
    Steps.next (Turns-Reach n r) (Steps.lose conn before after e)

-- Every connection that was paid for is in the pool, lent or lost, and while a thread sleeps all
-- have been paid for, and each that is in the pool has a thread on the way to it.
pub record IsAwake (n : ℕ) (t : Threads) : Type 0 where
  pub sized : t.world.pool.pool_size ≡ n
  pub counted :
      length t.world.pool.pool + length t.world.lent + t.lost ≡ n + t.world.pool.active_connections
  pub full : 0 < t.waiting → n ≤ t.world.pool.active_connections
  pub awake : 0 < t.waiting → length t.world.pool.pool ≤ t.ready

take_front-IsAwake :
    (n k : ℕ) (idle : List ℕ) (connects : Bool) (p q : Pool) (t : Threads) (conn : ℕ)
    → t.world.pool ≡ p
    → p.pool ≡ idle
    → t.ready ≡ suc k
    → IsAwake n t
    → take_front idle connects p ≡ got conn q
    → IsAwake n (record t { world = record { pool = q; lent = conn ∷ t.world.lent }; ready = k })
unfolding take_front
take_front-IsAwake n k (c ∷ idle) connects p q t conn same e ready v h =
    ground (arith, ap length e, ap (λ x. length x.pool) same)
take_front-IsAwake n k [] connects p q t conn same e ready v h =
    ground (arith, ap length e, ap (λ x. length x.pool) same)

take_front-fails :
    (n k : ℕ) (idle : List ℕ) (connects : Bool) (p q : Pool) (t : Threads)
    → t.world.pool ≡ p
    → p.pool ≡ idle
    → t.ready ≡ suc k
    → IsAwake n t
    → take_front idle connects p ≡ thrown q
    → IsAwake n (record t {
      world = record { pool = q; lent = t.world.lent };
      ready = k;
      lost = suc t.lost;
    })
unfolding take_front
take_front-fails n k (c ∷ idle) connects p q t same e ready v h = cc
take_front-fails n k [] connects p q t same e ready v h =
    ground (arith, ap length e, ap (λ x. length x.pool) same)

take_front-sleeps :
    (n k : ℕ) (idle : List ℕ) (connects : Bool) (p : Pool) (t : Threads)
    → t.world.pool ≡ p
    → p.pool ≡ idle
    → t.ready ≡ suc k
    → IsAwake n t
    → take_front idle connects p ≡ waits
    → IsAwake n (record t { ready = k; waiting = suc t.waiting })
unfolding take_front
take_front-sleeps n k (c ∷ idle) connects p t same e ready v h = cc
take_front-sleeps n k [] connects p t same e ready v h =
    ground (arith, ap length e, ap (λ x. length x.pool) same)

-- Whoever gives a connection back wakes a thread that is to take it, if one sleeps.
release-IsAwake :
    (n conn waiting : ℕ) (before after : List ℕ) (t : Threads)
    → t.waiting ≡ waiting
    → t.world.lent ≡ before ++ conn ∷ after
    → IsAwake n t
    → IsAwake n (release conn (before ++ after) t)
unfolding release notify_one release_connection
release-IsAwake n conn zero before after t same e v = rw same (
    ground (
      arith,
      ap length e,
      length-append t.world.pool.pool (conn ∷ []),
      length-append before (conn ∷ after),
      length-append before after,
    ))
release-IsAwake n conn (suc waiting) before after t same e v = rw same (
    ground (
      arith,
      ap length e,
      length-append t.world.pool.pool (conn ∷ []),
      length-append before (conn ∷ after),
      length-append before after,
    ))

Turn-IsAwake : {n : ℕ} {t u : Threads} → Turn t u → IsAwake n t → IsAwake n u
unfolding get_connection
Turn-IsAwake call v = ground arith
Turn-IsAwake {n} {t} (take {p} {conn} {k} connects ready e) v =
    take_front-IsAwake n k t.world.pool.pool connects t.world.pool p t conn refl refl ready v e
Turn-IsAwake {n} {t} (fail {p} {k} connects ready e) v =
    take_front-fails n k t.world.pool.pool connects t.world.pool p t refl refl ready v e
Turn-IsAwake {n} {t} (sleep {k} connects ready e) v =
    take_front-sleeps n k t.world.pool.pool connects t.world.pool t refl refl ready v e
Turn-IsAwake (wake_up k) v = ground arith
Turn-IsAwake {n} {t} (give_back conn before after e) v =
    release-IsAwake n conn t.waiting before after t refl e v
Turn-IsAwake (lose conn before after e) v =
    ground (arith, ap length e, length-append before (conn ∷ after), length-append before after)

no_threads-IsAwake : (n : ℕ) → IsAwake n (no_threads n)
unfolding no_threads new_world new_pool
no_threads-IsAwake n =
    let p : Pool = record { pool = []; active_connections = 0; pool_size = n; created = 0 } in
    let (sized, active, made, idle) = fill-counts n p in
    record {
      sized = sized;
      counted = omega (arith, active, idle);
      full = λ h. omega arith;
      awake = λ h. omega arith;
    }

Turns-IsAwake : (n : ℕ) {t : Threads} → Turns (no_threads n) t → IsAwake n t
Turns-IsAwake n here = no_threads-IsAwake n
Turns-IsAwake n (next r turn) = Turn-IsAwake turn (Turns-IsAwake n r)

-- From a new pool of size `n`, in whatever order threads call, sleep, wake up, take, return and lose
-- connections: while a thread sleeps there are no more connections in the pool than threads on the
-- way to take one, and the connections in the pool, the lent and the lost ones are `2 n`.
pub Turns-awake :
    (n : ℕ) {t : Threads}
    → Turns (no_threads n) t
    → 0 < t.waiting
    → (length t.world.pool.pool ≤ t.ready)
      × (length t.world.pool.pool + length t.world.lent + t.lost ≡ n + n)
Turns-awake n {t} r h =
    let v = Turns-IsAwake n r in
    let c = Reach-IsCounted n (Turns-Reach n r) in
    (v.awake h, omega (arith, v.counted, v.full h, c.counted))

-- What a thread that goes through the loop gets if a connection waits in the pool.
take_idle :
    (idle : List ℕ) (connects : Bool) (p : Pool)
    → 0 < length idle
    → (conn : ℕ) × (q : Pool) × (take_front idle connects p ≡ got conn q)
unfolding take_front
take_idle [] connects p h = absurd (omega arith)
take_idle (c ∷ idle) connects p h = (c, record p { pool = idle }, refl)

-- From a new pool of size `n`, if a thread sleeps, nobody holds a connection and fewer than `2 n` are
-- lost, then a thread is on the way that takes a connection at its next turn, whether or not the
-- server can be reached.
pub Turns-progress :
    (n : ℕ) (connects : Bool) {t : Threads}
    → Turns (no_threads n) t
    → 0 < t.waiting
    → t.world.lent ≡ []
    → t.lost < n + n
    → (conn k : ℕ) × (p : Pool) × (t.ready ≡ suc k)
      × (get_connection connects t.world.pool ≡ got conn p)
unfolding get_connection
Turns-progress n connects {t} r h none_lent left =
    let (on_the_way, all) = Turns-awake n r h in
    let some_idle : 0 < length t.world.pool.pool = omega (arith, all, ap length none_lent) in
    let (conn, p, e) = take_idle t.world.pool.pool connects t.world.pool some_idle in
    (conn, t.ready - 1, p, omega arith, e)
