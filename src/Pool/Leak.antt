-- ===== src/Pool/Leak.antt =====
-- A pool whose connections have been lost serves nobody any more.
use relay_dev.Common.{
  ℕ, zero, suc, ◌+◌, ◌≤◌, ◌<◌, ◌≡◌, refl, sym, ap, subst, ◌∙◌, Bool, true, List, [], ◌∷◌, ◌++◌,
  arith,
}
use relay_dev.Pool.{Pool, got, waits, new_pool, take_front, get_connection}
use relay_dev.Pool.Steps.{
  World, Step, take, fail, wait, give_back, lose, Reach, here, next, new_world,
}
use relay_dev.Pool.Count.{fill-counts}

-- Nothing idle, nothing lent, and the counter at its limit.
pub record IsExhausted (w : World) : Type 0 where
  pub no_idle : w.pool.pool ≡ []
  pub no_lent : w.lent ≡ []
  pub full : w.pool.pool_size ≤ w.pool.active_connections

get_connection-waits :
    (w : World) → IsExhausted w → (connects : Bool) → get_connection connects w.pool ≡ waits
unfolding get_connection
get_connection-waits w x connects =
    ap (λ l. take_front l connects w.pool) x.no_idle ∙ (unfold take_front in ground (arith, x.full))

append-ne-nil : (xs : List ℕ) (y : ℕ) (ys : List ℕ) → xs ++ y ∷ ys ≡ [] → ⊥
append-ne-nil [] y ys e = cc
append-ne-nil (x ∷ xs) y ys e = cc

Step-IsExhausted : {v w : World} → Step v w → IsExhausted v → w ≡ v
Step-IsExhausted {v} (take connects e) x = cc (get_connection-waits v x connects)
Step-IsExhausted {v} (fail connects e) x = cc (get_connection-waits v x connects)
Step-IsExhausted (wait connects e) x = refl
Step-IsExhausted (give_back conn before after e) x =
    absurd (append-ne-nil before conn after (sym e ∙ x.no_lent))
Step-IsExhausted (lose conn before after e) x =
    absurd (append-ne-nil before conn after (sym e ∙ x.no_lent))

Reach-IsExhausted : {v w : World} → Reach v w → IsExhausted v → w ≡ v
Reach-IsExhausted here x = refl
Reach-IsExhausted {v} (next {u} r st) x =
    let same = Reach-IsExhausted r x in Step-IsExhausted st (subst IsExhausted (sym same) x) ∙ same

-- Once a pool has nothing idle, nothing lent out and its counter at the limit, no later step
-- changes anything, and every call of `getConnection` waits.
pub exhausted_for_ever :
    {v w : World}
    → Reach v w
    → IsExhausted v
    → (w ≡ v) × ((connects : Bool) → get_connection connects w.pool ≡ waits)
exhausted_for_ever {v} {w} r x =
    let same = Reach-IsExhausted r x in
    (same, get_connection-waits w (subst IsExhausted (sym same) x))

abbrev Ends : World → ℕ → ℕ → Type 0
Ends s active size =
    (w : World) × Reach s w
    × (w.pool.pool ≡ [])
    × (w.lent ≡ [])
    × (w.pool.active_connections ≡ active)
    × (w.pool.pool_size ≡ size)

takes :
    (p : Pool) (c : ℕ) (idle : List ℕ)
    → p.pool ≡ c ∷ idle
    → get_connection true p ≡ got c (record p { pool = idle })
unfolding get_connection take_front
takes p c idle e = ap (λ l. take_front l true p) e

made : Pool → Pool
made p = record p { active_connections = suc p.active_connections; created = suc p.created }

makes :
    (p : Pool)
    → p.pool ≡ []
    → p.active_connections < p.pool_size
    → get_connection true p ≡ got p.created (made p)
unfolding get_connection take_front made
makes p e lt = ap (λ l. take_front l true p) e ∙ ground arith

-- A connection that has just been taken is lost.
loses :
    {s w : World} {p : Pool} {c : ℕ}
    → Reach s w
    → get_connection true w.pool ≡ got c p
    → Reach s (record { pool = p; lent = w.lent })
loses {w} {c} r e = next (next r (take true e)) (lose c [] w.lent refl)

-- Each idle connection is taken, and lost.
drain :
    (s w : World) (idle : List ℕ)
    → Reach s w
    → w.pool.pool ≡ idle
    → w.lent ≡ []
    → Ends s w.pool.active_connections w.pool.pool_size
drain s w [] r e no_lent = (w, r, e, no_lent, refl, refl)
drain s w (c ∷ idle) r e no_lent =
    drain s (record { pool = record (w.pool) { pool = idle }; lent = w.lent }) idle
      (loses r (takes w.pool c idle e)) refl no_lent

-- Each connection that may still be made is made, and lost.
grow :
    (s w : World) (left : ℕ)
    → Reach s w
    → w.pool.pool ≡ []
    → w.lent ≡ []
    → w.pool.active_connections + left ≡ w.pool.pool_size
    → Ends s w.pool.pool_size w.pool.pool_size
unfolding made
grow s w zero r e no_lent size = (w, r, e, no_lent, omega arith, refl)
grow s w (suc left) r e no_lent size =
    let (w', r', e', no_lent', active', size') =
      grow s (record { pool = made w.pool; lent = w.lent }) left
        (loses r (makes w.pool e (omega arith))) e no_lent (omega arith) in
    (w', r', e', no_lent', active', size')

-- A new pool of any size can come to a state with nothing idle, nothing lent out and its counter
-- at the limit: threads that lose their connections exhaust it.
pub new_world-exhausts : (n : ℕ) → (w : World) × Reach (new_world n) w × IsExhausted w
unfolding new_world new_pool
new_world-exhausts n =
    let p : Pool = record { pool = []; active_connections = 0; pool_size = n; created = 0 } in
    let (sized, active, _, _) = fill-counts n p in
    let (u, r, e, no_lent, active', size') =
      drain (new_world n) (new_world n) (new_world n).pool.pool here refl refl in
    let (w, r', e', no_lent', full, size'') = grow (new_world n) u n r e no_lent (omega arith) in
    (w, r', record { no_idle = e'; no_lent = no_lent'; full = omega arith })
