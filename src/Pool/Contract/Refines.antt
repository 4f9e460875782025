-- ===== src/Pool/Contract/Refines.antt =====
-- The pool keeps its contract: each call is an act of it, and none waits while it can be served.
use relay_dev.Common.{
  ℕ, zero, suc, ◌+◌, ◌-◌, ◌<◌, ◌≡◌, ◌↔◌, ◌⊎◌, inl, inr, refl, sym, ap, subst, ◌∙◌, Bool, List, [],
  ◌∷◌, ◌++◌, arith, append_assoc, append-nil,
}
use relay_dev.Pool.{
  Pool, got, thrown, waits, fill, new_pool, take_front, get_connection, release_connection,
}
use relay_dev.Pool.Steps.{
  World, Step, take, fail, wait, give_back, lose, Reach, here, next, new_world,
}
use relay_dev.Pool.Startup.{numbers}
use relay_dev.Pool.Count.{fill-counts}
use relay_dev.Pool.Contract
use relay_dev.Pool.Contract.{Bag, bag, put, bag-nil, bag-middle, Store, Act, Acts}

abbrev pub store_of : World → Store
store_of w = record {
  idle = bag w.pool.pool;
  lent = bag w.lent;
  left = w.pool.pool_size - w.pool.active_connections;
  made = w.pool.created;
}

abbrev pub new_store : ℕ → Store
new_store n = record { idle = bag (numbers n 0); lent = bag []; left = n; made = n }

-- The pool lends a connection.
abbrev Lent : Pool → List ℕ → Pool → ℕ → Type 0
Lent p lent q conn =
    Act (store_of (record { pool = p; lent = lent }))
      (store_of (record { pool = q; lent = conn ∷ lent }))

take_front-Act :
    (idle : List ℕ) (connects : Bool) (p q : Pool) (lent : List ℕ) (conn : ℕ)
    → p.pool ≡ idle
    → take_front idle connects p ≡ got conn q
    → Lent p lent q conn
unfolding take_front
take_front-Act (c ∷ idle) connects p q lent conn e h =
    let same : c ≡ conn = ground arith in
    let after : record p { pool = idle } ≡ q = ground arith in
    subst (Lent p lent q) same
      (subst (λ x. Lent p lent x c) after (Contract.lend c (bag idle) (ap bag e)))
take_front-Act [] connects p q lent conn e h =
    let room : p.active_connections < p.pool_size = ground arith in
    let same : p.created ≡ conn = ground arith in
    let after : record p { active_connections = suc p.active_connections; created = suc p.created }
        ≡ q =
      ground arith in
    subst (Lent p lent q) same
      (subst (λ x. Lent p lent x p.created) after (Contract.make (ap bag e) (omega (arith, room))))

take_front-fails :
    (idle : List ℕ) (connects : Bool) (p q : Pool) (lent : List ℕ)
    → p.pool ≡ idle
    → take_front idle connects p ≡ thrown q
    → Act
        (store_of (record { pool = p; lent = lent }))
        (store_of (record { pool = q; lent = lent }))
unfolding take_front
take_front-fails (c ∷ idle) connects p q lent e h = cc
take_front-fails [] connects p q lent e h =
    let room : p.active_connections < p.pool_size = ground arith in
    let after : record p { active_connections = suc p.active_connections } ≡ q = ground arith in
    subst
      (λ x.
        Act (store_of (record { pool = p; lent = lent }))
          (store_of (record { pool = x; lent = lent })))
      after (Contract.waste (ap bag e) (omega (arith, room)))

take_front-waits :
    (idle : List ℕ) (connects : Bool) (p : Pool)
    → (take_front idle connects p ≡ waits)
      ↔ ((bag idle ≡ bag []) × (p.pool_size - p.active_connections ≡ 0))
unfolding take_front
take_front-waits (c ∷ idle) connects p =
    ((λ h. cc), (λ h. let nothing : c ∷ idle ≡ [] = bag-nil (c ∷ idle) h.0 in cc))
take_front-waits [] connects p = ((λ h. (refl, ground arith)), (λ h. ground (arith, h.1)))

Step-Act : {v w : World} → Step v w → (w ≡ v) ⊎ Act (store_of v) (store_of w)
unfolding get_connection release_connection
Step-Act {v} (take {p} {conn} connects e) =
    inr (take_front-Act v.pool.pool connects v.pool p v.lent conn refl e)
Step-Act {v} (fail {p} connects e) =
    inr (take_front-fails v.pool.pool connects v.pool p v.lent refl e)
Step-Act (wait connects e) = inl refl
Step-Act {v} (give_back conn before after e) = inr (
    subst (λ b. Act (store_of v) (record (store_of v) { idle = b; lent = bag (before ++ after) }))
      (ap (λ l. put conn (bag l)) (sym (append-nil v.pool.pool))
        ∙ sym (bag-middle v.pool.pool [] conn))
      (Contract.take_back conn (bag (before ++ after)) (ap bag e ∙ bag-middle before after conn)))
Step-Act {v} (lose conn before after e) =
    inr (Contract.lose conn (bag (before ++ after)) (ap bag e ∙ bag-middle before after conn))

fill-pool : (n : ℕ) (p : Pool) → (fill n p).pool ≡ p.pool ++ numbers n p.created
unfolding fill
fill-pool zero p = sym (append-nil p.pool)
fill-pool (suc n) p =
    fill-pool n (record p { pool = p.pool ++ p.created ∷ []; created = suc p.created })
    ∙ append_assoc p.pool (p.created ∷ []) (numbers n (suc p.created))

new_store-Acts : (n : ℕ) → store_of (new_world n) ≡ new_store n
unfolding new_world new_pool
new_store-Acts n =
    let p : Pool = record { pool = []; active_connections = 0; pool_size = n; created = 0 } in
    let (sized, active, made, _) = fill-counts n p in
    let left : n - 0 ≡ n = omega arith in
    let next_one : 0 + n ≡ n = omega arith in
    rw (fill-pool n p, sized, active, made, left, next_one)

-- What is done to a new pool is allowed by its contract, which also tells when a call waits.
pub Reach-Acts :
    (n : ℕ) {w : World}
    → Reach (new_world n) w
    → Acts (new_store n) (store_of w)
      × ((connects : Bool)
          → (get_connection connects w.pool ≡ waits)
            ↔ (((store_of w).idle ≡ bag []) × ((store_of w).left ≡ 0)))
unfolding get_connection
Reach-Acts n {w} r = (run r, λ connects. take_front-waits w.pool.pool connects w.pool)
  where
    run : {v : World} → Reach (new_world n) v → Acts (new_store n) (store_of v)
    run here = subst (Acts (new_store n)) (sym (new_store-Acts n)) Contract.here
    run (next r' st) = elim (Step-Act st) [
      | inl same ↦ subst (λ u. Acts (new_store n) (store_of u)) (sym same) (run r')
      | inr act ↦ Contract.next (run r') act
    ]
