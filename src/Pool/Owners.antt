-- ===== src/Pool/Owners.antt =====
-- No connection is handed to two holders.
use mathlib.Core.List.{
  Mem, Nodup, Perm, Nodup-cons, Nodup-nil, mem-cons, not-mem-nil, mem-cons_of_mem, perm_middle,
}
use mathlib.Core.List.Perm
use mathlib.Core.Logic.Or
use native.Mathlib.Bridge.{le_prop}
use relay_dev.Common.{
  ℕ, zero, suc, ◌≤◌, ◌<◌, ◌≡◌, refl, sym, subst, Bool, List, [], ◌∷◌, ◌++◌, append-nil,
  append_assoc, arith,
}
use relay_dev.Pool.{
  Pool, got, thrown, fill, new_pool, take_front, get_connection, release_connection,
}
use relay_dev.Pool.Steps.{
  World, Step, take, fail, wait, give_back, lose, Reach, here, next, new_world,
}

-- Every connection that waits in the pool or is lent out.
abbrev pub held : World → List ℕ
held w = w.pool.pool ++ w.lent

-- Each is held once, and the next one to be made is new.
pub record IsDistinct (w : World) : Type 0 where
  pub distinct : Nodup (held w)
  pub older : (c : ℕ) → Mem c (held w) → c < w.pool.created

IsDistinct-perm :
    {v w : World}
    → IsDistinct v
    → Perm (held w) (held v)
    → v.pool.created ≤ w.pool.created
    → IsDistinct w
IsDistinct-perm d p le = record {
  distinct = Perm.nodup (Perm.symm p) d.distinct;
  older = λ c m. let lt = d.older c ((Perm.mem_iff p).0 m) in omega arith;
}

-- One more connection, with the number that was next.
IsDistinct-new :
    {v w : World}
    → IsDistinct v
    → Perm (held w) (v.pool.created ∷ held v)
    → w.pool.created ≡ suc v.pool.created
    → IsDistinct w
IsDistinct-new {v} {w} d p e = record {
  distinct =
      Perm.nodup (Perm.symm p) (
        Nodup-cons.1
          ((λ m. let lt = d.older v.pool.created m in absurd (omega arith)), d.distinct));
  older = λ c m.
      Or.elim le_prop (mem-cons.0 ((Perm.mem_iff p).0 m)) (λ same. omega arith)
        (λ old. let lt = d.older c old in omega arith);
}

-- One less.
IsDistinct-less :
    {v w : World} (c : ℕ)
    → IsDistinct v
    → Perm (held v) (c ∷ held w)
    → w.pool.created ≡ v.pool.created
    → IsDistinct w
IsDistinct-less c d p e = record {
  distinct = (Nodup-cons.0 (Perm.nodup p d.distinct)).1;
  older = λ x m.
      let lt = d.older x ((Perm.mem_iff (Perm.symm p)).0 (mem-cons_of_mem c m)) in omega arith;
}

take_front-IsDistinct :
    (idle : List ℕ) (connects : Bool) (p q : Pool) (lent : List ℕ) (conn : ℕ)
    → p.pool ≡ idle
    → IsDistinct (record { pool = p; lent = lent })
    → take_front idle connects p ≡ got conn q
    → IsDistinct (record { pool = q; lent = conn ∷ lent })
unfolding take_front
take_front-IsDistinct (c ∷ idle) connects p q lent conn e d h =
    let same : conn ≡ c = ground arith in
    let after : record p { pool = idle } ≡ q = ground arith in
    subst (λ x. IsDistinct (record { pool = x; lent = conn ∷ lent })) after
      (subst (λ k. IsDistinct (record { pool = record p { pool = idle }; lent = k ∷ lent }))
        (sym same)
        (IsDistinct-perm d
          (subst (λ l. Perm (idle ++ c ∷ lent) (l ++ lent)) (sym e) (perm_middle idle lent))
          (omega arith)))
take_front-IsDistinct [] connects p q lent conn e d h =
    let same : conn ≡ p.created = ground arith in
    let after : record p { active_connections = suc p.active_connections; created = suc p.created }
        ≡ q =
      ground arith in
    subst (λ x. IsDistinct (record { pool = x; lent = conn ∷ lent })) after
      (subst
        (λ k. IsDistinct (record {
          pool = record p {
            active_connections = suc p.active_connections;
            created = suc p.created;
          };
          lent = k ∷ lent;
        }))
        (sym same) (IsDistinct-new d (perm_middle p.pool lent) refl))

take_front-throws :
    (idle : List ℕ) (connects : Bool) (p q : Pool) (lent : List ℕ)
    → IsDistinct (record { pool = p; lent = lent })
    → take_front idle connects p ≡ thrown q
    → IsDistinct (record { pool = q; lent = lent })
unfolding take_front
take_front-throws (c ∷ idle) connects p q lent d h = cc
take_front-throws [] connects p q lent d h =
    let after : record p { active_connections = suc p.active_connections } ≡ q = ground arith in
    subst (λ x. IsDistinct (record { pool = x; lent = lent })) after
      (record { distinct = d.distinct; older = d.older })

-- `c` moves from the middle of the loans to the end of the pool.
give_back-perm :
    (pool before after : List ℕ) (c : ℕ)
    → Perm ((pool ++ c ∷ []) ++ (before ++ after)) (pool ++ (before ++ c ∷ after))
give_back-perm pool before after c =
    subst (λ l. Perm l (pool ++ (before ++ c ∷ after)))
      (sym (append_assoc pool (c ∷ []) (before ++ after)))
      (Perm.append_left pool (Perm.symm (perm_middle before after)))

-- `c` in the middle of the loans is one of all.
lose-perm :
    (pool before after : List ℕ) (c : ℕ)
    → Perm (pool ++ (before ++ c ∷ after)) (c ∷ (pool ++ (before ++ after)))
lose-perm pool before after c =
    Perm.trans (Perm.append_left pool (perm_middle before after))
      (perm_middle pool (before ++ after))

pub Step-IsDistinct : {v w : World} → Step v w → IsDistinct v → IsDistinct w
unfolding get_connection release_connection
Step-IsDistinct {v} (take {p} {conn} connects e) d =
    take_front-IsDistinct v.pool.pool connects v.pool p v.lent conn refl d e
Step-IsDistinct {v} (fail {p} connects e) d =
    take_front-throws v.pool.pool connects v.pool p v.lent d e
Step-IsDistinct (wait connects e) d = d
Step-IsDistinct {v} (give_back conn before after e) d =
    IsDistinct-perm d
      (subst (λ l. Perm ((v.pool.pool ++ conn ∷ []) ++ (before ++ after)) (v.pool.pool ++ l))
        (sym e) (give_back-perm v.pool.pool before after conn))
      (omega arith)
Step-IsDistinct {v} (lose conn before after e) d =
    IsDistinct-less conn d
      (subst (λ l. Perm (v.pool.pool ++ l) (conn ∷ (v.pool.pool ++ (before ++ after)))) (sym e)
        (lose-perm v.pool.pool before after conn))
      refl

fill-IsDistinct :
    (left : ℕ) (p : Pool)
    → IsDistinct (record { pool = p; lent = [] })
    → IsDistinct (record { pool = fill left p; lent = [] })
unfolding fill
fill-IsDistinct zero p d = d
fill-IsDistinct (suc left) p d =
    fill-IsDistinct left (record p { pool = p.pool ++ p.created ∷ []; created = suc p.created })
      (IsDistinct-new d
        (subst (λ l. Perm l (p.created ∷ (p.pool ++ [])))
          (sym (append-nil (p.pool ++ p.created ∷ []))) (perm_middle p.pool []))
        refl)

-- From a new pool, in whatever order threads take, return and lose connections, no connection is
-- with two holders, or with a holder and in the pool.
pub Reach-IsDistinct : (n : ℕ) {w : World} → Reach (new_world n) w → IsDistinct w
unfolding new_world new_pool
Reach-IsDistinct n here =
    fill-IsDistinct n (record { pool = []; active_connections = 0; pool_size = n; created = 0 })
      (record { distinct = Nodup-nil; older = λ c m. absurd (not-mem-nil m) })
Reach-IsDistinct n (next r st) = Step-IsDistinct st (Reach-IsDistinct n r)
