-- ===== src/Pool/Startup.antt =====
-- The constructor of the pool, where making a connection may throw.
use relay_dev.Common.{
  ℕ, zero, suc, ◌≡◌, refl, Bool, Bool-cases, inl, inr, List, [], ◌∷◌, ◌++◌, all, if◌then◌else◌,
  Result, ok, err, sql_error,
}
use relay_dev.Pool.{Pool, create_connection, fill, new_pool}

-- `connects i` says whether the i-th connection can be made; the loop ends where one cannot.
unfoldable pub fill_while : (ℕ → Bool) → ℕ → Pool → Result Pool
fill_while connects zero p = ok p
fill_while connects (suc left) p =
    let rest =
      fill_while connects left (record (create_connection p) { pool = p.pool ++ p.created ∷ [] }) in
    if connects p.created then rest else err sql_error

unfoldable pub make_pool : (ℕ → Bool) → ℕ → Result Pool
unfolding fill_while
make_pool connects pool_size =
    fill_while connects pool_size
      (record { pool = []; active_connections = 0; pool_size = pool_size; created = 0 })

-- The numbers of the connections that the constructor makes.
abbrev pub numbers : ℕ → ℕ → List ℕ
numbers zero start = []
numbers (suc n) start = start ∷ numbers n (suc start)

fill_while-fill :
    (connects : ℕ → Bool) (n : ℕ) (p : Pool)
    → fill_while connects n p
      ≡ (if all connects (numbers n p.created) then ok (fill n p) else err sql_error)
unfolding fill_while fill
fill_while-fill connects zero p = refl
fill_while-fill connects (suc n) p = elim (Bool-cases (connects p.created)) [
  | inl made ↦ rw made (
      fill_while-fill connects n (record (create_connection p) { pool = p.pool ++ p.created ∷ [] }))
  | inr failed ↦ rw failed
]

-- The constructor throws if one of its connections cannot be made, and makes the new pool otherwise.
pub make_pool-new_pool :
    (connects : ℕ → Bool) (n : ℕ)
    → make_pool connects n ≡ (if all connects (numbers n 0) then ok (new_pool n) else err sql_error)
unfolding make_pool new_pool
make_pool-new_pool connects n =
    fill_while-fill connects n
      (record { pool = []; active_connections = 0; pool_size = n; created = 0 })
