-- ===== src/Service/Exit.antt =====
-- What `main` of main.cpp returns, and when it serves.
use relay_dev.Common.{
  ℕ, zero, suc, ◌+◌, ◌≤◌, ◌<◌, ◌≡◌, ◌↔◌, refl, sym, subst, Bool, true, false, inl, inr, ◌&&◌, List,
  Option, some, if◌then◌else◌, arith, all, and-left, and-right, Bool-cases, ◌==◌, ==_iff,
}
use relay_dev.Text.{Bytes}
use relay_dev.Pool.{new_pool}
use relay_dev.Pool.Startup.{numbers}
use relay_dev.Service.{App, Served, run, Ended, failed, main}
use relay_dev.Service.Stop.{main-run}

and_intro : (a b : Bool) → a ≡ true → b ≡ true → (a && b) ≡ true
and_intro true b h k = k
and_intro false b h k = h

-- A test that holds of a list of numbers in a row.
all-numbers :
    (p : ℕ → Bool) (n start : ℕ)
    → (all p (numbers n start) ≡ true) ↔ ((i : ℕ) → start ≤ i → i < start + n → p i ≡ true)
all-numbers p zero start = ((λ h i low high. absurd (omega arith)), (λ h. refl))
all-numbers p (suc n) start =
    let later = all-numbers p n (suc start) in (there later.0, back later.1)
  where
    Later : Type 0
    Later = (i : ℕ) → suc start ≤ i → i < suc start + n → p i ≡ true

    here : (i : ℕ) → p start ≡ true → start ≡ i → p i ≡ true
    here i h e = subst (λ k. p k ≡ true) e h

    there :
        (all p (numbers n (suc start)) ≡ true → Later)
        → all p (numbers (suc n) start) ≡ true
        → (i : ℕ) → start ≤ i
        → i < start + suc n
        → p i ≡ true
    there ih h i low high = elim (Bool-cases (start == i)) [
      | inl same ↦
          here i (and-left (p start) (all p (numbers n (suc start))) h) ((==_iff start i).0 same)
      | inr other ↦
          ih (and-right (p start) (all p (numbers n (suc start))) h) i
            (ground (arith, ==_iff start i)) (omega arith)
    ]

    back :
        (Later → all p (numbers n (suc start)) ≡ true)
        → ((i : ℕ) → start ≤ i → i < start + suc n → p i ≡ true)
        → all p (numbers (suc n) start) ≡ true
    back ih h =
        and_intro (p start) (all p (numbers n (suc start))) (h start (omega arith) (omega arith))
          (ih (λ i low high. h i (omega arith) (omega arith)))

module _ {Db Http : Type 0} (app : App Db Http) where
  -- Each of the five connections can be made, the configuration loads, and the port can be listened to.
  abbrev pub Starts : Type 0
  Starts =
      ((i : ℕ) → i < 5 → app.connects i ≡ true) × (app.config_loads ≡ true) × (app.listens ≡ true)

  starts : Bool
  starts = all app.connects (numbers 5 0) && (app.config_loads && app.listens)

  starts_iff : (starts ≡ true) ↔ Starts
  unfolding starts
  starts_iff = (
    (λ h.
        let rest = and-right (all app.connects (numbers 5 0)) (app.config_loads && app.listens) h in
        (
          (λ i high.
              (all-numbers app.connects 5 0).0
                (and-left (all app.connects (numbers 5 0)) (app.config_loads && app.listens) h) i
                (omega arith) (omega arith)),
          and-left app.config_loads app.listens rest,
          and-right app.config_loads app.listens rest,
        )),
    (λ s.
        and_intro (all app.connects (numbers 5 0)) (app.config_loads && app.listens)
          ((all-numbers app.connects 5 0).1 (λ i low high. s.0 i (omega arith)))
          (and_intro app.config_loads app.listens s.1 s.2)),
  )

-- How `main` ends, given whether it starts and whether `run` returns.
abbrev ended : {Db : Type 0} → Bool → Bool → Served Db → Ended Db
ended starts runs v =
    if starts then record { code = if runs then 0 else 1; served = some v } else failed

-- The three questions, for a test `A` of the start and one `B` of the whole.
abbrev Returns : {Db : Type 0} → Ended Db → Type 0 → Type 0 → Type 0
Returns {Db} e A B =
    ((e.code ≡ 0) ↔ B) × ((e.code ≡ 1) ↔ ¬ B) × (((v : Served Db) × (e.served ≡ some v)) ↔ A)

ended-Returns :
    {Db : Type 0} (starts runs : Bool) (v : Served Db)
    → Returns (ended starts runs v) (starts ≡ true) ((starts ≡ true) × (runs ≡ true))
ended-Returns true true v = (
  ((λ e. (refl, refl)), (λ h. refl)),
  ((λ e. absurd (omega (arith, e))), (λ h. absurd (h (refl, refl)))),
  ((λ w. refl), (λ h. (v, refl))),
)
ended-Returns true false v = (
  ((λ e. absurd (omega (arith, e))), (λ h. absurd (cc h.1))),
  ((λ e h. cc h.1), (λ h. refl)),
  ((λ w. refl), (λ h. (v, refl))),
)
ended-Returns false runs v = (
  ((λ e. absurd (omega (arith, e))), (λ h. absurd (cc h.0))),
  ((λ e h. cc h.0), (λ h. refl)),
  ((λ w. cc w.1), (λ h. cc h)),
)

Returns_iff :
    {Db : Type 0} (e : Ended Db) (A A' R : Type 0)
    → A ↔ A'
    → Returns e A (A × R)
    → Returns e A' (A' × R)
Returns_iff e A A' R same (zero_code, one_code, serves) = (
  ((λ c. (same.0 (zero_code.0 c).0, (zero_code.0 c).1)), (λ h. zero_code.1 (same.1 h.0, h.1))),
  ((λ c h. one_code.0 c (same.1 h.0, h.1)), (λ n. one_code.1 (λ h. n (same.0 h.0, h.1)))),
  ((λ v. same.0 (serves.0 v)), (λ h. serves.1 (same.1 h))),
)

-- `main` returns 0 if all five connections can be made, the configuration loads, the port can be
-- listened to and `run` does not throw, and returns 1 otherwise. It comes to serve requests exactly if
-- it gets past the first three, whatever `run` does then.
pub main-returns :
    {Db Http : Type 0} (app : App Db Http) (requests : List Http) (db : Db) (file : Option Bytes)
    → (((main app requests db file).code ≡ 0) ↔ (Starts app × (app.runs ≡ true)))
      × (((main app requests db file).code ≡ 1) ↔ ¬ (Starts app × (app.runs ≡ true)))
      × (((v : Served Db) × ((main app requests db file).served ≡ some v)) ↔ Starts app)
unfolding starts
main-returns app requests db file =
    let v = run app requests (record { pool = new_pool 5; db = db; file = file }) in
    subst (λ e. Returns e (Starts app) (Starts app × (app.runs ≡ true)))
      (sym (main-run app requests db file))
      (Returns_iff (ended (starts app) app.runs v) (starts app ≡ true) (Starts app)
        (app.runs ≡ true) (starts_iff app) (ended-Returns (starts app) app.runs v))
