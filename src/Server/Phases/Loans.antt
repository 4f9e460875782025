-- ===== src/Server/Phases/Loans.antt =====
-- The connections of queries that overlap in all their steps.
use mathlib.Core.List.{map-append, Nodup}
use relay_dev.Common.{
  ℕ, ◌+◌, ◌≤◌, ◌≡◌, refl, sym, ap, subst, ◌∙◌, ◌⊎◌, inl, inr, List, [], ◌∷◌, ◌++◌, map, arith,
  length, length-map, some,
}
use relay_dev.Pool.{Pool, new_pool}
use relay_dev.Pool.Steps.{World, Step, take, give_back, lose, Reach, new_world}
use relay_dev.Pool.Steps
use relay_dev.Pool.Count.{Reach-made}
use relay_dev.Pool.Owners.{Reach-IsDistinct}
use relay_dev.Output.Save.{save_data}
use relay_dev.Server.{after_save}
use relay_dev.Server.Interleaved.{respond-Step}
use relay_dev.Server.Phases.{
  reading, writing, saving, Query, Work, Floor, finished, Advance, arrive, refuse, fail, not_opened,
  open_file, flush, close, finish, Advances, here, next,
}

abbrev pub conns : {Q : Type 0} → List (Work Q) → List ℕ
conns = map (λ w. w.conn)

module _ {Q : Type 0} where
  split :
      {works : List (Work Q)} (before : List (Work Q)) (w : Work Q) (after : List (Work Q))
      → works ≡ before ++ w ∷ after
      → conns works ≡ conns before ++ w.conn ∷ conns after
  split before w after e =
      let conn_of : Work Q → ℕ = λ x. x.conn in
      ap (map conn_of) e ∙ map-append conn_of before (w ∷ after)

module _ {Db Q : Type 0} (of : Q → Query Db) where
  abbrev world_of : Floor Db Q → World
  world_of f = record { pool = f.pool; lent = conns f.works }

  -- A query that goes on keeps its connection.
  keeps :
      (f : Floor Db Q) (before : List (Work Q)) (w w' : Work Q) (after : List (Work Q))
      → f.works ≡ before ++ w ∷ after
      → w.conn ≡ w'.conn
      → world_of (record f { works = before ++ w' ∷ after }) ≡ world_of f
  keeps f before w w' after e same =
      ap (λ l. record { pool = f.pool; lent = l })
        (split before w' after refl
          ∙ ap (λ c. conns before ++ c ∷ conns after) (sym same)
          ∙ sym (split before w after e))

  -- A query that ends has given its connection back, or has lost it.
  ends :
      (f : Floor Db Q) (p : Pool) (before : List (Work Q)) (w : Work Q) (after : List (Work Q))
      → Step (world_of f) (record { pool = p; lent = conns before ++ conns after })
      → Step (world_of f) (record { pool = p; lent = conns (before ++ after) })
  ends f p before w after st =
      let conn_of : Work Q → ℕ = λ x. x.conn in
      subst (λ l. Step (world_of f) (record { pool = p; lent = l }))
        (sym (map-append conn_of before after)) st

  Advance-Step :
      {f g : Floor Db Q}
      → Advance of f g
      → (world_of g ≡ world_of f) ⊎ Step (world_of f) (world_of g)
  Advance-Step (arrive q e) = inr (take (of q).outside.connects e)
  Advance-Step (refuse q e) = inr (Steps.fail (of q).outside.connects e)
  Advance-Step {f} (fail q conn x before after e h) =
      let w : Work Q = record { query = q; conn = conn; phase = reading } in
      inr (
        ends f f.pool before w after
          (lose conn (conns before) (conns after) (split before w after e)))
  Advance-Step {f} (not_opened q conn c before after e h shut) = inl (
      keeps f before (record { query = q; conn = conn; phase = reading })
        (record { query = q; conn = conn; phase = saving c }) after e refl)
  Advance-Step {f} (open_file q conn c ps before after e h opens made) = inl (
      keeps (record f { content = [] }) before (record { query = q; conn = conn; phase = reading })
        (record { query = q; conn = conn; phase = writing c (record { offset = 0; left = ps }) })
        after e refl)
  Advance-Step {f} (flush q conn c n t ts before after e) = inl (
      keeps f before
        (record {
          query = q;
          conn = conn;
          phase = writing c (record { offset = n; left = t ∷ ts });
        })
        (record {
          query = q;
          conn = conn;
          phase = writing c (record { offset = n + length t; left = ts });
        })
        after e refl)
  Advance-Step {f} (close q conn c n before after e) = inl (
      keeps f before
        (record { query = q; conn = conn; phase = writing c (record { offset = n; left = [] }) })
        (record { query = q; conn = conn; phase = saving c }) after e refl)
  Advance-Step {f} (finish q conn c before after e) =
      let w : Work Q = record { query = q; conn = conn; phase = saving c } in
      inr (
        ends f (finished of q conn c f).pool before w after (
          respond-Step (of q).outside conn f.pool
            (after_save c.relay (record { pool = f.pool; db = f.db; file = some f.content })
              (save_data (of q).outside.database c.input c.relay f.db))
            (conns f.works) (conns before) (conns after) (split before w after e)))

  pub Advances-Reach :
      {Allowed : Floor Db Q → Type 0} {f g : Floor Db Q}
      → Advances of Allowed f g
      → Reach (world_of f) (world_of g)
  Advances-Reach here = Steps.here
  Advances-Reach {f = f} (next a st ok_here) = elim (Advance-Step st) [
    | inl same ↦ subst (Reach (world_of f)) (sym same) (Advances-Reach a)
    | inr s ↦ Steps.next (Advances-Reach a) s
  ]

-- Let queries overlap on a new pool of size `n`, each with its steps: it takes a connection, converts
-- its files, opens the configuration file, writes it piece by piece, closes it, and saves. In whatever
-- order they take their steps, also if these are restricted in any way, at most `2 n` queries are at
-- work at once, and no two hold one connection, nor does one hold a connection that is in the pool.
pub Advances-apart :
    {Db Q : Type 0} (of : Q → Query Db) {Allowed : Floor Db Q → Type 0} (n : ℕ) {f g : Floor Db Q}
    → f.pool ≡ new_pool n
    → f.works ≡ []
    → Advances of Allowed f g
    → (length g.works ≤ n + n) × Nodup (g.pool.pool ++ map (λ w. w.conn) g.works)
unfolding new_world
Advances-apart of n {f} {g} fresh idle a =
    let r : Reach (new_world n) (world_of of g) =
      subst (λ p. Reach (record { pool = p; lent = [] }) (world_of of g)) fresh
        (subst (λ l. Reach (record { pool = f.pool; lent = conns l }) (world_of of g)) idle
          (Advances-Reach of a)) in
    let (made, open_ones) = Reach-made n r in
    (
      omega (arith, made, open_ones, length-map (λ w. w.conn) g.works),
      (Reach-IsDistinct n r).distinct,
    )
