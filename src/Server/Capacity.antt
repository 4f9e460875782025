-- ===== src/Server/Capacity.antt =====
-- How many failing requests a server survives.
use relay_dev.Common.{
  ℕ, suc, ◌+◌, ◌-◌, ◌≤◌, ◌≡◌, refl, ap, ◌∙◌, Bool, List, [], ◌∷◌, arith, length, Result, ok, err,
  Stop,
}
use relay_dev.Text.{Bytes}
use relay_dev.Relay.Convert.{RelayState}
use relay_dev.Pool.{Pool, Got, got, thrown, waits, take_front, get_connection}
use relay_dev.Server.{query, waiting, Outside, Server, process, respond, handle_query}

-- The connections that the pool can still hand out, if none comes back.
unfoldable pub capacity : Pool → ℕ
capacity p = length p.pool + (p.pool_size - p.active_connections)

pub take_front-capacity :
    (idle : List ℕ) (connects : Bool) (p : Pool)
    → p.pool ≡ idle
    → (g : Got) → take_front idle connects p ≡ g
    → ((conn : ℕ) (q : Pool) → g ≡ got conn q → capacity p ≡ suc (capacity q))
      × ((q : Pool) → g ≡ thrown q → capacity p ≡ suc (capacity q))
      × (g ≡ waits → capacity p ≡ 0)
unfolding take_front capacity
take_front-capacity (c ∷ idle) connects p e g h =
    ((λ conn q f. ground (arith, ap length e)), (λ q f. ground arith), (λ f. ground arith))
take_front-capacity [] connects p e g h = (
  (λ conn q f. ground (arith, ap length e)),
  (λ q f. ground (arith, ap length e)),
  (λ f. ground (arith, ap length e)),
)

pub capacity-waits :
    (connects : Bool) (p : Pool) → capacity p ≡ 0 → get_connection connects p ≡ waits
unfolding get_connection
capacity-waits connects p none_left = go (take_front p.pool connects p) refl
  where
    go : (g : Got) → take_front p.pool connects p ≡ g → take_front p.pool connects p ≡ waits
    go (got conn q) h =
        absurd (omega (arith, (take_front-capacity p.pool connects p refl _ h).0 conn q refl))
    go (thrown q) h =
        absurd (omega (arith, (take_front-capacity p.pool connects p refl _ h).1 q refl))
    go waits h = h

-- The work of the query ends with an exception, or not at all, whatever the database.
abbrev pub Fails : {Db : Type 0} → Outside Db → Bytes → Bytes → Type 0
Fails {Db} o bom netlist = (s : Server Db) → (e : Stop) × ((process o bom netlist s).0 ≡ err e)

respond-pool :
    {Db : Type 0} (o : Outside Db) (conn : ℕ) (p : Pool) (m : Result RelayState × Server Db)
    (e : Stop)
    → m.0 ≡ err e
    → (respond o conn p m).1.pool ≡ p
unfolding respond
respond-pool o conn p (ok relay, s) e h = cc
respond-pool o conn p (err x, s) e h = refl

-- Such a query costs the pool a connection, until there is none left.
handle_query-capacity :
    {Db : Type 0} (o : Outside Db) (bom netlist : Bytes) (s : Server Db)
    → Fails o bom netlist
    → capacity (handle_query o (query bom netlist) s).1.pool ≡ capacity s.pool - 1
unfolding handle_query get_connection
handle_query-capacity {Db} o bom netlist s fails =
    go (take_front s.pool.pool o.connects s.pool) refl
  where
    stopped : (e : Stop) × ((process o bom netlist s).0 ≡ err e)
    stopped = fails s

    go :
        (g : Got)
        → take_front s.pool.pool o.connects s.pool ≡ g
        → capacity (handle_query o (query bom netlist) s).1.pool ≡ capacity s.pool - 1
    go (got conn q) h =
        let used = (take_front-capacity s.pool.pool o.connects s.pool refl _ h).0 conn q refl in
        rw (h, handle_query)
          (ap capacity (respond-pool o conn q (process o bom netlist s) stopped.0 stopped.1)
            ∙ omega (arith, used))
    go (thrown q) h =
        let used = (take_front-capacity s.pool.pool o.connects s.pool refl _ h).1 q refl in
        rw (h, handle_query) (omega (arith, used))
    go waits h =
        let used = (take_front-capacity s.pool.pool o.connects s.pool refl _ h).2 refl in
        rw (h, handle_query) (omega (arith, used))

-- Queries one after the other.
pub record Call (Db : Type 0) : Type 0 where
  pub outside : Outside Db
  pub bom_path : Bytes
  pub netlist_path : Bytes

pub serve : {Db : Type 0} → List (Call Db) → Server Db → Server Db
serve [] s = s
serve (c ∷ cs) s = serve cs (handle_query c.outside (query c.bom_path c.netlist_path) s).1

abbrev pub AllFail : {Db : Type 0} → List (Call Db) → Type 0
AllFail [] = Unit
AllFail (c ∷ cs) = Fails c.outside c.bom_path c.netlist_path × AllFail cs

serve-capacity :
    {Db : Type 0} (cs : List (Call Db)) (s : Server Db)
    → AllFail cs
    → capacity (serve cs s).pool ≡ capacity s.pool - length cs
unfolding serve
serve-capacity [] s f = omega arith
serve-capacity (c ∷ cs) s f =
    let rest =
      serve-capacity cs (handle_query c.outside (query c.bom_path c.netlist_path) s).1 f.1 in
    let once = handle_query-capacity c.outside c.bom_path c.netlist_path s f.0 in
    omega (arith, rest, once)

-- After as many queries as the pool can hand out connections, each of which ends with an
-- exception or not at all, every query waits for ever: it finds no connection, and leaves the
-- server as it is.
pub serve-waiting :
    {Db : Type 0} (cs : List (Call Db)) (s : Server Db)
    → AllFail cs
    → capacity s.pool ≤ length cs
    → (o : Outside Db) (bom netlist : Bytes)
    → handle_query o (query bom netlist) (serve cs s) ≡ (waiting, serve cs s)
unfolding handle_query
serve-waiting cs s f le o bom netlist = rw (
  capacity-waits o.connects (serve cs s).pool (omega (arith, serve-capacity cs s f)),
  handle_query,
)
