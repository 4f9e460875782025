-- ===== src/Server/Phases.antt =====
-- The queries of main.cpp that overlap, each taken apart: between its calls of the pool `handleQuery`
-- reads and converts, writes the configuration file piece by piece, and saves to the database.
pub mod Writing
pub mod Loans
use relay_dev.Common.{
  ℕ, ◌+◌, ◌≤◌, ◌≡◌, Bool, true, false, List, [], ◌∷◌, ◌++◌, some, length, Result, ok, err, Stop,
}
use relay_dev.Text.{Bytes}
use relay_dev.Pool.{Pool, got, thrown, get_connection}
use relay_dev.Relay.Convert.{RelayState}
use relay_dev.Output.Save.{save_data}
use relay_dev.Output.Csv.Stream.{pieces, overwrite, Stream, Disk}
use relay_dev.Server.{Outside, Server, Converted, convert, after_save, respond}

-- How far a query has come that has its connection.
pub data Phase : Type 0 where
  reading : Phase
  writing : Converted → Stream → Phase
  saving : Converted → Phase

-- What a query asks for, and what its handler meets.
pub record Query (Db : Type 0) : Type 0 where
  pub outside : Outside Db
  pub bom_path : Bytes
  pub netlist_path : Bytes

-- The queries that can come are the values of `Q`.
pub record Work (Q : Type 0) : Type 0 where
  pub query : Q
  pub conn : ℕ
  pub phase : Phase

-- The queries at work, and the content of Configuration.csv, which is empty as long as there is none.
pub record Floor (Db Q : Type 0) : Type 0 where
  pub pool : Pool
  pub db : Db
  pub content : Bytes
  pub works : List (Work Q)

-- The streams that have the file open.
abbrev pub stream_of : {Q : Type 0} → Work Q → List Stream
stream_of w = elim w.phase [ reading ↦ [] | writing c s ↦ s ∷ [] | saving c ↦ [] ]

abbrev pub streams_of : {Q : Type 0} → List (Work Q) → List Stream
streams_of [] = []
streams_of (w ∷ ws) = stream_of w ++ streams_of ws

module _ {Db Q : Type 0} (of : Q → Query Db) where
  abbrev pub converts : Q → Result Converted
  converts q = convert (of q).outside (of q).bom_path (of q).netlist_path

  -- What is done behind the writing of the file: the statements, and the response.
  abbrev pub finished : Q → ℕ → Converted → Floor Db Q → Server Db
  finished q conn c f =
      (respond (of q).outside conn f.pool (
        after_save c.relay (record { pool = f.pool; db = f.db; file = some f.content })
          (save_data (of q).outside.database c.input c.relay f.db))).1

  pub data Advance : Floor Db Q → Floor Db Q → Type 0 where
    arrive :
        {f : Floor Db Q} {p : Pool} {conn : ℕ} (q : Q)
        → get_connection (of q).outside.connects f.pool ≡ got conn p
        → Advance f (record f {
          pool = p;
          works = record { query = q; conn = conn; phase = reading } ∷ f.works;
        })
    refuse :
        {f : Floor Db Q} {p : Pool} (q : Q)
        → get_connection (of q).outside.connects f.pool ≡ thrown p
        → Advance f (record f { pool = p })
    fail :
        {f : Floor Db Q} (q : Q) (conn : ℕ) (e : Stop) (before after : List (Work Q))
        → f.works ≡ before ++ record { query = q; conn = conn; phase = reading } ∷ after
        → converts q ≡ err e
        → Advance f (record f { works = before ++ after })
    not_opened :
        {f : Floor Db Q} (q : Q) (conn : ℕ) (c : Converted) (before after : List (Work Q))
        → f.works ≡ before ++ record { query = q; conn = conn; phase = reading } ∷ after
        → converts q ≡ ok c
        → (of q).outside.file_opens ≡ false
        → Advance f (record f {
          works = before ++ record { query = q; conn = conn; phase = saving c } ∷ after;
        })
    open_file :
        {f : Floor Db Q} (q : Q) (conn : ℕ) (c : Converted) (ps : List Bytes)
        (before after : List (Work Q))
        → f.works ≡ before ++ record { query = q; conn = conn; phase = reading } ∷ after
        → converts q ≡ ok c
        → (of q).outside.file_opens ≡ true
        → pieces c.relay.relay_amount 0 c.relay ≡ ok ps
        → Advance f (record f {
          content = [];
          works =
              before
              ++ record {
                query = q;
                conn = conn;
                phase = writing c (record { offset = 0; left = ps });
              }
                ∷ after;
        })
    flush :
        {f : Floor Db Q} (q : Q) (conn : ℕ) (c : Converted) (n : ℕ) (t : Bytes) (ts : List Bytes)
        (before after : List (Work Q))
        → f.works
          ≡ before
            ++ record {
              query = q;
              conn = conn;
              phase = writing c (record { offset = n; left = t ∷ ts });
            }
              ∷ after
        → Advance f (record f {
          content = overwrite n t f.content;
          works =
              before
              ++ record {
                query = q;
                conn = conn;
                phase = writing c (record { offset = n + length t; left = ts });
              }
                ∷ after;
        })
    close :
        {f : Floor Db Q} (q : Q) (conn : ℕ) (c : Converted) (n : ℕ) (before after : List (Work Q))
        → f.works
          ≡ before
            ++ record {
              query = q;
              conn = conn;
              phase = writing c (record { offset = n; left = [] });
            }
              ∷ after
        → Advance f (record f {
          works = before ++ record { query = q; conn = conn; phase = saving c } ∷ after;
        })
    finish :
        {f : Floor Db Q} (q : Q) (conn : ℕ) (c : Converted) (before after : List (Work Q))
        → f.works ≡ before ++ record { query = q; conn = conn; phase = saving c } ∷ after
        → Advance f (record f {
          pool = (finished q conn c f).pool;
          db = (finished q conn c f).db;
          works = before ++ after;
        })

  -- What is allowed of the floor is so after each step.
  pub data Advances (Allowed : Floor Db Q → Type 0) (f : Floor Db Q) : Floor Db Q → Type 0 where
    here : Advances Allowed f f
    next :
        {g h : Floor Db Q} → Advances Allowed f g → Advance g h → Allowed h → Advances Allowed f h

-- No two queries have the file open.
abbrev pub OneWriter : {Db Q : Type 0} → Floor Db Q → Type 0
OneWriter f = length (streams_of f.works) ≤ 1
