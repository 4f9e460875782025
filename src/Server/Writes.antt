-- ===== src/Server/Writes.antt =====
-- The configuration file behind `handleQuery` of main.cpp, whatever the query is answered.
use relay_dev.Common.{
  ℕ, ◌≡◌, refl, ap, subst, ◌⊎◌, inl, inr, false, List, Option, none, some, All, Result, ok, err,
  Stop, Bool-cases,
}
use relay_dev.Text.{Bytes}
use relay_dev.Text.Search.{Lacks}
use relay_dev.Data.{NetlistData}
use relay_dev.Output.Csv.{output_relay_data}
use relay_dev.Output.Save.{save_data}
use relay_dev.Pool.{Pool, Got, got, thrown, waits, get_connection}
use relay_dev.Server.{
  Request, invalid_json, missing_paths, query, Outside, Server, Converted, convert, write_file,
  after_save, process, respond, handle_query,
}
use relay_dev.Server.Rows.{IsConverted, convert-IsConverted}
use relay_dev.Server.File.{Says, convert-Says}

-- No line of the netlist that is asked for has a comma or a line feed in it.
abbrev pub IsFit : {Db : Type 0} → Outside Db → Request → Type 0
IsFit o (query bom netlist) =
    All (Lacks b',') (o.lines_of netlist) × All (Lacks b'\n') (o.lines_of netlist)
IsFit o invalid_json = Unit
IsFit o missing_paths = Unit

-- The file holds the rows to which the two files of the query are converted.
abbrev pub Writes : {Db : Type 0} → Outside Db → Request → Option Bytes → Type 0
Writes o (query bom netlist) new =
    (c : Converted) × (relays : List NetlistData) × IsConverted o bom netlist c relays
    × (content : Bytes) × (new ≡ some content)
    × Says content c.relay.relay_data
Writes o invalid_json new = ⊥
Writes o missing_paths new = ⊥

module _ {Db : Type 0} (o : Outside Db) (bom netlist : Bytes)
    (fit : IsFit o (query bom netlist)) where
  abbrev Kept : Option Bytes → Option Bytes → Type 0
  Kept old new = (new ≡ old) ⊎ Writes o (query bom netlist) new

  convert-Kept :
      (c : Converted) (old : Option Bytes)
      → convert o bom netlist ≡ ok c
      → Kept old (write_file c.content old)
  unfolding output_relay_data
  convert-Kept c old returned =
      let done = convert-IsConverted o bom netlist c returned in
      elim (Bool-cases o.file_opens) [
        | inl opens ↦
            let (content, same, says) =
              convert-Says o bom netlist c c.input.relay_list opens fit.0 fit.1 done in
            inr (c, c.input.relay_list, done, content, ap (λ w. write_file w old) same, says)
        | inr shut ↦
            let unread : output_relay_data false c.relay ≡ ok c.content =
              subst (λ b. output_relay_data b c.relay ≡ ok c.content) shut done.written in
            let nothing : c.content ≡ none = cc unread in inl (ap (λ w. write_file w old) nothing)
      ]

  after_save-Kept :
      (conn : ℕ) (p : Pool) (c : Converted) (s : Server Db) (old : Option Bytes)
      (m : Db × Option Stop)
      → Kept old s.file
      → Kept old (respond o conn p (after_save c.relay s m)).1.file
  unfolding respond
  after_save-Kept conn p c s old (db, none) h = h
  after_save-Kept conn p c s old (db, some e) h = h

  process-Kept :
      (conn : ℕ) (p : Pool) (s : Server Db)
      → Kept s.file (respond o conn p (process o bom netlist s)).1.file
  unfolding process
  process-Kept conn p s = go (convert o bom netlist) refl
    where
      go :
          (m : Result Converted)
          → convert o bom netlist ≡ m
          → Kept s.file (respond o conn p (process o bom netlist s)).1.file
      go (err e) h = rw (h, process) (inl (unfold respond in refl))
      go (ok c) h =
          rw (h, process)
            (after_save-Kept conn p c (record s { file = write_file c.content s.file }) s.file
              (save_data o.database c.input c.relay s.db) (convert-Kept c s.file h))

-- Whatever a query is answered, an error included: if no line of the netlist has a comma or a line
-- feed in it, the configuration file is as before, or it holds all the rows to which the two files of
-- the query are converted.
pub handle_query-Writes :
    {Db : Type 0} (o : Outside Db) (r : Request) (s : Server Db)
    → IsFit o r
    → ((handle_query o r s).1.file ≡ s.file) ⊎ Writes o r (handle_query o r s).1.file
unfolding handle_query
handle_query-Writes o invalid_json s fit = inl refl
handle_query-Writes o missing_paths s fit = inl refl
handle_query-Writes {Db} o (query bom netlist) s fit = go (get_connection o.connects s.pool) refl
  where
    go :
        (g : Got)
        → get_connection o.connects s.pool ≡ g
        → ((handle_query o (query bom netlist) s).1.file ≡ s.file)
          ⊎ Writes o (query bom netlist) (handle_query o (query bom netlist) s).1.file
    go (got conn p) e = rw (e, handle_query) (process-Kept o bom netlist fit conn p s)
    go (thrown p) e = rw (e, handle_query) (inl refl)
    go waits e = rw (e, handle_query) (inl refl)
