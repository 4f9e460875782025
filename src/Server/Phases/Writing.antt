-- ===== src/Server/Phases/Writing.antt =====
-- What queries that overlap leave in the configuration file, if one at a time has it open.
use relay_dev.Common.{
  ◌+◌, ◌≡◌, refl, sym, ap, subst, ◌∙◌, ◌⊎◌, inl, inr, true, List, [], ◌∷◌, ◌++◌, append_assoc, some,
  length, ok,
}
use relay_dev.Text.{Bytes}
use relay_dev.Relay.Convert.{RelayState}
use relay_dev.Output.Csv.{output_relay_data}
use relay_dev.Output.Csv.Stream
use relay_dev.Output.Csv.Stream.{Stream, overwrite, Disk, Put}
use relay_dev.Output.Csv.Stream.Alone
use relay_dev.Output.Csv.Stream.Alone.{Calm, IsText, Calm-IsText}
use relay_dev.Server.{query, Converted, convert}
use relay_dev.Server.Rows.{convert-IsConverted}
use relay_dev.Server.File.{convert-Says}
use relay_dev.Server.Writes.{IsFit, Writes}
use relay_dev.Server.Phases.{
  reading, writing, saving, Query, Work, Floor, Advance, arrive, refuse, fail, not_opened,
  open_file, flush, close, finish, stream_of, streams_of, Advances, OneWriter, here, next,
}

module _ {Q : Type 0} where
  streams-append : (xs ys : List (Work Q)) → streams_of (xs ++ ys) ≡ streams_of xs ++ streams_of ys
  streams-append [] ys = refl
  streams-append (x ∷ xs) ys =
      ap (λ l. stream_of x ++ l) (streams-append xs ys)
      ∙ sym (append_assoc (stream_of x) (streams_of xs) (streams_of ys))

  -- The works have the streams of those around one, and its own.
  split :
      {works : List (Work Q)} (before : List (Work Q)) (w : Work Q) (after : List (Work Q))
      → works ≡ before ++ w ∷ after
      → streams_of works ≡ streams_of before ++ (stream_of w ++ streams_of after)
  split before w after e = ap streams_of e ∙ streams-append before (w ∷ after)

module _ {Db Q : Type 0} (of : Q → Query Db) where
  -- The relays that come from a query that opens the file.
  abbrev From : RelayState → Type 0
  From relay =
      (q : Q) × (c : Converted) × (convert (of q).outside (of q).bom_path (of q).netlist_path
        ≡ ok c)
      × ((of q).outside.file_opens ≡ true)
      × (c.relay ≡ relay)

  abbrev disk_of : Floor Db Q → Disk
  disk_of f = record { content = f.content; streams = streams_of f.works }

  -- A work without a stream makes room for one without a stream, or for none.
  keeps :
      (f : Floor Db Q) (before : List (Work Q)) (w w' : Work Q) (after : List (Work Q))
      → f.works ≡ before ++ w ∷ after
      → stream_of w ≡ stream_of w'
      → disk_of (record f { works = before ++ w' ∷ after }) ≡ disk_of f
  keeps f before w w' after e same =
      ap (λ l. record { content = f.content; streams = l })
        (split before w' after refl
          ∙ ap (λ l. streams_of before ++ (l ++ streams_of after)) (sym same)
          ∙ sym (split before w after e))

  leaves :
      (f : Floor Db Q) (before : List (Work Q)) (w : Work Q) (after : List (Work Q))
      → f.works ≡ before ++ w ∷ after
      → stream_of w ≡ []
      → disk_of (record f { works = before ++ after }) ≡ disk_of f
  leaves f before w after e same =
      ap (λ l. record { content = f.content; streams = l })
        (streams-append before after
          ∙ ap (λ l. streams_of before ++ (l ++ streams_of after)) (sym same)
          ∙ sym (split before w after e))

  -- What a step does to the file.
  puts :
      (f : Floor Db Q) (content : Bytes) (before : List (Work Q)) (w : Work Q)
      (after : List (Work Q))
      → Put From (disk_of f) (record {
        content = content;
        streams = streams_of before ++ (stream_of w ++ streams_of after);
      })
      → Put From
          (disk_of f)
          (record { content = content; streams = streams_of (before ++ w ∷ after) })
  puts f content before w after p =
      subst (λ l. Put From (disk_of f) (record { content = content; streams = l }))
        (sym (split before w after refl)) p

  Advance-Put :
      {f g : Floor Db Q}
      → Advance of f g
      → (disk_of g ≡ disk_of f) ⊎ Put From (disk_of f) (disk_of g)
  Advance-Put (arrive q e) = inl refl
  Advance-Put (refuse q e) = inl refl
  Advance-Put {f} (fail q conn x before after e h) =
      inl (leaves f before (record { query = q; conn = conn; phase = reading }) after e refl)
  Advance-Put {f} (not_opened q conn c before after e h shut) = inl (
      keeps f before (record { query = q; conn = conn; phase = reading })
        (record { query = q; conn = conn; phase = saving c }) after e refl)
  Advance-Put {f} (open_file q conn c ps before after e h opens made) = inr (
      puts f [] before
        (record { query = q; conn = conn; phase = writing c (record { offset = 0; left = ps }) })
        after
        (Stream.open_file c.relay ps (streams_of before) (streams_of after) (q, c, h, opens, refl)
          made (split before (record { query = q; conn = conn; phase = reading }) after e)))
  Advance-Put {f} (flush q conn c n t ts before after e) = inr (
      puts f (overwrite n t f.content) before
        (record {
          query = q;
          conn = conn;
          phase = writing c (record { offset = n + length t; left = ts });
        })
        after
        (Stream.flush n t ts (streams_of before) (streams_of after) (
          split before
            (record {
              query = q;
              conn = conn;
              phase = writing c (record { offset = n; left = t ∷ ts });
            })
            after e)))
  Advance-Put {f} (close q conn c n before after e) = inr (
      puts f f.content before (record { query = q; conn = conn; phase = saving c }) after
        (Stream.close n (streams_of before) (streams_of after) (
          split before
            (record {
              query = q;
              conn = conn;
              phase = writing c (record { offset = n; left = [] });
            })
            after e)))
  Advance-Put {f} (finish q conn c before after e) =
      inl (leaves f before (record { query = q; conn = conn; phase = saving c }) after e refl)

  Advances-Calm : {f g : Floor Db Q} → Advances of OneWriter f g → Calm From (disk_of f) (disk_of g)
  Advances-Calm here = Alone.here
  Advances-Calm {f} (next a st le) = elim (Advance-Put st) [
    | inl same ↦ subst (Calm From (disk_of f)) (sym same) (Advances-Calm a)
    | inr p ↦ Alone.next (Advances-Calm a) p le
  ]

-- Let queries overlap, each with its steps: it takes a connection, converts its files, opens the
-- configuration file, writes it piece by piece, closes it, and saves. If no two have the file open at
-- once, and no netlist has a comma or a line feed in a line, then the file, whenever no query has it
-- open, is as before or holds all the rows to which one of the queries is converted.
pub Advances-file :
    {Db Q : Type 0} (of : Q → Query Db) (f g : Floor Db Q)
    → f.works ≡ []
    → ((q : Q) → IsFit (of q).outside (query (of q).bom_path (of q).netlist_path))
    → Advances of OneWriter f g
    → streams_of g.works ≡ []
    → (g.content ≡ f.content)
      ⊎ ((q : Q) × Writes
            (of q).outside
            (query (of q).bom_path (of q).netlist_path)
            (some g.content))
Advances-file {Db} {Q} of f g fresh fit a shut = go (
    Calm-IsText (From of) f.content
      (subst
        (λ l.
          Calm (From of) (record { content = f.content; streams = streams_of l }) (disk_of of g))
        fresh (Advances-Calm of a))
      shut)
  where
    go :
        (g.content ≡ f.content) ⊎ IsText (From of) g.content
        → (g.content ≡ f.content)
          ⊎ ((q : Q) × Writes
                (of q).outside
                (query (of q).bom_path (of q).netlist_path)
                (some g.content))
    go (inl same) = inl same
    go (inr (relay, (q, c, h, opens, same), text)) =
        let o = (of q).outside in
        let done = convert-IsConverted o (of q).bom_path (of q).netlist_path c h in
        let (content, stored, says) =
          convert-Says o (of q).bom_path (of q).netlist_path c c.input.relay_list opens (fit q).0
            (fit q).1 done in
        let written : output_relay_data true relay ≡ ok c.content =
          subst (λ r. output_relay_data true r ≡ ok c.content) same
            (subst (λ b. output_relay_data b c.relay ≡ ok c.content) opens done.written) in
        let equal_content : some g.content ≡ some content = cc (text, written, stored) in
        inr (q, (c, c.input.relay_list, done, content, equal_content, says))
