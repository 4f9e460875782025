-- ===== src/Output/Save/Statements.antt =====
-- The statements that `saveData` executes, block by block.
use relay_dev.Common.{
  ℕ, suc, ◌≡◌, refl, sym, ap, ◌∙◌, inl, inr, true, List, [], ◌∷◌, ◌++◌, append_assoc, map, none,
  some, arith, Option-cases, length, length-append, get_elem?, get_elem?-append, ok,
}
use mathlib.Core.List.{map-append}
use relay_dev.Data.{BillData, NetlistData, RelayData}
use relay_dev.Input.Netlist.{Row, rows}
use relay_dev.Input.Netlist.Lines.{all_rows}
use relay_dev.Input.Models.{InputData}
use relay_dev.Relay.Convert.{RelayState}
use relay_dev.Output.Save.{
  Query, input_bom, input_netlist, output_config, Value, Database, bill_values, netlist_values,
  relay_values, save_bills, save_rows, save_netlist, save_relays, save_data, then_groups,
}

-- The rows of the output table, numbered from `i`.
pub numbered : ℕ → List RelayData → List (List Value)
numbered i [] = []
numbered i (r ∷ rs) = relay_values i r ∷ numbered (suc i) rs

-- Each part line has its values: numbers for the item and the quantity, and an identifier.
pub data Reads : List BillData → List (List Value) → Type 0 where
  nil : Reads [] []
  cons :
      {b : BillData} {bs : List BillData} {v : List Value} {vs : List (List Value)}
      → bill_values b ≡ ok v
      → Reads bs vs
      → Reads (b ∷ bs) (v ∷ vs)

module _ {Db : Type 0} (database : Database Db) where
  -- The statements one after the other, until one fails.
  unfoldable pub run : Query → List (List Value) → Db → Db
  run q [] db = db
  run q (values ∷ more) db = elim (database.execute q values db) [
    | none ↦ db
    | some db' ↦ run q more db'
  ]

  pub save_bills-run :
      (bills : List BillData) (values : List (List Value)) (db : Db)
      → Reads bills values
      → save_bills database bills db ≡ (run input_bom values db, none)
  unfolding save_bills run
  save_bills-run bills values db nil = refl
  save_bills-run bills values db (cons {b} {bs} {v} {vs} here there) =
      rw (here, save_bills)
        (elim (Option-cases (database.execute input_bom v db)) [
          | inl failed ↦ rw (failed, run)
          | inr (db', done) ↦ rw (done, run) (save_bills-run bs vs db' there)
        ])

  -- The groups of the netlist, as one list of lines.
  save_rows-run :
      (rs : List Row) (rest : List (List Value)) (gs : List NetlistData) (db : Db)
      → ((db' : Db) → save_netlist database gs db' ≡ run input_netlist rest db')
      → then_groups (save_rows database rs db) (save_netlist database gs)
        ≡ run input_netlist (map netlist_values rs ++ rest) db
  unfolding save_rows run
  save_rows-run [] rest gs db h = h db
  save_rows-run (r ∷ rs) rest gs db h =
      elim (Option-cases (database.execute input_netlist (netlist_values r) db)) [
        | inl failed ↦ rw (failed, save_rows, run)
        | inr (db', done) ↦ rw (done, save_rows, run) (save_rows-run rs rest gs db' h)
      ]

  save_netlist-run :
      (gs : List NetlistData) (db : Db)
      → save_netlist database gs db ≡ run input_netlist (map netlist_values (all_rows gs)) db
  unfolding save_netlist all_rows run
  save_netlist-run [] db = refl
  save_netlist-run (g ∷ gs) db =
      rw (map-append netlist_values (rows g) (all_rows gs))
        (save_rows-run (rows g) (map netlist_values (all_rows gs)) gs db (save_netlist-run gs))

  pub save_relays-run :
      (done rs : List RelayData) (data_ : List RelayData) (i : ℕ) (db : Db)
      → data_ ≡ done ++ rs
      → i ≡ length done
      → save_relays database (length rs) i data_ db ≡ (run output_config (numbered i rs) db, none)
  unfolding save_relays run numbered
  save_relays-run done [] data_ i db e n = refl
  save_relays-run done (r ∷ rs) data_ i db e n =
      let found : get_elem? data_ i ≡ some r = rw (e, n) (get_elem?-append done r rs) in
      rw (found, save_relays)
        (elim (Option-cases (database.execute output_config (relay_values i r) db)) [
          | inl failed ↦ rw (failed, run)
          | inr (db', ok_here) ↦
              rw (ok_here, run)
                (save_relays-run (done ++ r ∷ []) rs data_ (suc i) db'
                  (e ∙ sym (append_assoc done (r ∷ []) rs))
                  (omega (arith, length-append done (r ∷ []))))
        ])

  -- With statements that can be prepared, part lines that have their values, and as many relays as
  -- the amount says, `saveData` ends with no exception and runs three blocks: the part lines, the
  -- lines of the netlist and the relays, numbered from 0. A block ends at its first statement that
  -- fails, and the next one goes on from there.
  pub save_data-run :
      (input : InputData) (relay : RelayState) (values : List (List Value)) (db : Db)
      → ((q : Query) (db' : Db) → database.prepare q db' ≡ true)
      → Reads input.bill_data values
      → relay.relay_amount ≡ length relay.relay_data
      → save_data database input relay db ≡ (
        run output_config (numbered 0 relay.relay_data) (
            run input_netlist
              (map netlist_values (all_rows input.netlist_data))
              (run input_bom values db)),
        none,
      )
  unfolding save_data
  save_data-run input relay values db prepared reads size =
      rw
        (
          prepared input_bom db,
          save_data,
          save_bills-run input.bill_data values db reads,
          prepared input_netlist (run input_bom values db),
          save_netlist-run input.netlist_data (run input_bom values db),
          prepared output_config (
              run input_netlist (map netlist_values (all_rows input.netlist_data))
                (run input_bom values db)),
        )
        (ap
            (λ k. save_relays database k 0 relay.relay_data (
              run input_netlist (map netlist_values (all_rows input.netlist_data))
                (run input_bom values db)))
            size
          ∙ save_relays-run [] relay.relay_data relay.relay_data 0 _ refl refl)
