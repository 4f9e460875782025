-- ===== src/Output/Save/Silent.antt =====
-- `saveData` logs what the database refuses, and goes on.
use relay_dev.Common.{◌≡◌, refl, ap, ◌∙◌, List, [], none, length, either_way}
use relay_dev.Input.Models.{InputData}
use relay_dev.Relay.Convert.{RelayState}
use relay_dev.Output.Save.{
  input_bom, input_netlist, output_config, Value, Database, Saved, then_block, save_netlist,
  save_relays, save_data,
}
use relay_dev.Output.Save.Statements.{numbered, Reads, run, save_bills-run, save_relays-run}

-- No exception leaves the block.
abbrev IsQuiet : {Db : Type 0} → Saved Db → Type 0
IsQuiet {Db} m = (db : Db) × (m ≡ (db, none))

then_block-IsQuiet :
    {Db : Type 0} (m : Saved Db) (next : Db → Saved Db)
    → IsQuiet m
    → ((db : Db) → IsQuiet (next db))
    → IsQuiet (then_block m next)
then_block-IsQuiet m next (db, e) h = rw e (h db)

-- If each part line has its values and there are as many relays as the amount says, `saveData` returns
-- with no exception, whichever statements the database refuses to prepare or to execute.
pub save_data-returns :
    {Db : Type 0} (database : Database Db) (input : InputData) (relay : RelayState)
    (values : List (List Value)) (db : Db)
    → Reads input.bill_data values
    → relay.relay_amount ≡ length relay.relay_data
    → (db' : Db) × (save_data database input relay db ≡ (db', none))
unfolding save_data
save_data-returns database input relay values db reads size =
    then_block-IsQuiet _ _
      (either_way IsQuiet (database.prepare input_bom db)
        (run database input_bom values db, save_bills-run database input.bill_data values db reads)
        (db, refl))
      (λ db1.
        then_block-IsQuiet _ _
          (either_way IsQuiet (database.prepare input_netlist db1)
            (save_netlist database input.netlist_data db1, refl) (db1, refl))
          (λ db2.
            either_way IsQuiet (database.prepare output_config db2)
              (
                run database output_config (numbered 0 relay.relay_data) db2,
                ap (λ k. save_relays database k 0 relay.relay_data db2) size
                    ∙ save_relays-run database [] relay.relay_data relay.relay_data 0 db2 refl refl,
              )
              (db2, refl)))
