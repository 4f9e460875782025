-- ===== src/Legacy/Main.antt =====
-- main of relay.cpp, as it is built for release.
pub mod Agreement
use relay_dev.Common.{
  ℕ, Bool, ◌||◌, List, [], ◌∷◌, Option, if◌then◌else◌, Result, ok, err, Stop, ◌>>=◌,
}
use relay_dev.Text.{Bytes, codes, equal}
use relay_dev.Legacy.Bill.{get_bill_data}
use relay_dev.Legacy.Netlist.{get_netlist_data}
use relay_dev.Legacy.Chain.{get_device_order}
use relay_dev.Legacy.Convert.{InputData, relay_convert}
use relay_dev.Legacy.Csv.{write_csv}

-- How the program ends: with exit code 1 and a message, with 0 and what it has written, or not so.
pub data Exit : Type 0 where
  no_paths : Exit
  done : Option Bytes → Exit
  stopped : Stop → Exit

-- The two input paths and the output path, from `argv`. With more than three paths the output path is
-- the default again.
unfoldable pub paths_of : List Bytes → Bytes × Bytes × Bytes
paths_of (_ ∷ bom ∷ netlist ∷ []) = (bom, netlist, codes "Configuration.csv")
paths_of (_ ∷ bom ∷ netlist ∷ output ∷ []) = (bom, netlist, output)
paths_of (_ ∷ bom ∷ netlist ∷ output ∷ _ ∷ _) = (bom, netlist, codes "Configuration.csv")
paths_of _ = ([], [], codes "Configuration.csv")

-- `lines_of` gives the lines of a file, none if it cannot be opened; `file_opens` says whether the
-- output file can be.
unfoldable pub convert_files :
    ℕ → (Bytes → List Bytes) → Bool → Bytes → Bytes → Result (Option Bytes)
convert_files fuel lines_of file_opens bom_path netlist_path = do
  bill_data ← get_bill_data (lines_of bom_path) []
  reading ← get_netlist_data (lines_of netlist_path)
  io_data ← get_device_order fuel reading.netlist_data []
  let input : InputData = record {
    board_type = codes "Power";
    bill_data = bill_data;
    io_data = io_data;
    netlist_data = reading.netlist_data;
    relay_list = reading.relay_list;
    gnd_data = reading.gnd_data;
  }
  relay_data ← relay_convert input reading.relay_counter []
  write_csv file_opens reading.relay_counter relay_data

abbrev pub exit_of : Result (Option Bytes) → Exit
exit_of (ok content) = done content
exit_of (err e) = stopped e

unfoldable pub main : ℕ → (Bytes → List Bytes) → (Bytes → Bool) → List Bytes → Exit
unfolding convert_files paths_of
main fuel lines_of file_opens arguments =
    let (bom_path, netlist_path, output_name) = paths_of arguments in
    if equal bom_path [] || equal netlist_path []
    then no_paths
    else exit_of (convert_files fuel lines_of (file_opens output_name) bom_path netlist_path)
