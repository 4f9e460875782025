-- ===== src/Input/Models.antt =====
-- Input::getRelayModels and Input::getInputData of Input.cpp.
pub mod Reading
use relay_dev.Common.{ℕ, List, [], ◌∷◌, ◌++◌, Result, ok, ◌>>=◌}
use relay_dev.Text.{Bytes, codes}
use relay_dev.Data.{BillData, IoData, NetlistData, ModelData}
use relay_dev.Input.Bill.{get_bill_data}
use relay_dev.Input.Netlist.{get_netlist_data}
use relay_dev.Input.Filter.{filter_netlist_data}
use relay_dev.Input.Chain.{get_device_order}

pub record InputData : Type 0 where
  pub netlist_name : Bytes
  pub bill_name : Bytes
  pub board_type : Bytes
  pub bill_data : List BillData
  pub io_data : List IoData
  pub netlist_data : List NetlistData
  pub relay_list : List NetlistData
  pub model_data : List ModelData

abbrev model : Bytes → Bytes → ModelData
model m d = record { relay_model = m; drive_strength = d }

abbrev pub relay_models : List ModelData
relay_models =
    model (codes "9901-05-20") (codes "CONFIG_LED_18p0_mA")
    ∷ model (codes "G3VM-101QR1") (codes "CONFIG_LED_10p5_mA")
    ∷ model (codes "G3VM-41QR10") (codes "CONFIG_LED_10p5_mA")
    ∷ model (codes "AQY225R3TY") (codes "CONFIG_LED_10p5_mA")
    ∷ model (codes "120-1-A-5/1") (codes "CONFIG_LED_21p0_mA")
    ∷ model (codes "50935") (codes "CONFIG_LED_21p0_mA")
    ∷ []

unfoldable pub get_relay_models : InputData → InputData
get_relay_models input = record input { model_data = input.model_data ++ relay_models }

-- `lines_of` gives the lines of a file, none if it cannot be opened. The fuel is that of the loop
-- over the daisy chain.
unfoldable pub get_input_data : ℕ → (Bytes → List Bytes) → InputData → Result InputData
unfolding get_relay_models
get_input_data fuel lines_of input = do
  let input1 = get_relay_models input
  bill_data ← get_bill_data (lines_of input1.bill_name) input1.bill_data
  let netlist_data = get_netlist_data (lines_of input1.netlist_name) input1.netlist_data
  relay_list ← filter_netlist_data netlist_data input1.relay_list
  io_data ← get_device_order fuel netlist_data input1.io_data
  ok (record input1 {
    bill_data = bill_data;
    netlist_data = netlist_data;
    relay_list = relay_list;
    io_data = io_data;
  })
