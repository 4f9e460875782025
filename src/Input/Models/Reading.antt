-- ===== src/Input/Models/Reading.antt =====
-- What an Input holds that `getInputData` has filled.
use relay_dev.Common.{ℕ, ◌≡◌, refl, subst, List, ◌++◌, ok}
use relay_dev.Common.{>>=-eq-ok}
use relay_dev.Text.{Bytes}
use relay_dev.Input.Bill.{get_bill_data}
use relay_dev.Input.Netlist.{get_netlist_data}
use relay_dev.Input.Filter.{filter_netlist_data}
use relay_dev.Input.Chain.{get_device_order}
use relay_dev.Input.Models.{InputData, relay_models, get_relay_models, get_input_data}

-- Each vector is what the function for it makes of the two files.
pub record IsRead (fuel : ℕ) (lines_of : Bytes → List Bytes) (input done : InputData) : Type 0 where
  pub bills : get_bill_data (lines_of input.bill_name) input.bill_data ≡ ok done.bill_data
  pub netlist :
      done.netlist_data ≡ get_netlist_data (lines_of input.netlist_name) input.netlist_data
  pub relays : filter_netlist_data done.netlist_data input.relay_list ≡ ok done.relay_list
  pub devices : get_device_order fuel done.netlist_data input.io_data ≡ ok done.io_data
  pub board : done.board_type ≡ input.board_type
  pub models : done.model_data ≡ input.model_data ++ relay_models

pub get_input_data-IsRead :
    (fuel : ℕ) (lines_of : Bytes → List Bytes) (input done : InputData)
    → get_input_data fuel lines_of input ≡ ok done
    → IsRead fuel lines_of input done
unfolding get_input_data get_relay_models
get_input_data-IsRead fuel lines_of input done returned =
    let (bills, b, rest) =
      >>=-eq-ok (get_bill_data (lines_of input.bill_name) input.bill_data) _ returned in
    let (relays, r, rest') =
      >>=-eq-ok
        (filter_netlist_data (get_netlist_data (lines_of input.netlist_name) input.netlist_data)
          input.relay_list)
        _ rest in
    let (devices, d, last) =
      >>=-eq-ok
        (get_device_order fuel (get_netlist_data (lines_of input.netlist_name) input.netlist_data)
          input.io_data)
        _ rest' in
    let read : InputData = record input {
      bill_data = bills;
      netlist_data = get_netlist_data (lines_of input.netlist_name) input.netlist_data;
      relay_list = relays;
      io_data = devices;
      model_data = input.model_data ++ relay_models;
    } in
    let same : read ≡ done = cc last in
    subst (IsRead fuel lines_of input) same
      (record { bills = b; netlist = refl; relays = r; devices = d; board = refl; models = refl })
