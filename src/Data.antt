-- ===== src/Data.antt =====
-- The structs of CIBData.h. A vector is a list, and a new struct has empty texts and zeros.
use relay_dev.Common.{ℕ, List, [], ℤ, pos}
use relay_dev.Text.{Bytes}

pub record RelayData : Type 0 where
  pub pin : Bytes
  pub enumeration : Bytes
  pub chain_number : ℤ
  pub device_number : ℤ
  pub port_number : Bytes
  pub drive_strength : Bytes
  pub normal_state : Bytes
  pub min_open_time : ℤ
  pub typ_open_time : ℤ
  pub max_open_time : ℤ
  pub min_close_time : ℤ
  pub typ_close_time : ℤ
  pub max_close_time : ℤ
  pub relay_name : Bytes

-- The defaults of the declaration.
unfoldable pub new_relay : RelayData
new_relay = record {
  pin = [];
  enumeration = [];
  chain_number = pos 0;
  device_number = pos 0;
  port_number = [];
  drive_strength = [];
  normal_state = [];
  min_open_time = pos 0;
  typ_open_time = pos 60;
  max_open_time = pos 200;
  min_close_time = pos 0;
  typ_close_time = pos 100;
  max_close_time = pos 500;
  relay_name = [];
}

pub record NetlistData : Type 0 where
  pub name : List Bytes
  pub identifier : List Bytes
  pub connection : List Bytes
  pub device : List Bytes

abbrev pub new_netlist : NetlistData
new_netlist = record { name = []; identifier = []; connection = []; device = [] }

pub record BillData : Type 0 where
  pub item : Bytes
  pub quantity : Bytes
  pub manufacturer : Bytes
  pub part_number : Bytes
  pub identifier : List Bytes
  pub description : Bytes
  pub dni : Bytes
  pub status : Bytes
  pub max_temp : Bytes

abbrev pub new_bill : BillData
new_bill = record {
  item = [];
  quantity = [];
  manufacturer = [];
  part_number = [];
  identifier = [];
  description = [];
  dni = [];
  status = [];
  max_temp = [];
}

pub record IoData : Type 0 where
  pub identifier : Bytes
  pub position : ℕ

abbrev pub new_io : IoData
new_io = record { identifier = []; position = 0 }

pub record ModelData : Type 0 where
  pub relay_model : Bytes
  pub drive_strength : Bytes
