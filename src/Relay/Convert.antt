-- ===== src/Relay/Convert.antt =====
-- Relay::relayConvert of Relay.cpp.
pub mod Rows
pub mod Relays
pub mod Kinds
pub mod Total
use relay_dev.Common.{
  ℕ, zero, suc, ◌+◌, Bool, List, [], ◌∷◌, ◌++◌, Option, none, some, if◌then◌else◌, length,
  get_elem?, Result, ok, defined, ◌>>=◌, ℤ, pos, is_pos,
}
use relay_dev.Text.{Bytes, equal}
use relay_dev.Data.{RelayData, NetlistData, new_relay}
use relay_dev.Input.Netlist.{rows}
use relay_dev.Input.Models.{InputData}
use relay_dev.Relay.Pin.{convert_pin}
use relay_dev.Relay.Enum.{convert_enum}
use relay_dev.Relay.Device.{convert_chain, convert_device}
use relay_dev.Relay.Port.{convert_port}
use relay_dev.Relay.Normal.{convert_normal_state, relay_nc}
use relay_dev.Relay.Drive.{convert_drive_strength, config_out}

-- What locals that are not assigned hold: in `convertChain`, and in the n-th call of `convertDevice`.
pub record Junk : Type 0 where
  pub chain : ℤ
  pub device : ℕ → ℤ

pub record RelayState : Type 0 where
  pub device_modifier : ℕ
  pub current_relay : ℕ
  pub relay_data : List RelayData
  pub relay_amount : ℕ

-- One round of the loop: every field but the chain number and the times is assigned anew.
unfoldable pub convert_relay : InputData → ℤ → ℕ → NetlistData → RelayData → Result RelayData
convert_relay input junk device_modifier g temp = do
  relay_name ← defined (get_elem? g.name 0)
  pin ← convert_pin relay_name
  enumeration ← convert_enum relay_name
  let device_number = convert_device junk device_modifier input.io_data (rows g)
  port_number ← convert_port (rows g)
  let normal_state = convert_normal_state input.netlist_data input.model_data (rows g)
  ok (record temp {
    pin = pin;
    enumeration = enumeration;
    device_number = device_number;
    port_number = port_number;
    normal_state = normal_state;
    relay_name = relay_name;
    drive_strength =
        if equal normal_state relay_nc
        then config_out
        else convert_drive_strength input.model_data (rows g);
  })

-- The loop, over the relays that are left.
unfoldable pub convert_relays :
    InputData → Junk → RelayData → List NetlistData → RelayState → Result RelayState
unfolding convert_relay
convert_relays input junk temp [] relay = ok relay
convert_relays input junk temp (g ∷ gs) relay =
    convert_relay input (junk.device relay.current_relay) relay.device_modifier g temp >>= λ temp'.
    convert_relays input junk temp' gs (record relay {
      relay_data = relay.relay_data ++ temp' ∷ [];
      current_relay = suc relay.current_relay;
    })

unfoldable pub relay_convert : InputData → Junk → RelayState → Result RelayState
unfolding convert_relays
relay_convert input junk relay =
    let precision = is_pos 1 (convert_chain junk.chain input.board_type) in
    convert_relays input junk
      (record new_relay { chain_number = if precision then pos 1 else pos 0 }) input.relay_list
      (record relay {
        relay_amount = length input.relay_list;
        device_modifier = if precision then 18 else 21;
        current_relay = 0;
      })
