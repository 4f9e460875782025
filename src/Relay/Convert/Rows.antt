-- ===== src/Relay/Convert/Rows.antt =====
-- One round of the loop of `relayConvert`, from a row in which nothing but the chain is set.
use relay_dev.Common.{
  ℕ, suc, ◌≡◌, refl, true, false, List, [], ◌∷◌, some, arith, get_elem?, Result, ok, ◌>>=◌, ℤ, pos,
  if◌then◌else◌, is_pos,
}
use relay_dev.Text.{equal}
use relay_dev.Data.{RelayData, NetlistData, new_relay}
use relay_dev.Input.Netlist.{rows}
use relay_dev.Input.Models.{InputData}
use relay_dev.Relay.Pin.{convert_pin}
use relay_dev.Relay.Enum.{convert_enum}
use relay_dev.Relay.Port.{convert_port}
use relay_dev.Relay.Device.{convert_device}
use relay_dev.Relay.Normal.{convert_normal_state, relay_nc}
use relay_dev.Relay.Drive.{convert_drive_strength, config_out}
use relay_dev.Relay.Convert.{Junk, convert_relay}

-- A row with this chain number and the default times, in which nothing else is set.
unfoldable pub blank : ℤ → RelayData
blank chain = record new_relay { chain_number = chain }

-- The fields that no round of the loop assigns.
pub record Keeps (chain : ℤ) (temp : RelayData) : Type 0 where
  pub chain_number : temp.chain_number ≡ chain
  pub min_open_time : temp.min_open_time ≡ pos 0
  pub typ_open_time : temp.typ_open_time ≡ pos 60
  pub max_open_time : temp.max_open_time ≡ pos 200
  pub min_close_time : temp.min_close_time ≡ pos 0
  pub typ_close_time : temp.typ_close_time ≡ pos 100
  pub max_close_time : temp.max_close_time ≡ pos 500

pub blank-Keeps : (chain : ℤ) → Keeps chain (blank chain)
unfolding blank new_relay
blank-Keeps chain = record {
  chain_number = refl;
  min_open_time = refl;
  typ_open_time = refl;
  max_open_time = refl;
  min_close_time = refl;
  typ_close_time = refl;
  max_close_time = refl;
}

-- The number that the device numbers of a board begin behind.
abbrev pub modifier_of : ℤ → ℕ
modifier_of chain = if is_pos 1 chain then 18 else 21

-- The row of a relay: its name is the first name of the group, the other columns are conversions of
-- the name and of the group, and a normally closed relay has no drive strength of its own.
pub record IsRowOf (input : InputData) (chain : ℤ) (g : NetlistData) (r : RelayData) : Type 0 where
  pub named : get_elem? g.name 0 ≡ some r.relay_name
  pub pin : convert_pin r.relay_name ≡ ok r.pin
  pub enumeration : convert_enum r.relay_name ≡ ok r.enumeration
  pub port : convert_port (rows g) ≡ ok r.port_number
  pub state : r.normal_state ≡ convert_normal_state input.netlist_data input.model_data (rows g)
  pub closed : equal r.normal_state relay_nc ≡ true → r.drive_strength ≡ config_out
  pub open_drive :
      equal r.normal_state relay_nc ≡ false
      → r.drive_strength ≡ convert_drive_strength input.model_data (rows g)
  pub device :
      (junk : ℤ) × (r.device_number
        ≡ convert_device junk (modifier_of chain) input.io_data (rows g))
  pub kept : Keeps chain r

-- The relays one by one, each from a blank row; `n` counts the calls.
unfoldable pub convert_all :
    InputData → Junk → ℤ → ℕ → ℕ → List NetlistData → Result (List RelayData)
convert_all input junk chain modifier n [] = ok []
convert_all input junk chain modifier n (g ∷ gs) =
    convert_relay input (junk.device n) modifier g (blank chain) >>= λ r.
    convert_all input junk chain modifier (suc n) gs >>= λ rs. ok (r ∷ rs)

module _ (input : InputData) (junk : ℤ) (modifier : ℕ) (g : NetlistData) where
  -- What the row before has left in `temp` does not show in this one.
  pub convert_relay-blank :
      (chain : ℤ) (temp : RelayData)
      → Keeps chain temp
      → convert_relay input junk modifier g temp ≡ convert_relay input junk modifier g (blank chain)
  unfolding convert_relay blank new_relay
  convert_relay-blank chain temp k = simp (
    k.chain_number, k.min_open_time, k.typ_open_time, k.max_open_time, k.min_close_time,
    k.typ_close_time, k.max_close_time,
  )

  pub convert_relay-Keeps :
      (chain : ℤ) (r : RelayData)
      → convert_relay input junk modifier g (blank chain) ≡ ok r
      → Keeps chain r
  unfolding convert_relay blank new_relay
  convert_relay-Keeps chain r h = ground arith

  -- What a row says of its relay.
  pub convert_relay-IsRowOf :
      (chain : ℤ) (r : RelayData)
      → convert_relay input junk modifier g (blank chain) ≡ ok r
      → modifier ≡ modifier_of chain
      → IsRowOf input chain g r
  unfolding convert_relay blank new_relay
  convert_relay-IsRowOf chain r h same =
      let device : r.device_number
          ≡ convert_device junk (modifier_of chain) input.io_data (rows g) =
        rw (← same) (ground arith) in
      record {
        named = ground arith;
        pin = ground arith;
        enumeration = ground arith;
        port = ground arith;
        state = ground arith;
        closed = ground arith;
        open_drive = ground arith;
        device = (junk, device);
        kept = convert_relay-Keeps chain r h;
      }
