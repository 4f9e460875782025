-- ===== src/Server/Places.antt =====
-- Where the rows of a query's configuration are on the board.
use relay_dev.Common.{
  ℕ, ◌≡◌, ◌≢◌, refl, sym, ap, ◌∙◌, [], some, get_elem?, ok, ℤ, pos, negsuc, >>=-eq-ok,
}
use relay_dev.Text.{Bytes}
use relay_dev.Text.Number.{stoi}
use relay_dev.Data.{RelayData, NetlistData}
use relay_dev.Input.Netlist.{rows}
use relay_dev.Input.Chain.Endless.{get_device_order-found}
use relay_dev.Relay.Device.Numbers.{expander_of, Listed}
use relay_dev.Relay.Device.Places.{convert_device-injective}
use relay_dev.Relay.Port.{port_identifier, port_of, convert_port, find_case}
use relay_dev.Relay.Port.Pins.{port_of-injective}
use relay_dev.Relay.Convert.Rows.{modifier_of}
use relay_dev.Relay.Convert.Relays.{board_chain}
use relay_dev.Server.{Outside, Converted, new_input, convert}
use relay_dev.Server.Rows.{convert-IsConverted}
use relay_dev.Server.Devices.{RowsOf-get_elem?}

port_of-negative : (k : ℕ) → port_of (negsuc k) ≡ []
unfolding port_of find_case
port_of-negative k = refl

same_pin : (y z : ℤ) → port_of y ≢ [] → port_of y ≡ port_of z → y ≡ z
same_pin (pos n) (pos m) ne e = ap pos (port_of-injective n m ne e)
same_pin (pos n) (negsuc m) ne e = absurd (ne (e ∙ port_of-negative m))
same_pin (negsuc n) z ne e = absurd (ne (port_of-negative n))

-- Let the files of a query be converted, and let the expanders of two relays be in the daisy chain. If
-- their rows have the same device number and the same port, which is not empty, then the two relays are
-- on the same pin of the same expander.
pub convert-place :
    {Db : Type 0} (o : Outside Db) (bom netlist : Bytes) (c : Converted) (i j : ℕ)
    (g h : NetlistData) (r q : RelayData) (a b : Bytes)
    → convert o bom netlist ≡ ok c
    → get_elem? c.input.relay_list i ≡ some g
    → get_elem? c.input.relay_list j ≡ some h
    → get_elem? c.relay.relay_data i ≡ some r
    → get_elem? c.relay.relay_data j ≡ some q
    → expander_of (rows g) ≡ some a
    → expander_of (rows h) ≡ some b
    → Listed a c.input.io_data
    → Listed b c.input.io_data
    → r.device_number ≡ q.device_number
    → r.port_number ≡ q.port_number
    → r.port_number ≢ []
    → (a ≡ b)
      × (pin : ℤ) × (stoi (port_identifier (rows g)) ≡ ok pin)
      × (stoi (port_identifier (rows h)) ≡ ok pin)
unfolding new_input convert_port
convert-place o bom netlist c i j g h r q a b done gi hj ri qj ga hb la lb devices ports filled =
    let d = convert-IsConverted o bom netlist c done in
    let row = RowsOf-get_elem? c.input.relay_list c.relay.relay_data i g r d.each gi ri in
    let row' = RowsOf-get_elem? c.input.relay_list c.relay.relay_data j h q d.each hj qj in
    let (first, _, (n, last, chain, _)) =
      get_device_order-found o.fuel c.input.netlist_data c.input.io_data d.read.devices in
    let (junk, at) = row.device in
    let (junk', at') = row'.device in
    let (y, pin, port) =
      >>=-eq-ok (stoi (port_identifier (rows g))) (λ z. ok (port_of z)) row.port in
    let (z, pin', port') =
      >>=-eq-ok (stoi (port_identifier (rows h))) (λ z. ok (port_of z)) row'.port in
    let p : port_of y ≡ r.port_number = cc port in
    let p' : port_of z ≡ q.port_number = cc port' in
    let one = same_pin y z (λ e. filled (sym p ∙ e)) (p ∙ ports ∙ sym p') in
    (
      convert_device-injective junk junk' (modifier_of (board_chain c.input o.junk)) c.input.io_data
          (rows g) (rows h) a b chain ga hb la lb (sym at ∙ devices ∙ at'),
      y,
      pin,
      pin' ∙ ap ok (sym one),
    )
