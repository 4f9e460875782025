-- ===== src/Server/Devices.antt =====
-- The device numbers of a query's rows.
use relay_dev.Common.{
  ℕ, zero, suc, ◌+◌, ◌<◌, ◌≡◌, refl, subst, ◌∙◌, List, [], ◌∷◌, some, length, get_elem?, ok, ℤ, pos,
  ap, is_pos, if◌then◌else◌,
}
use relay_dev.Text.{Bytes, equal}
use relay_dev.Data.{IoData, RelayData, NetlistData}
use relay_dev.Input.Netlist.{rows}
use relay_dev.Input.Models.{InputData}
use relay_dev.Input.Chain.Endless.{get_device_order-found}
use relay_dev.Relay.Device.{convert_chain}
use relay_dev.Relay.Device.Numbers.{expander_of, Listed}
use relay_dev.Relay.Device.Places.{convert_device-get_elem?}
use relay_dev.Relay.Convert.Rows.{IsRowOf, modifier_of}
use relay_dev.Relay.Convert.Relays.{RowsOf, cons, board_chain}
use relay_dev.Server.{Outside, Converted, new_input, convert}
use relay_dev.Server.Rows.{convert-IsConverted}

-- The row of the i-th relay.
pub RowsOf-get_elem? :
    {input : InputData} {chain : ℤ} (gs : List NetlistData) (rs : List RelayData) (i : ℕ)
    (g : NetlistData) (r : RelayData)
    → RowsOf input chain gs rs
    → get_elem? gs i ≡ some g
    → get_elem? rs i ≡ some r
    → IsRowOf input chain g r
RowsOf-get_elem? [] rs i g r h e f = cc
RowsOf-get_elem? (x ∷ gs) [] i g r h e f = cc
RowsOf-get_elem? {input} {chain} (x ∷ gs) (y ∷ rs) zero g r (cons row rest) e f =
    let same : x ≡ g = cc e in
    let same' : y ≡ r = cc f in
    subst (λ a. IsRowOf input chain a r) same (subst (IsRowOf input chain x) same' row)
RowsOf-get_elem? (x ∷ gs) (y ∷ rs) (suc i) g r (cons row rest) e f =
    RowsOf-get_elem? gs rs i g r rest e f

-- If the files of a query are converted, and a relay's expander is in the daisy chain, the device
-- number of its row is a place in the chain, counted from 1, at which the expander stands, plus 18 on
-- a row with chain number 1 and 21 on another. Nothing that `convertDevice` leaves unassigned has a part in it,
-- but the chain number is 1 if the unassigned local of `convertChain` holds 1, and 0 otherwise.
pub convert-device :
    {Db : Type 0} (o : Outside Db) (bom netlist : Bytes) (c : Converted) (i : ℕ) (g : NetlistData)
    (r : RelayData) (a : Bytes)
    → convert o bom netlist ≡ ok c
    → get_elem? c.input.relay_list i ≡ some g
    → get_elem? c.relay.relay_data i ≡ some r
    → expander_of (rows g) ≡ some a
    → Listed a c.input.io_data
    → (k : ℕ) × (io : IoData) × (k < length c.input.io_data)
      × (get_elem? c.input.io_data k ≡ some io)
      × (io.identifier ≡ a)
      × (r.device_number ≡ pos (1 + k + modifier_of r.chain_number))
      × (r.chain_number ≡ (if is_pos 1 o.junk.chain then pos 1 else pos 0))
unfolding new_input
convert-device o bom netlist c i g r a h e f x l =
    let done = convert-IsConverted o bom netlist c h in
    let row = RowsOf-get_elem? c.input.relay_list c.relay.relay_data i g r done.each e f in
    let (first, _, (n, b, chain, _)) =
      get_device_order-found o.fuel c.input.netlist_data c.input.io_data done.read.devices in
    let (junk, number) = row.device in
    let (k, io, low, at, name, device) =
      convert_device-get_elem? junk (modifier_of (board_chain c.input o.junk)) c.input.io_data
        (rows g) a chain x l in
    let chain_number = row.kept.chain_number in
    let unset : convert_chain o.junk.chain c.input.board_type ≡ o.junk.chain =
      rw done.read.board (unfold convert_chain equal in refl) in
    (
      k,
      io,
      low,
      at,
      name,
      rw chain_number (number ∙ device),
      chain_number ∙ ap (λ z. if is_pos 1 z then pos 1 else pos 0) unset,
    )
