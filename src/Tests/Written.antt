-- ===== src/Tests/Written.antt =====
-- A query whose netlist has been written from three groups.
use relay_dev.Common.{◌≡◌, refl, List, [], ◌∷◌, map, All, ok, ℤ, inl}
use relay_dev.Text.{Bytes, codes, equal}
use relay_dev.Text
use relay_dev.Data.{NetlistData}
use relay_dev.Input.Netlist
use relay_dev.Input.Netlist.{rows}
use relay_dev.Input.Netlist.Columns.{write_row}
use relay_dev.Input.Netlist.Lines.{all_rows}
use relay_dev.Input.Netlist.Names.{Alternates, single, switch}
use relay_dev.Input.Netlist.RoundTrip.Written.{IsLine}
use relay_dev.Input.Filter.{expander_device, is_expander}
use relay_dev.Text.Number.{stoi}
use relay_dev.Relay.Device.Numbers.{expander_of}
use relay_dev.Relay.Port.{port_identifier}
use relay_dev.Server.Places.{convert-place}
use relay_dev.Input.Filter.Spec.{relay_groups}
use relay_dev.Input.Chain.{get_device_order}
use relay_dev.Relay.Convert.Relays.{board_chain, RowsOf}
use relay_dev.Server.Written.{convert-write}
use relay_dev.Tests.Samples.{row, with_netlist, input_group}
use relay_dev.Tests.Conversions.{result, relay_row, convert-result, relay_on_first, output_on_first}
use relay_dev.Tests.Netlists.{apart, line, aligned}

abbrev groups : List NetlistData
groups = input_group ∷ output_on_first ∷ relay_on_first ∷ []

groups-lines : with_netlist.lines_of [] ≡ map (write_row 0 0 0) (all_rows groups)
unfolding equal write_row all_rows rows Netlist.zip_rows
groups-lines = refl

groups-Alternates : Alternates (codes "SDI") groups
unfolding equal
groups-Alternates =
    switch (record { filled = λ e. cc; named = (refl, tt) })
      (apart (codes "SDI") (codes "SDO") refl)
      (switch (record { filled = λ e. cc; named = (refl, tt) })
        (apart (codes "SDO") (codes "K_REL_12") refl)
        (single (record { filled = λ e. cc; named = (refl, (refl, tt)) })))

groups-IsLine : All (λ g. All IsLine (rows g)) groups
unfolding rows Netlist.zip_rows Text.front Text.upper equal
groups-IsLine = (
  (
    line (row (codes "SDI") (codes "U1") (codes "33") expander_device) refl refl refl refl refl refl
        refl refl refl refl refl,
    tt,
  ),
  (
    (
      line (row (codes "SDO") (codes "U1") (codes "40") expander_device) refl refl refl refl refl
          refl refl refl refl refl refl,
      tt,
    ),
    (
      (
        line (row (codes "K_REL_12") (codes "K12") (codes "1") (codes "G3VM-101QR1")) refl refl refl
            refl refl refl refl refl refl refl refl,
        (
          line (row (codes "K_REL_12") (codes "U1") (codes "28") expander_device) refl refl refl
              refl refl refl refl refl refl refl refl,
          tt,
        ),
      ),
      tt,
    ),
  ),
)

convert-write_example :
    (relay_groups groups ≡ ok result.input.relay_list)
    × (get_device_order with_netlist.fuel groups [] ≡ ok result.input.io_data)
    × RowsOf result.input
        (board_chain result.input with_netlist.junk)
        result.input.relay_list
        result.relay.relay_data
convert-write_example =
    convert-write with_netlist (codes "bom") [] result 0 0 0 (codes "SDI") input_group
      (output_on_first ∷ relay_on_first ∷ []) groups-lines groups-Alternates
      (
        aligned input_group refl refl refl,
        (aligned output_on_first refl refl refl, (aligned relay_on_first refl refl refl, tt)),
      )
      groups-IsLine convert-result

convert-place_example :
    (codes "U1" ≡ codes "U1")
    × (pin : ℤ) × (stoi (port_identifier (rows relay_on_first)) ≡ ok pin)
    × (stoi (port_identifier (rows relay_on_first)) ≡ ok pin)
unfolding expander_of is_expander rows Netlist.zip_rows equal
convert-place_example =
    convert-place with_netlist (codes "bom") [] result 0 0 relay_on_first relay_on_first relay_row
      relay_row (codes "U1") (codes "U1") convert-result refl refl refl refl refl refl (inl refl)
      (inl refl) refl refl (λ e. cc)
