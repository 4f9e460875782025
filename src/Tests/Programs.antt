-- ===== src/Tests/Programs.antt =====
-- The console program and the service on the same board.
use relay_dev.Common.{◌≡◌, refl, inl, inr, All, true, List, [], map, length}
use relay_dev.Text
use relay_dev.Text.{codes, upper}
use relay_dev.Data.{RelayData}
use relay_dev.Input.Netlist
use relay_dev.Input.Netlist.{rows}
use relay_dev.Input.Filter
use relay_dev.Input.Chain
use relay_dev.Input.Chain.{find_din}
use relay_dev.Legacy.Chain.First.{StartsAlike}
use relay_dev.Relay.Device.Numbers.{expander_of}
use relay_dev.Legacy.Chain.{scan_flags, find_expander}
use relay_dev.Legacy.Convert.Agreement.{shared}
use relay_dev.Legacy.Csv.{write_csv}
use relay_dev.Legacy.Main.{convert_files}
use relay_dev.Legacy.Main.Agreement.{convert_files-agrees}
use relay_dev.Tests.Samples.{with_netlist}
use relay_dev.Tests.Conversions.{result, convert-result}

starts_alike : All StartsAlike result.input.netlist_data
unfolding find_din scan_flags find_expander Chain.is_din Chain.is_dout Filter.is_expander rows
    Netlist.zip_rows Text.equal
starts_alike = (
  inr (codes "U1", refl, refl, refl, refl),
  (inl (λ e. cc), (inl (λ e. cc), (inl (λ e. cc), tt))),
)

convert_files-agrees_example :
    (rs : List RelayData) × (map shared rs ≡ map shared result.relay.relay_data)
    × (convert_files with_netlist.fuel
          (λ path. map (map upper) (with_netlist.lines_of path))
          true
          (codes "bom")
          []
        ≡ write_csv true (length rs) rs)
unfolding expander_of Filter.is_expander rows Netlist.zip_rows Text.equal
convert_files-agrees_example =
    convert_files-agrees with_netlist true (codes "bom") [] result convert-result refl starts_alike
      ((codes "U1", refl, inl refl), tt)
