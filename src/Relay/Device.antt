-- ===== src/Relay/Device.antt =====
-- Relay::convertChain and Relay::convertDevice of Relay.cpp. A local that is not assigned holds an
-- arbitrary number, `junk`.
pub mod Numbers
pub mod Places
use relay_dev.Common.{ℕ, ◌+◌, Bool, List, [], ◌∷◌, if◌then◌else◌, ℤ, pos}
use relay_dev.Text.{Bytes, codes, equal}
use relay_dev.Data.{IoData}
use relay_dev.Input.Netlist.{Row}
use relay_dev.Input.Filter.{is_expander}

unfoldable pub convert_chain : ℤ → Bytes → ℤ
convert_chain junk board_type =
    if equal board_type (codes "Power")
    then pos 0
    else if equal board_type (codes "Precision")
    then pos 1
    else junk

-- The loop over the IO expanders.
unfoldable pub find_device : ℤ → ℕ → Bytes → List IoData → ℤ
find_device junk device_modifier identifier [] = junk
find_device junk device_modifier identifier (io ∷ io_data) =
    if equal io.identifier identifier
    then pos (io.position + device_modifier)
    else find_device junk device_modifier identifier io_data

-- The loop over the lines of the relay, which ends at the first IO expander.
unfoldable pub convert_device : ℤ → ℕ → List IoData → List Row → ℤ
unfolding find_device
convert_device junk device_modifier io_data [] = junk
convert_device junk device_modifier io_data (r ∷ rs) =
    if is_expander r
    then find_device junk device_modifier r.identifier io_data
    else convert_device junk device_modifier io_data rs
