-- ===== src/Relay/Drive.antt =====
-- Relay::convertDriveStrength of Relay.cpp.
pub mod Models
use relay_dev.Common.{Bool, true, false, not, List, [], ◌∷◌, if◌then◌else◌}
use relay_dev.Text.{Bytes, codes, equal, contains}
use relay_dev.Data.{ModelData}
use relay_dev.Input.Netlist.{Row}

abbrev pub config_out : Bytes
config_out = codes "CONFIG_OUT"

-- The loop over the models: the first one that the device names sets the strength.
unfoldable pub match_models : Bytes → List ModelData → Bytes → Bytes
match_models device [] drive_strength = drive_strength
match_models device (m ∷ model_data) drive_strength =
    if contains device m.relay_model
    then m.drive_strength
    else match_models device model_data drive_strength

-- The loop over the lines, until the strength is no longer the default.
unfoldable pub scan_devices : List ModelData → List Row → Bytes → Bytes
unfolding match_models
scan_devices model_data [] drive_strength = drive_strength
scan_devices model_data (r ∷ rs) drive_strength =
    let drive_strength' = match_models r.device model_data drive_strength in
    let rest = scan_devices model_data rs drive_strength' in
    if not (equal drive_strength' config_out) then drive_strength' else rest

unfoldable pub convert_drive_strength : List ModelData → List Row → Bytes
unfolding scan_devices
convert_drive_strength model_data group = scan_devices model_data group config_out
