-- ===== src/Input/Filter/Empty.antt =====
-- The empty groups that getNetlistData of Input.cpp leaves at the end drive no relay.
use relay_dev.Common.{◌≡◌, refl, ℕ, zero, suc, List, [], ◌∷◌, ◌++◌, false, replicate, ok}
use relay_dev.Data.{NetlistData, new_netlist}
use relay_dev.Input.Netlist
use relay_dev.Input.Netlist.{rows}
use relay_dev.Input.Filter.Spec.{has_relay, relay_groups}

pub new-has_relay : has_relay (rows new_netlist) ≡ ok false
unfolding has_relay rows Netlist.zip_rows
new-has_relay = refl

pub relay_groups-replicate :
    (gs : List NetlistData) (m : ℕ) → relay_groups (gs ++ replicate m new_netlist) ≡ relay_groups gs
unfolding relay_groups
relay_groups-replicate [] zero = refl
relay_groups-replicate [] (suc m) = rw (new-has_relay, relay_groups-replicate [] m)
relay_groups-replicate (g ∷ gs) m = rw (relay_groups-replicate gs m)
