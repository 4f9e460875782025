-- ===== src/Relay/Port.antt =====
-- Relay::convertPort of Relay.cpp.
pub mod Pins
use relay_dev.Common.{
  ℕ, Bool, true, false, List, [], ◌∷◌, Option, none, some, if◌then◌else◌, Result, ok, ◌>>=◌, ℤ,
  is_pos,
}
use relay_dev.Text.{Bytes, codes}
use relay_dev.Text.Number.{stoi}
use relay_dev.Input.Netlist.{Row}
use relay_dev.Input.Filter.{is_expander}

-- The connection of the first line with an IO expander, or "".
unfoldable pub port_identifier : List Row → Bytes
port_identifier [] = []
port_identifier (r ∷ rs) = if is_expander r then r.connection else port_identifier rs

-- The cases of the switch: the pin of the expander, and its port.
abbrev pub port_cases : List (ℕ × Bytes)
port_cases =
    (1, codes "P8")
    ∷ (2, codes "P12")
    ∷ (3, codes "P9")
    ∷ (4, codes "P13")
    ∷ (5, codes "P10")
    ∷ (6, codes "P14")
    ∷ (7, codes "P11")
    ∷ (8, codes "P15")
    ∷ (9, codes "P16")
    ∷ (10, codes "P17")
    ∷ (12, codes "P18")
    ∷ (13, codes "P19")
    ∷ (14, codes "P20")
    ∷ (15, codes "P21")
    ∷ (16, codes "P22")
    ∷ (17, codes "P23")
    ∷ (18, codes "P24")
    ∷ (19, codes "P25")
    ∷ (21, codes "P26")
    ∷ (22, codes "P27")
    ∷ (23, codes "P28")
    ∷ (24, codes "P7")
    ∷ (25, codes "P29")
    ∷ (26, codes "P6")
    ∷ (27, codes "P30")
    ∷ (28, codes "P5")
    ∷ (29, codes "P31")
    ∷ (30, codes "P4")
    ∷ []

unfoldable pub find_case : ℤ → List (ℕ × Bytes) → Bytes
find_case z [] = []
find_case z ((n, port) ∷ cases) = if is_pos n z then port else find_case z cases

-- The switch; with no case the port stays "".
unfoldable pub port_of : ℤ → Bytes
unfolding find_case
port_of z = find_case z port_cases

unfoldable pub convert_port : List Row → Result Bytes
unfolding port_identifier port_of
convert_port group =
    stoi (port_identifier group) >>= λ connection_number. ok (port_of connection_number)
