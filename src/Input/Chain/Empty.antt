-- ===== src/Input/Chain/Empty.antt =====
-- The empty groups that getNetlistData of Input.cpp leaves at the end are no part of a chain.
use relay_dev.Common.{
  ◌≡◌, refl, ap, ◌∙◌, ℕ, zero, suc, true, false, List, [], ◌∷◌, ◌++◌, replicate, Result, ok, err,
  ◌>>=◌,
}
use relay_dev.Text.{equal}
use relay_dev.Data.{NetlistData, IoData, new_netlist}
use relay_dev.Input.Netlist
use relay_dev.Input.Netlist.{rows}
use relay_dev.Input.Chain.{
  scan_first, find_first, Devices, Pass, scan_rows, scan_groups, follow_chain, first_device,
  get_device_order,
}

find_first-empty : (m : ℕ) → find_first (replicate m new_netlist) ≡ find_first []
unfolding find_first scan_first rows Netlist.zip_rows equal
find_first-empty zero = refl
find_first-empty (suc m) = find_first-empty m

find_first-replicate :
    (gs : List NetlistData) (m : ℕ) → find_first (gs ++ replicate m new_netlist) ≡ find_first gs
unfolding find_first
find_first-replicate [] m = find_first-empty m
find_first-replicate (g ∷ gs) m = rw (find_first-replicate gs m)

scan_groups-empty : (m : ℕ) (s : Devices) → scan_groups (replicate m new_netlist) s ≡ ok (s, false)
unfolding scan_groups scan_rows rows Netlist.zip_rows
scan_groups-empty zero s = refl
scan_groups-empty (suc m) s = scan_groups-empty m s

scan_groups-replicate :
    (gs : List NetlistData) (m : ℕ) (s : Devices)
    → scan_groups (gs ++ replicate m new_netlist) s ≡ scan_groups gs s
unfolding scan_groups
scan_groups-replicate [] m s = scan_groups-empty m s
scan_groups-replicate (g ∷ gs) m s = go (scan_rows (rows g) (rows g) s) (scan_groups-replicate gs m)
  where
    go :
        (p : Result Pass)
        → ((t : Devices) → scan_groups (gs ++ replicate m new_netlist) t ≡ scan_groups gs t)
        → (p >>= λ (s', last_device). elim last_device [
          | true ↦ ok (s', true)
          | false ↦ scan_groups (gs ++ replicate m new_netlist) s'
        ])
          ≡ (p >>= λ (s', last_device). elim last_device [
            | true ↦ ok (s', true)
            | false ↦ scan_groups gs s'
          ])
    go (err e) ih = refl
    go (ok (t, true)) ih = refl
    go (ok (t, false)) ih = ih t

follow_chain-replicate :
    (fuel : ℕ) (gs : List NetlistData) (m : ℕ) (s : Devices)
    → follow_chain fuel (gs ++ replicate m new_netlist) s ≡ follow_chain fuel gs s
unfolding follow_chain
follow_chain-replicate zero gs m s = refl
follow_chain-replicate (suc fuel) gs m s =
    rw (scan_groups-replicate gs m s) (go (scan_groups gs s) (follow_chain-replicate fuel gs m))
  where
    go :
        (p : Result Pass)
        → ((t : Devices)
            → follow_chain fuel (gs ++ replicate m new_netlist) t ≡ follow_chain fuel gs t)
        → (p >>= λ (s', last_device). elim last_device [
          | true ↦ ok s'.io_data
          | false ↦ follow_chain fuel (gs ++ replicate m new_netlist) s'
        ])
          ≡ (p >>= λ (s', last_device). elim last_device [
            | true ↦ ok s'.io_data
            | false ↦ follow_chain fuel gs s'
          ])
    go (err e) ih = refl
    go (ok (t, true)) ih = refl
    go (ok (t, false)) ih = ih t

first_device-replicate :
    (gs : List NetlistData) (m : ℕ) (io_data : List IoData)
    → first_device (gs ++ replicate m new_netlist) io_data ≡ first_device gs io_data
unfolding first_device
first_device-replicate gs m io_data = rw (find_first-replicate gs m, first_device)

pub get_device_order-replicate :
    (fuel : ℕ) (gs : List NetlistData) (m : ℕ) (io_data : List IoData)
    → get_device_order fuel (gs ++ replicate m new_netlist) io_data
      ≡ get_device_order fuel gs io_data
unfolding get_device_order
get_device_order-replicate fuel gs m io_data =
    ap (follow_chain fuel (gs ++ replicate m new_netlist)) (first_device-replicate gs m io_data)
    ∙ follow_chain-replicate fuel gs m (first_device gs io_data)
