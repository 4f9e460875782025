-- ===== src/Relay/Convert/Kinds.antt =====
-- The values that the columns of a row can have.
use relay_dev.Common.{
  ℕ, ◌+◌, ◌-◌, ◌*◌, ◌≤◌, ◌≡◌, refl, sym, ap, subst, ◌⊎◌, inl, inr, Bool, true, false, not, ◌&&◌,
  ◌||◌, List, [], ◌∷◌, ◌++◌, map, if◌then◌else◌, arith, Bool-cases, either_way, any, All, ok,
  defined, ◌>>=◌, >>=-eq-ok, ℤ, pos, is_pos,
}
use relay_dev.Common.Rounds.{Occurs}
use relay_dev.Text.{Bytes, codes, equal, is_digit, last, contains}
use relay_dev.Text.Number.{to_string, stoi}
use relay_dev.Data.{NetlistData, RelayData, ModelData}
use relay_dev.Input.Netlist.{Row, rows}
use relay_dev.Input.Models.{InputData}
use relay_dev.Relay.Pin.{second_last, convert_pin}
use relay_dev.Relay.Port.{port_identifier, port_cases, find_case, port_of, convert_port}
use relay_dev.Relay.Drive.{config_out, match_models, scan_devices, convert_drive_strength}
use relay_dev.Relay.Normal.{relay_no, relay_nc, scan_netlist, scan_relay, convert_normal_state}
use relay_dev.Relay.Device.{convert_chain}
use relay_dev.Relay.Convert.{Junk, RelayState, relay_convert}
use relay_dev.Relay.Convert.Rows.{IsRowOf}
use relay_dev.Relay.Convert.Relays.{RowsOf, nil, cons, board_chain, relay_convert-RowsOf}

abbrev pub IsPin : Bytes → Type 0
IsPin s = (k : ℕ) × (s ≡ codes "DUT_PIN_" ++ to_string (pos k)) × (k ≤ 99)

-- No port, or one of the 28 of the switch.
abbrev pub IsPort : Bytes → Type 0
IsPort s = Occurs s ([] ∷ map (λ c. c.1) port_cases)

abbrev pub IsStrength : List ModelData → Bytes → Type 0
IsStrength ms s = Occurs s (config_out ∷ map (λ m. m.drive_strength) ms)

abbrev pub IsState : Bytes → Type 0
IsState s = (s ≡ relay_no) ⊎ (s ≡ relay_nc)

digit_pin :
    (c tens : ℕ)
    → is_digit c ≡ true
    → (if is_digit tens then c - b'0' + (tens - b'0') * 10 else c - b'0') ≤ 99
unfolding is_digit
digit_pin c tens h = ground arith

convert_pin-IsPin : (name pin : Bytes) → convert_pin name ≡ ok pin → IsPin pin
unfolding convert_pin to_string
convert_pin-IsPin name pin h =
    let (c, _, rest) = >>=-eq-ok (defined (last name)) _ h in go c (Bool-cases (is_digit c)) rest
  where
    go :
        (c : ℕ)
        → (is_digit c ≡ true) ⊎ (is_digit c ≡ false)
        → (if is_digit c
            then second_last name >>= (λ tens.
              let units = c - b'0' in
              let pin_number = if is_digit tens then units + (tens - b'0') * 10 else units in
              ok (codes "DUT_PIN_" ++ to_string (pos pin_number)))
            else ok (codes "DUT_PIN_1"))
          ≡ ok pin
        → IsPin pin
    go c (inr other) rest = (1, cc (rw other at rest), omega arith)
    go c (inl digit) rest =
        let (tens, _, made) = >>=-eq-ok (second_last name) _ (rw digit at rest) in
        (
          if is_digit tens then c - b'0' + (tens - b'0') * 10 else c - b'0',
          cc made,
          digit_pin c tens digit,
        )

find_case-IsPort :
    (z : ℤ) (cases : List (ℕ × Bytes)) → Occurs (find_case z cases) ([] ∷ map (λ c. c.1) cases)
unfolding find_case
find_case-IsPort z [] = inl refl
find_case-IsPort z ((n, port) ∷ cases) =
    either_way (λ s. Occurs s ([] ∷ port ∷ map (λ c. c.1) cases)) (is_pos n z) (inr (inl refl))
      (skip (find_case-IsPort z cases))
  where
    skip :
        Occurs (find_case z cases) ([] ∷ map (λ c. c.1) cases)
        → Occurs (find_case z cases) ([] ∷ port ∷ map (λ c. c.1) cases)
    skip (inl e) = inl e
    skip (inr o) = inr (inr o)

convert_port-IsPort : (rs : List Row) (port : Bytes) → convert_port rs ≡ ok port → IsPort port
unfolding convert_port port_of
convert_port-IsPort rs port h =
    let (z, _, made) = >>=-eq-ok (stoi (port_identifier rs)) _ h in
    subst IsPort (cc made) (find_case-IsPort z port_cases)

-- The strength so far, or that of a model.
match_models-Occurs :
    (device : Bytes) (ms : List ModelData) (d : Bytes)
    → Occurs (match_models device ms d) (d ∷ map (λ m. m.drive_strength) ms)
unfolding match_models
match_models-Occurs device [] d = inl refl
match_models-Occurs device (m ∷ ms) d =
    either_way (λ s. Occurs s (d ∷ m.drive_strength ∷ map (λ n. n.drive_strength) ms))
      (contains device m.relay_model) (inr (inl refl)) (skip (match_models-Occurs device ms d))
  where
    skip :
        Occurs (match_models device ms d) (d ∷ map (λ n. n.drive_strength) ms)
        → Occurs (match_models device ms d) (d ∷ m.drive_strength ∷ map (λ n. n.drive_strength) ms)
    skip (inl e) = inl e
    skip (inr o) = inr (inr o)

match_models-IsStrength :
    (device : Bytes) (ms : List ModelData) (d : Bytes)
    → IsStrength ms d
    → IsStrength ms (match_models device ms d)
match_models-IsStrength device ms d h = go (match_models-Occurs device ms d)
  where
    go :
        Occurs (match_models device ms d) (d ∷ map (λ m. m.drive_strength) ms)
        → IsStrength ms (match_models device ms d)
    go (inl e) = subst (IsStrength ms) e h
    go (inr o) = inr o

scan_devices-IsStrength :
    (ms : List ModelData) (rs : List Row) (d : Bytes)
    → IsStrength ms d
    → IsStrength ms (scan_devices ms rs d)
unfolding scan_devices
scan_devices-IsStrength ms [] d h = h
scan_devices-IsStrength ms (r ∷ rs) d h =
    let here = match_models-IsStrength r.device ms d h in
    either_way (IsStrength ms) (not (equal (match_models r.device ms d) config_out)) here
      (scan_devices-IsStrength ms rs (match_models r.device ms d) here)

scan_relay-IsState :
    (gs : List NetlistData) (ms : List ModelData) (rs : List Row) (resistor : Bytes)
    (present : Bool)
    → IsState (scan_relay gs ms rs resistor present)
unfolding scan_relay
scan_relay-IsState gs ms [] resistor present = inl refl
scan_relay-IsState gs ms (r ∷ rs) resistor present =
    let resistor' = if contains r.device (codes "RESISTOR") then r.identifier else resistor in
    let present' = present || any (λ m. contains r.device m.relay_model) ms in
    elim (Bool-cases (present' && not (equal resistor' []))) [
      | inr more ↦ rw more (scan_relay-IsState gs ms rs resistor' present')
      | inl both ↦ rw both (elim (Bool-cases (scan_netlist resistor' gs 0)) [
        | inl ground_found ↦ rw ground_found (inr refl)
        | inr other ↦ rw other (inl refl)
      ])
    ]

-- Each column has a value of its kind, and a normally closed relay has no drive strength of its own.
pub record IsTyped (ms : List ModelData) (r : RelayData) : Type 0 where
  pub pin : IsPin r.pin
  pub port : IsPort r.port_number
  pub strength : IsStrength ms r.drive_strength
  pub state : IsState r.normal_state
  pub undriven : (r.normal_state ≡ relay_no) ⊎ (r.drive_strength ≡ config_out)
  pub chain : (r.chain_number ≡ pos 0) ⊎ (r.chain_number ≡ pos 1)

pub row-IsTyped :
    (input : InputData) (chain : ℤ) (g : NetlistData) (r : RelayData)
    → (chain ≡ pos 0) ⊎ (chain ≡ pos 1)
    → IsRowOf input chain g r
    → IsTyped input.model_data r
unfolding convert_normal_state convert_drive_strength equal
row-IsTyped input chain g r c row = record {
  pin = convert_pin-IsPin r.relay_name r.pin row.pin;
  port = convert_port-IsPort (rows g) r.port_number row.port;
  strength = drive (Bool-cases (equal r.normal_state relay_nc));
  state =
      subst IsState (sym row.state)
        (scan_relay-IsState input.netlist_data input.model_data (rows g) [] false);
  undriven = driven (Bool-cases (equal r.normal_state relay_nc));
  chain = subst (λ z. (z ≡ pos 0) ⊎ (z ≡ pos 1)) (sym row.kept.chain_number) c;
}
  where
    drive :
        (equal r.normal_state relay_nc ≡ true) ⊎ (equal r.normal_state relay_nc ≡ false)
        → IsStrength input.model_data r.drive_strength
    drive (inl e) = inl (sym (row.closed e))
    drive (inr e) =
        subst (IsStrength input.model_data) (sym (row.open_drive e))
          (scan_devices-IsStrength input.model_data (rows g) config_out (inl refl))

    driven :
        (equal r.normal_state relay_nc ≡ true) ⊎ (equal r.normal_state relay_nc ≡ false)
        → (r.normal_state ≡ relay_no) ⊎ (r.drive_strength ≡ config_out)
    driven (inl e) = inr (row.closed e)
    driven (inr e) =
        elim (subst IsState (sym row.state)
          (scan_relay-IsState input.netlist_data input.model_data (rows g) [] false)) [
            | inl normally_open ↦ inl normally_open
            | inr closed ↦ inr (row.closed (ap (λ s. equal s relay_nc) closed))
          ]

rows-IsTyped :
    (input : InputData) (chain : ℤ) (gs : List NetlistData) (rs : List RelayData)
    → (chain ≡ pos 0) ⊎ (chain ≡ pos 1)
    → RowsOf input chain gs rs
    → All (IsTyped input.model_data) rs
rows-IsTyped input chain [] [] c nil = tt
rows-IsTyped input chain [] (r ∷ rs) c h = elim h [ ]
rows-IsTyped input chain (g ∷ gs) [] c h = elim h [ ]
rows-IsTyped input chain (g ∷ gs) (r ∷ rs) c (cons row rest) =
    (row-IsTyped input chain g r c row, rows-IsTyped input chain gs rs c rest)

pub board_chain_bit :
    (input : InputData) (junk : Junk)
    → (board_chain input junk ≡ pos 0) ⊎ (board_chain input junk ≡ pos 1)
board_chain_bit input junk =
    either_way (λ z. (z ≡ pos 0) ⊎ (z ≡ pos 1))
      (is_pos 1 (convert_chain junk.chain input.board_type)) (inr refl) (inl refl)

-- Whatever a board's files say, if `relayConvert` returns from a Relay with no rows then each of its
-- rows has a pin DUT_PIN_0 to DUT_PIN_99, no port or one of the 28 of the switch, a drive strength
-- that is the default or that of a model, a normal state that is open or closed, the default strength
-- if it is not open, and a chain number of 0 or 1.
pub relay_convert-IsTyped :
    (input : InputData) (junk : Junk) (relay done : RelayState)
    → relay.relay_data ≡ []
    → relay_convert input junk relay ≡ ok done
    → All (IsTyped input.model_data) done.relay_data
relay_convert-IsTyped input junk relay done fresh h =
    rows-IsTyped input (board_chain input junk) input.relay_list done.relay_data
      (board_chain_bit input junk) (relay_convert-RowsOf input junk relay done fresh h).0
