-- ===== src/Relay/Convert/Total.antt =====
-- Relays that `relayConvert` has a row for.
use relay_dev.Common.{
  ℕ, suc, ◌+◌, ◌≡◌, refl, ap, ◌∙◌, inl, inr, List, [], ◌∷◌, ◌++◌, some, Bool-cases, Option-cases,
  All, get_elem?, ok, defined, >>=-total, ℤ, length, take,
}
use relay_dev.Text.{Bytes, codes, is_digit, last, find_text}
use relay_dev.Text.Number.{stoi}
use relay_dev.Text.Search.{Lacks, Splits, split_at}
use relay_dev.Data.{RelayData, NetlistData}
use relay_dev.Input.Netlist.{Row, rows}
use relay_dev.Input.Models.{InputData}
use relay_dev.Relay.Pin.{convert_pin}
use relay_dev.Relay.Pin.Digits.{convert_pin-number}
use relay_dev.Relay.Enum.{first, suffix, convert_enum}
use relay_dev.Relay.Enum.Breaks.{positions, positions-Lacks, positions-cons, breaks_of-positions}
use relay_dev.Relay.Port.{port_identifier, port_of, convert_port}
use relay_dev.Relay.Convert.{Junk, RelayState, convert_relay, relay_convert}
use relay_dev.Relay.Convert.Rows.{blank, convert_all}
use relay_dev.Relay.Convert.Relays.{board_chain, board_modifier, relay_convert-all}

-- The relay's name has two characters or more, with an underscore in it, and its first line with an
-- IO expander has the number of a pin.
pub record IsConvertible (g : NetlistData) : Type 0 where
  pub name : Bytes
  pub front : Bytes
  pub tens : ℕ
  pub units : ℕ
  pub pin : ℤ
  pub named : get_elem? g.name 0 ≡ some name
  pub long_enough : name ≡ front ++ tens ∷ units ∷ []
  pub underscore : ¬ Lacks b'_' name
  pub port : stoi (port_identifier (rows g)) ≡ ok pin

last-some : (x : ℕ) (xs : List ℕ) → (y : ℕ) × (last (x ∷ xs) ≡ some y)
unfolding last
last-some x [] = (x, refl)
last-some x (y ∷ xs) = last-some y xs

-- The first of the positions, and the others.
positions_some :
    (name : Bytes) → ¬ Lacks b'_' name → (x : ℕ) × (xs : List ℕ) × (positions 0 name ≡ x ∷ xs)
positions_some name some_break = go (split_at b'_' name)
  where
    go : Splits b'_' name → (x : ℕ) × (xs : List ℕ) × (positions 0 name ≡ x ∷ xs)
    go (inl lacks) = absurd (some_break lacks)
    go (inr (f, r, e, h)) = (
      0 + length f,
      positions (suc (0 + length f)) r,
      ap (positions 0) e ∙ positions-Lacks 0 f (b'_' ∷ r) h ∙ positions-cons (0 + length f) r,
    )

last_two : (p : Bytes) (x y : ℕ) → last (p ++ x ∷ y ∷ []) ≡ some y
unfolding last
last_two [] x y = refl
last_two (a ∷ []) x y = refl
last_two (a ∷ b ∷ p) x y = last_two (b ∷ p) x y

convert_enum-total :
    (name : Bytes) (l : ℕ)
    → last name ≡ some l
    → ¬ Lacks b'_' name
    → (enumeration : Bytes) × (convert_enum name ≡ ok enumeration)
unfolding convert_enum first
convert_enum-total name l ends some_break =
    let (x, xs, e) = positions_some name some_break in
    let (y, back) = last-some x xs in
    let breaks = breaks_of-positions name ∙ ap ok e in
    elim (Bool-cases (is_digit l)) [
      | inl digit ↦
          (take (x + 1) name ++ (codes "CIB" ++ suffix name l y), rw (ends, digit, breaks, back))
      | inr other ↦ elim (Option-cases (find_text (codes "SYSGND") name)) [
        | inr (i, found) ↦ (take i name ++ codes "SYSGND", rw (ends, other, found))
        | inl missed ↦ (take (y + 1) name ++ codes "CIB", rw (ends, other, missed, breaks, back))
      ]
    ]

convert_port-total :
    (rs : List Row) (z : ℤ) → stoi (port_identifier rs) ≡ ok z → convert_port rs ≡ ok (port_of z)
unfolding convert_port
convert_port-total rs z e = rw e

convert_relay-total :
    (input : InputData) (junk : ℤ) (modifier : ℕ) (g : NetlistData) (temp : RelayData)
    → IsConvertible g
    → (r : RelayData) × (convert_relay input junk modifier g temp ≡ ok r)
unfolding convert_relay
convert_relay-total input junk modifier g temp v =
    let pin = (convert_pin-number v.front v.tens v.units).0 in
    let ends : last v.name ≡ some v.units =
      ap last v.long_enough ∙ last_two v.front v.tens v.units in
    let (enumeration, made) = convert_enum-total v.name v.units ends v.underscore in
    >>=-total (defined (get_elem? g.name 0)) _ v.name (rw v.named) (
      >>=-total (convert_pin v.name) _ _ (ap convert_pin v.long_enough ∙ pin) (
        >>=-total (convert_enum v.name) _ enumeration made (
          >>=-total (convert_port (rows g)) _ (port_of v.pin)
            (convert_port-total (rows g) v.pin v.port) (_, refl))))

convert_all-total :
    (input : InputData) (junk : Junk) (chain : ℤ) (modifier n : ℕ) (gs : List NetlistData)
    → All IsConvertible gs
    → (rs : List RelayData) × (convert_all input junk chain modifier n gs ≡ ok rs)
unfolding convert_all
convert_all-total input junk chain modifier n [] v = ([], refl)
convert_all-total input junk chain modifier n (g ∷ gs) v =
    let (r, here) = convert_relay-total input (junk.device n) modifier g (blank chain) v.0 in
    let (rs, there) = convert_all-total input junk chain modifier (suc n) gs v.1 in
    (r ∷ rs, rw (here, there))

-- `relayConvert` returns if every relay of the list is fit for it.
pub relay_convert-total :
    (input : InputData) (junk : Junk) (relay : RelayState)
    → All IsConvertible input.relay_list
    → (done : RelayState) × (relay_convert input junk relay ≡ ok done)
relay_convert-total input junk relay v =
    let (rs, made) =
      convert_all-total input junk (board_chain input junk) (board_modifier input junk) 0
        input.relay_list v in
    rw (relay_convert-all input junk relay) (
      >>=-total
        (convert_all input junk (board_chain input junk) (board_modifier input junk) 0
          input.relay_list)
        _ rs made (_, refl))
