-- ===== src/Relay/Pin.antt =====
-- Relay::convertPin of Relay.cpp.
pub mod Digits
use relay_dev.Common.{
  ℕ, ◌+◌, ◌-◌, ◌*◌, Bool, List, [], ◌∷◌, ◌++◌, if◌then◌else◌, ltb, length, get_elem?, Result, ok,
  err, undefined, defined, ◌>>=◌, pos,
}
use relay_dev.Text.{Bytes, codes, is_digit, last}
use relay_dev.Text.Number.{to_string}

-- `relayName[relayName.size() - 2]`: on one byte the index wraps, far out of range.
unfoldable pub second_last : Bytes → Result ℕ
second_last name =
    if ltb 1 (length name) then defined (get_elem? name (length name - 2)) else err undefined

-- `relayName.back()` of an empty name is undefined.
unfoldable pub convert_pin : Bytes → Result Bytes
unfolding second_last
convert_pin relay_name = do
  last_char ← defined (last relay_name)
  if is_digit last_char
      then second_last relay_name >>= (λ tens.
        let units = last_char - b'0' in
        let pin_number = if is_digit tens then units + (tens - b'0') * 10 else units in
        ok (codes "DUT_PIN_" ++ to_string (pos pin_number)))
      else ok (codes "DUT_PIN_1")
