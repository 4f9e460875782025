-- ===== src/Relay/Enum.antt =====
-- Relay::convertEnum of Relay.cpp.
pub mod Breaks
pub mod Shape
use relay_dev.Common.{
  ℕ, zero, suc, ◌+◌, ◌-◌, Bool, true, false, List, [], ◌∷◌, ◌++◌, Option, none, some, if◌then◌else◌,
  ltb, length, take, drop, Result, ok, err, out_of_fuel, undefined, defined, ◌>>=◌,
}
use relay_dev.Text.{Bytes, codes, is_digit, last, find_char, find_text}
use mathlib.Core.Option

-- `s.find("_", from)`
unfoldable pub find_from : ℕ → Bytes → Option ℕ
unfolding find_char
find_from start s = Option.map (λ i. start + i) (find_char b'_' (drop start s))

-- `while ((tracker = relayName.find("_", tracker + 1)) != npos)`
unfoldable pub find_breaks : ℕ → ℕ → Bytes → List ℕ → Result (List ℕ)
unfolding find_from
find_breaks zero start name name_breaks = err out_of_fuel
find_breaks (suc fuel) start name name_breaks = elim (find_from start name) [
  | none ↦ ok name_breaks
  | some tracker ↦ find_breaks fuel (tracker + 1) name (name_breaks ++ tracker ∷ [])
]

-- The search starts at -1 + 1, and stops within one round for each byte and one more.
unfoldable pub breaks_of : Bytes → Result (List ℕ)
unfolding find_breaks
breaks_of name = find_breaks (length name + 1) 0 name []

unfoldable pub first : List ℕ → Option ℕ
first [] = none
first (x ∷ xs) = some x

-- `relayName.substr(back, c - back + 1)`, where `c` is the code of the last character. A negative
-- count is converted to a huge one.
unfoldable pub suffix : Bytes → ℕ → ℕ → Bytes
suffix name c back =
    if ltb (c + 1) back then drop back name else take (c + 1 - back) (drop back name)

unfoldable pub convert_enum : Bytes → Result Bytes
unfolding breaks_of first suffix
convert_enum relay_name = do
  last_char ← defined (last relay_name)
  if is_digit last_char
      then breaks_of relay_name >>= (λ name_breaks. defined (first name_breaks) >>= λ front.
          defined (last name_breaks) >>= λ back.
          ok (take (front + 1) relay_name ++ (codes "CIB" ++ suffix relay_name last_char back)))
      else elim (find_text (codes "SYSGND") relay_name) [
        | some i ↦ ok (take i relay_name ++ codes "SYSGND")
        | none ↦ breaks_of relay_name >>= (λ name_breaks.
            defined (last name_breaks) >>= λ back. ok (take (back + 1) relay_name ++ codes "CIB"))
      ]
