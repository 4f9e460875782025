-- ===== src/Text/Number.antt =====
-- std::stoi and std::to_string, for a 32-bit int.
use relay_dev.Common.{
  ℕ, zero, suc, ◌+◌, ◌-◌, ◌*◌, ◌/◌, ◌%◌, Bool, true, false, ◌&&◌, ◌||◌, [], ◌∷◌, ◌++◌, ◌==◌,
  if◌then◌else◌, ltb, leb, Result, ok, err, invalid_argument, out_of_range, ℤ, pos, negsuc,
}
use relay_dev.Text.{Bytes, is_digit, front}

-- `isspace` in the "C" locale
is_space : ℕ → Bool
is_space c = c == b' ' || (leb 9 c && leb c 13)

skip_spaces : Bytes → Bytes
unfolding is_space
skip_spaces [] = []
skip_spaces (c ∷ s) = if is_space c then skip_spaces s else c ∷ s

-- The value of the digits in front.
unfoldable pub read_digits : ℕ → Bytes → ℕ
unfolding is_digit
read_digits acc [] = acc
read_digits acc (c ∷ s) =
    let rest = read_digits (acc * 10 + (c - b'0')) s in if is_digit c then rest else acc

in_range : ℕ → Result ℤ
in_range n = if ltb n 2147483648 then ok (pos n) else err out_of_range

negative : ℕ → Result ℤ
negative zero = ok (pos 0)
negative (suc n) = if ltb n 2147483648 then ok (negsuc n) else err out_of_range

stoi_digits : (ℕ → Result ℤ) → Bytes → Result ℤ
unfolding is_digit read_digits front
stoi_digits sign s = if is_digit (front s) then sign (read_digits 0 s) else err invalid_argument

stoi_signed : Bytes → Result ℤ
unfolding stoi_digits in_range negative
stoi_signed [] = err invalid_argument
stoi_signed (c ∷ s) =
    if c == b'-'
    then stoi_digits negative s
    else if c == b'+'
    then stoi_digits in_range s
    else stoi_digits in_range (c ∷ s)

unfoldable pub stoi : Bytes → Result ℤ
unfolding skip_spaces stoi_signed
stoi s = stoi_signed (skip_spaces s)

-- The fuel is above the number, which has fewer digits than that.
unfoldable pub decimal_from : ℕ → ℕ → Bytes
decimal_from zero n = []
decimal_from (suc f) n = elim (ltb n 10) [
  | true ↦ (b'0' + n) ∷ []
  | false ↦ decimal_from f (n / 10) ++ (b'0' + n % 10) ∷ []
]

unfoldable pub decimal : ℕ → Bytes
unfolding decimal_from
decimal n = decimal_from (suc n) n

unfoldable pub to_string : ℤ → Bytes
unfolding decimal
to_string (pos n) = decimal n
to_string (negsuc n) = b'-' ∷ decimal (suc n)
