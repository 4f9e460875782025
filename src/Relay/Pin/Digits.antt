-- ===== src/Relay/Pin/Digits.antt =====
-- The pin number is the number that the last one or two characters of the name write.
use relay_dev.Common.{
  ℕ, ◌+◌, ◌-◌, ◌*◌, ◌≤◌, ◌≡◌, refl, inl, inr, true, [], ◌∷◌, ◌++◌, some, arith, if◌then◌else◌,
  Bool-cases, ltb, length, length-append, get_elem?-append, ok, pos,
}
use relay_dev.Text.{Bytes, codes, is_digit, last}
use relay_dev.Text.Number.{read_digits, to_string, decimal, decimal_from}
use relay_dev.Relay.Pin.{second_last, convert_pin}

-- The number at the end of a name, read as `stoi` would; a name that ends otherwise has pin 1.
pub pin_number : ℕ → ℕ → ℕ
pin_number x y =
    if is_digit y
    then (if is_digit x then read_digits 0 (x ∷ y ∷ []) else read_digits 0 (y ∷ []))
    else 1

last-append : (p : Bytes) (x y : ℕ) → last (p ++ x ∷ y ∷ []) ≡ some y
unfolding last
last-append [] x y = refl
last-append (z ∷ []) x y = refl
last-append (z ∷ w ∷ p) x y = last-append (w ∷ p) x y

second_last-append : (p : Bytes) (x y : ℕ) → second_last (p ++ x ∷ y ∷ []) ≡ ok x
unfolding second_last
second_last-append p x y =
    let size = length-append p (x ∷ y ∷ []) in
    let long : ltb 1 (length (p ++ x ∷ y ∷ [])) ≡ true = ground (arith, size) in
    let index : length (p ++ x ∷ y ∷ []) - 2 ≡ length p = omega (arith, size) in
    rw (long, index, get_elem?-append p x (y ∷ []))

-- The sum that the code makes of the two characters.
digit_sum : ℕ → ℕ → ℕ
digit_sum x y = if is_digit x then y - b'0' + (x - b'0') * 10 else y - b'0'

read_digits-sum : (x y : ℕ) → is_digit y ≡ true → pin_number x y ≡ digit_sum x y
unfolding pin_number read_digits digit_sum
read_digits-sum x y e = elim (Bool-cases (is_digit x)) [
  | inl tens ↦ rw (e, tens) (omega arith)
  | inr single ↦ rw (e, single) (omega arith)
]

digit_sum-le : (x y : ℕ) → is_digit y ≡ true → digit_sum x y ≤ 99
unfolding digit_sum is_digit
digit_sum-le x y e = ground arith

-- A name of two characters or more gets the pin of the number at its end, which is below 100.
pub convert_pin-number :
    (p : Bytes) (x y : ℕ)
    → (convert_pin (p ++ x ∷ y ∷ []) ≡ ok (codes "DUT_PIN_" ++ to_string (pos (pin_number x y))))
      × (pin_number x y ≤ 99)
unfolding pin_number
convert_pin-number p x y = elim (Bool-cases (is_digit y)) [
  | inl digit ↦ rw (read_digits-sum x y digit) (
    unfold convert_pin digit_sum in rw (last-append p x y, digit, second_last-append p x y),
    digit_sum-le x y digit,
  )
  | inr other ↦
      let one : pin_number x y ≡ 1 = rw (other, pin_number) refl in
      rw one (
        unfold convert_pin to_string decimal decimal_from in rw (last-append p x y, other),
        omega arith,
      )
]
