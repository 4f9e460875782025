-- ===== src/Text/Decimal.antt =====
-- The bytes of a printed number.
use relay_dev.Common.{
  ℕ, zero, suc, ◌+◌, ◌/◌, ◌%◌, ◌<◌, inl, inr, [], ◌∷◌, arith, ltb, Bool-cases, ℤ, pos, negsuc,
}
use relay_dev.Text.Search.{Lacks, Lacks-append}
use relay_dev.Text.Number.{decimal_from, to_string}

decimal_from-Lacks : (c f n : ℕ) → c < b'0' → Lacks c (decimal_from f n)
unfolding decimal_from
decimal_from-Lacks c zero n h = tt
decimal_from-Lacks c (suc f) n h = elim (Bool-cases (ltb n 10)) [
  | inl small ↦ rw (small, decimal_from) (ground arith, tt)
  | inr big ↦
      rw (big, decimal_from)
        (Lacks-append c (decimal_from f (n / 10)) ((b'0' + n % 10) ∷ [])
          (decimal_from-Lacks c f (n / 10) h) (ground arith, tt))
]

-- A number is printed with digits and a minus sign.
pub to_string-Lacks : (c : ℕ) (z : ℤ) → c < b'-' → Lacks c (to_string z)
unfolding to_string
to_string-Lacks c (pos n) h = decimal_from-Lacks c (suc n) n (omega arith)
to_string-Lacks c (negsuc n) h =
    (ground arith, decimal_from-Lacks c (suc (suc n)) (suc n) (omega arith))
