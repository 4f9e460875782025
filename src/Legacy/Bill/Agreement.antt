-- ===== src/Legacy/Bill/Agreement.antt =====
-- The bill as both programs read it.
use relay_dev.Common.{
  ℕ, suc, ◌≡◌, refl, inl, inr, List, [], ◌∷◌, ◌++◌, map, modify, Bool-cases, Result, ok, err, ◌>>=◌,
}
use relay_dev.Text.{Bytes, upper, front, is_digit}
use relay_dev.Data.{BillData, new_bill}
use relay_dev.Input.Bill.{read_bill, store_bill}
use relay_dev.Input.Bill
use relay_dev.Legacy.Bill.{read_lines, get_bill_data}

read_lines-agrees :
    (n : ℕ) (lines : List Bytes) (bills : List BillData)
    → read_lines n (map (map upper) lines) bills ≡ Bill.read_lines n lines bills
unfolding read_lines Bill.read_lines
read_lines-agrees n [] bills = refl
read_lines-agrees n (line ∷ lines) bills = elim (Bool-cases (is_digit (front (map upper line)))) [
  | inr other ↦ rw (other, read_lines, Bill.read_lines) (read_lines-agrees n lines bills)
  | inl part ↦
      rw (part, read_lines, Bill.read_lines)
        (go (read_bill (map upper line)) (read_lines-agrees (suc n) lines))
]
  where
    go :
        (m : Result BillData)
        → ((bs : List BillData)
            → read_lines (suc n) (map (map upper) lines) bs ≡ Bill.read_lines (suc n) lines bs)
        → (m >>= λ temp.
            read_lines
              (suc n)
              (map (map upper) lines)
              (modify n (store_bill temp) (bills ++ new_bill ∷ [])))
          ≡ (m >>= λ temp.
              Bill.read_lines (suc n) lines (modify n (store_bill temp) (bills ++ new_bill ∷ [])))
    go (err e) ih = refl
    go (ok temp) ih = ih _

-- On the lines in upper case the console program reads the bill that the service reads, or stops alike.
pub get_bill_data-agrees :
    (lines : List Bytes) (bills : List BillData)
    → get_bill_data (map (map upper) lines) bills ≡ Bill.get_bill_data lines bills
unfolding get_bill_data Bill.get_bill_data
get_bill_data-agrees lines bills = read_lines-agrees 0 lines bills
