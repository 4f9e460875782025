-- ===== src/Input/Bill/Rows.antt =====
-- `getBillData` on a new Input: one element for each part line, in the order of the file.
use relay_dev.Common.{
  ℕ, suc, ◌≡◌, refl, ap, ◌∙◌, inl, inr, Bool, List, [], ◌∷◌, ◌++◌, map, select, append_assoc,
  append-nil, arith, Bool-cases, length, length-append, modify, modify-append, Result, ok, err,
  ◌>>=◌, traverse,
}
use relay_dev.Text.{Bytes, front, is_digit, upper}
use relay_dev.Data.{BillData, new_bill}
use relay_dev.Input.Bill.{read_bill, read_lines, get_bill_data, store_bill}

-- A line of part data starts with a digit.
abbrev pub is_part : Bytes → Bool
is_part holder = is_digit (front holder)

abbrev pub part_lines : List Bytes → List Bytes
part_lines lines = select is_part (map (map upper) lines)

abbrev after_bills : List BillData → Result (List BillData) → Result (List BillData)
after_bills bills m = m >>= λ rest. ok (bills ++ rest)

after_bills-push :
    (bills : List BillData) (b : BillData) (m : Result (List BillData))
    → after_bills (bills ++ b ∷ []) m ≡ after_bills bills (m >>= λ rest. ok (b ∷ rest))
after_bills-push bills b (ok rest) = ap ok (append_assoc bills (b ∷ []) rest)
after_bills-push bills b (err e) = refl

-- With the counter at the end of the vector, the indexed assignments fill the pushed element.
read_lines-traverse :
    (lines : List Bytes) (bills : List BillData) (n : ℕ)
    → n ≡ length bills
    → read_lines n lines bills ≡ after_bills bills (traverse read_bill (part_lines lines))
unfolding read_lines
read_lines-traverse [] bills n h = rw append-nil
read_lines-traverse (line ∷ lines) bills n h =
    elim (Bool-cases (is_digit (front (map upper line)))) [
      | inr other ↦ rw (other, read_lines) (read_lines-traverse lines bills n h)
      | inl part ↦
          rw (part, read_lines) (stored (read_lines-traverse lines) (read_bill (map upper line)))
    ]
  where
    stored :
        ((bs : List BillData) (k : ℕ)
          → k ≡ length bs
          → read_lines k lines bs ≡ after_bills bs (traverse read_bill (part_lines lines)))
        → (m : Result BillData)
        → (m >>= λ temp.
            read_lines (suc n) lines (modify n (store_bill temp) (bills ++ new_bill ∷ [])))
          ≡ after_bills bills
              (m >>= λ y. traverse read_bill (part_lines lines) >>= λ ys. ok (y ∷ ys))
    stored ih (err e) = refl
    stored ih (ok temp) =
        rw (h, modify-append bills (store_bill temp) new_bill [])
          (ih (bills ++ temp ∷ []) (suc (length bills))
              (omega (arith, length-append bills (temp ∷ [])))
            ∙ after_bills-push bills temp (traverse read_bill (part_lines lines)))

-- On a new Input, `getBillData` stores what each part line reads as, in the order of the file, and
-- stops at the first line whose reading stops.
pub get_bill_data-traverse :
    (lines : List Bytes) → get_bill_data lines [] ≡ traverse read_bill (part_lines lines)
unfolding get_bill_data
get_bill_data-traverse lines =
    read_lines-traverse lines [] 0 refl ∙ nothing_before (traverse read_bill (part_lines lines))
  where
    nothing_before : (m : Result (List BillData)) → after_bills [] m ≡ m
    nothing_before (ok bills) = refl
    nothing_before (err e) = refl
