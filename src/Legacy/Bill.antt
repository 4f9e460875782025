-- ===== src/Legacy/Bill.antt =====
-- getBillData of relay.cpp, which reads the lines as they are written. The cells of a part line are
-- read as in Input.cpp.
pub mod Agreement
use relay_dev.Common.{ℕ, suc, true, false, List, [], ◌∷◌, ◌++◌, modify, Result, ok, ◌>>=◌}
use relay_dev.Text.{Bytes, front, is_digit}
use relay_dev.Data.{BillData, new_bill}
use relay_dev.Input.Bill.{read_bill, store_bill}

-- The loop over the lines.
unfoldable pub read_lines : ℕ → List Bytes → List BillData → Result (List BillData)
read_lines loop_counter [] bill_data = ok bill_data
read_lines loop_counter (holder ∷ lines) bill_data = elim (is_digit (front holder)) [
  | true ↦ read_bill holder >>= λ temp.
      read_lines (suc loop_counter) lines
        (modify loop_counter (store_bill temp) (bill_data ++ new_bill ∷ []))
  | false ↦ read_lines loop_counter lines bill_data
]

unfoldable pub get_bill_data : List Bytes → List BillData → Result (List BillData)
unfolding read_lines
get_bill_data lines bill_data = read_lines 0 lines bill_data
