-- ===== src/Input/Bill.antt =====
-- Input::getBillData of Input.cpp. A file is the list of lines that `getline` returns.
pub mod Quoted
pub mod Rows
pub mod RoundTrip
use relay_dev.Common.{
  ℕ, zero, suc, ◌+◌, Bool, true, false, List, [], ◌∷◌, ◌++◌, map, Option, none, some, ◌==◌, ltb,
  if◌then◌else◌, length, drop, modify, Result, ok, err, out_of_fuel, ◌>>=◌,
}
use relay_dev.Text.{Bytes, front, find_char, cell, after_cell, is_digit, upper}
use relay_dev.Data.{BillData, new_bill}

-- `p > q` on the results of `find`, where npos is above every position
unfoldable pub is_after : Option ℕ → Option ℕ → Bool
is_after none none = false
is_after none (some j) = true
is_after (some i) none = false
is_after (some i) (some j) = ltb j i

-- `while (holder[0] != '"')`: the identifiers of a quoted cell, and what is left of the line
unfoldable pub quoted_identifiers : ℕ → Bytes → List Bytes → Result (List Bytes × Bytes)
unfolding is_after
quoted_identifiers zero holder identifier = err out_of_fuel
quoted_identifiers (suc fuel) holder identifier =
    let before_comma =
      quoted_identifiers fuel (after_cell 1 b',' holder) (identifier ++ cell b',' holder ∷ []) in
    let before_quote =
      quoted_identifiers fuel (after_cell 0 b'"' holder) (identifier ++ cell b'"' holder ∷ []) in
    if front holder == b'"'
    then ok (identifier, holder)
    else if is_after (find_char b'"' holder) (find_char b',' holder)
    then before_comma
    else before_quote

-- `holder.erase(0, n)`
abbrev erase_front : ℕ → Bytes → Bytes
erase_front n s = drop n s

-- The identifier cell, quoted or not, and what is left of the line.
unfoldable pub read_identifiers : Bytes → Result (List Bytes × Bytes)
unfolding quoted_identifiers
read_identifiers holder =
    if front holder == b'"'
    then quoted_identifiers (length holder + 2) (erase_front 1 holder) []
      >>= (λ (identifier, rest). ok (identifier, erase_front 2 rest))
    else ok (cell b',' holder ∷ [], after_cell 1 b',' holder)

unfoldable pub read_description : Bytes → Bytes × Bytes
read_description holder =
    if front holder == b'"'
    then (cell b'"' (erase_front 1 holder), after_cell 2 b'"' (erase_front 1 holder))
    else (cell b',' holder, after_cell 1 b',' holder)

-- What a part line stores in `temp`: the cells are cut off the holder one after the other.
unfoldable pub read_bill : Bytes → Result BillData
unfolding read_identifiers read_description
read_bill holder =
    let item = cell b',' holder in
    let holder1 = after_cell 1 b',' holder in
    let quantity = cell b',' holder1 in
    let holder2 = after_cell 1 b',' holder1 in
    let manufacturer = cell b',' holder2 in
    let holder3 = after_cell 1 b',' holder2 in
    let part_number = cell b',' holder3 in
    let holder4 = after_cell 1 b',' holder3 in
    read_identifiers holder4 >>= λ (identifier, holder5).
    let (description, holder6) = read_description holder5 in
    let dni = cell b',' holder6 in
    let holder7 = after_cell 1 b',' holder6 in
    let status = cell b',' holder7 in
    let max_temp = after_cell 1 b',' holder7 in
    ok (record {
      item = item;
      quantity = quantity;
      manufacturer = manufacturer;
      part_number = part_number;
      identifier = identifier;
      description = description;
      dni = dni;
      status = status;
      max_temp = max_temp;
    })

-- The assignments to `input.billData[loopCounter]`; the identifiers are appended to its own.
abbrev pub store_bill : BillData → BillData → BillData
store_bill temp old = record temp { identifier = old.identifier ++ temp.identifier }

-- The loop over the lines.
unfoldable pub read_lines : ℕ → List Bytes → List BillData → Result (List BillData)
read_lines loop_counter [] bill_data = ok bill_data
read_lines loop_counter (line ∷ lines) bill_data =
    let holder = map upper line in
    elim (is_digit (front holder)) [
      | true ↦ read_bill holder >>= λ temp.
          read_lines (suc loop_counter) lines
            (modify loop_counter (store_bill temp) (bill_data ++ new_bill ∷ []))
      | false ↦ read_lines loop_counter lines bill_data
    ]

-- `getBillData` appends to the vector, and counts from 0 whatever it holds.
unfoldable pub get_bill_data : List Bytes → List BillData → Result (List BillData)
unfolding read_lines
get_bill_data lines bill_data = read_lines 0 lines bill_data
