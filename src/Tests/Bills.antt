-- ===== src/Tests/Bills.antt =====
-- The part lines of a bill.
use relay_dev.Common.{◌≡◌, refl, [], ◌∷◌, err, out_of_fuel, traverse}
use relay_dev.Text.{codes}
use relay_dev.Text.Search.{all-Lacks}
use relay_dev.Input.Bill.{read_bill, get_bill_data, quoted_identifiers}
use relay_dev.Input.Bill.Quoted.{quoted_identifiers-Lacks}
use relay_dev.Input.Bill.Rows.{part_lines, get_bill_data-traverse}

get_bill_data-traverse_example :
    get_bill_data (codes "Item,Qty" ∷ codes "1,2,TI,X,u1,opamp,,ok,85" ∷ []) []
    ≡ traverse read_bill (part_lines (codes "Item,Qty" ∷ codes "1,2,TI,X,u1,opamp,,ok,85" ∷ []))
get_bill_data-traverse_example =
    get_bill_data-traverse (codes "Item,Qty" ∷ codes "1,2,TI,X,u1,opamp,,ok,85" ∷ [])

quoted_identifiers-Lacks_example : quoted_identifiers 1000 (codes "K1,K2") [] ≡ err out_of_fuel
quoted_identifiers-Lacks_example =
    quoted_identifiers-Lacks 1000 (codes "K1,K2") [] (all-Lacks b'"' (codes "K1,K2") refl)
