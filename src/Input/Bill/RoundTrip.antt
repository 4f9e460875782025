-- ===== src/Input/Bill/RoundTrip.antt =====
-- A part line that a spreadsheet writes, read back.
use relay_dev.Common.{◌≢◌, [], ◌∷◌, ◌++◌, any, All, ◌==◌, if◌then◌else◌}
use relay_dev.Text.{Bytes}
use relay_dev.Text.Search.{Lacks}
use relay_dev.Text.Join.{join}
use relay_dev.Data.{BillData}

-- A cell is quoted if it holds a comma.
abbrev pub write_cell : Bytes → Bytes
write_cell s = if any (λ x. x == b',') s then b'"' ∷ (s ++ b'"' ∷ []) else s

pub write_bill : BillData → Bytes
write_bill b = join b',' (
    b.item
    ∷ b.quantity
    ∷ b.manufacturer
    ∷ b.part_number
    ∷ write_cell (join b',' b.identifier)
    ∷ write_cell b.description
    ∷ b.dni
    ∷ b.status
    ∷ b.max_temp
    ∷ [])

abbrev pub IsName : Bytes → Type 0
IsName p = Lacks b',' p × Lacks b'"' p × (p ≢ [])

-- Plain cells hold no comma, no text holds a quotation mark, and there is an identifier.
pub record IsWritable (b : BillData) : Type 0 where
  pub item : Lacks b',' b.item
  pub quantity : Lacks b',' b.quantity
  pub manufacturer : Lacks b',' b.manufacturer
  pub part_number : Lacks b',' b.part_number
  pub identifier : All IsName b.identifier
  pub identified : b.identifier ≢ []
  pub description : Lacks b'"' b.description
  pub dni : Lacks b',' b.dni
  pub status : Lacks b',' b.status
