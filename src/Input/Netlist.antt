-- ===== src/Input/Netlist.antt =====
-- Input::getNetlistData of Input.cpp. A file is the list of lines that `getline` returns.
pub mod Columns
pub mod Groups
pub mod Lines
pub mod Names
pub mod Plain
pub mod RoundTrip
use relay_dev.Common.{
  ℕ, zero, suc, ◌+◌, Bool, true, false, not, ◌&&◌, List, [], ◌∷◌, ◌++◌, map, ◌==◌, if◌then◌else◌,
  modify,
}
use relay_dev.Text.{Bytes, codes, equal, cell, after_cell, skip_blanks, upper}
use relay_dev.Data.{NetlistData, new_netlist}

-- One line in its four columns: `temp.name[0]` and so on.
pub record Row : Type 0 where
  pub name : Bytes
  pub identifier : Bytes
  pub connection : Bytes
  pub device : Bytes

-- What is left of the line behind its first column and the blanks that follow.
abbrev pub next_column : Bytes → Bytes
next_column holder = skip_blanks (after_cell 0 b' ' holder)

unfoldable pub read_row : Bytes → Row
read_row holder =
    let holder2 = next_column holder in
    let holder3 = next_column holder2 in
    let holder4 = next_column holder3 in
    record {
      name = cell b' ' holder;
      identifier = cell b' ' holder2;
      connection = cell b' ' holder3;
      device = holder4;
    }

-- The four `push_back` calls on `input.netlistData[loopCounter]`.
abbrev pub push_row : Row → NetlistData → NetlistData
push_row r g = record {
  name = g.name ++ r.name ∷ [];
  identifier = g.identifier ++ r.identifier ∷ [];
  connection = g.connection ++ r.connection ∷ [];
  device = g.device ++ r.device ∷ [];
}

-- A new group starts if the first column is not that of the line before; " " stands for no line.
unfoldable pub starts_group : Bytes → Bytes → Bool
starts_group comparator holder =
    not (equal comparator (b' ' ∷ [])) && not (equal (cell b' ' comparator) (cell b' ' holder))

-- The loop over the lines, each of which pushes an empty group and fills one by its index.
unfoldable pub read_netlist : ℕ → Bytes → List Bytes → List NetlistData → List NetlistData
read_netlist loop_counter comparator [] netlist_data = netlist_data
read_netlist loop_counter comparator (line ∷ lines) netlist_data =
    let holder = map upper line in
    let here = if starts_group comparator holder then suc loop_counter else loop_counter in
    read_netlist here holder lines
      (modify here (push_row (read_row holder)) (netlist_data ++ new_netlist ∷ []))

unfoldable pub get_netlist_data : List Bytes → List NetlistData → List NetlistData
unfolding read_netlist
get_netlist_data lines netlist_data = read_netlist 0 (b' ' ∷ []) lines netlist_data

-- The rows of a group, side by side.
unfoldable pub zip_rows : List Bytes → List Bytes → List Bytes → List Bytes → List Row
zip_rows (n ∷ ns) (i ∷ is) (c ∷ cs) (d ∷ ds) =
    record { name = n; identifier = i; connection = c; device = d } ∷ zip_rows ns is cs ds
zip_rows _ _ _ _ = []

-- The loops over a group read its vectors at one index; every group that is read has four vectors
-- of one length, so that these are all its lines.
unfoldable pub rows : NetlistData → List Row
unfolding zip_rows
rows g = zip_rows g.name g.identifier g.connection g.device
