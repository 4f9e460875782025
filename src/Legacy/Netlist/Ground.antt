-- ===== src/Legacy/Netlist/Ground.antt =====
-- `gndData` of getNetlistData in relay.cpp.
use relay_dev.Common.{
  suc, ◌≡◌, refl, sym, ap, ◌∙◌, inl, inr, Bool, true, false, not, ◌&&◌, List, [], ◌∷◌, ◌++◌, map,
  select, if◌then◌else◌, modify, get_elem?, ok, defined, ◌>>=◌, >>=-eq-ok, Bool-cases, either_way,
  append_assoc, append-nil,
}
use relay_dev.Text.{Bytes}
use relay_dev.Data.{NetlistData, new_netlist}
use relay_dev.Input.Netlist.{Row, read_row, starts_group}
use relay_dev.Input.Filter.{is_expander, append_group}
use relay_dev.Legacy.Netlist.{
  Reading, check_connection, flush, change_group, mark, is_gnd, gnd_name, store, read_lines,
  new_reading, get_netlist_data,
}

-- Every other step of the loop leaves the list as it is.
module _ (s t : Reading) where
  flush-gnd : flush s ≡ ok t → t.gnd_data ≡ s.gnd_data
  unfolding flush
  flush-gnd h = elim (Bool-cases s.relay_connection) [
    | inr off ↦
        let same : s ≡ t = cc (rw (off, flush) at h) in sym (ap (λ (u : Reading). u.gnd_data) same)
    | inl on ↦
        let (g, _, last) =
          >>=-eq-ok (defined (get_elem? s.netlist_data s.loop_counter))
            (λ (g : NetlistData). ok (record s {
              relay_list =
                  modify s.relay_counter (append_group g) (s.relay_list ++ new_netlist ∷ []);
              relay_counter = suc s.relay_counter;
              relay_connection = false;
            }))
            (rw (on, flush) at h) in
        let same : record s {
          relay_list = modify s.relay_counter (append_group g) (s.relay_list ++ new_netlist ∷ []);
          relay_counter = suc s.relay_counter;
          relay_connection = false;
        }
            ≡ t =
          cc last in
        sym (ap (λ (u : Reading). u.gnd_data) same)
  ]

  mark-gnd : (r : Row) → mark r s ≡ ok t → t.gnd_data ≡ s.gnd_data
  unfolding mark
  mark-gnd r h = elim (Bool-cases (is_expander r && not s.relay_connection)) [
    | inr skip ↦
        let same : s ≡ t = cc (rw (skip, mark) at h) in sym (ap (λ (u : Reading). u.gnd_data) same)
    | inl look ↦
        let (found, _, last) =
          >>=-eq-ok (check_connection r)
            (λ (found : Bool). ok (if found then record s { relay_connection = true } else s))
            (rw (look, mark) at h) in
        let same : (if found then record s { relay_connection = true } else s) ≡ t = cc last in
        sym (ap (λ (u : Reading). u.gnd_data) same)
        ∙ either_way (λ (u : Reading). u.gnd_data ≡ s.gnd_data) found refl refl
  ]

change_group-gnd :
    (comparator holder : Bytes) (s t : Reading)
    → change_group comparator holder s ≡ ok t
    → t.gnd_data ≡ s.gnd_data
unfolding change_group
change_group-gnd comparator holder s t h = elim (Bool-cases (starts_group comparator holder)) [
  | inr stays ↦
      let same : s ≡ t = cc (rw (stays, change_group) at h) in
      sym (ap (λ (u : Reading). u.gnd_data) same)
  | inl starts ↦
      let (u, f, last) =
        >>=-eq-ok (flush s) (λ (u : Reading). ok (record u { loop_counter = suc u.loop_counter }))
          (rw (starts, change_group) at h) in
      let same : record u { loop_counter = suc u.loop_counter } ≡ t = cc last in
      sym (ap (λ (v : Reading). v.gnd_data) same) ∙ flush-gnd s u f
]

store-gnd :
    (r : Row) (rs : List Row) (s : Reading)
    → (store r s).gnd_data ++ map gnd_name (select is_gnd rs)
      ≡ s.gnd_data ++ map gnd_name (select is_gnd (r ∷ rs))
unfolding store
store-gnd r rs s = elim (Bool-cases (is_gnd r)) [
  | inl gnd ↦ rw gnd (append_assoc s.gnd_data (gnd_name r ∷ []) (map gnd_name (select is_gnd rs)))
  | inr other ↦ rw other
]

read_lines-gnd :
    (comparator : Bytes) (lines : List Bytes) (s t : Reading)
    → read_lines comparator lines s ≡ ok t
    → t.gnd_data ≡ s.gnd_data ++ map gnd_name (select is_gnd (map read_row lines))
unfolding read_lines
read_lines-gnd comparator [] s t h = flush-gnd s t h ∙ sym (append-nil s.gnd_data)
read_lines-gnd comparator (holder ∷ lines) s t h =
    let (s1, changed, rest) =
      >>=-eq-ok (change_group comparator holder s)
        (λ (x : Reading).
          mark (read_row holder) x >>= λ y. read_lines holder lines (store (read_row holder) y))
        h in
    let (s2, marked, last) =
      >>=-eq-ok (mark (read_row holder) s1)
        (λ (y : Reading). read_lines holder lines (store (read_row holder) y)) rest in
    let kept =
      mark-gnd s1 s2 (read_row holder) marked ∙ change_group-gnd comparator holder s s1 changed in
    read_lines-gnd holder lines (store (read_row holder) s2) t last
    ∙ store-gnd (read_row holder) (map read_row lines) s2
    ∙ ap (λ d. d ++ map gnd_name (select is_gnd (map read_row (holder ∷ lines)))) kept

-- If the one pass ends, it has listed the lines on the net GND with an identifier that begins with K.
pub get_netlist_data-gnd :
    (lines : List Bytes) (s : Reading)
    → get_netlist_data lines ≡ ok s
    → s.gnd_data ≡ map gnd_name (select is_gnd (map read_row lines))
unfolding get_netlist_data new_reading
get_netlist_data-gnd lines s h = read_lines-gnd (b' ' ∷ []) lines new_reading s h
