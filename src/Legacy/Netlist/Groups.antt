-- ===== src/Legacy/Netlist/Groups.antt =====
-- The groups and the counter of the one pass.
use relay_dev.Common.{
  ℕ, zero, suc, ◌≡◌, refl, ap, subst, inl, inr, Bool, true, false, not, ◌&&◌, List, [], ◌∷◌, ◌++◌,
  map, arith, Bool-cases, either_way, if◌then◌else◌, length, length-append, modify, get_elem?, ok,
  defined, ◌>>=◌, >>=-eq-ok,
}
use relay_dev.Text.{Bytes, upper}
use relay_dev.Data.{NetlistData, new_netlist}
use relay_dev.Input.Netlist.{Row, read_row, push_row, starts_group, read_netlist}
use relay_dev.Input.Netlist
use relay_dev.Input.Filter.{is_expander, append_group}
use relay_dev.Legacy.Netlist.{
  Reading, check_connection, flush, change_group, mark, store, read_lines, new_reading,
  get_netlist_data,
}

-- The relays are counted, and the groups are `gs`, of which the `n`-th is at hand.
record IsAt (n : ℕ) (gs : List NetlistData) (s : Reading) : Type 0 where
  counted : s.relay_counter ≡ length s.relay_list
  at_hand : s.loop_counter ≡ n
  groups : s.netlist_data ≡ gs

length-modify : {A : Type 0} (i : ℕ) (f : A → A) (xs : List A) → length (modify i f xs) ≡ length xs
length-modify i f [] = refl
length-modify zero f (x ∷ xs) = refl
length-modify (suc i) f (x ∷ xs) = ap suc (length-modify i f xs)

module _ (n : ℕ) (gs : List NetlistData) (s t : Reading) (v : IsAt n gs s) where
  flush-IsAt : flush s ≡ ok t → IsAt n gs t
  unfolding flush
  flush-IsAt h = elim (Bool-cases s.relay_connection) [
    | inr off ↦ let same : s ≡ t = cc (rw (off, flush) at h) in subst (IsAt n gs) same v
    | inl on ↦
        let (g, _, last) =
          >>=-eq-ok (defined (get_elem? s.netlist_data s.loop_counter))
            (λ (g : NetlistData). ok (record s {
              relay_list =
                  modify s.relay_counter (append_group g) (s.relay_list ++ new_netlist ∷ []);
              relay_counter = suc s.relay_counter;
              relay_connection = false;
            }))
            (rw (on, flush) at h) in
        let grown = s.relay_list ++ new_netlist ∷ [] in
        let same : record s {
          relay_list = modify s.relay_counter (append_group g) grown;
          relay_counter = suc s.relay_counter;
          relay_connection = false;
        }
            ≡ t =
          cc last in
        subst (IsAt n gs) same (record {
          counted = omega (
            arith,
            v.counted,
            length-modify s.relay_counter (append_group g) grown,
            length-append s.relay_list (new_netlist ∷ []),
          );
          at_hand = v.at_hand;
          groups = v.groups;
        })
  ]

  mark-IsAt : (r : Row) → mark r s ≡ ok t → IsAt n gs t
  unfolding mark
  mark-IsAt r h = elim (Bool-cases (is_expander r && not s.relay_connection)) [
    | inr skip ↦ let same : s ≡ t = cc (rw (skip, mark) at h) in subst (IsAt n gs) same v
    | inl look ↦
        let (found, _, last) =
          >>=-eq-ok (check_connection r)
            (λ (found : Bool). ok (if found then record s { relay_connection = true } else s))
            (rw (look, mark) at h) in
        let same : (if found then record s { relay_connection = true } else s) ≡ t = cc last in
        subst (IsAt n gs) same (
          either_way (IsAt n gs) found
            (record { counted = v.counted; at_hand = v.at_hand; groups = v.groups }) v)
  ]

  store-IsAt : (r : Row) → IsAt n (modify n (push_row r) (gs ++ new_netlist ∷ [])) (store r s)
  unfolding store
  store-IsAt r = record {
    counted = v.counted;
    at_hand = v.at_hand;
    groups = rw (v.at_hand, v.groups);
  }

change_group-IsAt :
    (n : ℕ) (gs : List NetlistData) (comparator holder : Bytes) (s t : Reading)
    → IsAt n gs s
    → change_group comparator holder s ≡ ok t
    → IsAt (if starts_group comparator holder then suc n else n) gs t
unfolding change_group
change_group-IsAt n gs comparator holder s t v h =
    elim (Bool-cases (starts_group comparator holder)) [
      | inr stays ↦
          let same : s ≡ t = cc (rw (stays, change_group) at h) in
          rw stays (subst (IsAt n gs) same v)
      | inl starts ↦
          let (u, f, last) =
            >>=-eq-ok (flush s)
              (λ (u : Reading). ok (record u { loop_counter = suc u.loop_counter }))
              (rw (starts, change_group) at h) in
          let w = flush-IsAt n gs s u v f in
          let same : record u { loop_counter = suc u.loop_counter } ≡ t = cc last in
          rw starts (
            subst (IsAt (suc n) gs) same
              (record { counted = w.counted; at_hand = ap suc w.at_hand; groups = w.groups }))
    ]

read_lines-IsAt :
    (n : ℕ) (gs : List NetlistData) (comparator : Bytes) (lines : List Bytes) (s t : Reading)
    → IsAt n gs s
    → read_lines comparator (map (map upper) lines) s ≡ ok t
    → (m : ℕ) × IsAt m (read_netlist n comparator lines gs) t
unfolding read_lines read_netlist
read_lines-IsAt n gs comparator [] s t v h = (n, flush-IsAt n gs s t v h)
read_lines-IsAt n gs comparator (line ∷ lines) s t v h =
    let holder = map upper line in
    let (s1, changed, rest) =
      >>=-eq-ok (change_group comparator holder s)
        (λ (x : Reading). mark (read_row holder) x >>= λ y.
          read_lines holder (map (map upper) lines) (store (read_row holder) y))
        h in
    let (s2, marked, last) =
      >>=-eq-ok (mark (read_row holder) s1)
        (λ (y : Reading). read_lines holder (map (map upper) lines) (store (read_row holder) y))
        rest in
    let here = if starts_group comparator holder then suc n else n in
    let v1 = change_group-IsAt n gs comparator holder s s1 v changed in
    let v2 = mark-IsAt here gs s1 s2 v1 (read_row holder) marked in
    read_lines-IsAt here (modify here (push_row (read_row holder)) (gs ++ new_netlist ∷ [])) holder
      lines (store (read_row holder) s2) t (store-IsAt here gs s2 s2 v2 (read_row holder)) last

-- If the one pass ends on the lines in upper case, its groups are those of the service, and its
-- counter is the length of its relay list.
pub get_netlist_data-groups :
    (lines : List Bytes) (s : Reading)
    → get_netlist_data (map (map upper) lines) ≡ ok s
    → (s.netlist_data ≡ Netlist.get_netlist_data lines []) × (s.relay_counter ≡ length s.relay_list)
unfolding get_netlist_data new_reading Netlist.get_netlist_data
get_netlist_data-groups lines s h =
    let (m, v) =
      read_lines-IsAt 0 [] (b' ' ∷ []) lines new_reading s
        (record { counted = refl; at_hand = refl; groups = refl }) h in
    (v.groups, v.counted)
