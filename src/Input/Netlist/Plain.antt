-- ===== src/Input/Netlist/Plain.antt =====
-- Bytes that no line of the netlist has are in no name that `getNetlistData` reads.
use relay_dev.Common.{
  ℕ, suc, ◌<◌, ◌≡◌, subst, List, [], ◌∷◌, ◌++◌, map, All, All-append, All-modify, if◌then◌else◌,
  Bool, true, false, ok, >>=-eq-ok,
}
use relay_dev.Text.{Bytes, upper}
use relay_dev.Text.Search.{Lacks, Lacks-cell, Lacks-upper}
use relay_dev.Data.{NetlistData, new_netlist}
use relay_dev.Input.Netlist.{rows, read_row, push_row, starts_group, read_netlist, get_netlist_data}
use relay_dev.Input.Filter.Spec.{has_relay, relay_groups}

abbrev pub NamesLack : ℕ → NetlistData → Type 0
NamesLack c g = All (Lacks c) g.name

module _ (c : ℕ) (small : c < b'A') where
  push_row-NamesLack :
      (line : Bytes) (g : NetlistData)
      → Lacks c line
      → NamesLack c g
      → NamesLack c (push_row (read_row (map upper line)) g)
  unfolding read_row
  push_row-NamesLack line g l h =
      All-append (Lacks c) g.name _ h
        (Lacks-cell c b' ' (map upper line) (Lacks-upper c line small l), tt)

  read_netlist-NamesLack :
      (n : ℕ) (comparator : Bytes) (lines : List Bytes) (gs : List NetlistData)
      → All (Lacks c) lines
      → All (NamesLack c) gs
      → All (NamesLack c) (read_netlist n comparator lines gs)
  unfolding read_netlist
  read_netlist-NamesLack n comparator [] gs l h = h
  read_netlist-NamesLack n comparator (line ∷ lines) gs l h =
      let here = if starts_group comparator (map upper line) then suc n else n in
      read_netlist-NamesLack here (map upper line) lines _ l.1 (
        All-modify (NamesLack c) here (push_row (read_row (map upper line)))
          (gs ++ new_netlist ∷ []) (λ g. push_row-NamesLack line g l.0)
          (All-append (NamesLack c) gs (new_netlist ∷ []) h (tt, tt)))

  pub get_netlist_data-NamesLack :
      (lines : List Bytes) → All (Lacks c) lines → All (NamesLack c) (get_netlist_data lines [])
  unfolding get_netlist_data
  get_netlist_data-NamesLack lines l = read_netlist-NamesLack 0 (b' ' ∷ []) lines [] l tt

-- What all groups have, those that drive a relay have.
pub relay_groups-All :
    (P : NetlistData → Type 0) (gs relays : List NetlistData)
    → All P gs
    → relay_groups gs ≡ ok relays
    → All P relays
unfolding relay_groups
relay_groups-All P [] relays h e = let same : [] ≡ relays = cc e in subst (All P) same tt
relay_groups-All P (g ∷ gs) relays h e =
    let (found, f, e') = >>=-eq-ok (has_relay (rows g)) _ e in
    let (rest, r, last) = >>=-eq-ok (relay_groups gs) _ e' in
    let kept = relay_groups-All P gs rest h.1 r in
    let same : (if found then g ∷ rest else rest) ≡ relays = cc last in
    subst (All P) same (both found rest kept)
  where
    both : (b : Bool) (rest : List NetlistData) → All P rest → All P (if b then g ∷ rest else rest)
    both true rest k = (h.0, k)
    both false rest k = k
