-- ===== src/Input/Netlist/Groups.antt =====
-- The vector that `getNetlistData` fills: the runs of lines, and empty groups behind them.
use relay_dev.Common.{
  ℕ, zero, suc, ◌+◌, ◌≡◌, refl, sym, ap, ◌∙◌, inl, inr, List, [], ◌∷◌, ◌++◌, map, append_assoc,
  arith, if◌then◌else◌, Bool-cases, length, length-append, modify, modify-append, replicate,
}
use relay_dev.Text.{Bytes, equal, upper}
use relay_dev.Data.{NetlistData, new_netlist}
use relay_dev.Input.Netlist.{Row, read_row, push_row, starts_group, read_netlist, get_netlist_data}

-- The group `g` grows until a line starts another.
unfoldable pub collect : NetlistData → Bytes → List Bytes → List NetlistData
collect g comparator [] = g ∷ []
collect g comparator (h ∷ hs) =
    if starts_group comparator h
    then g ∷ collect (push_row (read_row h) new_netlist) h hs
    else collect (push_row (read_row h) g) h hs

unfoldable pub runs : List Bytes → List NetlistData
unfolding collect
runs [] = []
runs (h ∷ hs) = collect (push_row (read_row h) new_netlist) h hs

replicate-push :
    (n : ℕ) → replicate n new_netlist ++ new_netlist ∷ [] ≡ replicate (suc n) new_netlist
replicate-push zero = refl
replicate-push (suc n) = ap (◌∷◌ new_netlist) (replicate-push n)

abbrev Fills : List NetlistData → List NetlistData → ℕ → Type 0
Fills result groups total =
    (m : ℕ) × (result ≡ groups ++ replicate m new_netlist) × (m + length groups ≡ total)

-- One line, stored in the group at hand or in the next.
pub push-here :
    (done : List NetlistData) (g : NetlistData) (k : ℕ) (r : Row)
    → modify (length done) (push_row r) ((done ++ g ∷ replicate k new_netlist) ++ new_netlist ∷ [])
      ≡ done ++ push_row r g ∷ replicate (suc k) new_netlist
push-here done g k r =
    rw (append_assoc done (g ∷ replicate k new_netlist) (new_netlist ∷ []), replicate-push k)
      (modify-append done (push_row r) g (replicate (suc k) new_netlist))

pub push-next :
    (done : List NetlistData) (g : NetlistData) (k : ℕ) (r : Row)
    → modify
        (suc (length done))
        (push_row r)
        ((done ++ g ∷ replicate k new_netlist) ++ new_netlist ∷ [])
      ≡ (done ++ g ∷ []) ++ push_row r new_netlist ∷ replicate k new_netlist
push-next done g k r =
    let size : suc (length done) ≡ length (done ++ g ∷ []) =
      omega (arith, length-append done (g ∷ [])) in
    rw
      (
        append_assoc done (g ∷ replicate k new_netlist) (new_netlist ∷ []),
        replicate-push k,
        size,
        ← append_assoc done (g ∷ []) (new_netlist ∷ replicate k new_netlist),
      )
      (modify-append (done ++ g ∷ []) (push_row r) new_netlist (replicate k new_netlist))

read_netlist-Fills :
    (lines : List Bytes) (comparator : Bytes) (done : List NetlistData) (g : NetlistData) (k n : ℕ)
    → n ≡ length done
    → Fills
        (read_netlist n comparator lines (done ++ g ∷ replicate k new_netlist))
        (done ++ collect g comparator (map (map upper) lines))
        (length done + suc k + length lines)
unfolding read_netlist collect
read_netlist-Fills [] comparator done g k n h = (
  k,
  sym (append_assoc done (g ∷ []) (replicate k new_netlist)),
  omega (arith, length-append done (g ∷ [])),
)
read_netlist-Fills (line ∷ lines) comparator done g k n h =
    elim (Bool-cases (starts_group comparator (map upper line))) [
      | inl starts ↦
          let r = read_row (map upper line) in
          let rest = collect (push_row r new_netlist) (map upper line) (map (map upper) lines) in
          let (m, e, size) =
            read_netlist-Fills lines (map upper line) (done ++ g ∷ []) (push_row r new_netlist) k
              (suc (length done)) (omega (arith, length-append done (g ∷ []))) in
          rw (starts, h, push-next done g k r)
            (
              m,
              e ∙ ap (λ l. l ++ replicate m new_netlist) (append_assoc done (g ∷ []) rest),
              omega (
                arith,
                size,
                ap length (append_assoc done (g ∷ []) rest),
                length-append done (g ∷ []),
              ),
            )
      | inr stays ↦
          let r = read_row (map upper line) in
          let (m, e, size) =
            read_netlist-Fills lines (map upper line) done (push_row r g) (suc k) (length done)
              refl in
          rw (stays, h, push-here done g k r) (m, e, omega (arith, size))
    ]

-- On a new Input the vector has an element for each line: first the runs of lines with one name,
-- then empty groups.
pub get_netlist_data-runs :
    (lines : List Bytes)
    → (m : ℕ) × (get_netlist_data lines []
        ≡ runs (map (map upper) lines) ++ replicate m new_netlist)
      × (m + length (runs (map (map upper) lines)) ≡ length lines)
unfolding get_netlist_data read_netlist runs starts_group equal
get_netlist_data-runs [] = (0, refl, omega arith)
get_netlist_data-runs (line ∷ lines) =
    let (m, e, size) =
      read_netlist-Fills lines (map upper line) []
        (push_row (read_row (map upper line)) new_netlist) 0 0 refl in
    (m, e, omega (arith, size))
