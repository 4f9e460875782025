-- ===== src/Input/Netlist/Lines.antt =====
-- The rows of the netlist, and the lengths of its vectors.
use relay_dev.Common.{
  ℕ, zero, suc, ◌≡◌, refl, sym, ap, ◌∙◌, inl, inr, List, [], ◌∷◌, ◌++◌, map, append_assoc,
  append-nil, arith, Bool-cases, length, length-append, replicate, length-replicate, All,
  All-append,
}
use relay_dev.Text.{Bytes, upper}
use relay_dev.Data.{NetlistData, new_netlist}
use relay_dev.Input.Netlist.{
  Row, read_row, push_row, starts_group, get_netlist_data, zip_rows, rows,
}
use relay_dev.Input.Netlist.Groups.{collect, runs, get_netlist_data-runs}

-- All rows of all groups, in order.
unfoldable pub all_rows : List NetlistData → List Row
all_rows [] = []
all_rows (g ∷ gs) = rows g ++ all_rows gs

-- The four vectors of a group have one length.
pub record IsAligned (g : NetlistData) : Type 0 where
  pub identifiers : length g.identifier ≡ length g.name
  pub connections : length g.connection ≡ length g.name
  pub devices : length g.device ≡ length g.name

pub push_row-IsAligned : (r : Row) (g : NetlistData) → IsAligned g → IsAligned (push_row r g)
push_row-IsAligned r g a = record {
  identifiers =
      omega
        (arith, length-append g.identifier (r.identifier ∷ []), length-append g.name (r.name ∷ []));
  connections =
      omega
        (arith, length-append g.connection (r.connection ∷ []), length-append g.name (r.name ∷ []));
  devices =
      omega (arith, length-append g.device (r.device ∷ []), length-append g.name (r.name ∷ []));
}

zip_rows-push :
    (ns is cs ds : List Bytes) (r : Row)
    → length is ≡ length ns
    → length cs ≡ length ns
    → length ds ≡ length ns
    → zip_rows
        (ns ++ r.name ∷ [])
        (is ++ r.identifier ∷ [])
        (cs ++ r.connection ∷ [])
        (ds ++ r.device ∷ [])
      ≡ zip_rows ns is cs ds ++ r ∷ []
unfolding zip_rows
zip_rows-push [] [] [] [] r p q s = refl
zip_rows-push (n ∷ ns) (i ∷ is) (c ∷ cs) (d ∷ ds) r p q s =
    ap (◌∷◌ (record { name = n; identifier = i; connection = c; device = d }))
      (zip_rows-push ns is cs ds r (omega arith) (omega arith) (omega arith))
zip_rows-push _ _ _ _ r p q s = absurd (omega arith)

pub rows-push_row :
    (r : Row) (g : NetlistData) → IsAligned g → rows (push_row r g) ≡ rows g ++ r ∷ []
unfolding rows
rows-push_row r g a =
    zip_rows-push g.name g.identifier g.connection g.device r a.identifiers a.connections a.devices

pub new-IsAligned : IsAligned new_netlist
new-IsAligned = record { identifiers = refl; connections = refl; devices = refl }

collect-rows :
    (g : NetlistData) (comparator : Bytes) (hs : List Bytes)
    → IsAligned g
    → all_rows (collect g comparator hs) ≡ rows g ++ map read_row hs
unfolding collect all_rows
collect-rows g comparator [] a = refl
collect-rows g comparator (h ∷ hs) a = elim (Bool-cases (starts_group comparator h)) [
  | inl starts ↦ rw starts (
      ap (◌++◌ (rows g)) (
        collect-rows (push_row (read_row h) new_netlist) h hs
          (push_row-IsAligned (read_row h) new_netlist new-IsAligned)
        ∙ rw (rows-push_row (read_row h) new_netlist new-IsAligned) (unfold rows zip_rows in refl)))
  | inr stays ↦ rw stays (
      collect-rows (push_row (read_row h) g) h hs (push_row-IsAligned (read_row h) g a)
      ∙ rw (rows-push_row (read_row h) g a)
          (append_assoc (rows g) (read_row h ∷ []) (map read_row hs)))
]

runs-rows : (hs : List Bytes) → all_rows (runs hs) ≡ map read_row hs
unfolding runs all_rows
runs-rows [] = refl
runs-rows (h ∷ hs) =
    collect-rows (push_row (read_row h) new_netlist) h hs
      (push_row-IsAligned (read_row h) new_netlist new-IsAligned)
    ∙ rw (rows-push_row (read_row h) new_netlist new-IsAligned) (unfold rows zip_rows in refl)

all_rows-append : (gs hs : List NetlistData) → all_rows (gs ++ hs) ≡ all_rows gs ++ all_rows hs
unfolding all_rows
all_rows-append [] hs = refl
all_rows-append (g ∷ gs) hs =
    rw (all_rows-append gs hs) (sym (append_assoc (rows g) (all_rows gs) (all_rows hs)))

all_rows-replicate : (m : ℕ) → all_rows (replicate m new_netlist) ≡ []
unfolding all_rows rows zip_rows
all_rows-replicate zero = refl
all_rows-replicate (suc m) = all_rows-replicate m

-- On a new Input no line is lost, doubled or moved: the groups' rows, one group after the other,
-- are the lines in upper case, each read in its columns; and the vector is as long as the file.
pub get_netlist_data-rows :
    (lines : List Bytes)
    → (all_rows (get_netlist_data lines []) ≡ map read_row (map (map upper) lines))
      × (length (get_netlist_data lines []) ≡ length lines)
get_netlist_data-rows lines =
    let (m, e, size) = get_netlist_data-runs lines in
    let hs = map (map upper) lines in
    (
      rw (
        e,
        all_rows-append (runs hs) (replicate m new_netlist),
        all_rows-replicate m,
        runs-rows hs,
        append-nil (map read_row hs),
      ),
      omega (
        arith,
        size,
        ap length e,
        length-append (runs hs) (replicate m new_netlist),
        length-replicate m new_netlist,
      ),
    )

collect-IsAligned :
    (g : NetlistData) (comparator : Bytes) (hs : List Bytes)
    → IsAligned g
    → All IsAligned (collect g comparator hs)
unfolding collect
collect-IsAligned g comparator [] a = (a, tt)
collect-IsAligned g comparator (h ∷ hs) a = elim (Bool-cases (starts_group comparator h)) [
  | inl starts ↦ rw starts (
    a,
    collect-IsAligned (push_row (read_row h) new_netlist) h hs
        (push_row-IsAligned (read_row h) new_netlist new-IsAligned),
  )
  | inr stays ↦
      rw stays
        (collect-IsAligned (push_row (read_row h) g) h hs (push_row-IsAligned (read_row h) g a))
]

runs-IsAligned : (hs : List Bytes) → All IsAligned (runs hs)
unfolding runs
runs-IsAligned [] = tt
runs-IsAligned (h ∷ hs) =
    collect-IsAligned (push_row (read_row h) new_netlist) h hs
      (push_row-IsAligned (read_row h) new_netlist new-IsAligned)

replicate-IsAligned : (m : ℕ) → All IsAligned (replicate m new_netlist)
replicate-IsAligned zero = tt
replicate-IsAligned (suc m) = (new-IsAligned, replicate-IsAligned m)

-- In every group of every netlist the four vectors have one length, so that an index below the
-- length of one is in range in the others.
pub get_netlist_data-IsAligned : (lines : List Bytes) → All IsAligned (get_netlist_data lines [])
get_netlist_data-IsAligned lines =
    let (m, e, size) = get_netlist_data-runs lines in
    rw e (
      All-append IsAligned (runs (map (map upper) lines)) (replicate m new_netlist)
        (runs-IsAligned (map (map upper) lines)) (replicate-IsAligned m))
