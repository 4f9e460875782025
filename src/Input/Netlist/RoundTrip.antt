-- ===== src/Input/Netlist/RoundTrip.antt =====
-- A netlist that is written line by line, read back by getNetlistData of Input.cpp.
pub mod Written
use mathlib.Core.List.{map-append}
use relay_dev.Common.{
  ℕ, zero, suc, ◌≡◌, ◌≢◌, refl, sym, ap, subst, ◌∙◌, inl, inr, true, false, List, [], ◌∷◌, ◌++◌,
  map, append_assoc, append-nil, arith, Bool-cases, length, replicate, All, All-append,
}
use relay_dev.Text.{Bytes, equal, cell, upper}
use relay_dev.Text.Search.{Lacks, equal_iff, cell-append}
use relay_dev.Data.{NetlistData, new_netlist}
use relay_dev.Input.Netlist.{
  Row, read_row, push_row, starts_group, get_netlist_data, zip_rows, rows,
}
use relay_dev.Input.Netlist.Columns.{blanks, write_row, IsWritable, read_row-write}
use relay_dev.Input.Netlist.Groups.{collect, runs, get_netlist_data-runs}
use relay_dev.Input.Netlist.Lines.{all_rows, IsAligned}
use relay_dev.Input.Netlist.Names.{IsRun, Alternates, single, switch, IsProper}
use relay_dev.Input.Netlist.RoundTrip.Written.{
  IsLine, upper-lines, cell-write, write-IsProper, stays, starts,
}

-- The rows join the group, one after the other.
fill : NetlistData → List Row → NetlistData
fill g [] = g
fill g (r ∷ rs) = fill (push_row r g) rs

fill-zip :
    (g : NetlistData) (ns is cs ds : List Bytes)
    → length is ≡ length ns
    → length cs ≡ length ns
    → length ds ≡ length ns
    → fill g (zip_rows ns is cs ds) ≡ record {
      name = g.name ++ ns;
      identifier = g.identifier ++ is;
      connection = g.connection ++ cs;
      device = g.device ++ ds;
    }
unfolding fill zip_rows
fill-zip g [] [] [] [] p q s =
    rw (append-nil g.name, append-nil g.identifier, append-nil g.connection, append-nil g.device)
fill-zip g (n ∷ ns) (i ∷ is) (k ∷ cs) (d ∷ ds) p q s =
    fill-zip (push_row (record { name = n; identifier = i; connection = k; device = d }) g) ns is cs
      ds (omega arith) (omega arith) (omega arith)
    ∙ rw (
      append_assoc g.name (n ∷ []) ns,
      append_assoc g.identifier (i ∷ []) is,
      append_assoc g.connection (k ∷ []) cs,
      append_assoc g.device (d ∷ []) ds,
    )
fill-zip g _ _ _ _ p q s = absurd (omega arith)

fill-rows : (g : NetlistData) → IsAligned g → fill new_netlist (rows g) ≡ g
unfolding rows
fill-rows g al =
    fill-zip new_netlist g.name g.identifier g.connection g.device al.identifiers al.connections
      al.devices

module _ (a b c : ℕ) where
  abbrev write : Row → Bytes
  write = write_row a b c

  -- Lines of one name go to the group at hand.
  collect-fill :
      (g : NetlistData) (h n : Bytes) (qs : List Row) (lines : List Bytes)
      → cell b' ' h ≡ n
      → IsProper h
      → All IsLine qs
      → All (λ (r : Row). r.name ≡ n) qs
      → (h' : Bytes) × (cell b' ' h' ≡ n)
        × IsProper h'
        × (collect g h (map write qs ++ lines) ≡ collect (fill g qs) h' lines)
  unfolding collect fill
  collect-fill g h n [] lines e p ls ns = (h, e, p, refl)
  collect-fill g h n (r ∷ qs) lines e p ls ns =
      let (h', e', p', rest) =
        collect-fill (push_row r g) (write r) n qs lines (cell-write a b c r ls.0 ∙ ns.0)
          (write-IsProper a b c r ls.0) ls.1 ns.1 in
      (
        h',
        e',
        p',
        rw (stays a b c h r (e ∙ sym ns.0) ls.0, read_row-write a b c r ls.0.writable) rest,
      )

  -- The lines of one group, the first of which has started it.
  collect-run :
      (g : NetlistData) (n : Bytes) (r : Row) (qs : List Row) (lines : List Bytes)
      → rows g ≡ r ∷ qs
      → IsAligned g
      → All IsLine (r ∷ qs)
      → All (λ (x : Row). x.name ≡ n) (r ∷ qs)
      → (h : Bytes) × (cell b' ' h ≡ n)
        × IsProper h
        × (collect (push_row (read_row (write r)) new_netlist) (write r) (map write qs ++ lines)
            ≡ collect g h lines)
  unfolding fill
  collect-run g n r qs lines e al ls ns =
      let (h, at, p, same) =
        collect-fill (push_row r new_netlist) (write r) n qs lines (cell-write a b c r ls.0 ∙ ns.0)
          (write-IsProper a b c r ls.0) ls.1 ns.1 in
      let whole : fill (push_row r new_netlist) qs ≡ g =
        ap (fill new_netlist) (sym e) ∙ fill-rows g al in
      (
        h,
        at,
        p,
        rw (read_row-write a b c r ls.0.writable) (same ∙ ap (λ k. collect k h lines) whole),
      )

  zip_rows-named :
      (n : Bytes) (ns is cs ds : List Bytes)
      → All (λ m. m ≡ n) ns
      → All (λ (r : Row). r.name ≡ n) (zip_rows ns is cs ds)
  unfolding zip_rows
  zip_rows-named n [] is cs ds h = tt
  zip_rows-named n (x ∷ ns) [] cs ds h = tt
  zip_rows-named n (x ∷ ns) (i ∷ is) [] ds h = tt
  zip_rows-named n (x ∷ ns) (i ∷ is) (k ∷ cs) [] h = tt
  zip_rows-named n (x ∷ ns) (i ∷ is) (k ∷ cs) (d ∷ ds) h = (h.0, zip_rows-named n ns is cs ds h.1)

  -- A group of one name has a first row, and rows of that name.
  rows-IsRun :
      (g : NetlistData) (n : Bytes)
      → IsRun n g
      → IsAligned g
      → (r : Row) × (qs : List Row) × (rows g ≡ r ∷ qs) × All (λ (x : Row). x.name ≡ n) (r ∷ qs)
  unfolding rows fill
  rows-IsRun g n run al =
      let named = zip_rows-named n g.name g.identifier g.connection g.device run.named in
      go (rows g) refl named
    where
      go :
          (rs : List Row)
          → rows g ≡ rs
          → All (λ (x : Row). x.name ≡ n) rs
          → (r : Row) × (qs : List Row) × (rows g ≡ r ∷ qs) × All (λ (x : Row). x.name ≡ n) (r ∷ qs)
      go [] e ns =
          let same : new_netlist ≡ g = ap (fill new_netlist) (sym e) ∙ fill-rows g al in
          absurd (run.filled (sym (ap (λ k. k.name) same)))
      go (r ∷ qs) e ns = (r, qs, e, ns)

  first-IsRun :
      {n : Bytes} {g : NetlistData} {gs : List NetlistData} → Alternates n (g ∷ gs) → IsRun n g
  first-IsRun (single run) = run
  first-IsRun (switch run ne rest) = run

  collect-groups :
      (g : NetlistData) (h n : Bytes) (gs : List NetlistData)
      → Alternates n (g ∷ gs)
      → cell b' ' h ≡ n
      → IsProper h
      → All IsAligned gs
      → All (λ k. All IsLine (rows k)) gs
      → collect g h (map write (all_rows gs)) ≡ g ∷ gs
  unfolding collect all_rows
  collect-groups g h n [] alt e p al ls = refl
  collect-groups g h n (k ∷ ks) (switch {m} run ne alt) e p al ls =
      let (r, qs, first, ns) = rows-IsRun k m (first-IsRun alt) al.0 in
      let lines = subst (All IsLine) first ls.0 in
      let (h', at, p', same) = collect-run k m r qs (map write (all_rows ks)) first al.0 lines ns in
      let begins = starts a b c h r (λ same_name. ne (sym e ∙ same_name ∙ ns.0)) p lines.0 in
      rw (first, map-append write qs (all_rows ks), begins)
        (ap (◌∷◌ g) (same ∙ collect-groups k h' m ks alt at p' al.1 ls.1))

  runs-write :
      (g : NetlistData) (n : Bytes) (gs : List NetlistData)
      → Alternates n (g ∷ gs)
      → All IsAligned (g ∷ gs)
      → All (λ k. All IsLine (rows k)) (g ∷ gs)
      → runs (map write (all_rows (g ∷ gs))) ≡ g ∷ gs
  unfolding runs all_rows
  runs-write g n gs alt al ls =
      let (r, qs, first, ns) = rows-IsRun g n (first-IsRun alt) al.0 in
      let lines = subst (All IsLine) first ls.0 in
      let (h, at, p, same) = collect-run g n r qs (map write (all_rows gs)) first al.0 lines ns in
      rw (first, map-append write qs (all_rows gs))
        (same ∙ collect-groups g h n gs alt at p al.1 ls.1)

  all_rows-All :
      (gs : List NetlistData) → All (λ k. All IsLine (rows k)) gs → All IsLine (all_rows gs)
  unfolding all_rows
  all_rows-All [] ls = tt
  all_rows-All (g ∷ gs) ls = All-append IsLine (rows g) (all_rows gs) ls.0 (all_rows-All gs ls.1)

-- Let a netlist be given as groups, each with lines of one name, and neighbours of different names; let
-- the columns be in upper case, the first three words of one character or more without a blank, and the
-- fourth without a blank in front. Written line by line, with any number of blanks between the
-- columns, it is read back as these groups, with empty ones behind them.
pub get_netlist_data-write :
    (a b c : ℕ) (n : Bytes) (g : NetlistData) (gs : List NetlistData)
    → Alternates n (g ∷ gs)
    → All IsAligned (g ∷ gs)
    → All (λ k. All IsLine (rows k)) (g ∷ gs)
    → (m : ℕ) × (get_netlist_data (map (write_row a b c) (all_rows (g ∷ gs))) []
        ≡ (g ∷ gs) ++ replicate m new_netlist)
get_netlist_data-write a b c n g gs alt al ls =
    let lines = map (write_row a b c) (all_rows (g ∷ gs)) in
    let (m, e, _) = get_netlist_data-runs lines in
    let up = upper-lines a b c (all_rows (g ∷ gs)) (all_rows-All a b c (g ∷ gs) ls) in
    (
      m,
      e
          ∙ ap (λ l. runs l ++ replicate m new_netlist) up
          ∙ ap (λ l. l ++ replicate m new_netlist) (runs-write a b c g n gs alt al ls),
    )
