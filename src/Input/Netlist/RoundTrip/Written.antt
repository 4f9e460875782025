-- ===== src/Input/Netlist/RoundTrip/Written.antt =====
-- The lines of a netlist that is written: what getNetlistData of Input.cpp makes of their first column.
use mathlib.Core.List.{map-append}
use relay_dev.Common.{
  ℕ, zero, suc, ◌≡◌, ◌≢◌, refl, sym, ap, ◌∙◌, inl, inr, true, false, List, [], ◌∷◌, ◌++◌, map,
  arith, Bool-cases, replicate, All,
}
use relay_dev.Text.{Bytes, equal, cell, upper}
use relay_dev.Text.Search.{Lacks, equal_iff, cell-append}
use relay_dev.Input.Netlist.{Row, starts_group}
use relay_dev.Input.Netlist.Columns.{blanks, write_row, IsWritable}
use relay_dev.Input.Netlist.Names.{IsProper}

-- A row in upper case that can be written.
pub record IsLine (r : Row) : Type 0 where
  pub writable : IsWritable r
  pub has_name : r.name ≢ []
  pub name : map upper r.name ≡ r.name
  pub identifier : map upper r.identifier ≡ r.identifier
  pub connection : map upper r.connection ≡ r.connection
  pub device : map upper r.device ≡ r.device

upper-replicate : (n : ℕ) → map upper (replicate n b' ') ≡ replicate n b' '
unfolding upper
upper-replicate zero = refl
upper-replicate (suc n) = ap (◌∷◌ b' ') (upper-replicate n)

upper-blanks :
    (f s : Bytes) (n : ℕ)
    → map upper f ≡ f
    → map upper s ≡ s
    → map upper (f ++ blanks n s) ≡ f ++ blanks n s
unfolding upper
upper-blanks f s n e h = rw (
  map-append upper f (blanks n s),
  e,
  map-append upper (replicate n b' ') s,
  upper-replicate n,
  h,
)

-- The lines of the rows, with any number of blanks between the columns.
module _ (a b c : ℕ) where
  abbrev pub write : Row → Bytes
  write = write_row a b c

  upper-write : (r : Row) → IsLine r → map upper (write r) ≡ write r
  unfolding write_row
  upper-write r l =
      upper-blanks r.name (r.identifier ++ blanks b (r.connection ++ blanks c r.device)) a l.name (
        upper-blanks r.identifier (r.connection ++ blanks c r.device) b l.identifier
          (upper-blanks r.connection r.device c l.connection l.device))

  pub upper-lines : (rs : List Row) → All IsLine rs → map (map upper) (map write rs) ≡ map write rs
  upper-lines [] ls = refl
  upper-lines (r ∷ rs) ls = rw (upper-write r ls.0, upper-lines rs ls.1)

  pub cell-write : (r : Row) → IsLine r → cell b' ' (write r) ≡ r.name
  unfolding write_row
  cell-write r l =
      cell-append b' ' r.name
        (replicate a b' ' ++ (r.identifier ++ blanks b (r.connection ++ blanks c r.device)))
        l.writable.name

  pub write-IsProper : (r : Row) → IsLine r → IsProper (write r)
  unfolding write_row equal
  write-IsProper r l = go r.name l.has_name l.writable.name
    where
      go :
          (n : Bytes)
          → n ≢ []
          → Lacks b' ' n
          → equal
              (n ++ blanks a (r.identifier ++ blanks b (r.connection ++ blanks c r.device)))
              (b' ' ∷ [])
            ≡ false
      go [] ne h = absurd (ne refl)
      go (x ∷ n) ne h = rw h.0

  pub stays :
      (h : Bytes) (r : Row) → cell b' ' h ≡ r.name → IsLine r → starts_group h (write r) ≡ false
  unfolding starts_group
  stays h r e l =
      let same = (equal_iff (cell b' ' h) (cell b' ' (write r))).1 (e ∙ sym (cell-write r l)) in
      ground arith

  pub starts :
      (h : Bytes) (r : Row)
      → cell b' ' h ≢ r.name
      → IsProper h
      → IsLine r
      → starts_group h (write r) ≡ true
  unfolding starts_group
  starts h r ne p l = elim (Bool-cases (equal (cell b' ' h) (cell b' ' (write r)))) [
    | inl same ↦
        absurd (ne ((equal_iff (cell b' ' h) (cell b' ' (write r))).0 same ∙ cell-write r l))
    | inr differ ↦ ground arith
  ]
