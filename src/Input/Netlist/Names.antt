-- ===== src/Input/Netlist/Names.antt =====
-- The groups of a netlist are the maximal runs of lines with one name.
use relay_dev.Common.{
  ◌≡◌, ◌≢◌, refl, sym, inl, inr, true, false, List, [], ◌∷◌, ◌++◌, arith, Bool-cases, All,
  All-append,
}
use relay_dev.Text.{Bytes, equal, cell}
use relay_dev.Text.Search.{equal_iff}
use relay_dev.Data.{NetlistData, new_netlist}
use relay_dev.Input.Netlist.{read_row, push_row, starts_group}
use relay_dev.Input.Netlist.Groups.{collect, runs}

-- A group that is not empty, all of whose lines have this name.
pub record IsRun (n : Bytes) (g : NetlistData) : Type 0 where
  pub filled : g.name ≢ []
  pub named : All (λ m. m ≡ n) g.name

-- The first group has the name `n`, and each group another name than the one before it.
pub data Alternates : Bytes → List NetlistData → Type 0 where
  single : {n : Bytes} {g : NetlistData} → IsRun n g → Alternates n (g ∷ [])
  switch :
      {n m : Bytes} {g : NetlistData} {gs : List NetlistData}
      → IsRun n g
      → n ≢ m
      → Alternates m gs
      → Alternates n (g ∷ gs)

-- The line is not the text " ", by which the loop knows that it has read no line yet.
abbrev pub IsProper : Bytes → Type 0
IsProper h = equal h (b' ' ∷ []) ≡ false

starts-ne :
    (comparator h : Bytes) → starts_group comparator h ≡ true → cell b' ' comparator ≢ cell b' ' h
unfolding starts_group
starts-ne comparator h e same =
    ground (arith, (equal_iff (cell b' ' comparator) (cell b' ' h)).1 same)

stays-eq :
    (comparator h : Bytes)
    → IsProper comparator
    → starts_group comparator h ≡ false
    → cell b' ' h ≡ cell b' ' comparator
unfolding starts_group
stays-eq comparator h p e = sym ((equal_iff (cell b' ' comparator) (cell b' ' h)).0 (ground arith))

append-ne-nil : (xs : List Bytes) (x : Bytes) → xs ++ x ∷ [] ≢ []
append-ne-nil [] x e = cc
append-ne-nil (y ∷ xs) x e = cc

push-IsRun :
    (n h : Bytes) (g : NetlistData)
    → All (λ m. m ≡ n) g.name
    → cell b' ' h ≡ n
    → IsRun n (push_row (read_row h) g)
unfolding read_row
push-IsRun n h g a e = record {
  filled = append-ne-nil g.name (cell b' ' h);
  named = All-append (λ m. m ≡ n) g.name (cell b' ' h ∷ []) a (e, tt);
}

collect-Alternates :
    (g : NetlistData) (comparator : Bytes) (hs : List Bytes)
    → IsRun (cell b' ' comparator) g
    → IsProper comparator
    → All IsProper hs
    → Alternates (cell b' ' comparator) (collect g comparator hs)
unfolding collect
collect-Alternates g comparator [] run p ps = single run
collect-Alternates g comparator (h ∷ hs) run p ps = elim (Bool-cases (starts_group comparator h)) [
  | inl starts ↦ rw starts (
      switch run (starts-ne comparator h starts) (
        collect-Alternates (push_row (read_row h) new_netlist) h hs
          (push-IsRun (cell b' ' h) h new_netlist tt refl) ps.0 ps.1))
  | inr stays ↦
      let same = stays-eq comparator h p stays in
      rw (stays, ← same)
        (collect-Alternates (push_row (read_row h) g) h hs
          (push-IsRun (cell b' ' h) h g (rw (← same) at run.named) refl) ps.0 ps.1)
]

-- If no line is a single blank, consecutive lines with one name form one group, and a line with
-- another name starts another: no group mixes names, none is empty, and neighbours differ.
pub runs-Alternates :
    (h : Bytes) (hs : List Bytes) → All IsProper (h ∷ hs) → Alternates (cell b' ' h) (runs (h ∷ hs))
unfolding runs
runs-Alternates h hs ps =
    collect-Alternates (push_row (read_row h) new_netlist) h hs
      (push-IsRun (cell b' ' h) h new_netlist tt refl) ps.0 ps.1
