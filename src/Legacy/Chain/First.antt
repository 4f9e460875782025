-- ===== src/Legacy/Chain/First.antt =====
-- getFirstDevice of relay.cpp beside the search for the first expander in `getDeviceOrder` of Input.cpp.
use relay_dev.Common.{
  ◌≡◌, ◌≢◌, refl, sym, ap, ◌∙◌, ◌⊎◌, inl, inr, Bool, true, false, not, ◌&&◌, List, [], ◌∷◌, some,
  All, Bool-cases, arith,
}
use relay_dev.Text.{Bytes, codes, equal}
use relay_dev.Text.Search.{equal_iff}
use relay_dev.Data.{NetlistData, IoData}
use relay_dev.Input.Netlist.{Row, rows}
use relay_dev.Input.Chain.{is_din, is_dout, output_mark, scan_first, find_first, find_din}
use relay_dev.Input.Filter.{is_expander}
use relay_dev.Legacy.Chain.{scan_flags, find_expander, set_first, get_first_device}

din-dout : (r : Row) → is_din r ≡ true → is_dout r ≡ false
unfolding is_din is_dout equal
din-dout r h = elim (Bool-cases (is_expander r)) [
  | inr other ↦ rw other
  | inl expander ↦
      let at : equal r.connection (codes "33") ≡ true = ground arith in
      let same = (equal_iff r.connection (codes "33")).0 at in rw (expander, same)
]

scan_first-output :
    (rs : List Row) (identifier : Bytes) (input : Bool)
    → (scan_flags rs input).1 ≡ true
    → scan_first rs identifier ≡ output_mark
unfolding scan_first scan_flags
scan_first-output [] identifier input h = cc
scan_first-output (r ∷ rs) identifier input h = elim (Bool-cases (is_din r)) [
  | inl din ↦
      let flags : (scan_flags rs true).1 ≡ true = rw (din, scan_flags) at h in
      elim (Bool-cases (equal identifier [])) [
        | inl fresh ↦ rw (din, fresh, scan_first) (scan_first-output rs r.identifier true flags)
        | inr named ↦
            rw (din, named, din-dout r din, scan_first) (scan_first-output rs identifier true flags)
      ]
  | inr no_din ↦ elim (Bool-cases (is_dout r)) [
    | inl dout ↦ rw (no_din, dout, scan_first)
    | inr no_dout ↦
        rw (no_din, no_dout, scan_first)
          (scan_first-output rs identifier input (rw (no_din, no_dout, scan_flags) at h))
  ]
]

scan_first-named :
    (rs : List Row) (identifier : Bytes) (input : Bool)
    → equal identifier [] ≡ false
    → (scan_flags rs input).1 ≡ false
    → scan_first rs identifier ≡ identifier
unfolding scan_first scan_flags
scan_first-named [] identifier input named h = refl
scan_first-named (r ∷ rs) identifier input named h = elim (Bool-cases (is_din r)) [
  | inl din ↦
      rw (din, named, din-dout r din, scan_first)
        (scan_first-named rs identifier true named (rw (din, scan_flags) at h))
  | inr no_din ↦ elim (Bool-cases (is_dout r)) [
    | inl dout ↦ cc (rw (no_din, dout, scan_flags) at h)
    | inr no_dout ↦
        rw (no_din, no_dout, scan_first)
          (scan_first-named rs identifier input named (rw (no_din, no_dout, scan_flags) at h))
  ]
]

-- Without an output, the search takes the first input.
scan_first-din :
    (rs : List Row) (b : Bytes)
    → find_din rs ≡ some b
    → equal b [] ≡ false
    → (scan_flags rs false).1 ≡ false
    → scan_first rs [] ≡ b
unfolding scan_first scan_flags find_din equal
scan_first-din [] b found named h = cc
scan_first-din (r ∷ rs) b found named h = elim (Bool-cases (is_din r)) [
  | inl din ↦
      let same : r.identifier ≡ b = cc (rw (din, find_din) at found) in
      rw (din, same, scan_first) (scan_first-named rs b true named (rw (din, scan_flags) at h))
  | inr no_din ↦ elim (Bool-cases (is_dout r)) [
    | inl dout ↦ cc (rw (no_din, dout, scan_flags) at h)
    | inr no_dout ↦
        rw (no_din, no_dout, scan_first)
          (scan_first-din rs b (rw (no_din, find_din) at found) named
            (rw (no_din, no_dout, scan_flags) at h))
  ]
]

scan_flags-true : (rs : List Row) → (scan_flags rs true).0 ≡ true
unfolding scan_flags
scan_flags-true [] = refl
scan_flags-true (r ∷ rs) = elim (Bool-cases (is_din r)) [
  | inl din ↦ rw (din, scan_flags) (scan_flags-true rs)
  | inr no_din ↦ elim (Bool-cases (is_dout r)) [
    | inl dout ↦ rw (no_din, dout, scan_flags)
    | inr no_dout ↦ rw (no_din, no_dout, scan_flags) (scan_flags-true rs)
  ]
]

scan_first-nothing : (rs : List Row) → scan_flags rs false ≡ (false, false) → scan_first rs [] ≡ []
unfolding scan_first scan_flags
scan_first-nothing [] h = refl
scan_first-nothing (r ∷ rs) h = elim (Bool-cases (is_din r)) [
  | inl din ↦ cc (sym (scan_flags-true rs) ∙ ap (λ m. m.0) (rw (din, scan_flags) at h))
  | inr no_din ↦ elim (Bool-cases (is_dout r)) [
    | inl dout ↦ cc (rw (no_din, dout, scan_flags) at h)
    | inr no_dout ↦
        rw (no_din, no_dout, scan_first)
          (scan_first-nothing rs (rw (no_din, no_dout, scan_flags) at h))
  ]
]

-- A group with an input and no output has a name, and its first expander is that of its first input.
abbrev pub StartsAlike : NetlistData → Type 0
StartsAlike g =
    (scan_flags (rows g) false ≢ (true, false))
    ⊎ ((b : Bytes) × (find_din (rows g) ≡ some b)
        × (find_expander (rows g) ≡ some b)
        × (equal b [] ≡ false)
        × (equal b output_mark ≡ false))

pub get_first_device-agrees :
    (gs : List NetlistData) (list : List IoData)
    → All StartsAlike gs
    → get_first_device gs list ≡ set_first (find_first gs) list
unfolding get_first_device find_first equal
get_first_device-agrees [] list h = refl
get_first_device-agrees (g ∷ gs) list h =
    go (scan_flags (rows g) false) refl h.0 (get_first_device-agrees gs list h.1)
  where
    skipped :
        (identifier : Bytes)
        → scan_first (rows g) [] ≡ identifier
        → (not (equal identifier []) && not (equal identifier output_mark)) ≡ false
        → find_first (g ∷ gs) ≡ find_first gs
    skipped identifier e skips = rw (e, find_first, skips)

    go :
        (flags : Bool × Bool)
        → scan_flags (rows g) false ≡ flags
        → StartsAlike g
        → get_first_device gs list ≡ set_first (find_first gs) list
        → get_first_device (g ∷ gs) list ≡ set_first (find_first (g ∷ gs)) list
    go (true, false) e (inl other) ih = absurd (other e)
    go (true, false) e (inr (b, din, expander, named, unmarked)) ih =
        let first = scan_first-din (rows g) b din named (ap (λ m. m.1) e) in
        rw (e, get_first_device, expander, first, find_first, named, unmarked)
    go (true, true) e _ ih =
        rw (e, get_first_device)
          (ih
            ∙ sym (
                ap (λ m. set_first m list)
                  (skipped output_mark (scan_first-output (rows g) [] false (ap (λ m. m.1) e))
                    refl)))
    go (false, true) e _ ih =
        rw (e, get_first_device)
          (ih
            ∙ sym (
                ap (λ m. set_first m list)
                  (skipped output_mark (scan_first-output (rows g) [] false (ap (λ m. m.1) e))
                    refl)))
    go (false, false) e _ ih =
        rw (e, get_first_device)
          (ih ∙ sym (ap (λ m. set_first m list) (skipped [] (scan_first-nothing (rows g) e) refl)))
