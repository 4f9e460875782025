-- ===== src/Input/Chain/Abridged.antt =====
-- The loops of `getDeviceOrder` as functions of the identifier of the last device.
use relay_dev.Common.{
  ℕ, zero, suc, ◌≡◌, refl, inl, inr, Bool, true, false, ◌&&◌, List, [], ◌∷◌, none, some,
  if◌then◌else◌, Bool-cases, Option-cases, Result, ok, err, out_of_fuel, ◌>>=◌,
}
use relay_dev.Common.Rounds.{ends}
use relay_dev.Text.{Bytes, equal}
use relay_dev.Data.{NetlistData, IoData}
use relay_dev.Input.Netlist.{Row, rows}
use relay_dev.Input.Chain.{
  is_dout, find_din, Devices, Pass, follow, visit, scan_rows, scan_groups, follow_chain,
}
use relay_dev.Input.Chain.Links.{Chain, last_identifier-Chain, add_device-Chain}

-- What the loops make of the identifier of the last device: the new one, and `lastDevice`.
unfoldable pub follow_row : List Row → Row → Bytes → Bytes × Bool
follow_row group r a =
    if is_dout r && equal r.identifier a
    then elim (find_din group) [ none ↦ (a, true) | some b ↦ (b, false) ]
    else (a, false)

unfoldable pub follow_rows : List Row → List Row → Bytes → Bytes × Bool
follow_rows group [] a = (a, false)
follow_rows group (r ∷ rs) a = elim (follow_row group r a).1 [
  | true ↦ ((follow_row group r a).0, true)
  | false ↦ follow_rows group rs (follow_row group r a).0
]

unfoldable pub follow_groups : List NetlistData → Bytes → Bytes × Bool
follow_groups [] a = (a, false)
follow_groups (g ∷ gs) a = elim (follow_rows (rows g) (rows g) a).1 [
  | true ↦ ((follow_rows (rows g) (rows g) a).0, true)
  | false ↦ follow_groups gs (follow_rows (rows g) (rows g) a).0
]

abbrev pub AnyLink : Bytes → Bytes → Type 0
AnyLink a b = Unit

module _ (first : Bytes) where
  -- The result of a loop has the last device and the flag of its abridged form.
  abbrev Tracks : Bytes × Bool → Result Pass → Type 0
  Tracks (b, over) (ok (s, last_device)) =
      Chain AnyLink first s.io_data s.expanders b × (last_device ≡ over)
  Tracks (b, over) (err e) = ⊥

  -- One loop after another, as the code chains them.
  on-Tracks :
      (m : Result Pass) (x : Bytes × Bool) (k : Devices → Result Pass) (next : Bytes → Bytes × Bool)
      → Tracks x m
      → ((s : Devices) (b : Bytes)
          → Chain AnyLink first s.io_data s.expanders b
          → Tracks (next b) (k s))
      → Tracks
          (elim x.1 [ true ↦ (x.0, true) | false ↦ next x.0 ])
          (m >>= λ (s', last_device). elim last_device [ true ↦ ok (s', true) | false ↦ k s' ])
  on-Tracks (err e) x k next h go = absurd h
  on-Tracks (ok (s, true)) (b, true) k next h go = h
  on-Tracks (ok (s, false)) (b, false) k next h go = go s b h.0
  on-Tracks (ok (s, true)) (b, false) k next h go = cc h.1
  on-Tracks (ok (s, false)) (b, true) k next h go = cc h.1

  visit-Tracks :
      (group : List Row) (r : Row) (s : Devices) (a : Bytes)
      → Chain AnyLink first s.io_data s.expanders a
      → Tracks (follow_row group r a) (visit group r s)
  unfolding visit follow_row
  visit-Tracks group r s a c = elim (Bool-cases (is_dout r)) [
    | inr other ↦ rw other (c, refl)
    | inl dout ↦
        rw (dout, last_identifier-Chain {s = s} c refl refl)
          (elim (Bool-cases (equal r.identifier a)) [
            | inr differs ↦ rw differs (c, refl)
            | inl same ↦ rw same (elim (Option-cases (find_din group)) [
              | inl missed ↦ rw (missed, follow) (c, refl)
              | inr (b, found) ↦ rw (found, follow) (add_device-Chain c tt, refl)
            ])
          ])
  ]

  scan_rows-Tracks :
      (group rs : List Row) (s : Devices) (a : Bytes)
      → Chain AnyLink first s.io_data s.expanders a
      → Tracks (follow_rows group rs a) (scan_rows group rs s)
  unfolding scan_rows follow_rows
  scan_rows-Tracks group [] s a c = (c, refl)
  scan_rows-Tracks group (r ∷ rs) s a c =
      on-Tracks (visit group r s) (follow_row group r a) (scan_rows group rs) (follow_rows group rs)
        (visit-Tracks group r s a c) (scan_rows-Tracks group rs)

  scan_groups-Tracks :
      (gs : List NetlistData) (s : Devices) (a : Bytes)
      → Chain AnyLink first s.io_data s.expanders a
      → Tracks (follow_groups gs a) (scan_groups gs s)
  unfolding scan_groups follow_groups
  scan_groups-Tracks [] s a c = (c, refl)
  scan_groups-Tracks (g ∷ gs) s a c =
      on-Tracks (scan_rows (rows g) (rows g) s) (follow_rows (rows g) (rows g) a) (scan_groups gs)
        (follow_groups gs) (scan_rows-Tracks (rows g) (rows g) s a c) (scan_groups-Tracks gs)

  -- The loop returns exactly if its abridged form ends.
  abbrev pub Agrees : Bool → Result (List IoData) → Type 0
  Agrees true m = (io : List IoData) × (m ≡ ok io)
  Agrees false m = m ≡ err out_of_fuel

  pub follow_chain-Agrees :
      (fuel : ℕ) (gs : List NetlistData) (s : Devices) (a : Bytes)
      → Chain AnyLink first s.io_data s.expanders a
      → Agrees (ends (follow_groups gs) fuel a) (follow_chain fuel gs s)
  unfolding ends follow_chain
  follow_chain-Agrees zero gs s a c = refl
  follow_chain-Agrees (suc fuel) gs s a c =
      go (scan_groups gs s) (follow_groups gs a) (scan_groups-Tracks gs s a c)
        (follow_chain-Agrees fuel gs)
    where
      go :
          (m : Result Pass) (x : Bytes × Bool)
          → Tracks x m
          → ((s' : Devices) (b : Bytes)
              → Chain AnyLink first s'.io_data s'.expanders b
              → Agrees (ends (follow_groups gs) fuel b) (follow_chain fuel gs s'))
          → Agrees
              (elim x.1 [ true ↦ true | false ↦ ends (follow_groups gs) fuel x.0 ])
              (m >>= λ (s', last_device). elim last_device [
                | true ↦ ok s'.io_data
                | false ↦ follow_chain fuel gs s'
              ])
      go (err e) x h ih = absurd h
      go (ok (s', true)) (b, true) h ih = (s'.io_data, refl)
      go (ok (s', false)) (b, false) h ih = ih s' b h.0
      go (ok (s', true)) (b, false) h ih = cc h.1
      go (ok (s', false)) (b, true) h ih = cc h.1
