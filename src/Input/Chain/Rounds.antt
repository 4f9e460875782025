-- ===== src/Input/Chain/Rounds.antt =====
-- How many rounds `getDeviceOrder` needs: one more than the netlist has data inputs, or none suffice.
use relay_dev.Common.{
  ℕ, zero, suc, ◌≤◌, ◌≡◌, refl, sym, ap, subst, ◌∙◌, inl, inr, true, false, ◌&&◌, List, [], ◌∷◌,
  ◌++◌, some, if◌then◌else◌, arith, Bool-cases, Option-cases, length, Result, ok, err, ◌>>=◌,
}
use relay_dev.Common.Rounds.{Occurs, Occurs-append, ends, ends_within}
use relay_dev.Text.{Bytes, equal}
use relay_dev.Data.{NetlistData, IoData}
use relay_dev.Input.Netlist.{Row, rows}
use relay_dev.Input.Chain.{
  is_din, is_dout, find_din, find_first, Devices, Pass, scan_groups, follow_chain, first_device,
  get_device_order,
}
use relay_dev.Input.Chain.Links.{Chain, start}
use relay_dev.Input.Chain.Endless.{get_device_order-lost}
use relay_dev.Input.Chain.Abridged.{
  follow_row, follow_rows, follow_groups, AnyLink, Agrees, follow_chain-Agrees,
}

-- The identifiers of the data inputs.
unfoldable pub din_rows : List Row → List Bytes
din_rows [] = []
din_rows (r ∷ rs) = if is_din r then r.identifier ∷ din_rows rs else din_rows rs

unfoldable pub inputs : List NetlistData → List Bytes
unfolding din_rows
inputs [] = []
inputs (g ∷ gs) = din_rows (rows g) ++ inputs gs

find_din-Occurs : (rs : List Row) (b : Bytes) → find_din rs ≡ some b → Occurs b (din_rows rs)
unfolding find_din din_rows
find_din-Occurs [] b h = cc
find_din-Occurs (r ∷ rs) b h = elim (Bool-cases (is_din r)) [
  | inl din ↦
      rw din (inl (cc (sym (ap (λ t. if t then some r.identifier else find_din rs) din) ∙ h)))
  | inr other ↦ rw other (
      find_din-Occurs rs b (sym (ap (λ t. if t then some r.identifier else find_din rs) other) ∙ h))
]

-- A round leaves the last device, or goes to a data input.
module _ (seen : List Bytes) where
  follow_row-Occurs :
      (group : List Row) (r : Row) (a : Bytes)
      → ((b : Bytes) → find_din group ≡ some b → Occurs b seen)
      → Occurs a seen
      → Occurs (follow_row group r a).0 seen
  unfolding follow_row
  follow_row-Occurs group r a dins h = elim (Bool-cases (is_dout r && equal r.identifier a)) [
    | inr other ↦ rw other h
    | inl met ↦ rw met (elim (Option-cases (find_din group)) [
      | inl missed ↦ rw (missed, follow_row) h
      | inr (b, found) ↦ rw (found, follow_row) (dins b found)
    ])
  ]

  follow_rows-Occurs :
      (group rs : List Row) (a : Bytes)
      → ((b : Bytes) → find_din group ≡ some b → Occurs b seen)
      → Occurs a seen
      → Occurs (follow_rows group rs a).0 seen
  unfolding follow_rows
  follow_rows-Occurs group [] a dins h = h
  follow_rows-Occurs group (r ∷ rs) a dins h =
      let here = follow_row-Occurs group r a dins h in
      elim (Bool-cases (follow_row group r a).1) [
        | inl over ↦ rw (over, follow_rows) here
        | inr more ↦
            rw (more, follow_rows) (follow_rows-Occurs group rs (follow_row group r a).0 dins here)
      ]

  follow_groups-Occurs :
      (gs : List NetlistData) (a : Bytes)
      → ((b : Bytes) → Occurs b (inputs gs) → Occurs b seen)
      → Occurs a seen
      → Occurs (follow_groups gs a).0 seen
  unfolding follow_groups inputs
  follow_groups-Occurs [] a dins h = h
  follow_groups-Occurs (g ∷ gs) a dins h =
      let here =
        follow_rows-Occurs (rows g) (rows g) a
          (λ b found. dins b (
            Occurs-append b (din_rows (rows g)) (inputs gs)
              (inl (find_din-Occurs (rows g) b found))))
          h in
      let later = λ (b : Bytes) (o : Occurs b (inputs gs)).
        dins b (Occurs-append b (din_rows (rows g)) (inputs gs) (inr o)) in
      elim (Bool-cases (follow_rows (rows g) (rows g) a).1) [
        | inl over ↦ rw (over, follow_groups) here
        | inr more ↦
            rw (more, follow_groups)
              (follow_groups-Occurs gs (follow_rows (rows g) (rows g) a).0 later here)
      ]

-- A result does not change with more fuel.
follow_chain_mono :
    (n m : ℕ) (gs : List NetlistData) (s : Devices) (io : List IoData)
    → n ≤ m
    → follow_chain n gs s ≡ ok io
    → follow_chain m gs s ≡ ok io
unfolding follow_chain
follow_chain_mono zero m gs s io le h = cc
follow_chain_mono (suc n) zero gs s io le h = absurd (omega arith)
follow_chain_mono (suc n) (suc m) gs s io le h =
    go (scan_groups gs s) (λ s'. follow_chain_mono n m gs s' io (omega arith)) h
  where
    go :
        (p : Result Pass)
        → ((s' : Devices) → follow_chain n gs s' ≡ ok io → follow_chain m gs s' ≡ ok io)
        → (p >>= λ (s', last_device). elim last_device [
          | true ↦ ok s'.io_data
          | false ↦ follow_chain n gs s'
        ])
          ≡ ok io
        → (p >>= λ (s', last_device). elim last_device [
          | true ↦ ok s'.io_data
          | false ↦ follow_chain m gs s'
        ])
          ≡ ok io
    go (err e) ih h' = cc
    go (ok (s', true)) ih h' = h'
    go (ok (s', false)) ih h' = ih s' h'

module _ (gs : List NetlistData) (first : Bytes) (s : Devices)
    (c : Chain AnyLink first s.io_data s.expanders first) where
  ends_in_time :
      (fuel : ℕ)
      → ends (follow_groups gs) fuel first ≡ true
      → ends (follow_groups gs) (suc (length (inputs gs))) first ≡ true
  ends_in_time fuel e =
      ends_within (follow_groups gs) (first ∷ inputs gs) fuel first
        (λ a o. follow_groups-Occurs (first ∷ inputs gs) gs a (λ b p. inr p) o) (inl refl) e

  follow_chain-rounds :
      (fuel : ℕ)
      → suc (length (inputs gs)) ≤ fuel
      → follow_chain fuel gs s ≡ follow_chain (suc (length (inputs gs))) gs s
  follow_chain-rounds fuel le =
      let enough : ℕ = suc (length (inputs gs)) in
      let step = follow_groups gs in
      elim (Bool-cases (ends step enough first)) [
        | inl over ↦
            let (io, e) =
              subst (λ b. Agrees first b (follow_chain enough gs s)) over
                (follow_chain-Agrees first enough gs s first c) in
            follow_chain_mono enough fuel gs s io le e ∙ sym e
        | inr more ↦ elim (Bool-cases (ends step fuel first)) [
          | inl late ↦ cc (ends_in_time fuel late)
          | inr still ↦
              subst (λ b. Agrees first b (follow_chain fuel gs s)) still
                (follow_chain-Agrees first fuel gs s first c)
              ∙ sym (
                  subst (λ b. Agrees first b (follow_chain enough gs s)) more
                    (follow_chain-Agrees first enough gs s first c))
        ]
      ]

-- On a new Input, one round more than the netlist has data inputs decides what `getDeviceOrder`
-- does: with any more rounds the result is the same, be it the devices, undefined behaviour, or a
-- loop that has not ended.
pub get_device_order-rounds :
    (fuel : ℕ) (gs : List NetlistData)
    → suc (length (inputs gs)) ≤ fuel
    → get_device_order fuel gs [] ≡ get_device_order (suc (length (inputs gs))) gs []
get_device_order-rounds zero gs le = absurd (omega arith)
get_device_order-rounds (suc fuel) gs le = elim (Option-cases (find_first gs)) [
  | inl missed ↦
      get_device_order-lost fuel gs [] missed
      ∙ sym (get_device_order-lost (length (inputs gs)) gs [] missed)
  | inr (first, found) ↦
      unfold get_device_order in
      follow_chain-rounds gs first (first_device gs []) (rw (found, first_device) start) (suc fuel)
        le
]
