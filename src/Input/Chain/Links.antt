-- ===== src/Input/Chain/Links.antt =====
-- What `getDeviceOrder` returns is a daisy chain of the netlist, numbered from 1.
use relay_dev.Common.{
  ℕ, zero, suc, ◌≡◌, refl, ap, subst, ◌∙◌, ◌⊎◌, inl, inr, true, false, List, [], ◌∷◌, ◌++◌, none,
  some, arith, Bool-cases, Option-cases, length, length-append, get_elem?-append, modify-append,
  Result, ok, err, ◌>>=◌,
}
use relay_dev.Text.{Bytes, equal}
use relay_dev.Text.Search.{equal_iff}
use relay_dev.Data.{NetlistData, IoData, new_io}
use relay_dev.Input.Netlist.{Row, rows}
use relay_dev.Input.Chain.{
  is_dout, find_din, find_first, Devices, last_identifier, add_device, Pass, follow, visit,
  scan_rows, scan_groups, follow_chain, first_device, get_device_order,
}

-- The lines have the data output of this expander.
abbrev pub HasDout : Bytes → List Row → Type 0
HasDout a [] = ⊥
HasDout a (r ∷ rs) = ((is_dout r ≡ true) × (r.identifier ≡ a)) ⊎ HasDout a rs

-- Some group has the output of `a`.
abbrev pub Outputs : List NetlistData → Bytes → Type 0
Outputs [] a = ⊥
Outputs (g ∷ gs) a = HasDout a (rows g) ⊎ Outputs gs a

-- In some group the output of `a` meets an input, the first of which is that of `b`.
pub data Link : List NetlistData → Bytes → Bytes → Type 0 where
  here :
      {a b : Bytes} {g : NetlistData} {gs : List NetlistData}
      → HasDout a (rows g)
      → find_din (rows g) ≡ some b
      → Link (g ∷ gs) a b
  there : {a b : Bytes} {g : NetlistData} {gs : List NetlistData} → Link gs a b → Link (g ∷ gs) a b

-- In some group the output of `a` meets no input.
pub data Ends : List NetlistData → Bytes → Type 0 where
  here :
      {a : Bytes} {g : NetlistData} {gs : List NetlistData}
      → HasDout a (rows g)
      → find_din (rows g) ≡ none
      → Ends (g ∷ gs) a
  there : {a : Bytes} {g : NetlistData} {gs : List NetlistData} → Ends gs a → Ends (g ∷ gs) a

-- `n` devices that begin with `first`, at the positions 1, 2, … and each linked to the one before;
-- `a` is the last.
pub data Chain (L : Bytes → Bytes → Type 0) (first : Bytes) : List IoData → ℕ → Bytes → Type 0 where
  start : Chain L first (record { identifier = first; position = 1 } ∷ []) 1 first
  link :
      {io io' : List IoData} {n m : ℕ} {a b : Bytes}
      → Chain L first io n a
      → L a b
      → m ≡ suc n
      → io' ≡ io ++ record { identifier = b; position = m } ∷ []
      → Chain L first io' m b

module _ {L : Bytes → Bytes → Type 0} {first : Bytes} where
  pub length-Chain : {io : List IoData} {n : ℕ} {a : Bytes} → Chain L first io n a → length io ≡ n
  length-Chain start = refl
  length-Chain (link {io} {io'} {n} {m} {a} {b} c l e f) = omega (
    arith,
    ap length f,
    length-append io (record { identifier = b; position = m } ∷ []),
    length-Chain c,
  )

  pub last_identifier-Chain :
      {s : Devices} {io : List IoData} {n : ℕ} {a : Bytes}
      → Chain L first io n a
      → s.io_data ≡ io
      → s.expanders ≡ n
      → last_identifier s ≡ ok a
  unfolding last_identifier
  last_identifier-Chain start p q = rw (q, p)
  last_identifier-Chain (link {io} {io'} {n} {m} {a} {b} c l e f) p q = rw (
    q,
    e,
    p,
    f,
    ← length-Chain c,
    get_elem?-append io (record { identifier = b; position = m }) [],
  )

  pub add_device-Chain :
      {s : Devices} {a b : Bytes}
      → Chain L first s.io_data s.expanders a
      → L a b
      → Chain L first (add_device b s).io_data (suc s.expanders) b
  add_device-Chain {s} {a} {b} c l = link c l refl (
      rw (← length-Chain c) (
        modify-append s.io_data _ new_io []
        ∙ ap (λ (k : ℕ). s.io_data ++ record { identifier = b; position = k } ∷ []) (omega arith)))

-- What a loop keeps: the devices are a chain, and `lastDevice` is set at its end only.
abbrev Sound : (Bytes → Bytes → Type 0) → (Bytes → Type 0) → Bytes → Result Pass → Type 0
Sound L E first (ok (s, done)) =
    (a : Bytes) × Chain L first s.io_data s.expanders a × (done ≡ true → E a)
Sound L E first (err e) = ⊥

-- A round goes on with the devices that it has, or ends.
on-Sound :
    (L : Bytes → Bytes → Type 0) (E : Bytes → Type 0) (first : Bytes) (m : Result Pass)
    (k : Devices → Result Pass)
    → Sound L E first m
    → ((s : Devices) (a : Bytes) → Chain L first s.io_data s.expanders a → Sound L E first (k s))
    → Sound L E first
        (m >>= λ (s', last_device). elim last_device [ true ↦ ok (s', true) | false ↦ k s' ])
on-Sound L E first (ok (s, true)) k h go = h
on-Sound L E first (ok (s, false)) k h go = go s h.0 h.1
on-Sound L E first (err e) k h go = h

-- What the group tells of the expanders whose output it has.
abbrev Offers : (Bytes → Bytes → Type 0) → (Bytes → Type 0) → List Row → Type 0
Offers L E group =
    (a : Bytes)
    → HasDout a group
    → ((b : Bytes) → find_din group ≡ some b → L a b) × (find_din group ≡ none → E a)

module _ {L : Bytes → Bytes → Type 0} {E : Bytes → Type 0} {first : Bytes} where
  follow-Sound :
      (group : List Row) (s : Devices) (a : Bytes)
      → Chain L first s.io_data s.expanders a
      → Offers L E group
      → HasDout a group
      → Sound L E first (ok (follow group s))
  unfolding follow
  follow-Sound group s a c offers out = elim (Option-cases (find_din group)) [
    | inl missed ↦ rw (missed, follow) (a, c, λ _. (offers a out).1 missed)
    | inr (b, found) ↦
        rw (found, follow) (b, add_device-Chain c ((offers a out).0 b found), λ e. cc)
  ]

  visit-Sound :
      (group : List Row) (r : Row) (s : Devices) (a : Bytes)
      → Chain L first s.io_data s.expanders a
      → Offers L E group
      → (is_dout r ≡ true → HasDout r.identifier group)
      → Sound L E first (visit group r s)
  unfolding visit
  visit-Sound group r s a c offers out = elim (Bool-cases (is_dout r)) [
    | inr other ↦ rw other (a, c, λ e. cc)
    | inl dout ↦
        rw (dout, last_identifier-Chain {s = s} c refl refl)
          (elim (Bool-cases (equal r.identifier a)) [
            | inr other ↦ rw other (a, c, λ e. cc)
            | inl same ↦ rw same (
                follow-Sound group s a c offers
                  (subst (λ x. HasDout x group) ((equal_iff r.identifier a).0 same) (out dout)))
          ])
  ]

  scan_rows-Sound :
      (group rs : List Row) (s : Devices) (a : Bytes)
      → Chain L first s.io_data s.expanders a
      → Offers L E group
      → ((x : Bytes) → HasDout x rs → HasDout x group)
      → Sound L E first (scan_rows group rs s)
  unfolding scan_rows
  scan_rows-Sound group [] s a c offers within = (a, c, λ e. cc)
  scan_rows-Sound group (r ∷ rs) s a c offers within =
      on-Sound L E first (visit group r s) (scan_rows group rs)
        (visit-Sound group r s a c offers (λ dout. within r.identifier (inl (dout, refl))))
        (λ s' a' c'. scan_rows-Sound group rs s' a' c' offers (λ x h. within x (inr h)))

  scan_groups-Sound :
      (gs : List NetlistData) (s : Devices) (a : Bytes)
      → Chain L first s.io_data s.expanders a
      → ((x y : Bytes) → Link gs x y → L x y)
      → ((x : Bytes) → Ends gs x → E x)
      → Sound L E first (scan_groups gs s)
  unfolding scan_groups
  scan_groups-Sound [] s a c links ends = (a, c, λ e. cc)
  scan_groups-Sound (g ∷ gs) s a c links ends =
      on-Sound L E first (scan_rows (rows g) (rows g) s) (scan_groups gs)
        (scan_rows-Sound (rows g) (rows g) s a c
          (λ x out. ((λ b e. links x b (here out e)), (λ e. ends x (here out e)))) (λ x h. h))
        (λ s' a' c'.
          scan_groups-Sound gs s' a' c' (λ x y l. links x y (there l)) (λ x e. ends x (there e)))

-- A chain that is complete.
abbrev pub IsComplete : List NetlistData → Bytes → List IoData → Type 0
IsComplete gs first io = (n : ℕ) × (a : Bytes) × Chain (Link gs) first io n a × Ends gs a

pub follow_chain-IsComplete :
    (fuel : ℕ) (gs : List NetlistData) (first : Bytes) (s : Devices) (a : Bytes) (io : List IoData)
    → Chain (Link gs) first s.io_data s.expanders a
    → follow_chain fuel gs s ≡ ok io
    → IsComplete gs first io
unfolding follow_chain
follow_chain-IsComplete zero gs first s a io c h = cc
follow_chain-IsComplete (suc fuel) gs first s a io c h =
    go (scan_groups gs s) (scan_groups-Sound gs s a c (λ x y l. l) (λ x e. e))
      (λ s' a' c'. follow_chain-IsComplete fuel gs first s' a' io c') h
  where
    go :
        (m : Result Pass)
        → Sound (Link gs) (Ends gs) first m
        → ((s' : Devices) (a' : Bytes)
            → Chain (Link gs) first s'.io_data s'.expanders a'
            → follow_chain fuel gs s' ≡ ok io
            → IsComplete gs first io)
        → (m >>= λ (s', last_device). elim last_device [
          | true ↦ ok s'.io_data
          | false ↦ follow_chain fuel gs s'
        ])
          ≡ ok io
        → IsComplete gs first io
    go (ok (s', true)) (b, c', e) ih p =
        subst (IsComplete gs first) (ground arith) (s'.expanders, b, c', e refl)
    go (ok (s', false)) (b, c', e) ih p = ih s' b c' p
    go (err e) bad ih p = absurd bad

-- If the search finds a first expander and `getDeviceOrder` returns on a new Input, the devices
-- are a chain from that expander, with the positions 1, 2, …: each device's output meets the next
-- one's input in some group, and the last one's output meets no input.
pub get_device_order-IsComplete :
    (fuel : ℕ) (gs : List NetlistData) (first : Bytes) (io : List IoData)
    → find_first gs ≡ some first
    → get_device_order fuel gs [] ≡ ok io
    → IsComplete gs first io
unfolding get_device_order first_device
get_device_order-IsComplete fuel gs first io found h =
    follow_chain-IsComplete fuel gs first (first_device gs []) first io
      (rw (found, first_device) start) h
