-- ===== src/Relay/Device/Places.antt =====
-- Device numbers tell the IO expanders of a daisy chain apart.
use relay_dev.Common.{
  ℕ, suc, ◌+◌, ◌≤◌, ◌<◌, ◌≡◌, refl, sym, ap, subst, ◌∙◌, ◌⊎◌, inl, inr, false, List, [], ◌∷◌, ◌++◌,
  some, arith, Bool-cases, length, get_elem?, ℤ, pos,
}
use relay_dev.Common.Rounds.{Occurs}
use relay_dev.Text.{Bytes, equal}
use relay_dev.Text.Search.{equal_iff}
use relay_dev.Data.{IoData}
use relay_dev.Input.Netlist.{Row}
use relay_dev.Input.Chain.Links.{Chain, start, link, length-Chain}
use relay_dev.Relay.Device.{find_device, convert_device}
use relay_dev.Relay.Device.Numbers.{expander_of, Listed, find-expander_of}

-- The positions go up by one, from `k`.
abbrev Numbered : ℕ → List IoData → Type 0
Numbered k [] = Unit
Numbered k (io ∷ ios) = (io.position ≡ k) × Numbered (suc k) ios

Numbered-append :
    (k : ℕ) (ios : List IoData) (io : IoData)
    → Numbered k ios
    → io.position ≡ k + length ios
    → Numbered k (ios ++ io ∷ [])
Numbered-append k [] io h e = (omega (arith, e), tt)
Numbered-append k (x ∷ ios) io h e = (h.0, Numbered-append (suc k) ios io h.1 (omega (arith, e)))

Chain-Numbered :
    {L : Bytes → Bytes → Type 0} {first : Bytes} {ios : List IoData} {n : ℕ} {a : Bytes}
    → Chain L first ios n a
    → Numbered 1 ios
Chain-Numbered start = (refl, tt)
Chain-Numbered (link {io} {m} {b} c l e f) = subst (Numbered 1) (sym f) (
    Numbered-append 1 io (record { identifier = b; position = m }) (Chain-Numbered c)
      (omega (arith, e, length-Chain c)))

Numbered-least :
    (k : ℕ) (ios : List IoData) (x : IoData) → Numbered k ios → Occurs x ios → k ≤ x.position
Numbered-least k [] x h o = absurd o
Numbered-least k (io ∷ ios) x h (inl e) = omega (arith, h.0, ap (λ y. y.position) e)
Numbered-least k (io ∷ ios) x h (inr o) = omega (arith, Numbered-least (suc k) ios x h.1 o)

Numbered-unique :
    (k : ℕ) (ios : List IoData) (x y : IoData)
    → Numbered k ios
    → Occurs x ios
    → Occurs y ios
    → x.position ≡ y.position
    → x ≡ y
Numbered-unique k [] x y h o o' e = absurd o
Numbered-unique k (io ∷ ios) x y h (inl s) (inl s') e = sym s ∙ s'
Numbered-unique k (io ∷ ios) x y h (inl s) (inr o') e =
    absurd (omega (arith, e, h.0, ap (λ z. z.position) s, Numbered-least (suc k) ios y h.1 o'))
Numbered-unique k (io ∷ ios) x y h (inr o) (inl s') e =
    absurd (omega (arith, e, h.0, ap (λ z. z.position) s', Numbered-least (suc k) ios x h.1 o))
Numbered-unique k (io ∷ ios) x y h (inr o) (inr o') e = Numbered-unique (suc k) ios x y h.1 o o' e

-- The number of an expander in the chain is the place of one of its entries.
find_device-Occurs :
    (junk : ℤ) (modifier : ℕ) (a : Bytes) (ios : List IoData)
    → Listed a ios
    → (io : IoData) × Occurs io ios
      × (io.identifier ≡ a)
      × (find_device junk modifier a ios ≡ pos (io.position + modifier))
unfolding find_device
find_device-Occurs junk modifier a [] l = absurd l
find_device-Occurs junk modifier a (io ∷ ios) l = elim (Bool-cases (equal io.identifier a)) [
  | inl same ↦ (io, inl refl, (equal_iff io.identifier a).0 same, rw same)
  | inr other ↦
      let (x, o, e, found) = find_device-Occurs junk modifier a ios (later l other) in
      (x, inr o, e, rw other found)
]
  where
    later : (io.identifier ≡ a) ⊎ Listed a ios → (equal io.identifier a ≡ false) → Listed a ios
    later (inl e) other = cc ((equal_iff io.identifier a).1 e)
    later (inr m) other = m

-- In devices that are numbered from `m` on, the number of an expander is that of an entry with its
-- name.
find_device-get_elem? :
    (junk : ℤ) (modifier m : ℕ) (a : Bytes) (ios : List IoData)
    → Numbered m ios
    → Listed a ios
    → (k : ℕ) × (io : IoData) × (k < length ios)
      × (get_elem? ios k ≡ some io)
      × (io.identifier ≡ a)
      × (find_device junk modifier a ios ≡ pos (m + k + modifier))
unfolding find_device
find_device-get_elem? junk modifier m a [] h l = absurd l
find_device-get_elem? junk modifier m a (io ∷ ios) h l = elim (Bool-cases (equal io.identifier a)) [
  | inl same ↦ (
    0,
    io,
    omega arith,
    refl,
    (equal_iff io.identifier a).0 same,
    rw same (ap pos (omega (arith, h.0))),
  )
  | inr other ↦
      let (k, x, low, at, e, found) =
        find_device-get_elem? junk modifier (suc m) a ios h.1 (later l other) in
      (suc k, x, omega (arith, low), at, e, rw other (found ∙ ap pos (omega arith)))
]
  where
    later : (io.identifier ≡ a) ⊎ Listed a ios → (equal io.identifier a ≡ false) → Listed a ios
    later (inl e) other = cc ((equal_iff io.identifier a).1 e)
    later (inr m) other = m

-- The device number of a relay whose expander is in the chain is one more than the index of a device
-- of the chain with its name, behind the board's first number.
pub convert_device-get_elem? :
    {L : Bytes → Bytes → Type 0} {first last : Bytes} {n : ℕ} (junk : ℤ) (modifier : ℕ)
    (ios : List IoData) (rs : List Row) (a : Bytes)
    → Chain L first ios n last
    → expander_of rs ≡ some a
    → Listed a ios
    → (k : ℕ) × (io : IoData) × (k < length ios)
      × (get_elem? ios k ≡ some io)
      × (io.identifier ≡ a)
      × (convert_device junk modifier ios rs ≡ pos (1 + k + modifier))
convert_device-get_elem? junk modifier ios rs a c e l =
    rw (find-expander_of junk modifier ios rs a e)
      (find_device-get_elem? junk modifier 1 a ios (Chain-Numbered c) l)

-- Relays with one device number are on one expander of the chain.
pub convert_device-injective :
    {L : Bytes → Bytes → Type 0} {first last : Bytes} {n : ℕ} (junk junk' : ℤ) (modifier : ℕ)
    (ios : List IoData) (rs qs : List Row) (a b : Bytes)
    → Chain L first ios n last
    → expander_of rs ≡ some a
    → expander_of qs ≡ some b
    → Listed a ios
    → Listed b ios
    → convert_device junk modifier ios rs ≡ convert_device junk' modifier ios qs
    → a ≡ b
convert_device-injective junk junk' modifier ios rs qs a b c e e' l l' same =
    let (x, o, is_a, at) = find_device-Occurs junk modifier a ios l in
    let (y, o', is_b, at') = find_device-Occurs junk' modifier b ios l' in
    let numbers : pos (x.position + modifier) ≡ pos (y.position + modifier) =
      sym (find-expander_of junk modifier ios rs a e ∙ at)
      ∙ same
      ∙ find-expander_of junk' modifier ios qs b e'
      ∙ at' in
    let sums : x.position + modifier ≡ y.position + modifier = cc numbers in
    let one = Numbered-unique 1 ios x y (Chain-Numbered c) o o' (omega (arith, sums)) in
    sym is_a ∙ ap (λ z. z.identifier) one ∙ is_b
