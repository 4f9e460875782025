-- ===== src/Relay/Device/Numbers.antt =====
-- Device numbers: the place in the daisy chain, above the number that the board begins with.
use relay_dev.Common.{
  ℕ, suc, ◌+◌, ◌≤◌, ◌<◌, ◌≡◌, refl, subst, sym, ◌⊎◌, inl, inr, false, List, [], ◌∷◌, Option, none,
  some, arith, if◌then◌else◌, Bool-cases, All, All-append, ℤ, pos,
}
use relay_dev.Text.{Bytes, equal}
use relay_dev.Text.Search.{equal_iff}
use relay_dev.Data.{IoData}
use relay_dev.Input.Netlist.{Row}
use relay_dev.Input.Filter.{is_expander}
use relay_dev.Input.Chain.Links.{Chain, start, link}
use relay_dev.Relay.Device.{find_device, convert_device}

-- The expander of a relay: that of its first line with one.
unfoldable pub expander_of : List Row → Option Bytes
expander_of [] = none
expander_of (r ∷ rs) = if is_expander r then some r.identifier else expander_of rs

abbrev pub Listed : Bytes → List IoData → Type 0
Listed a [] = ⊥
Listed a (io ∷ ios) = (io.identifier ≡ a) ⊎ Listed a ios

abbrev Placed : ℕ → IoData → Type 0
Placed n io = (1 ≤ io.position) × (io.position ≤ n)

Placed-mono : (n : ℕ) (ios : List IoData) → All (Placed n) ios → All (Placed (suc n)) ios
Placed-mono n [] h = tt
Placed-mono n (io ∷ ios) h = ((h.0.0, omega arith), Placed-mono n ios h.1)

Chain-Placed :
    {L : Bytes → Bytes → Type 0} {first : Bytes} {ios : List IoData} {n : ℕ} {a : Bytes}
    → Chain L first ios n a
    → All (Placed n) ios
Chain-Placed start = ((omega arith, omega arith), tt)
Chain-Placed (link {io} {io'} {n} {m} {a} {b} c l e f) =
    subst (λ k. All (Placed k) io') (sym e)
      (subst (All (Placed (suc n))) (sym f) (
        All-append (Placed (suc n)) io _ (Placed-mono n io (Chain-Placed c))
          ((omega arith, omega arith), tt)))

find_device-range :
    (junk : ℤ) (modifier n : ℕ) (a : Bytes) (ios : List IoData)
    → All (Placed n) ios
    → Listed a ios
    → (k : ℕ) × (find_device junk modifier a ios ≡ pos k) × (modifier < k) × (k ≤ modifier + n)
unfolding find_device
find_device-range junk modifier n a [] h l = absurd l
find_device-range junk modifier n a (io ∷ ios) h l = elim (Bool-cases (equal io.identifier a)) [
  | inl same ↦ rw same (io.position + modifier, refl, omega arith, omega arith)
  | inr other ↦ rw other (find_device-range junk modifier n a ios h.1 (later l other))
]
  where
    later : (io.identifier ≡ a) ⊎ Listed a ios → (equal io.identifier a ≡ false) → Listed a ios
    later (inl e) other = cc ((equal_iff io.identifier a).1 e)
    later (inr m) other = m

pub find-expander_of :
    (junk : ℤ) (modifier : ℕ) (ios : List IoData) (rs : List Row) (a : Bytes)
    → expander_of rs ≡ some a
    → convert_device junk modifier ios rs ≡ find_device junk modifier a ios
unfolding expander_of convert_device
find-expander_of junk modifier ios [] a e = cc
find-expander_of junk modifier ios (r ∷ rs) a e = elim (Bool-cases (is_expander r)) [
  | inl hit ↦ ground arith
  | inr miss ↦ rw miss (find-expander_of junk modifier ios rs a (ground arith))
]

-- A relay whose expander is in the daisy chain has a device number, whatever an unassigned local
-- holds: it lies behind the board's first number, and at most as far as the chain is long.
pub convert_device-range :
    {L : Bytes → Bytes → Type 0} {first b : Bytes} {n : ℕ} (junk : ℤ) (modifier : ℕ)
    (ios : List IoData) (rs : List Row) (a : Bytes)
    → Chain L first ios n b
    → expander_of rs ≡ some a
    → Listed a ios
    → (k : ℕ) × (convert_device junk modifier ios rs ≡ pos k) × (modifier < k) × (k ≤ modifier + n)
convert_device-range {n} junk modifier ios rs a c e l =
    rw (find-expander_of junk modifier ios rs a e)
      (find_device-range junk modifier n a ios (Chain-Placed c) l)
