-- ===== src/Input/Chain/Order.antt =====
-- `getDeviceOrder` (Input.cpp) reads the groups one after another: when their order tells nothing.
use relay_dev.Common.{
  ℕ, ◌<◌, ◌≡◌, ◌↔◌, refl, sym, ap, subst, ◌∙◌, inl, inr, true, not, ◌&&◌, List, [], ◌∷◌, some, none,
  arith, Bool-cases, ok,
}
use relay_dev.Common.Rounds.{Occurs}
use relay_dev.Text.{Bytes, equal}
use relay_dev.Data.{NetlistData, IoData}
use relay_dev.Input.Netlist.{rows}
use relay_dev.Input.Chain.{output_mark, scan_first, find_first, find_din, get_device_order}
use relay_dev.Input.Chain.Links.{
  HasDout, Outputs, Link, Ends, here, there, Chain, start, link, get_device_order-IsComplete,
}
use relay_dev.Input.Chain.Finite.{IsFinite, get_device_order-total}
use relay_dev.Input.Chain.Unique.{Chain-unique}

-- The lines of the group give the first expander.
abbrev pub Gives : NetlistData → Bytes → Type 0
Gives g a = (scan_first (rows g) [] ≡ a) × ((not (equal a []) && not (equal a output_mark)) ≡ true)

abbrev pub SameGroups : List NetlistData → List NetlistData → Type 0
SameGroups gs hs = (g : NetlistData) → Occurs g gs ↔ Occurs g hs

-- No two groups contradict each other.
pub record IsClear (gs : List NetlistData) : Type 0 where
  pub one_start :
      (g h : NetlistData) (a b : Bytes) → Occurs g gs → Occurs h gs → Gives g a → Gives h b → a ≡ b
  pub one_link : (a b c : Bytes) → Link gs a b → Link gs a c → b ≡ c
  pub one_end : (a b : Bytes) → Link gs a b → ¬ Ends gs a

find_first-Occurs :
    (gs : List NetlistData) (a : Bytes)
    → find_first gs ≡ some a
    → (g : NetlistData) × Occurs g gs × Gives g a
unfolding find_first
find_first-Occurs [] a h = cc
find_first-Occurs (g ∷ gs) a h =
    elim (Bool-cases (
      not (equal (scan_first (rows g) []) [])
      && not (equal (scan_first (rows g) []) output_mark))) [
        | inl named ↦
            let same : scan_first (rows g) [] ≡ a = ground arith in
            (
              g,
              inl refl,
              (
                same,
                subst (λ x. (not (equal x []) && not (equal x output_mark)) ≡ true) same named,
              ),
            )
        | inr other ↦ let (k, o, e) = find_first-Occurs gs a (ground arith) in (k, inr o, e)
      ]

find_first-some :
    (gs : List NetlistData) (g : NetlistData) (a : Bytes)
    → Occurs g gs
    → Gives g a
    → (b : Bytes) × (find_first gs ≡ some b)
unfolding find_first
find_first-some [] g a o e = absurd o
find_first-some (h ∷ gs) g a o e =
    elim (Bool-cases (
      not (equal (scan_first (rows h) []) [])
      && not (equal (scan_first (rows h) []) output_mark))) [
        | inl named ↦ (scan_first (rows h) [], rw named refl)
        | inr other ↦ elim o [
          | inl same ↦ absurd (cc (subst (λ x. Gives x a) (sym same) e).1)
          | inr later ↦ let (b, found) = find_first-some gs g a later e in (b, rw other found)
        ]
      ]

Link-Occurs :
    {gs : List NetlistData} {a b : Bytes}
    → Link gs a b
    → (g : NetlistData) × Occurs g gs × HasDout a (rows g) × (find_din (rows g) ≡ some b)
Link-Occurs (here out met) = (_, inl refl, out, met)
Link-Occurs (there l) = let (g, o, out, met) = Link-Occurs l in (g, inr o, out, met)

Occurs-Link :
    (gs : List NetlistData) (g : NetlistData) (a b : Bytes)
    → Occurs g gs
    → HasDout a (rows g)
    → find_din (rows g) ≡ some b
    → Link gs a b
Occurs-Link [] g a b o out met = absurd o
Occurs-Link (k ∷ gs) g a b (inl e) out met = subst (λ x. Link (x ∷ gs) a b) (sym e) (here out met)
Occurs-Link (k ∷ gs) g a b (inr o) out met = there (Occurs-Link gs g a b o out met)

Ends-Occurs :
    {gs : List NetlistData} {a : Bytes}
    → Ends gs a
    → (g : NetlistData) × Occurs g gs × HasDout a (rows g) × (find_din (rows g) ≡ none)
Ends-Occurs (here out missed) = (_, inl refl, out, missed)
Ends-Occurs (there l) = let (g, o, out, missed) = Ends-Occurs l in (g, inr o, out, missed)

Occurs-Ends :
    (gs : List NetlistData) (g : NetlistData) (a : Bytes)
    → Occurs g gs
    → HasDout a (rows g)
    → find_din (rows g) ≡ none
    → Ends gs a
Occurs-Ends [] g a o out missed = absurd o
Occurs-Ends (k ∷ gs) g a (inl e) out missed = subst (λ x. Ends (x ∷ gs) a) (sym e) (here out missed)
Occurs-Ends (k ∷ gs) g a (inr o) out missed = there (Occurs-Ends gs g a o out missed)

Outputs-Occurs :
    (gs : List NetlistData) (a : Bytes)
    → Outputs gs a
    → (g : NetlistData) × Occurs g gs × HasDout a (rows g)
Outputs-Occurs [] a h = absurd h
Outputs-Occurs (g ∷ gs) a (inl h) = (g, inl refl, h)
Outputs-Occurs (g ∷ gs) a (inr h) = let (k, o, e) = Outputs-Occurs gs a h in (k, inr o, e)

Occurs-Outputs :
    (gs : List NetlistData) (g : NetlistData) (a : Bytes)
    → Occurs g gs
    → HasDout a (rows g)
    → Outputs gs a
Occurs-Outputs [] g a o out = absurd o
Occurs-Outputs (k ∷ gs) g a (inl e) out = inl (subst (λ x. HasDout a (rows x)) (sym e) out)
Occurs-Outputs (k ∷ gs) g a (inr o) out = inr (Occurs-Outputs gs g a o out)

-- What the groups tell is told by every list that has them.
module _ (gs hs : List NetlistData) (sub : (g : NetlistData) → Occurs g gs → Occurs g hs) where
  Link-within : (a b : Bytes) → Link gs a b → Link hs a b
  Link-within a b l = let (g, o, out, met) = Link-Occurs l in Occurs-Link hs g a b (sub g o) out met

  Ends-within : (a : Bytes) → Ends gs a → Ends hs a
  Ends-within a l =
      let (g, o, out, missed) = Ends-Occurs l in Occurs-Ends hs g a (sub g o) out missed

  Outputs-within : (a : Bytes) → Outputs gs a → Outputs hs a
  Outputs-within a h =
      let (g, o, out) = Outputs-Occurs gs a h in Occurs-Outputs hs g a (sub g o) out

  Chain-within :
      {first a : Bytes} {io : List IoData} {n : ℕ}
      → Chain (Link gs) first io n a
      → Chain (Link hs) first io n a
  Chain-within start = start
  Chain-within (link {a} {b} c l k f) = link (Chain-within c) (Link-within a b l) k f

IsFinite-within :
    (rank : Bytes → ℕ) (gs hs : List NetlistData) (first : Bytes)
    → SameGroups gs hs
    → IsFinite rank gs first
    → IsFinite rank hs first
IsFinite-within rank gs hs first same f = record {
  descends = λ a b l. f.descends a b (Link-within hs gs (λ g. (same g).1) a b l);
  first_output = Outputs-within gs hs (λ g. (same g).0) first f.first_output;
  next_output = λ a b l.
      Outputs-within gs hs (λ g. (same g).0) b
        (f.next_output a b (Link-within hs gs (λ g. (same g).1) a b l));
}

find_first-same :
    (gs hs : List NetlistData) (first : Bytes)
    → SameGroups gs hs
    → IsClear gs
    → find_first gs ≡ some first
    → find_first hs ≡ some first
find_first-same gs hs first same clear found =
    let (g, o, gives) = find_first-Occurs gs first found in
    let (b, found') = find_first-some hs g first ((same g).0 o) gives in
    let (k, o', gives') = find_first-Occurs hs b found' in
    found' ∙ ap some (clear.one_start k g b first ((same k).1 o') o gives' gives)

-- Let no two groups contradict each other: those that give a first expander give the same one, the
-- output of an expander meets one input, and it does not meet an input in one group and none in
-- another. If then the links have no cycle, and the first expander and every one that is linked to
-- have their output on a line, `getDeviceOrder` gives the same Input for every list of the same
-- groups, whatever their order and however often each is listed.
pub get_device_order-same :
    (rank : Bytes → ℕ) (fuel : ℕ) (gs hs : List NetlistData) (first : Bytes)
    → find_first gs ≡ some first
    → IsFinite rank gs first
    → rank first < fuel
    → IsClear gs
    → SameGroups gs hs
    → get_device_order fuel hs [] ≡ get_device_order fuel gs []
get_device_order-same rank fuel gs hs first found f lt clear same =
    let found' = find_first-same gs hs first same clear found in
    let (io, e) = get_device_order-total rank fuel gs first found f lt in
    let (io', e') =
      get_device_order-total rank fuel hs first found' (IsFinite-within rank gs hs first same f)
        lt in
    let (n, a, c, end) = get_device_order-IsComplete fuel gs first io found e in
    let (m, b, c', end') = get_device_order-IsComplete fuel hs first io' found' e' in
    let back = λ (g : NetlistData). (same g).1 in
    let unique =
      Chain-unique {E = Ends gs} clear.one_link clear.one_end c (Chain-within hs gs back c') end
        (Ends-within hs gs back b end') in
    e' ∙ sym (ap ok unique) ∙ sym e
