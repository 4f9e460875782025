-- ===== src/Input/Chain/Unique.antt =====
-- Of the chains of `getDeviceOrder` (Input.cpp) over links that are a function, one is complete.
use relay_dev.Common.{
  ℕ, ◌<◌, ◌≡◌, refl, sym, ap, subst, ◌∙◌, inl, inr, List, [], ◌∷◌, ◌++◌, ltb, arith, Bool-cases,
}
use relay_dev.Text.{Bytes}
use relay_dev.Data.{IoData}
use relay_dev.Input.Chain.Links.{Chain, start, link}

Chain-positive :
    {L : Bytes → Bytes → Type 0} {first : Bytes} {io : List IoData} {n : ℕ} {a : Bytes}
    → Chain L first io n a
    → 0 < n
Chain-positive start = omega arith
Chain-positive (link c l k f) = omega arith

-- Two complete chains over links that are functions are one.
module _ {L : Bytes → Bytes → Type 0} {E : Bytes → Type 0} {first : Bytes}
    (one : (a b c : Bytes) → L a b → L a c → b ≡ c) (last : (a b : Bytes) → L a b → ¬ E a) where
  Chain-same :
      {io io' : List IoData} {n m : ℕ} {a b : Bytes}
      → Chain L first io n a
      → Chain L first io' m b
      → n ≡ m
      → (io ≡ io') × (a ≡ b)
  Chain-same start start e = (refl, refl)
  Chain-same start (link c l k f) e = absurd (omega (arith, e, k, Chain-positive c))
  Chain-same (link c l k f) start e = absurd (omega (arith, e, k, Chain-positive c))
  Chain-same {n} {m} {a} {b} (link c l k f) (link {io = shorter} {a = y} c' l' k' f') e =
      let (before, at) = Chain-same c c' (omega (arith, e, k, k')) in
      let same : a ≡ b = one y a b (subst (λ z. L z a) at l) l' in
      (
        f
            ∙ ap (λ l. l ++ record { identifier = a; position = n } ∷ []) before
            ∙ ap (λ z. shorter ++ record { identifier = z; position = n } ∷ []) same
            ∙ ap (λ (z : ℕ). shorter ++ record { identifier = b; position = z } ∷ []) e
            ∙ sym f',
        same,
      )

  -- A chain that goes on has a link at each place before its end.
  Chain-before :
      {io : List IoData} {m : ℕ} {b : Bytes} (n : ℕ)
      → Chain L first io m b
      → 0 < n
      → n < m
      → (io' : List IoData) × (x y : Bytes) × Chain L first io' n x × L x y
  Chain-before n start h lt = absurd (omega arith)
  Chain-before {b} n (link {io = io'} {n = k} {a = x} c l e f) h lt = elim (Bool-cases (ltb n k)) [
    | inl less ↦ Chain-before n c h (ground arith)
    | inr not_less ↦
        let same : k ≡ n = ground arith in
        (io', x, b, subst (λ (z : ℕ). Chain L first io' z x) same c, l)
  ]

  not_longer :
      {io io' : List IoData} {n m : ℕ} {a b : Bytes}
      → Chain L first io n a
      → Chain L first io' m b
      → E a
      → n < m
      → ⊥
  not_longer {n} {a} c c' end lt =
      let (io'', x, y, c'', l) = Chain-before n c' (Chain-positive c) lt in
      last a y (subst (λ z. L z y) (sym (Chain-same c c'' refl).1) l) end

  pub Chain-unique :
      {io io' : List IoData} {n m : ℕ} {a b : Bytes}
      → Chain L first io n a
      → Chain L first io' m b
      → E a
      → E b
      → io ≡ io'
  Chain-unique {n} {m} c c' end end' = elim (Bool-cases (ltb n m)) [
    | inl less ↦ absurd (not_longer c c' end (ground arith))
    | inr not_less ↦ elim (Bool-cases (ltb m n)) [
      | inl more ↦ absurd (not_longer c' c end' (ground arith))
      | inr not_more ↦ (Chain-same c c' (ground arith)).0
    ]
  ]
