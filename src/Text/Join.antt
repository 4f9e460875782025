-- ===== src/Text/Join.antt =====
-- Texts joined by a byte, and split at it again.
use relay_dev.Common.{
  ℕ, ◌≡◌, ◌≢◌, refl, ap, ◌∙◌, false, List, [], ◌∷◌, ◌++◌, arith, ◌==◌, if◌then◌else◌, All,
}
use relay_dev.Text.{Bytes}
use relay_dev.Text.Search.{Lacks, Lacks-append}

abbrev pub join : ℕ → List Bytes → Bytes
join c [] = []
join c (p ∷ []) = p
join c (p ∷ q ∷ ps) = p ++ c ∷ join c (q ∷ ps)

extend : ℕ → List Bytes → List Bytes
extend x [] = (x ∷ []) ∷ []
extend x (p ∷ ps) = (x ∷ p) ∷ ps

-- The pieces between the bytes `c`, the empty ones included.
unfoldable pub split : ℕ → Bytes → List Bytes
unfolding extend
split c [] = [] ∷ []
split c (x ∷ s) = if x == c then [] ∷ split c s else extend x (split c s)

split-Lacks : (c : ℕ) (p : Bytes) → Lacks c p → split c p ≡ p ∷ []
unfolding split
split-Lacks c [] h = refl
split-Lacks c (x ∷ p) h = rw (h.0, split-Lacks c p h.1)

split-append : (c : ℕ) (p s : Bytes) → Lacks c p → split c (p ++ c ∷ s) ≡ p ∷ split c s
unfolding split
split-append c [] s h = ground arith
split-append c (x ∷ p) s h = rw (h.0, split-append c p s h.1)

pub split-join : (c : ℕ) (ps : List Bytes) → ps ≢ [] → All (Lacks c) ps → split c (join c ps) ≡ ps
split-join c [] ne h = absurd (ne refl)
split-join c (p ∷ []) ne h = split-Lacks c p h.0
split-join c (p ∷ q ∷ ps) ne h =
    split-append c p (join c (q ∷ ps)) h.0 ∙ ap (◌∷◌ p) (split-join c (q ∷ ps) (λ e. cc) h.1)

pub join-Lacks :
    (c d : ℕ) (ps : List Bytes) → (c == d) ≡ false → All (Lacks d) ps → Lacks d (join c ps)
join-Lacks c d [] ne h = tt
join-Lacks c d (p ∷ []) ne h = h.0
join-Lacks c d (p ∷ q ∷ ps) ne h =
    Lacks-append d p (c ∷ join c (q ∷ ps)) h.0 (ne, join-Lacks c d (q ∷ ps) ne h.1)
