-- ===== src/Output/Csv/Rows.antt =====
-- The rows that `relayConvert` makes are fit for the configuration file.
use relay_dev.Common.{
  ℕ, ◌+◌, ◌<◌, ◌≡◌, refl, sym, subst, inl, inr, true, false, List, [], ◌∷◌, ◌++◌, map, not, all,
  none, some, if◌then◌else◌, Bool-cases, Option-cases, arith, take, drop, ltb, ◌-◌, either_way,
  ◌==◌, ◌⊎◌, All, All-get_elem?, ok, defined, ◌>>=◌, >>=-eq-ok, ℤ, pos,
}
use relay_dev.Common.Rounds.{Occurs, All-Occurs}
use relay_dev.Text.{Bytes, codes, last, is_digit, find_text}
use relay_dev.Text.Search.{Lacks, Lacks-append, Lacks-take, Lacks-drop, all-Lacks}
use relay_dev.Text.Decimal.{to_string-Lacks}
use relay_dev.Text.Number.{to_string}
use relay_dev.Data.{RelayData, NetlistData}
use relay_dev.Input.Netlist.Plain.{NamesLack}
use relay_dev.Input.Models.{InputData, relay_models}
use relay_dev.Relay.Enum.{breaks_of, first, suffix, convert_enum}
use relay_dev.Relay.Port.{port_cases}
use relay_dev.Relay.Drive.{config_out}
use relay_dev.Relay.Normal.{relay_no, relay_nc}
use relay_dev.Relay.Convert.Rows.{IsRowOf}
use relay_dev.Relay.Convert.Kinds.{IsPin, IsStrength, IsState, IsTyped, row-IsTyped}
use relay_dev.Relay.Convert.Relays.{RowsOf, nil, cons}
use relay_dev.Output.Csv.RoundTrip.{IsPlain}

-- The literals of the conversions.
abbrev pub ports : List Bytes
ports = [] ∷ map (λ c. c.1) port_cases

abbrev pub strengths : List Bytes
strengths = config_out ∷ map (λ m. m.drive_strength) relay_models

abbrev pub words : List Bytes
words = codes "DUT_PIN_" ∷ codes "CIB" ∷ codes "SYSGND" ∷ relay_no ∷ relay_nc ∷ []

abbrev pub AreFree : ℕ → List Bytes → Type 0
AreFree c ss = all (λ s. all (λ x. not (x == c)) s) ss ≡ true

pub AreFree-Lacks : (c : ℕ) (ss : List Bytes) → AreFree c ss → All (Lacks c) ss
AreFree-Lacks c [] h = tt
AreFree-Lacks c (s ∷ ss) h = (all-Lacks c s (ground arith), AreFree-Lacks c ss (ground arith))

module _ (c : ℕ) (small : c < b'-') (w : AreFree c words) (p : AreFree c ports)
    (d : AreFree c strengths) where
  word : (s : Bytes) → Occurs s words → Lacks c s
  word s o = All-Occurs (Lacks c) s words (AreFree-Lacks c words w) o

  suffix-Lacks : (name : Bytes) (l back : ℕ) → Lacks c name → Lacks c (suffix name l back)
  unfolding suffix
  suffix-Lacks name l back h =
      either_way (Lacks c) (ltb (l + 1) back) (Lacks-drop c back name h)
        (Lacks-take c (l + 1 - back) (drop back name) (Lacks-drop c back name h))

  convert_enum-keeps_free :
      (name enumeration : Bytes)
      → convert_enum name ≡ ok enumeration
      → Lacks c name
      → Lacks c enumeration
  unfolding convert_enum
  convert_enum-keeps_free name enumeration e h =
      let (l, _, rest) = >>=-eq-ok (defined (last name)) _ e in
      go l (Bool-cases (is_digit l)) (Option-cases (find_text (codes "SYSGND") name)) rest
    where
      before : (n : ℕ) (s : Bytes) → Lacks c s → Lacks c (take n name ++ s)
      before n s = Lacks-append c (take n name) s (Lacks-take c n name h)

      cib : Lacks c (codes "CIB")
      cib = word (codes "CIB") (inr (inl refl))

      go :
          (l : ℕ)
          → (is_digit l ≡ true) ⊎ (is_digit l ≡ false)
          → (find_text (codes "SYSGND") name ≡ none)
            ⊎ ((i : ℕ) × (find_text (codes "SYSGND") name ≡ some i))
          → (if is_digit l
              then breaks_of name >>= (λ name_breaks. defined (first name_breaks) >>= λ front.
                  defined (last name_breaks) >>= λ back.
                  ok (take (front + 1) name ++ (codes "CIB" ++ suffix name l back)))
              else elim (find_text (codes "SYSGND") name) [
                | some i ↦ ok (take i name ++ codes "SYSGND")
                | none ↦ breaks_of name >>= (λ name_breaks.
                    defined (last name_breaks) >>= λ back. ok (take (back + 1) name ++ codes "CIB"))
              ])
            ≡ ok enumeration
          → Lacks c enumeration
      go l (inl digit) found made =
          let (breaks, _, made1) = >>=-eq-ok (breaks_of name) _ (rw digit at made) in
          let (front, _, made2) = >>=-eq-ok (defined (first breaks)) _ made1 in
          let (back, _, made3) = >>=-eq-ok (defined (last breaks)) _ made2 in
          let same : take (front + 1) name ++ (codes "CIB" ++ suffix name l back) ≡ enumeration =
            cc made3 in
          subst (Lacks c) same (
            before (front + 1) _
              (Lacks-append c (codes "CIB") (suffix name l back) cib (suffix-Lacks name l back h)))
      go l (inr other) (inr (i, found)) made =
          let same : take i name ++ codes "SYSGND" ≡ enumeration = cc (rw (other, found) at made) in
          subst (Lacks c) same (before i _ (word (codes "SYSGND") (inr (inr (inl refl)))))
      go l (inr other) (inl missed) made =
          let (breaks, _, made1) = >>=-eq-ok (breaks_of name) _ (rw (other, missed) at made) in
          let (back, _, made2) = >>=-eq-ok (defined (last breaks)) _ made1 in
          let same : take (back + 1) name ++ codes "CIB" ≡ enumeration = cc made2 in
          subst (Lacks c) same (before (back + 1) _ cib)

  IsPin-Lacks : (s : Bytes) → IsPin s → Lacks c s
  IsPin-Lacks s (k, e, small_number) = subst (Lacks c) (sym e) (
      Lacks-append c (codes "DUT_PIN_") (to_string (pos k)) (word (codes "DUT_PIN_") (inl refl))
        (to_string-Lacks c (pos k) small))

  IsState-Lacks : (s : Bytes) → IsState s → Lacks c s
  IsState-Lacks s (inl e) = subst (Lacks c) (sym e) (word relay_no (inr (inr (inr (inl refl)))))
  IsState-Lacks s (inr e) =
      subst (Lacks c) (sym e) (word relay_nc (inr (inr (inr (inr (inl refl))))))

  -- The six texts of a row.
  row-Lacks :
      (input : InputData) (chain : ℤ) (g : NetlistData) (r : RelayData)
      → input.model_data ≡ relay_models
      → NamesLack c g
      → IsRowOf input chain g r
      → IsTyped input.model_data r
      → Lacks c r.pin
        × Lacks c r.enumeration
        × Lacks c r.port_number
        × Lacks c r.drive_strength
        × Lacks c r.normal_state
        × Lacks c r.relay_name
  row-Lacks input chain g r models names row typed =
      let name = All-get_elem? (Lacks c) g.name 0 r.relay_name names row.named in
      (
        IsPin-Lacks r.pin typed.pin,
        convert_enum-keeps_free r.relay_name r.enumeration row.enumeration name,
        All-Occurs (Lacks c) r.port_number ports (AreFree-Lacks c ports p) typed.port,
        All-Occurs (Lacks c) r.drive_strength strengths (AreFree-Lacks c strengths d)
            (subst (λ ms. IsStrength ms r.drive_strength) models typed.strength),
        IsState-Lacks r.normal_state typed.state,
        name,
      )

-- Rows of relays whose names have neither a comma nor a line feed are fit for the file.
pub RowsOf-IsPlain :
    (input : InputData) (chain : ℤ) (gs : List NetlistData) (rs : List RelayData)
    → input.model_data ≡ relay_models
    → (chain ≡ pos 0) ⊎ (chain ≡ pos 1)
    → All (NamesLack b',') gs
    → All (NamesLack b'\n') gs
    → RowsOf input chain gs rs
    → All IsPlain rs
RowsOf-IsPlain input chain [] [] models n a b nil = tt
RowsOf-IsPlain input chain [] (r ∷ rs) models n a b h = elim h [ ]
RowsOf-IsPlain input chain (g ∷ gs) [] models n a b h = elim h [ ]
RowsOf-IsPlain input chain (g ∷ gs) (r ∷ rs) models n a b (cons row rest) =
    let typed = row-IsTyped input chain g r n row in
    let (p1, e1, o1, d1, n1, m1) =
      row-Lacks b',' (omega arith) refl refl refl input chain g r models a.0 row typed in
    let (p2, e2, o2, d2, n2, m2) =
      row-Lacks b'\n' (omega arith) refl refl refl input chain g r models b.0 row typed in
    (
      record {
        pin = (p1, p2);
        enumeration = (e1, e2);
        port_number = (o1, o2);
        drive_strength = (d1, d2);
        normal_state = (n1, n2);
        relay_name = (m1, m2);
      },
      RowsOf-IsPlain input chain gs rs models n a.1 b.1 rest,
    )
