-- ===== src/Output/Csv/Stream/Alone.antt =====
-- A file that one stream at a time has open.
use relay_dev.Common.{
  ℕ, zero, suc, ◌+◌, ◌-◌, ◌≤◌, ◌≡◌, refl, sym, ap, subst, ◌∙◌, ◌⊎◌, inl, inr, Bool, true, false,
  List, [], ◌∷◌, ◌++◌, append_assoc, append-nil, arith, if◌then◌else◌, ltb, take, drop, length,
  length-append, take-append, drop-append, get_elem?, Option, some, none, Result, ok, err, defined,
  ◌>>=◌,
}
use relay_dev.Text.{Bytes}
use relay_dev.Data.{RelayData}
use relay_dev.Relay.Convert.{RelayState}
use relay_dev.Output.Csv.{write_relay, write_relays, output_relay_data}
use relay_dev.Output.Csv.Stream.{
  pieces, overwrite, Stream, text_of, Disk, Put, open_file, flush, close,
}

pieces-text :
    (left i : ℕ) (relay : RelayState)
    → write_relays left i relay ≡ (pieces left i relay >>= λ ps. ok (text_of ps))
unfolding write_relays pieces
pieces-text zero i relay = refl
pieces-text (suc left) i relay =
    rw (pieces-text left (suc i) relay) (
      go (get_elem? relay.relay_data i) (pieces left (suc i) relay)
        (ltb i (relay.relay_amount - 1)))
  where
    go :
        (m : Option RelayData) (rest : Result (List Bytes)) (b : Bool)
        → (defined m >>= λ r. (rest >>= λ ps. ok (text_of ps)) >>= λ text.
            ok (write_relay r ++ (if b then b'\n' ∷ text else text)))
          ≡ ((defined m >>= λ r.
                rest >>= λ ps. ok ((write_relay r ++ (if b then b'\n' ∷ [] else [])) ∷ ps))
              >>= λ ps. ok (text_of ps))
    go none rest b = refl
    go (some r) (err e) b = refl
    go (some r) (ok ps) true = ap ok (sym (append_assoc (write_relay r) (b'\n' ∷ []) (text_of ps)))
    go (some r) (ok ps) false = ap (λ l. ok (l ++ text_of ps)) (sym (append-nil (write_relay r)))

-- The pieces are the text that `outputRelayData` writes.
pub pieces-output :
    (relay : RelayState) (ps : List Bytes)
    → pieces relay.relay_amount 0 relay ≡ ok ps
    → output_relay_data true relay ≡ ok (some (text_of ps))
unfolding output_relay_data
pieces-output relay ps h = rw (pieces-text relay.relay_amount 0 relay, h)

drop-nil : (k : ℕ) → drop {A = ℕ} k [] ≡ []
drop-nil zero = refl
drop-nil (suc k) = refl

take_all : (s : Bytes) → take (length s) s ≡ s
take_all s = ap (take (length s)) (sym (append-nil s)) ∙ take-append s []

pub drop_beyond : (s : Bytes) (k : ℕ) → drop (length s + k) s ≡ []
drop_beyond s k = ap (drop (length s + k)) (sym (append-nil s)) ∙ drop-append k s [] ∙ drop-nil k

-- A text that is written at the end of the file stands behind the rest.
pub overwrite-end : (n : ℕ) (t s : Bytes) → n ≡ length s → overwrite n t s ≡ s ++ t
overwrite-end n t s e =
    let no_gap : n - length s ≡ 0 = omega (arith, e) in
    rw (no_gap, e, take_all s, drop_beyond s (length t), append-nil t)

-- At most one stream is open.
pub data Calm (From : RelayState → Type 0) (d : Disk) : Disk → Type 0 where
  here : Calm From d d
  next : {e f : Disk} → Calm From d e → Put From e f → length f.streams ≤ 1 → Calm From d f

-- The file holds the text of one of the relays.
abbrev pub IsText : (RelayState → Type 0) → Bytes → Type 0
IsText From s = (relay : RelayState) × From relay × (output_relay_data true relay ≡ ok (some s))

-- No stream is open, or one has written the beginning of a text.
abbrev Whole : (RelayState → Type 0) → Bytes → Disk → Type 0
Whole From old d =
    ((d.streams ≡ []) × ((d.content ≡ old) ⊎ IsText From d.content))
    ⊎ ((ps : List Bytes) × (d.streams ≡ record { offset = length d.content; left = ps } ∷ [])
        × IsText From (d.content ++ text_of ps))

single :
    (x s : Stream) (before after : List Stream)
    → before ++ s ∷ after ≡ x ∷ []
    → (before ≡ []) × (after ≡ []) × (s ≡ x)
single x s [] after e = (refl, cc, cc)
single x s (b ∷ []) after e = cc
single x s (b ∷ b' ∷ before) after e = cc

alone :
    (s : Stream) (before after : List Stream)
    → length (before ++ s ∷ after) ≤ 1
    → (before ≡ []) × (after ≡ [])
alone s [] [] le = (refl, refl)
alone s [] (a ∷ after) le = absurd (omega (arith, le))
alone s (b ∷ before) after le = absurd (omega (arith, le, length-append before (s ∷ after)))

not_empty : (s : Stream) (before after : List Stream) → before ++ s ∷ after ≡ [] → ⊥
not_empty s [] after e = cc
not_empty s (b ∷ before) after e = cc

module _ (From : RelayState → Type 0) (old : Bytes) where
  Put-Whole :
      {d e : Disk} → Put From d e → length e.streams ≤ 1 → Whole From old d → Whole From old e
  Put-Whole (open_file relay ps before after from h e) le (inl (shut, _)) =
      let (no_before, no_after) = alone (record { offset = 0; left = ps }) before after le in
      inr (ps, rw (no_before, no_after), (relay, from, pieces-output relay ps h))
  Put-Whole (open_file relay ps before after from h e) le (inr (ps', one, _)) = absurd (
      omega (
        arith,
        le,
        ap length one,
        ap length e,
        length-append before (record { offset = 0; left = ps } ∷ after),
        length-append before after,
      ))
  Put-Whole (flush n t ts before after e) le (inl (shut, _)) =
      absurd (not_empty (record { offset = n; left = t ∷ ts }) before after (sym e ∙ shut))
  Put-Whole {d} (flush n t ts before after e) le (inr (ps, one, text)) =
      let (no_before, no_after, same) =
        single (record { offset = length d.content; left = ps })
          (record { offset = n; left = t ∷ ts }) before after (sym e ∙ one) in
      let at : n ≡ length d.content = ap (λ s. s.offset) same in
      let rest : t ∷ ts ≡ ps = ap (λ s. s.left) same in
      let grown : overwrite n t d.content ≡ d.content ++ t = overwrite-end n t d.content at in
      let place : n + length t ≡ length (overwrite n t d.content) =
        omega (arith, at, ap length grown, length-append d.content t) in
      inr (
        ts,
        rw (no_before, no_after) (ap (λ (k : ℕ). record { offset = k; left = ts } ∷ []) place),
        subst (IsText From)
            (ap (λ l. d.content ++ text_of l) (sym rest)
              ∙ sym (append_assoc d.content t (text_of ts))
              ∙ ap (λ l. l ++ text_of ts) (sym grown))
            text,
      )
  Put-Whole (close n before after e) le (inl (shut, _)) =
      absurd (not_empty (record { offset = n; left = [] }) before after (sym e ∙ shut))
  Put-Whole {d} (close n before after e) le (inr (ps, one, text)) =
      let (no_before, no_after, same) =
        single (record { offset = length d.content; left = ps }) (record { offset = n; left = [] })
          before after (sym e ∙ one) in
      let rest : [] ≡ ps = ap (λ s. s.left) same in
      inl (
        rw (no_before, no_after),
        inr (
            subst (IsText From) (ap (λ l. d.content ++ text_of l) (sym rest) ∙ append-nil d.content)
              text),
      )

  -- If a stream is opened only while no other one is open, the file, whenever none is open, is as it
  -- was in the beginning or holds the whole text that `outputRelayData` writes of one of the relays.
  pub Calm-IsText :
      {d : Disk}
      → Calm From (record { content = old; streams = [] }) d
      → d.streams ≡ []
      → (d.content ≡ old) ⊎ IsText From d.content
  Calm-IsText {d} c shut = go (whole c)
    where
      whole : {e : Disk} → Calm From (record { content = old; streams = [] }) e → Whole From old e
      whole here = inl (refl, inl refl)
      whole (next c' p le) = Put-Whole p le (whole c')

      go : Whole From old d → (d.content ≡ old) ⊎ IsText From d.content
      go (inl (_, h)) = h
      go (inr (ps, one, h)) = absurd (omega (arith, ap length one, ap length shut))
