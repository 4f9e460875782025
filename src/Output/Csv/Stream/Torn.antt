-- ===== src/Output/Csv/Stream/Torn.antt =====
-- A file that two streams have open: it can end with the beginning of one text and the end of another.
use relay_dev.Common.{
  ℕ, ◌+◌, ◌-◌, ◌≤◌, ◌≡◌, refl, sym, ap, subst, ◌∙◌, List, [], ◌∷◌, ◌++◌, append_assoc, append-nil,
  arith, take, drop, length, length-append, ok,
}
use relay_dev.Text.{Bytes}
use relay_dev.Relay.Convert.{RelayState}
use relay_dev.Output.Csv.Stream.{
  pieces, overwrite, text_of, Stream, Disk, open_file, flush, close, Puts, here, next,
}
use relay_dev.Output.Csv.Stream.Alone.{drop_beyond, overwrite-end}

-- A text that is written over the end of another one, and reaches as far at least.
overwrite-over :
    (n : ℕ) (t s : Bytes) → n ≤ length s → length s ≤ n + length t → overwrite n t s ≡ take n s ++ t
overwrite-over n t s low high =
    let no_gap : n - length s ≡ 0 = omega (arith, low) in
    let far : n + length t ≡ length s + (n + length t - length s) = omega (arith, high) in
    let lost : drop (n + length t) s ≡ [] =
      ap (λ (k : ℕ). drop k s) far ∙ drop_beyond s (n + length t - length s) in
    rw (no_gap, lost, append-nil t)

module _ (From : RelayState → Type 0) where
  -- The first stream writes its next pieces behind the end of the file.
  flush_each :
      {d : Disk} (ps rest : List Bytes) (n : ℕ) (content : Bytes) (others : List Stream)
      → n ≡ length content
      → Puts From d (record {
        content = content;
        streams = record { offset = n; left = ps ++ rest } ∷ others;
      })
      → (m : ℕ) × (m ≡ length (content ++ text_of ps))
        × Puts From d (record {
          content = content ++ text_of ps;
          streams = record { offset = m; left = rest } ∷ others;
        })
  flush_each {d} [] rest n content others e puts =
      let same = sym (append-nil content) in
      (
        n,
        e ∙ ap length same,
        subst
            (λ c.
              Puts From d
                (record { content = c; streams = record { offset = n; left = rest } ∷ others }))
            same puts,
      )
  flush_each {d} (t ∷ ps) rest n content others e puts =
      let grown = overwrite-end n t content e in
      let place : n + length t ≡ length (content ++ t) =
        omega (arith, e, length-append content t) in
      let now =
        subst
          (λ c. Puts From d (record {
            content = c;
            streams = record { offset = n + length t; left = ps ++ rest } ∷ others;
          }))
          grown (next puts (flush n t (ps ++ rest) [] others refl)) in
      let (m, at, later) = flush_each ps rest (n + length t) (content ++ t) others place now in
      let same = append_assoc content t (text_of ps) in
      (
        m,
        at ∙ ap length same,
        subst
            (λ c.
              Puts From d
                (record { content = c; streams = record { offset = m; left = rest } ∷ others }))
            same later,
      )

  -- Let two queries have relays, of which the first has the last line `t`, and let the text of the second
  -- be no shorter than the lines before it and no longer than these and `t`. If both have the file
  -- open at once, it can end with as much of the second text as these lines take, and behind it `t`.
  pub Puts-torn :
      (a b : RelayState) (ps qs : List Bytes) (t old : Bytes)
      → From a
      → From b
      → pieces a.relay_amount 0 a ≡ ok (ps ++ t ∷ [])
      → pieces b.relay_amount 0 b ≡ ok qs
      → length (text_of ps) ≤ length (text_of qs)
      → length (text_of qs) ≤ length (text_of ps) + length t
      → Puts From
          (record { content = old; streams = [] })
          (record { content = take (length (text_of ps)) (text_of qs) ++ t; streams = [] })
  Puts-torn a b ps qs t old from_a from_b pa pb low high =
      let d0 : Disk = record { content = old; streams = [] } in
      let (n, at, first) =
        flush_each {d = d0} ps (t ∷ []) 0 [] [] refl
          (next here (open_file a (ps ++ t ∷ []) [] [] from_a pa refl)) in
      let waiting : List Stream = record { offset = n; left = t ∷ [] } ∷ [] in
      let again : Puts From d0
          (record { content = []; streams = record { offset = 0; left = qs ++ [] } ∷ waiting }) =
        subst
          (λ l.
            Puts From d0
              (record { content = []; streams = record { offset = 0; left = l } ∷ waiting }))
          (sym (append-nil qs)) (next first (open_file b qs [] waiting from_b pb refl)) in
      let (m, _, second) = flush_each {d = d0} qs [] 0 [] waiting refl again in
      let torn : Puts From d0 (record {
        content = overwrite n t (text_of qs);
        streams = record { offset = n + length t; left = [] } ∷ [];
      }) =
        next (next second (close m [] waiting refl)) (flush n t [] [] [] refl) in
      let done : Puts From d0 (record { content = overwrite n t (text_of qs); streams = [] }) =
        next torn (close (n + length t) [] [] refl) in
      subst (λ c. Puts From d0 (record { content = c; streams = [] }))
        (ap (λ (k : ℕ). overwrite k t (text_of qs)) at
          ∙ overwrite-over (length (text_of ps)) t (text_of qs) low high)
        done
