-- ===== src/Input/Netlist/Columns.antt =====
-- A line of four columns with any number of blanks between them, read back.
use relay_dev.Common.{ℕ, zero, suc, ◌≡◌, ◌≢◌, refl, ap, ◌∙◌, false, [], ◌∷◌, ◌++◌, ◌==◌, replicate}
use relay_dev.Text.{Bytes, front, skip_blanks}
use relay_dev.Text.Search.{Lacks, cell-append, after_cell-append}
use relay_dev.Input.Netlist.{Row, read_row, next_column}

-- `n + 1` blanks, and what follows
abbrev pub blanks : ℕ → Bytes → Bytes
blanks n s = b' ' ∷ (replicate n b' ' ++ s)

unfoldable pub write_row : ℕ → ℕ → ℕ → Row → Bytes
write_row a b c r =
    r.name ++ blanks a (r.identifier ++ blanks b (r.connection ++ blanks c r.device))

-- A column is a word; the last one may be any text that does not begin with a blank.
pub record IsWritable (r : Row) : Type 0 where
  pub name : Lacks b' ' r.name
  pub identifier : Lacks b' ' r.identifier
  pub has_identifier : r.identifier ≢ []
  pub connection : Lacks b' ' r.connection
  pub has_connection : r.connection ≢ []
  pub device : (front r.device == b' ') ≡ false

skip_blanks-replicate :
    (n : ℕ) (s : Bytes) → (front s == b' ') ≡ false → skip_blanks (replicate n b' ' ++ s) ≡ s
unfolding skip_blanks front
skip_blanks-replicate zero [] h = refl
skip_blanks-replicate zero (x ∷ s) h = rw h
skip_blanks-replicate (suc n) s h = skip_blanks-replicate n s h

next_column-blanks :
    (f : Bytes) (n : ℕ) (s : Bytes)
    → Lacks b' ' f
    → (front s == b' ') ≡ false
    → next_column (f ++ blanks n s) ≡ s
next_column-blanks f n s h w =
    ap skip_blanks (after_cell-append b' ' f (replicate n b' ' ++ s) h 0)
    ∙ skip_blanks-replicate (suc n) s w

front-word : (f s : Bytes) → Lacks b' ' f → f ≢ [] → (front (f ++ s) == b' ') ≡ false
unfolding front
front-word [] s h ne = absurd (ne refl)
front-word (x ∷ f) s h ne = h.0

-- Whatever the blanks between the columns, a line whose first three columns are words and whose last
-- one does not begin with a blank reads as its four columns.
pub read_row-write : (a b c : ℕ) (r : Row) → IsWritable r → read_row (write_row a b c r) ≡ r
unfolding read_row write_row
read_row-write a b c r w =
    let fourth = r.device in
    let third = r.connection ++ blanks c fourth in
    let second = r.identifier ++ blanks b third in
    rw (
      cell-append b' ' r.name (replicate a b' ' ++ second) w.name,
      next_column-blanks r.name a second w.name
          (front-word r.identifier (blanks b third) w.identifier w.has_identifier),
      cell-append b' ' r.identifier (replicate b b' ' ++ third) w.identifier,
      next_column-blanks r.identifier b third w.identifier
          (front-word r.connection (blanks c fourth) w.connection w.has_connection),
      cell-append b' ' r.connection (replicate c b' ' ++ fourth) w.connection,
      next_column-blanks r.connection c fourth w.connection w.device,
    )
