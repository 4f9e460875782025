-- ===== src/Output/Csv/RoundTrip.antt =====
-- The written file, read back cell by cell.
use relay_dev.Common.{
  ℕ, suc, ◌+◌, ◌-◌, ◌<◌, ◌≡◌, ◌≢◌, refl, sym, ap, ◌∙◌, true, false, List, [], ◌∷◌, ◌++◌, map,
  append_assoc, append-nil, some, arith, ltb, length, length-append, get_elem?, get_elem?-append,
  take, take-append, drop, All, ok, ◌>>=◌,
}
use relay_dev.Text.{Bytes, codes}
use relay_dev.Text.Search.{Lacks, Lacks-append}
use relay_dev.Text.Number.{to_string}
use relay_dev.Text.Join.{join, split, split-join, join-Lacks}
use relay_dev.Text.Decimal.{to_string-Lacks}
use relay_dev.Data.{RelayData}
use relay_dev.Relay.Convert.{RelayState}
use relay_dev.Output.Csv.{write_relay, write_relays, output_relay_data}

-- The columns of a relay.
abbrev pub cells : RelayData → List Bytes
cells r =
    r.pin
    ∷ r.enumeration
    ∷ to_string r.chain_number
    ∷ to_string r.device_number
    ∷ r.port_number
    ∷ r.drive_strength
    ∷ r.normal_state
    ∷ to_string r.min_open_time
    ∷ to_string r.typ_open_time
    ∷ to_string r.max_open_time
    ∷ to_string r.min_close_time
    ∷ to_string r.typ_close_time
    ∷ to_string r.max_close_time
    ∷ r.relay_name
    ∷ []

-- The cells of a line between `RELAY(` and `)`.
pub read_line : Bytes → List Bytes
read_line line = split b',' (take (length line - 7) (drop 6 line))

pub read_file : Bytes → List (List Bytes)
unfolding read_line
read_file content = map read_line (split b'\n' content)

abbrev IsCell : Bytes → Type 0
IsCell s = Lacks b',' s × Lacks b'\n' s

-- No text of the relay holds a comma or a line feed.
pub record IsPlain (r : RelayData) : Type 0 where
  pub pin : IsCell r.pin
  pub enumeration : IsCell r.enumeration
  pub port_number : IsCell r.port_number
  pub drive_strength : IsCell r.drive_strength
  pub normal_state : IsCell r.normal_state
  pub relay_name : IsCell r.relay_name

write_relay-join :
    (r : RelayData) → write_relay r ≡ codes "RELAY(" ++ (join b',' (cells r) ++ codes ")")
unfolding write_relay
write_relay-join r = simp append_assoc

pub cells-Lacks :
    (c : ℕ) (r : RelayData)
    → c < b'-'
    → Lacks c r.pin
      × Lacks c r.enumeration
      × Lacks c r.port_number
      × Lacks c r.drive_strength
      × Lacks c r.normal_state
      × Lacks c r.relay_name
    → All (Lacks c) (cells r)
cells-Lacks c r h (p, e, o, d, n, m) = (
  p,
  (
    e,
    (
      to_string-Lacks c r.chain_number h,
      (
        to_string-Lacks c r.device_number h,
        (
          o,
          (
            d,
            (
              n,
              (
                to_string-Lacks c r.min_open_time h,
                (
                  to_string-Lacks c r.typ_open_time h,
                  (
                    to_string-Lacks c r.max_open_time h,
                    (
                      to_string-Lacks c r.min_close_time h,
                      (
                        to_string-Lacks c r.typ_close_time h,
                        (to_string-Lacks c r.max_close_time h, (m, tt)),
                      ),
                    ),
                  ),
                ),
              ),
            ),
          ),
        ),
      ),
    ),
  ),
)

read_line-write : (r : RelayData) → All (Lacks b',') (cells r) → read_line (write_relay r) ≡ cells r
unfolding read_line
read_line-write r h =
    let body = join b',' (cells r) in
    let size : length (codes "RELAY(" ++ (body ++ codes ")")) - 7 ≡ length body =
      omega (arith, length-append body (codes ")")) in
    rw (write_relay-join r, size, take-append body (codes ")"))
      (split-join b',' (cells r) (λ e. cc) h)

pub cells-commas : (r : RelayData) → IsPlain r → All (Lacks b',') (cells r)
cells-commas r p = cells-Lacks b',' r (omega arith) (
  p.pin.0, p.enumeration.0, p.port_number.0, p.drive_strength.0, p.normal_state.0, p.relay_name.0,
)

write_relay-Lacks : (r : RelayData) → IsPlain r → Lacks b'\n' (write_relay r)
write_relay-Lacks r p =
    let feeds = cells-Lacks b'\n' r (omega arith) (
      p.pin.1, p.enumeration.1, p.port_number.1, p.drive_strength.1, p.normal_state.1,
      p.relay_name.1,
    ) in
    rw (write_relay-join r) (
      refl,
      (
        refl,
        (
          refl,
          (
            refl,
            (
              refl,
              (
                refl,
                Lacks-append b'\n' (join b',' (cells r)) (codes ")")
                    (join-Lacks b',' b'\n' (cells r) refl feeds) (refl, tt),
              ),
            ),
          ),
        ),
      ),
    )

lines_free : (rs : List RelayData) → All IsPlain rs → All (Lacks b'\n') (map write_relay rs)
lines_free [] h = tt
lines_free (r ∷ rs) h = (write_relay-Lacks r h.0, lines_free rs h.1)

-- The relays from the `i`-th on, with a line feed between two of them.
pub write_relays-join :
    (done rs : List RelayData) (relay : RelayState)
    → relay.relay_data ≡ done ++ rs
    → relay.relay_amount ≡ length done + length rs
    → write_relays (length rs) (length done) relay ≡ ok (join b'\n' (map write_relay rs))
unfolding write_relays
write_relays-join done [] relay e size = refl
write_relays-join done (r ∷ []) relay e size =
    let test : ltb (length done) (relay.relay_amount - 1) ≡ false = ground arith in
    rw (ap (λ l. get_elem? l (length done)) e ∙ get_elem?-append done r [], test)
      (ap ok (append-nil (write_relay r)))
write_relays-join done (r ∷ r2 ∷ rs) relay e size =
    let test : ltb (length done) (relay.relay_amount - 1) ≡ true = ground arith in
    let index : suc (length done) ≡ length (done ++ r ∷ []) =
      omega (arith, length-append done (r ∷ [])) in
    let rest =
      write_relays-join (done ++ r ∷ []) (r2 ∷ rs) relay
        (e ∙ sym (append_assoc done (r ∷ []) (r2 ∷ rs))) (omega (arith, index)) in
    rw (ap (λ l. get_elem? l (length done)) e ∙ get_elem?-append done r (r2 ∷ rs), test, index)
      (unfold write_relays in rw rest)

map-read :
    (rs : List RelayData) → All IsPlain rs → map read_line (map write_relay rs) ≡ map cells rs
map-read [] h = refl
map-read (r ∷ rs) h = rw (read_line-write r (cells-commas r h.0), map-read rs h.1)

map-ne-nil : (rs : List RelayData) → rs ≢ [] → map write_relay rs ≢ []
map-ne-nil [] ne e = ne refl
map-ne-nil (r ∷ rs) ne e = cc

-- If the file opens, the amount is that of the rows and not 0, and no text of a row holds a comma or
-- a line feed, what `outputRelayData` writes has a line for each relay, which splits at the commas
-- into its fourteen columns.
pub output_relay_data-read :
    (relay : RelayState)
    → relay.relay_amount ≡ length relay.relay_data
    → relay.relay_data ≢ []
    → All IsPlain relay.relay_data
    → (content : Bytes) × (output_relay_data true relay ≡ ok (some content))
      × (read_file content ≡ map cells relay.relay_data)
unfolding output_relay_data read_file
output_relay_data-read relay size ne plain =
    let lines = map write_relay relay.relay_data in
    (
      join b'\n' lines,
      ap (λ k. write_relays k 0 relay >>= λ content. ok (some content)) size
          ∙ rw (write_relays-join [] relay.relay_data relay refl (omega arith)),
      rw
          (split-join b'\n' lines (map-ne-nil relay.relay_data ne)
            (lines_free relay.relay_data plain))
          (map-read relay.relay_data plain),
    )
