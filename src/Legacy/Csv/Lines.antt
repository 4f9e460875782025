-- ===== src/Legacy/Csv/Lines.antt =====
-- The CSV file of the console program reads back as its relays.
use relay_dev.Common.{
  ℕ, suc, ◌+◌, ◌-◌, ◌≡◌, ◌≢◌, refl, ap, subst, true, false, List, [], ◌∷◌, ◌++◌, map, some, arith,
  length, All, ok,
}
use relay_dev.Common.{length-append, get_elem?-append, append_assoc, append-nil, ltb}
use relay_dev.Text.{Bytes}
use relay_dev.Text.Search.{Lacks}
use relay_dev.Text.Join.{join, split, split-join, join-Lacks}
use relay_dev.Data.{RelayData}
use relay_dev.Output.Csv.RoundTrip.{cells, IsPlain, cells-Lacks, cells-commas}
use relay_dev.Legacy.Csv.{write_relay, write_relays, write_csv}

pub read_csv : Bytes → List (List Bytes)
read_csv content = map (split b',') (split b'\n' content)

write_relay-Lacks : (r : RelayData) → IsPlain r → Lacks b'\n' (write_relay r)
unfolding write_relay
write_relay-Lacks r p = join-Lacks b',' b'\n' (cells r) refl (
    cells-Lacks b'\n' r (omega arith) (
      p.pin.1, p.enumeration.1, p.port_number.1, p.drive_strength.1, p.normal_state.1,
      p.relay_name.1,
    ))

write_relay-split : (r : RelayData) → IsPlain r → split b',' (write_relay r) ≡ cells r
unfolding write_relay
write_relay-split r p = split-join b',' (cells r) (λ e. cc) (cells-commas r p)

no_feeds : (rs : List RelayData) → All IsPlain rs → All (Lacks b'\n') (map write_relay rs)
no_feeds [] h = tt
no_feeds (r ∷ rs) h = (write_relay-Lacks r h.0, no_feeds rs h.1)

-- The relays from the `i`-th on, with a line feed between two of them.
write_relays-join :
    (done rs : List RelayData) (n : ℕ)
    → n ≡ length done + length rs
    → write_relays (length rs) (length done) n (done ++ rs) ≡ ok (join b'\n' (map write_relay rs))
unfolding write_relays
write_relays-join done [] n size = refl
write_relays-join done (r ∷ []) n size =
    let test : ltb (length done) (n - 1) ≡ false = ground arith in
    rw (get_elem?-append done r [], test) (ap ok (append-nil (write_relay r)))
write_relays-join done (r ∷ q ∷ rs) n size =
    let test : ltb (length done) (n - 1) ≡ true = ground arith in
    let index : length (done ++ r ∷ []) ≡ suc (length done) =
      omega (arith, length-append done (r ∷ [])) in
    let rest = write_relays-join (done ++ r ∷ []) (q ∷ rs) n (omega (arith, index)) in
    let here : write_relays (suc (length rs)) (suc (length done)) n (done ++ r ∷ q ∷ rs)
        ≡ ok (join b'\n' (map write_relay (q ∷ rs))) =
      subst
        (λ i.
          write_relays (suc (length rs)) i n (done ++ r ∷ q ∷ rs)
          ≡ ok (join b'\n' (map write_relay (q ∷ rs))))
        index
        (subst
          (λ l.
            write_relays (suc (length rs)) (length (done ++ r ∷ [])) n l
            ≡ ok (join b'\n' (map write_relay (q ∷ rs))))
          (append_assoc done (r ∷ []) (q ∷ rs)) rest) in
    rw (get_elem?-append done r (q ∷ rs), test, here)

map-split :
    (rs : List RelayData) → All IsPlain rs → map (split b',') (map write_relay rs) ≡ map cells rs
map-split [] h = refl
map-split (r ∷ rs) h = rw (write_relay-split r h.0, map-split rs h.1)

map-ne-nil : (rs : List RelayData) → rs ≢ [] → map write_relay rs ≢ []
map-ne-nil [] ne e = ne refl
map-ne-nil (r ∷ rs) ne e = cc

-- If the file opens and no text of a relay holds a comma or a line feed, what `writeCSV` writes for
-- one relay or more has a line for each, which splits at the commas into its fourteen columns.
pub write_csv-read :
    (relay_data : List RelayData)
    → relay_data ≢ []
    → All IsPlain relay_data
    → (content : Bytes) × (write_csv true (length relay_data) relay_data ≡ ok (some content))
      × (read_csv content ≡ map cells relay_data)
unfolding write_csv read_csv
write_csv-read relay_data ne plain =
    let lines = map write_relay relay_data in
    (
      join b'\n' lines,
      rw (write_relays-join [] relay_data (length relay_data) (omega arith)),
      rw (split-join b'\n' lines (map-ne-nil relay_data ne) (no_feeds relay_data plain))
          (map-split relay_data plain),
    )
