-- ===== src/Output/Csv/Stream.antt =====
-- The stream of outputRelayData (Output.cpp) on a file that other streams may have open too: what it
-- has buffered goes to the file at each `std::endl` and at `close`.
pub mod Alone
pub mod Torn
use relay_dev.Common.{
  ℕ, zero, suc, ◌+◌, ◌-◌, ◌≡◌, refl, sym, ap, ◌∙◌, List, [], ◌∷◌, ◌++◌, if◌then◌else◌, ltb, take,
  drop, replicate, length, get_elem?, Result, ok, err, defined, ◌>>=◌,
}
use relay_dev.Text.{Bytes}
use relay_dev.Data.{RelayData}
use relay_dev.Relay.Convert.{RelayState}
use relay_dev.Output.Csv.{write_relay}

-- What goes to the file in one go, with the rounds of the loop that are left.
unfoldable pub pieces : ℕ → ℕ → RelayState → Result (List Bytes)
unfolding write_relay
pieces zero i relay = ok []
pieces (suc left) i relay = defined (get_elem? relay.relay_data i) >>= λ r.
    pieces left (suc i) relay >>= λ rest.
    ok ((write_relay r ++ (if ltb i (relay.relay_amount - 1) then b'\n' ∷ [] else [])) ∷ rest)

-- A text is written behind the first `n` bytes of a file; a gap before it is filled with zeros.
abbrev pub overwrite : ℕ → Bytes → Bytes → Bytes
overwrite n text content =
    take n content ++ (replicate (n - length content) 0 ++ (text ++ drop (n + length text) content))

-- The place where it writes, and what it has still to write.
pub record Stream : Type 0 where
  pub offset : ℕ
  pub left : List Bytes

pub record Disk : Type 0 where
  pub content : Bytes
  pub streams : List Stream

-- `std::ofstream file(…)`, which empties the file; one piece that goes to the file; `file.close()`.
-- `From` tells of which relays there are queries.
pub data Put (From : RelayState → Type 0) : Disk → Disk → Type 0 where
  open_file :
      {d : Disk} (relay : RelayState) (ps : List Bytes) (before after : List Stream)
      → From relay
      → pieces relay.relay_amount 0 relay ≡ ok ps
      → d.streams ≡ before ++ after
      → Put From d
          (record { content = []; streams = before ++ record { offset = 0; left = ps } ∷ after })
  flush :
      {d : Disk} (n : ℕ) (t : Bytes) (ts : List Bytes) (before after : List Stream)
      → d.streams ≡ before ++ record { offset = n; left = t ∷ ts } ∷ after
      → Put From d (record {
        content = overwrite n t d.content;
        streams = before ++ record { offset = n + length t; left = ts } ∷ after;
      })
  close :
      {d : Disk} (n : ℕ) (before after : List Stream)
      → d.streams ≡ before ++ record { offset = n; left = [] } ∷ after
      → Put From d (record d { streams = before ++ after })

pub data Puts (From : RelayState → Type 0) (d : Disk) : Disk → Type 0 where
  here : Puts From d d
  next : {e f : Disk} → Puts From d e → Put From e f → Puts From d f

abbrev pub text_of : List Bytes → Bytes
text_of [] = []
text_of (p ∷ ps) = p ++ text_of ps
