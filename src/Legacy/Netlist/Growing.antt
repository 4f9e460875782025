-- ===== src/Legacy/Netlist/Growing.antt =====
-- Groups that grow line by line, and whether they drive a relay.
use relay_dev.Common.{
  ◌≡◌, refl, inl, inr, Bool, true, false, List, [], ◌∷◌, ◌++◌, if◌then◌else◌, Result, ok, err,
  ◌>>=◌, Stop,
}
use relay_dev.Common.{Bool-cases}
use relay_dev.Text.{Bytes}
use relay_dev.Data.{NetlistData}
use relay_dev.Input.Netlist.{Row, read_row, push_row, starts_group, rows}
use relay_dev.Input.Netlist.Groups.{collect}
use relay_dev.Input.Netlist.Lines.{IsAligned, push_row-IsAligned, rows-push_row}
use relay_dev.Input.Filter.{drives_relay}
use relay_dev.Input.Filter.Spec.{has_relay, relay_groups, after_relays}

-- One more line at the end of a group.
has_relay-snoc :
    (rs : List Row) (r : Row)
    → has_relay (rs ++ r ∷ [])
      ≡ (has_relay rs >>= λ found. if found then ok true else drives_relay r)
unfolding has_relay
has_relay-snoc [] r = go (drives_relay r)
  where
    go : (m : Result Bool) → (m >>= λ found. if found then ok true else ok false) ≡ m
    go (ok true) = refl
    go (ok false) = refl
    go (err e) = refl
has_relay-snoc (x ∷ rs) r = rw (has_relay-snoc rs r) (go (drives_relay x))
  where
    go :
        (m : Result Bool)
        → (m >>= λ found.
            if found
            then ok true
            else (has_relay rs >>= λ found'. if found' then ok true else drives_relay r))
          ≡ ((m >>= λ found. if found then ok true else has_relay rs) >>= λ found.
              if found then ok true else drives_relay r)
    go (ok true) = refl
    go (ok false) = refl
    go (err e) = refl

pub has_relay-push_row :
    (r : Row) (g : NetlistData) (f : Bool)
    → IsAligned g
    → has_relay (rows g) ≡ ok f
    → has_relay (rows (push_row r g)) ≡ (if f then ok true else drives_relay r)
has_relay-push_row r g f a h = rw (rows-push_row r g a, has_relay-snoc (rows g) r, h)

-- An exception in a group that is still growing ends the reading of the groups.
pub relay_groups-err :
    (hs : List Bytes) (g : NetlistData) (comparator : Bytes) (e : Stop)
    → IsAligned g
    → has_relay (rows g) ≡ err e
    → relay_groups (collect g comparator hs) ≡ err e
unfolding relay_groups collect
relay_groups-err [] g comparator e a h = rw h
relay_groups-err (line ∷ hs) g comparator e a h = elim (Bool-cases (starts_group comparator line)) [
  | inl starts ↦ rw (starts, h)
  | inr stays ↦ rw stays (
      relay_groups-err hs (push_row (read_row line) g) line e
        (push_row-IsAligned (read_row line) g a)
        (rw (rows-push_row (read_row line) g a, has_relay-snoc (rows g) (read_row line), h)))
]

pub after-err :
    (relays : List NetlistData) (m : Result (List NetlistData)) (e : Stop)
    → m ≡ err e
    → after_relays relays m ≡ err e
after-err relays m e h = rw h
