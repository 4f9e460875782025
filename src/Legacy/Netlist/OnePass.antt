-- ===== src/Legacy/Netlist/OnePass.antt =====
-- The one pass of the console program over the netlist, and the two of the service.
use relay_dev.Common.{
  ℕ, suc, ◌≡◌, refl, sym, ap, ◌∙◌, inl, inr, Bool, true, false, List, [], ◌∷◌, ◌++◌, map, arith,
  if◌then◌else◌, length, replicate, Result, ok, err, ◌>>=◌, Stop,
}
use relay_dev.Common.{
  Bool-cases, get_elem?-append, modify-append, append_assoc, append-nil, length-append,
}
use relay_dev.Text.{Bytes, equal, upper}
use relay_dev.Data.{NetlistData, new_netlist}
use relay_dev.Input.Netlist.{Row, read_row, push_row, starts_group, rows}
use relay_dev.Input.Netlist
use relay_dev.Input.Netlist.Groups.{collect, runs, push-here, push-next, get_netlist_data-runs}
use relay_dev.Input.Netlist.Lines.{IsAligned, push_row-IsAligned, new-IsAligned}
use relay_dev.Input.Filter.{is_expander, drives_relay, append_group, filter_netlist_data}
use relay_dev.Input.Filter.Spec.{
  has_relay, relay_groups, after_relays, filter_netlist_data-relay_groups,
}
use relay_dev.Input.Filter.Empty.{new-has_relay, relay_groups-replicate}
use relay_dev.Legacy.Netlist.Growing.{has_relay-push_row, relay_groups-err, after-err}
use relay_dev.Legacy.Netlist.{
  Reading, is_gnd, gnd_name, check_connection, flush, change_group, mark, store, read_lines,
  new_reading, get_netlist_data,
}

abbrev relays_of : Result Reading → Result (List NetlistData)
relays_of m = m >>= λ s. ok s.relay_list

-- The group `g` is being read, behind `done`.
abbrev reading : List NetlistData → NetlistData → ℕ → List NetlistData → List Bytes → Bool → Reading
reading done g k relays gnd f = record {
  netlist_data = done ++ g ∷ replicate k new_netlist;
  relay_list = relays;
  gnd_data = gnd;
  loop_counter = length done;
  relay_counter = length relays;
  relay_connection = f;
}

drives_relay-expander : (r : Row) → is_expander r ≡ true → drives_relay r ≡ check_connection r
unfolding drives_relay check_connection
drives_relay-expander r hit = rw hit

drives_relay-other : (r : Row) → is_expander r ≡ false → drives_relay r ≡ ok false
unfolding drives_relay
drives_relay-other r miss = rw miss

-- One line, where the lines after it are known to give `result`.
mark-relays :
    (r : Row) (g : NetlistData) (s : Reading) (flag : Bool) (next : Reading → Result Reading)
    (result : Result (List NetlistData))
    → has_relay (rows (push_row r g)) ≡ (if flag then ok true else drives_relay r)
    → ((f : Bool)
        → has_relay (rows (push_row r g)) ≡ ok f
        → relays_of (next (store r (record s { relay_connection = f }))) ≡ result)
    → ((e : Stop) → has_relay (rows (push_row r g)) ≡ err e → result ≡ err e)
    → relays_of (mark r (record s { relay_connection = flag }) >>= λ s'. next (store r s')) ≡ result
unfolding mark
mark-relays r g s true next result pushed goes stops = elim (Bool-cases (is_expander r)) [
  | inl hit ↦ rw (hit, mark) (goes true pushed)
  | inr miss ↦ rw (miss, mark) (goes true pushed)
]
mark-relays r g s false next result pushed goes stops = elim (Bool-cases (is_expander r)) [
  | inl hit ↦ rw (hit, mark) (go (check_connection r) (pushed ∙ drives_relay-expander r hit))
  | inr miss ↦ rw (miss, mark) (goes false (pushed ∙ drives_relay-other r miss))
]
  where
    flagged : Bool → Reading
    flagged f = record s { relay_connection = f }

    go :
        (m : Result Bool)
        → has_relay (rows (push_row r g)) ≡ m
        → relays_of (
            (m >>= λ found. ok (if found then flagged true else flagged false)) >>= λ s'.
            next (store r s'))
          ≡ result
    go (ok true) h = goes true h
    go (ok false) h = goes false h
    go (err e) h = sym (stops e h)

abbrev keep : NetlistData → List NetlistData → Bool → List NetlistData
keep g relays true = relays ++ g ∷ []
keep g relays false = relays

flush-reading :
    (done : List NetlistData) (g : NetlistData) (k : ℕ) (relays : List NetlistData)
    (gnd : List Bytes) (f : Bool)
    → flush (reading done g k relays gnd f) ≡ ok (reading done g k (keep g relays f) gnd false)
unfolding flush
flush-reading done g k relays gnd false = refl
flush-reading done g k relays gnd true =
    let size : length (relays ++ g ∷ []) ≡ suc (length relays) =
      omega (arith, length-append relays (g ∷ [])) in
    rw (
      get_elem?-append done g (replicate k new_netlist),
      modify-append relays (append_group g) new_netlist [],
      size,
    )

-- A group that has been read, before the groups that come.
keep-relays :
    (g : NetlistData) (relays : List NetlistData) (f : Bool) (gs : List NetlistData)
    → has_relay (rows g) ≡ ok f
    → after_relays (keep g relays f) (relay_groups gs) ≡ after_relays relays (relay_groups (g ∷ gs))
unfolding relay_groups
keep-relays g relays f gs h = rw h (go f (relay_groups gs))
  where
    go :
        (b : Bool) (m : Result (List NetlistData))
        → after_relays (keep g relays b) m
          ≡ after_relays relays (m >>= λ rest. ok (if b then g ∷ rest else rest))
    go b (err e) = refl
    go true (ok rest) = ap ok (append_assoc relays (g ∷ []) rest)
    go false (ok rest) = refl

keep-last :
    (g : NetlistData) (relays : List NetlistData) (f : Bool)
    → has_relay (rows g) ≡ ok f
    → ok (keep g relays f) ≡ after_relays relays (relay_groups (g ∷ []))
unfolding relay_groups
keep-last g relays f h = sym (ap ok (append-nil (keep g relays f))) ∙ keep-relays g relays f [] h

abbrev grounds : Row → List Bytes → List Bytes
grounds r gnd = if is_gnd r then gnd ++ gnd_name r ∷ [] else gnd

store-here :
    (r : Row) (done : List NetlistData) (g : NetlistData) (k : ℕ) (relays : List NetlistData)
    (gnd : List Bytes) (f : Bool)
    → store r (reading done g k relays gnd f)
      ≡ reading done (push_row r g) (suc k) relays (grounds r gnd) f
unfolding store
store-here r done g k relays gnd f = rw (push-here done g k r)

store-next :
    (r : Row) (done : List NetlistData) (g : NetlistData) (k : ℕ) (relays : List NetlistData)
    (gnd : List Bytes) (f : Bool)
    → store r (record (reading done g k relays gnd f) { loop_counter = suc (length done) })
      ≡ reading (done ++ g ∷ []) (push_row r new_netlist) k relays (grounds r gnd) f
unfolding store
store-next r done g k relays gnd f =
    let size : length (done ++ g ∷ []) ≡ suc (length done) =
      omega (arith, length-append done (g ∷ [])) in
    rw (push-next done g k r, size)

-- The rest of the file, where the group that is being read drives a relay if the flag says so.
read_lines-relays :
    (hs : List Bytes) (comparator : Bytes) (done : List NetlistData) (g : NetlistData) (k : ℕ)
    (relays : List NetlistData) (gnd : List Bytes) (f : Bool)
    → IsAligned g
    → has_relay (rows g) ≡ ok f
    → relays_of (read_lines comparator hs (reading done g k relays gnd f))
      ≡ after_relays relays (relay_groups (collect g comparator hs))
unfolding read_lines change_group collect
read_lines-relays [] comparator done g k relays gnd f a h =
    rw (flush-reading done g k relays gnd f) (keep-last g relays f h)
read_lines-relays (line ∷ hs) comparator done g k relays gnd f a h =
    let r = read_row line in
    elim (Bool-cases (starts_group comparator line)) [
      | inl starts ↦
          let more = collect (push_row r new_netlist) line hs in
          rw (starts, flush-reading done g k relays gnd f, read_lines, change_group)
            (mark-relays r new_netlist
              (record (reading done g k (keep g relays f) gnd false) {
                loop_counter = suc (length done);
              })
              false (read_lines line hs) (after_relays relays (relay_groups (g ∷ more)))
              (has_relay-push_row r new_netlist false new-IsAligned new-has_relay)
              (λ f' e. rw (store-next r done g k (keep g relays f) gnd f') (
                read_lines-relays hs line (done ++ g ∷ []) (push_row r new_netlist) k
                  (keep g relays f) (grounds r gnd) f'
                  (push_row-IsAligned r new_netlist new-IsAligned) e
                ∙ keep-relays g relays f more h))
              (λ e stops.
                sym (keep-relays g relays f more h)
                ∙ after-err (keep g relays f) (relay_groups more) e (
                    relay_groups-err hs (push_row r new_netlist) line e
                      (push_row-IsAligned r new_netlist new-IsAligned) stops)))
      | inr stays ↦
          rw (stays, read_lines, change_group)
            (mark-relays r g (reading done g k relays gnd f) f (read_lines line hs)
              (after_relays relays (relay_groups (collect (push_row r g) line hs)))
              (has_relay-push_row r g f a h)
              (λ f' e. rw (store-here r done g k relays gnd f') (
                read_lines-relays hs line done (push_row r g) (suc k) relays (grounds r gnd) f'
                  (push_row-IsAligned r g a) e))
              (λ e stops.
                after-err relays (relay_groups (collect (push_row r g) line hs)) e
                  (relay_groups-err hs (push_row r g) line e (push_row-IsAligned r g a) stops)))
    ]

runs-relays : (hs : List Bytes) → relays_of (get_netlist_data hs) ≡ relay_groups (runs hs)
unfolding get_netlist_data read_lines runs relay_groups change_group starts_group new_reading equal
runs-relays [] = unfold flush in refl
runs-relays (line ∷ hs) =
    let r = read_row line in
    mark-relays r new_netlist new_reading false (read_lines line hs)
      (relay_groups (collect (push_row r new_netlist) line hs))
      (has_relay-push_row r new_netlist false new-IsAligned new-has_relay)
      (λ f e.
        unfold store in
        read_lines-relays hs line [] (push_row r new_netlist) 0 [] (grounds r []) f
          (push_row-IsAligned r new_netlist new-IsAligned) e
        ∙ nothing_before (relay_groups (collect (push_row r new_netlist) line hs)))
      (λ e stops.
        relay_groups-err hs (push_row r new_netlist) line e
          (push_row-IsAligned r new_netlist new-IsAligned) stops)
  where
    nothing_before : (m : Result (List NetlistData)) → after_relays [] m ≡ m
    nothing_before (ok rest) = refl
    nothing_before (err e) = refl

-- On the lines in upper case, the one pass of the console program makes the relay list that the two
-- passes of the service make of the file, exceptions of `stoi` included.
pub get_netlist_data-filter :
    (lines : List Bytes)
    → (get_netlist_data (map (map upper) lines) >>= λ s. ok s.relay_list)
      ≡ filter_netlist_data (Netlist.get_netlist_data lines []) []
get_netlist_data-filter lines =
    let (m, e, _) = get_netlist_data-runs lines in
    rw
      (
        e,
        filter_netlist_data-relay_groups (runs (map (map upper) lines) ++ replicate m new_netlist),
        relay_groups-replicate (runs (map (map upper) lines)) m,
      )
      (runs-relays (map (map upper) lines))
