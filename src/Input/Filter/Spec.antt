-- ===== src/Input/Filter/Spec.antt =====
-- `filterNetlistData` on a new Input keeps the groups that drive a relay.
use relay_dev.Common.{
  ℕ, suc, ◌≡◌, refl, ap, ◌∙◌, Bool, true, false, List, [], ◌∷◌, ◌++◌, append_assoc, append-nil,
  arith, if◌then◌else◌, ltb, length, length-append, modify, modify-append, Result, ok, err, ◌>>=◌,
}
use relay_dev.Data.{NetlistData, new_netlist}
use relay_dev.Input.Netlist.{Row, rows}
use relay_dev.Input.Filter.{
  drives_relay, append_group, scan_group, filter_groups, filter_netlist_data,
}

-- Some line drives a relay, looked for from the front.
unfoldable pub has_relay : List Row → Result Bool
has_relay [] = ok false
has_relay (r ∷ rs) =
    let rest = has_relay rs in drives_relay r >>= λ found. if found then ok true else rest

-- The groups that have one, in order.
unfoldable pub relay_groups : List NetlistData → Result (List NetlistData)
relay_groups [] = ok []
relay_groups (g ∷ gs) = has_relay (rows g) >>= λ found.
    relay_groups gs >>= λ rest. ok (if found then g ∷ rest else rest)

abbrev kept : NetlistData → List NetlistData → Bool → List NetlistData × ℕ
kept g relays true = (relays ++ g ∷ [], suc (length relays))
kept g relays false = (relays, length relays)

scan_group-kept :
    (g : NetlistData) (rs : List Row) (relays : List NetlistData)
    → scan_group g rs (length relays) relays ≡ (has_relay rs >>= λ found. ok (kept g relays found))
unfolding scan_group has_relay
scan_group-kept g [] relays = refl
scan_group-kept g (r ∷ rs) relays = go (drives_relay r) (scan_group-kept g rs relays)
  where
    grown : ltb (length relays) (length (relays ++ g ∷ [])) ≡ true
    grown = ground (arith, length-append relays (g ∷ []))

    same : ltb (length relays) (length relays) ≡ false
    same = ground arith

    go :
        (m : Result Bool)
        → scan_group g rs (length relays) relays
          ≡ (has_relay rs >>= λ found. ok (kept g relays found))
        → (m >>= λ found.
            let relay_list' =
              if found
              then modify (length relays) (append_group g) (relays ++ new_netlist ∷ [])
              else relays in
            let rest = scan_group g rs (length relays) relay_list' in
            if ltb (length relays) (length relay_list')
            then ok (relay_list', suc (length relays))
            else rest)
          ≡ ((m >>= λ found. if found then ok true else has_relay rs) >>= λ found.
              ok (kept g relays found))
    go (err e) ih = refl
    go (ok true) ih = rw (modify-append relays (append_group g) new_netlist [], grown)
    go (ok false) ih = rw same ih

abbrev pub after_relays : List NetlistData → Result (List NetlistData) → Result (List NetlistData)
after_relays relays m = m >>= λ rest. ok (relays ++ rest)

filter_groups-relay_groups :
    (gs relays : List NetlistData)
    → filter_groups gs (length relays) relays ≡ after_relays relays (relay_groups gs)
unfolding filter_groups relay_groups
filter_groups-relay_groups [] relays = rw append-nil
filter_groups-relay_groups (g ∷ gs) relays =
    rw (scan_group-kept g (rows g) relays) (go (has_relay (rows g)) (filter_groups-relay_groups gs))
  where
    sizes : suc (length relays) ≡ length (relays ++ g ∷ [])
    sizes = omega (arith, length-append relays (g ∷ []))

    push :
        (m : Result (List NetlistData))
        → after_relays (relays ++ g ∷ []) m ≡ after_relays relays (m >>= λ rest. ok (g ∷ rest))
    push (ok rest) = ap ok (append_assoc relays (g ∷ []) rest)
    push (err e) = refl

    keep :
        (m : Result (List NetlistData))
        → after_relays relays m ≡ after_relays relays (m >>= λ rest. ok rest)
    keep (ok rest) = refl
    keep (err e) = refl

    go :
        (m : Result Bool)
        → ((rs : List NetlistData)
            → filter_groups gs (length rs) rs ≡ after_relays rs (relay_groups gs))
        → ((m >>= λ found. ok (kept g relays found)) >>= λ (relay_list', relay_counter').
            filter_groups gs relay_counter' relay_list')
          ≡ after_relays relays
              (m >>= λ found. relay_groups gs >>= λ rest. ok (if found then g ∷ rest else rest))
    go (err e) ih = refl
    go (ok true) ih = rw sizes (ih (relays ++ g ∷ []) ∙ push (relay_groups gs))
    go (ok false) ih = ih relays ∙ keep (relay_groups gs)

-- On a new Input the relay list is the groups with a line that drives a relay, whole, once each and
-- in the order of the netlist; an exception of `stoi` ends it as it does there.
pub filter_netlist_data-relay_groups :
    (netlist_data : List NetlistData)
    → filter_netlist_data netlist_data [] ≡ relay_groups netlist_data
unfolding filter_netlist_data
filter_netlist_data-relay_groups gs =
    filter_groups-relay_groups gs [] ∙ nothing_before (relay_groups gs)
  where
    nothing_before : (m : Result (List NetlistData)) → after_relays [] m ≡ m
    nothing_before (ok rest) = refl
    nothing_before (err e) = refl
