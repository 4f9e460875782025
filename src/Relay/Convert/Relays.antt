-- ===== src/Relay/Convert/Relays.antt =====
-- `relayConvert` converts each relay by itself, in the order of the relay list.
use relay_dev.Common.{
  ℕ, suc, ◌+◌, ◌≡◌, refl, sym, ap, subst, ◌∙◌, List, [], ◌∷◌, ◌++◌, append_assoc, append-nil, arith,
  if◌then◌else◌, length, Result, ok, err, ◌>>=◌, >>=-eq-ok, ℤ, pos, is_pos, Bool-cases, inl, inr,
}
use relay_dev.Data.{RelayData, NetlistData}
use relay_dev.Input.Models.{InputData}
use relay_dev.Relay.Device.{convert_chain}
use relay_dev.Relay.Convert.{Junk, RelayState, convert_relay, convert_relays, relay_convert}
use relay_dev.Relay.Convert.Rows.{
  blank, Keeps, blank-Keeps, IsRowOf, convert_all, convert_relay-blank, convert_relay-Keeps,
  convert_relay-IsRowOf, modifier_of,
}

abbrev finish : RelayState → ℕ → List RelayData → RelayState
finish relay n rs = record relay {
  relay_data = relay.relay_data ++ rs;
  current_relay = relay.current_relay + n;
}

convert_relays-all :
    (input : InputData) (junk : Junk) (chain : ℤ) (gs : List NetlistData) (temp : RelayData)
    (relay : RelayState)
    → Keeps chain temp
    → convert_relays input junk temp gs relay ≡ (
        convert_all input junk chain relay.device_modifier relay.current_relay gs >>= λ rs.
        ok (finish relay (length gs) rs))
unfolding convert_relays convert_all
convert_relays-all input junk chain [] temp relay k =
    let e : relay.current_relay + 0 ≡ relay.current_relay = omega arith in
    rw (append-nil relay.relay_data, e)
convert_relays-all input junk chain (g ∷ gs) temp relay k =
    rw
      (convert_relay-blank input (junk.device relay.current_relay) relay.device_modifier g chain
        temp k)
      (go
        (convert_relay input (junk.device relay.current_relay) relay.device_modifier g
          (blank chain))
        refl (convert_relays-all input junk chain gs))
  where
    go :
        (m : Result RelayData)
        → convert_relay input
            (junk.device relay.current_relay)
            relay.device_modifier
            g
            (blank chain)
          ≡ m
        → ((temp' : RelayData) (relay' : RelayState)
            → Keeps chain temp'
            → convert_relays input junk temp' gs relay' ≡ (
                convert_all input junk chain relay'.device_modifier relay'.current_relay gs
                >>= λ rs. ok (finish relay' (length gs) rs)))
        → (m >>= λ temp'. convert_relays input junk temp' gs (record relay {
          relay_data = relay.relay_data ++ temp' ∷ [];
          current_relay = suc relay.current_relay;
        }))
          ≡ ((m >>= λ r.
                convert_all input junk chain relay.device_modifier (suc relay.current_relay) gs
                >>= λ rs. ok (r ∷ rs))
              >>= λ rs. ok (finish relay (suc (length gs)) rs))
    go (err e) h ih = refl
    go (ok r) h ih =
        ih r _ (
          convert_relay-Keeps input (junk.device relay.current_relay) relay.device_modifier g chain
            r h)
        ∙ moved (convert_all input junk chain relay.device_modifier (suc relay.current_relay) gs)
      where
        moved :
            (m : Result (List RelayData))
            → (m >>= λ rs. ok (
                finish
                  (record relay {
                    relay_data = relay.relay_data ++ r ∷ [];
                    current_relay = suc relay.current_relay;
                  })
                  (length gs)
                  rs))
              ≡ ((m >>= λ rs. ok (r ∷ rs)) >>= λ rs. ok (finish relay (suc (length gs)) rs))
        moved (err e) = refl
        moved (ok rs) =
            let e : suc relay.current_relay + length gs ≡ relay.current_relay + suc (length gs) =
              omega arith in
            rw (append_assoc relay.relay_data (r ∷ []) rs, e)

-- The rows match the relays one to one.
pub data RowsOf (input : InputData) (chain : ℤ) : List NetlistData → List RelayData → Type 0 where
  nil : RowsOf input chain [] []
  cons :
      {g : NetlistData} {gs : List NetlistData} {r : RelayData} {rs : List RelayData}
      → IsRowOf input chain g r
      → RowsOf input chain gs rs
      → RowsOf input chain (g ∷ gs) (r ∷ rs)

convert_all-RowsOf :
    (input : InputData) (junk : Junk) (chain : ℤ) (modifier n : ℕ) (gs : List NetlistData)
    (rs : List RelayData)
    → modifier ≡ modifier_of chain
    → convert_all input junk chain modifier n gs ≡ ok rs
    → RowsOf input chain gs rs × (length rs ≡ length gs)
unfolding convert_all
convert_all-RowsOf input junk chain modifier n [] [] same_modifier h = (nil, refl)
convert_all-RowsOf input junk chain modifier n [] (r ∷ rs) same_modifier h = cc
convert_all-RowsOf input junk chain modifier n (g ∷ gs) rs same_modifier h =
    let (r, here, rest) =
      >>=-eq-ok (convert_relay input (junk.device n) modifier g (blank chain))
        (λ x. convert_all input junk chain modifier (suc n) gs >>= λ ys. ok (x ∷ ys)) h in
    let (ys, there, e) =
      >>=-eq-ok (convert_all input junk chain modifier (suc n) gs) (λ ys. ok (r ∷ ys)) rest in
    let (more, size) =
      convert_all-RowsOf input junk chain modifier (suc n) gs ys same_modifier there in
    let same : r ∷ ys ≡ rs = ground arith in
    subst (λ l. RowsOf input chain (g ∷ gs) l × (length l ≡ suc (length gs))) same
      (
        cons (convert_relay-IsRowOf input (junk.device n) modifier g chain r here same_modifier)
            more,
        ap suc size,
      )

abbrev pub board_chain : InputData → Junk → ℤ
board_chain input junk =
    if is_pos 1 (convert_chain junk.chain input.board_type) then pos 1 else pos 0

abbrev pub board_modifier : InputData → Junk → ℕ
board_modifier input junk = if is_pos 1 (convert_chain junk.chain input.board_type) then 18 else 21

board_modifier-eq :
    (input : InputData) (junk : Junk)
    → board_modifier input junk ≡ modifier_of (board_chain input junk)
board_modifier-eq input junk =
    elim (Bool-cases (is_pos 1 (convert_chain junk.chain input.board_type))) [
      | inl precision ↦ rw precision
      | inr other ↦ rw other
    ]

-- `relayConvert` appends one row for each relay of the list, converted by itself from a blank row
-- with the board's chain number, and sets the amount to the length of the list.
pub relay_convert-all :
    (input : InputData) (junk : Junk) (relay : RelayState)
    → relay_convert input junk relay ≡ (
        convert_all input junk
          (board_chain input junk)
          (board_modifier input junk)
          0
          input.relay_list
        >>= λ rs. ok (record relay {
          device_modifier = board_modifier input junk;
          relay_amount = length input.relay_list;
          relay_data = relay.relay_data ++ rs;
          current_relay = length input.relay_list;
        }))
unfolding relay_convert blank
relay_convert-all input junk relay =
    convert_relays-all input junk (board_chain input junk) input.relay_list
      (blank (board_chain input junk))
      (record relay {
        relay_amount = length input.relay_list;
        device_modifier = board_modifier input junk;
        current_relay = 0;
      })
      (blank-Keeps (board_chain input junk))
    ∙ counted (
        convert_all input junk (board_chain input junk) (board_modifier input junk) 0
          input.relay_list)
  where
    zero_plus : 0 + length input.relay_list ≡ length input.relay_list
    zero_plus = omega arith

    counted :
        (m : Result (List RelayData))
        → (m >>= λ rs. ok (
            finish
              (record relay {
                relay_amount = length input.relay_list;
                device_modifier = board_modifier input junk;
                current_relay = 0;
              })
              (length input.relay_list)
              rs))
          ≡ (m >>= λ rs. ok (record relay {
            device_modifier = board_modifier input junk;
            relay_amount = length input.relay_list;
            relay_data = relay.relay_data ++ rs;
            current_relay = length input.relay_list;
          }))
    counted (err e) = refl
    counted (ok rs) = rw zero_plus

-- If `relayConvert` returns from a Relay with no rows, its rows match the relay list one to one, in
-- order, and the amount is their number.
pub relay_convert-RowsOf :
    (input : InputData) (junk : Junk) (relay done : RelayState)
    → relay.relay_data ≡ []
    → relay_convert input junk relay ≡ ok done
    → RowsOf input (board_chain input junk) input.relay_list done.relay_data
      × (done.relay_amount ≡ length done.relay_data)
relay_convert-RowsOf input junk relay done fresh h =
    let (rs, all_ok, e) =
      >>=-eq-ok
        (convert_all input junk (board_chain input junk) (board_modifier input junk) 0
          input.relay_list)
        _ (sym (relay_convert-all input junk relay) ∙ h) in
    let (matched, size) =
      convert_all-RowsOf input junk (board_chain input junk) (board_modifier input junk) 0
        input.relay_list rs (board_modifier-eq input junk) all_ok in
    let stored : relay.relay_data ++ rs ≡ done.relay_data = ground arith in
    let same : rs ≡ done.relay_data = ap (λ l. l ++ rs) (sym fresh) ∙ stored in
    let amount : done.relay_amount ≡ length input.relay_list = ground arith in
    (
      subst (RowsOf input (board_chain input junk) input.relay_list) same matched,
      amount ∙ sym size ∙ ap length same,
    )
