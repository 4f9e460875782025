-- ===== src/Legacy/Convert/Agreement.antt =====
-- Where the rows of the console program are those of the service.
use relay_dev.Common.{
  ℕ, suc, ◌+◌, ◌≡◌, refl, sym, ap, ◌∙◌, ◌⊎◌, inl, inr, false, List, [], ◌∷◌, ◌++◌, map,
  append_assoc, append-nil, some, arith, Bool-cases, All, length, length-append, get_elem?,
  get_elem?-append, Result, ok, err, defined, ◌>>=◌, ℤ, pos, is_pos,
}
use mathlib.Core.List.{map-append}
use relay_dev.Text.{Bytes, codes, equal}
use relay_dev.Text.Search.{equal_iff}
use relay_dev.Data.{RelayData, NetlistData, IoData, new_relay}
use relay_dev.Input.Netlist.{Row, rows}
use relay_dev.Input.Filter.{is_expander}
use relay_dev.Input.Models
use relay_dev.Relay.Pin
use relay_dev.Relay.Enum
use relay_dev.Relay.Port
use relay_dev.Relay.Device.Numbers.{expander_of, Listed}
use relay_dev.Relay.Device
use relay_dev.Relay.Convert.{Junk, RelayState}
use relay_dev.Relay.Convert
use relay_dev.Relay.Convert.Rows.{blank, Keeps, blank-Keeps, convert_all}
use relay_dev.Relay.Convert.Relays.{board_chain, board_modifier, relay_convert-all}
use relay_dev.Legacy.Convert.{
  InputData, conver_chain, find_position, find_device, convert_device, convert_relay,
  convert_relays, relay_convert,
}

-- The columns in which the programs may differ are left empty.
abbrev pub shared : RelayData → RelayData
shared r = record r { drive_strength = []; normal_state = [] }

-- The relay has an expander, which is in the daisy chain.
abbrev pub HasDevice : List IoData → NetlistData → Type 0
HasDevice io g = (a : Bytes) × (expander_of (rows g) ≡ some a) × Listed a io

find_position-agrees :
    (junk : ℤ) (a : Bytes) (io : List IoData)
    → Listed a io
    → pos (find_position a io + 21) ≡ Device.find_device junk 21 a io
unfolding find_position Device.find_device
find_position-agrees junk a [] l = absurd l
find_position-agrees junk a (x ∷ io) l = elim (Bool-cases (equal x.identifier a)) [
  | inl same ↦ rw same
  | inr other ↦ rw other (find_position-agrees junk a io (later l other))
]
  where
    later : (x.identifier ≡ a) ⊎ Listed a io → (equal x.identifier a ≡ false) → Listed a io
    later (inl e) other = cc ((equal_iff x.identifier a).1 e)
    later (inr m) other = m

find_device-agrees :
    (junk : ℤ) (io : List IoData) (rs : List Row) (a : Bytes)
    → expander_of rs ≡ some a
    → Listed a io
    → pos (find_device io rs + 21) ≡ Device.convert_device junk 21 io rs
unfolding expander_of find_device Device.convert_device
find_device-agrees junk io [] a e l = cc
find_device-agrees junk io (r ∷ rs) a e l = elim (Bool-cases (is_expander r)) [
  | inl hit ↦
      let same : r.identifier ≡ a = ground arith in
      rw (hit, same) (find_position-agrees junk a io l)
  | inr miss ↦ rw miss (find_device-agrees junk io rs a (ground arith) l)
]

-- Both rows, or both stop alike.
abbrev Agree : Result RelayData → Result RelayData → Type 0
Agree (ok r) (ok s) = (shared r ≡ shared s) × Keeps (pos 0) r
Agree (err e) (err f) = e ≡ f
Agree (ok r) (err f) = ⊥
Agree (err e) (ok s) = ⊥

bind-Agree :
    {A : Type 0} (m : Result A) (k k' : A → Result RelayData)
    → ((a : A) → Agree (k a) (k' a))
    → Agree (m >>= k) (m >>= k')
bind-Agree (err e) k k' h = refl
bind-Agree (ok a) k k' h = h a

module _ (input : InputData) (service : Models.InputData) (power : input.board_type ≡ codes "Power")
    (chain : input.io_data ≡ service.io_data) where
  convert_device-agrees :
      (junk : ℤ) (g : NetlistData)
      → HasDevice service.io_data g
      → pos (convert_device (rows g) input.board_type input.io_data)
        ≡ Device.convert_device junk 21 service.io_data (rows g)
  unfolding convert_device equal
  convert_device-agrees junk g (a, e, l) =
      rw (power, chain) (find_device-agrees junk service.io_data (rows g) a e l)

  conver_chain-power : conver_chain input.board_type ≡ pos 0
  unfolding conver_chain equal
  conver_chain-power = rw power

  convert_relay-agrees :
      (junk : ℤ) (g : NetlistData) (temp : RelayData)
      → Keeps (pos 0) temp
      → HasDevice service.io_data g
      → Agree (convert_relay input g temp) (Convert.convert_relay service junk 21 g (blank (pos 0)))
  unfolding convert_relay Convert.convert_relay blank new_relay
  convert_relay-agrees junk g temp k h =
      let device = convert_device-agrees junk g h in
      bind-Agree (defined (get_elem? g.name 0)) _ _ (λ name.
        bind-Agree (Pin.convert_pin name) _ _ (λ pin.
          bind-Agree (Enum.convert_enum name) _ _ (λ enumeration.
            bind-Agree (Port.convert_port (rows g)) _ _ (λ port.
              rw
                (
                  device, conver_chain-power, k.min_open_time, k.typ_open_time, k.max_open_time,
                  k.min_close_time, k.typ_close_time, k.max_close_time,
                )
                (
                  refl,
                  record {
                    chain_number = refl;
                    min_open_time = refl;
                    typ_open_time = refl;
                    max_open_time = refl;
                    min_close_time = refl;
                    typ_close_time = refl;
                    max_close_time = refl;
                  },
                )))))

  -- The rest of the loop, with the rows that both programs have so far.
  convert_relays-agrees :
      (junk : Junk) (n : ℕ) (done gs : List NetlistData) (temp : RelayData)
      (before before' : List RelayData)
      → input.relay_list ≡ done ++ gs
      → Keeps (pos 0) temp
      → All (HasDevice service.io_data) gs
      → map shared before ≡ map shared before'
      → (convert_relays (length gs) (length done) input temp before >>= λ rs. ok (map shared rs))
        ≡ (convert_all service junk (pos 0) 21 n gs >>= λ rs. ok (map shared (before' ++ rs)))
  unfolding convert_relays convert_all
  convert_relays-agrees junk n done [] temp before before' e k h same = rw append-nil (ap ok same)
  convert_relays-agrees junk n done (g ∷ gs) temp before before' e k h same =
      let found : get_elem? input.relay_list (length done) ≡ some g =
        rw e (get_elem?-append done g gs) in
      let index : suc (length done) ≡ length (done ++ g ∷ []) =
        omega (arith, length-append done (g ∷ [])) in
      rw (found, index)
        (go (convert_relay input g temp)
          (Convert.convert_relay service (junk.device n) 21 g (blank (pos 0)))
          (convert_relay-agrees (junk.device n) g temp k h.0)
          (convert_relays-agrees junk (suc n) (done ++ g ∷ []) gs))
    where
      go :
          (l s : Result RelayData)
          → Agree l s
          → ((temp' : RelayData) (b b' : List RelayData)
              → input.relay_list ≡ (done ++ g ∷ []) ++ gs
              → Keeps (pos 0) temp'
              → All (HasDevice service.io_data) gs
              → map shared b ≡ map shared b'
              → (convert_relays (length gs) (length (done ++ g ∷ [])) input temp' b >>= λ rs.
                  ok (map shared rs))
                ≡ (convert_all service junk (pos 0) 21 (suc n) gs >>= λ rs.
                    ok (map shared (b' ++ rs))))
          → ((l >>= λ temp'.
                convert_relays
                  (length gs)
                  (length (done ++ g ∷ []))
                  input
                  temp'
                  (before ++ temp' ∷ []))
              >>= λ rs. ok (map shared rs))
            ≡ ((s >>= λ r. convert_all service junk (pos 0) 21 (suc n) gs >>= λ rs. ok (r ∷ rs))
                >>= λ rs. ok (map shared (before' ++ rs)))
      go (err x) (err y) a ih = ap err a
      go (err x) (ok r) a ih = absurd a
      go (ok l) (err y) a ih = absurd a
      go (ok l) (ok r) (a, k') ih =
          ih l (before ++ l ∷ []) (before' ++ r ∷ []) (e ∙ sym (append_assoc done (g ∷ []) gs)) k'
            h.1
            (rw (map-append shared before (l ∷ []), map-append shared before' (r ∷ []), same, a))
          ∙ moved (convert_all service junk (pos 0) 21 (suc n) gs)
        where
          moved :
              (m : Result (List RelayData))
              → (m >>= λ rs. ok (map shared ((before' ++ r ∷ []) ++ rs)))
                ≡ ((m >>= λ rs. ok (r ∷ rs)) >>= λ rs. ok (map shared (before' ++ rs)))
          moved (err x) = refl
          moved (ok rs) = ap (λ xs. ok (map shared xs)) (append_assoc before' (r ∷ []) rs)

-- The console program on a Power board, and the service where `convertChain` does not give 1: with
-- one daisy chain and one relay list, in which every relay's expander is in the chain, they make the
-- same rows, but for the drive strength and the normal state, or stop alike, whatever the locals
-- hold that `convertDevice` does not assign.
pub relay_convert-agrees :
    (input : InputData) (service : Models.InputData) (junk : Junk) (relay : RelayState)
    → input.board_type ≡ codes "Power"
    → is_pos 1 (Device.convert_chain junk.chain service.board_type) ≡ false
    → input.io_data ≡ service.io_data
    → input.relay_list ≡ service.relay_list
    → All (HasDevice service.io_data) service.relay_list
    → relay.relay_data ≡ []
    → (relay_convert input (length input.relay_list) [] >>= λ rs. ok (map shared rs))
      ≡ (Convert.relay_convert service junk relay >>= λ r. ok (map shared r.relay_data))
unfolding relay_convert new_relay blank Device.convert_chain equal
relay_convert-agrees input service junk relay power other io same listed fresh =
    let size : length input.relay_list ≡ length service.relay_list = ap length same in
    let chain : board_chain service junk ≡ pos 0 = rw other in
    let modifier : board_modifier service junk ≡ 21 = rw other in
    rw (size, relay_convert-all service junk relay, chain, modifier)
      (convert_relays-agrees input service power io junk 0 [] service.relay_list new_relay [] []
          same (blank-Keeps (pos 0)) listed refl
        ∙ finish (convert_all service junk (pos 0) 21 0 service.relay_list))
  where
    finish :
        (m : Result (List RelayData))
        → (m >>= λ rs. ok (map shared rs)) ≡ (
            (m >>= λ rs. ok (record relay {
              device_modifier = 21;
              relay_amount = length service.relay_list;
              relay_data = relay.relay_data ++ rs;
              current_relay = length service.relay_list;
            }))
            >>= λ r. ok (map shared r.relay_data))
    finish (err e) = refl
    finish (ok rs) = rw fresh
