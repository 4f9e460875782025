-- ===== src/Tests/Files.antt =====
-- The output file, and two queries that write it.
use relay_dev.Common.{◌≡◌, ◌⊎◌, refl, inl, inr, List, [], ◌∷◌, ◌++◌, arith, take, length, ok}
use relay_dev.Text.{Bytes, codes}
use relay_dev.Text.Number.{decimal_from, decimal, to_string}
use relay_dev.Data.{RelayData}
use relay_dev.Relay.Convert.{RelayState}
use relay_dev.Output.Csv.{write_relay}
use relay_dev.Output.Csv.Stream.{pieces, text_of, Puts}
use relay_dev.Output.Csv.Stream.Torn.{Puts-torn}
use relay_dev.Tests.Samples.{plain_relay}

abbrev relay_of : List RelayData → RelayState
relay_of rs = record {
  device_modifier = 21;
  current_relay = length rs;
  relay_data = rs;
  relay_amount = length rs;
}

abbrev other_relay : RelayData
other_relay = record plain_relay { relay_name = codes "K_REL_LONG_12" }

abbrev two : RelayState
two = relay_of (plain_relay ∷ plain_relay ∷ [])

abbrev one : RelayState
one = relay_of (other_relay ∷ [])

abbrev FromBoth : RelayState → Type 0
FromBoth r = (r ≡ two) ⊎ (r ≡ one)

abbrev line : Bytes
line = write_relay plain_relay ++ b'\n' ∷ []

abbrev last_line : Bytes
last_line = write_relay plain_relay ++ []

abbrev other_line : Bytes
other_line = write_relay other_relay ++ []

pieces_of_two : pieces two.relay_amount 0 two ≡ ok (line ∷ last_line ∷ [])
unfolding pieces
pieces_of_two = refl

pieces_of_one : pieces one.relay_amount 0 one ≡ ok (other_line ∷ [])
unfolding pieces
pieces_of_one = refl

Puts-torn_example :
    Puts FromBoth
      (record { content = []; streams = [] })
      (record {
        content = take (length (text_of (line ∷ []))) (text_of (other_line ∷ [])) ++ last_line;
        streams = [];
      })
unfolding write_relay to_string decimal decimal_from
Puts-torn_example =
    Puts-torn FromBoth two one (line ∷ []) (other_line ∷ []) last_line [] (inl refl) (inr refl)
      pieces_of_two pieces_of_one (omega arith) (omega arith)
