-- ===== src/Tests/Totals.antt =====
-- A query on files that can be served.
use relay_dev.Common.{◌≡◌, refl, sym, subst, inl, inr, List, [], ◌∷◌, some, ok, pos, arith}
use relay_dev.Text
use relay_dev.Text.{Bytes, codes}
use relay_dev.Data.{NetlistData}
use relay_dev.Input.Bill
use relay_dev.Input.Bill.{get_bill_data}
use relay_dev.Input.Netlist
use relay_dev.Input.Netlist.{rows, get_netlist_data}
use relay_dev.Input.Filter
use relay_dev.Input.Filter.Spec.{has_relay, relay_groups}
use relay_dev.Input.Chain
use relay_dev.Input.Chain.{find_first, find_din}
use relay_dev.Input.Chain.Links.{Link, here, there}
use relay_dev.Input.Chain.Finite.{IsFinite}
use relay_dev.Relay.Port.{port_identifier}
use relay_dev.Relay.Convert.Total.{IsConvertible}
use relay_dev.Pool.{new_pool}
use relay_dev.Server.{query, response, handle_query}
use relay_dev.Server.Total.{IsServable, handle_query-total}
use relay_dev.Tests.Samples.{server, with_netlist, netlist_lines}
use relay_dev.Tests.Conversions.{
  part, part_values, part-Reads, relay_on_first, result, first_connection,
}

abbrev groups : List NetlistData
groups = result.input.netlist_data

groups-eq : get_netlist_data netlist_lines [] ≡ groups
unfolding get_netlist_data Netlist.read_netlist Netlist.starts_group Netlist.read_row Text.equal
    Text.cell Text.after_cell Text.find_char Text.substr_to Text.erase_to Text.skip_blanks
    Text.upper
groups-eq = refl

relay_on_first-IsConvertible : IsConvertible relay_on_first
unfolding port_identifier rows Netlist.zip_rows Filter.is_expander Text.equal
    relay_dev.Text.Number.stoi
relay_on_first-IsConvertible = record {
  name = codes "K_REL_12";
  front = codes "K_REL_";
  tens = b'1';
  units = b'2';
  pin = pos 28;
  named = refl;
  long_enough = refl;
  underscore = λ h. cc h.1.0;
  port = refl;
}

no_links : (a b : Bytes) → Link groups a b → ⊥
unfolding find_din Chain.is_din Chain.is_dout Filter.is_expander rows Netlist.zip_rows Text.equal
no_links a b (here (inl (p, q)) e) = cc
no_links a b (here (inr x) e) = elim x [ ]
no_links a b (there (here (inl (p, q)) e)) = cc
no_links a b (there (here (inr x) e)) = elim x [ ]
no_links a b (there (there (here (inl (p, q)) e))) = cc
no_links a b (there (there (here (inr (inl (p, q))) e))) = cc
no_links a b (there (there (here (inr (inr x)) e))) = elim x [ ]
no_links a b (there (there (there (here x e)))) = elim x [ ]
no_links a b (there (there (there (there l)))) = elim l [ ]

groups-IsFinite : IsFinite (λ s. 0) groups (codes "U1")
unfolding Chain.is_dout Filter.is_expander rows Netlist.zip_rows Text.equal
groups-IsFinite = record {
  descends = λ a b l. absurd (no_links a b l);
  first_output = inr (inl (inl (refl, refl)));
  next_output = λ a b l. absurd (no_links a b l);
}

groups-found : find_first groups ≡ some (codes "U1")
unfolding find_first Chain.scan_first Chain.is_din Chain.is_dout Filter.is_expander rows
    Netlist.zip_rows Text.equal
groups-found = refl

groups-relays : relay_groups groups ≡ ok (relay_on_first ∷ [])
unfolding relay_groups has_relay Filter.drives_relay Filter.is_expander Filter.is_reserved rows
    Netlist.zip_rows Text.equal Text.is_digit relay_dev.Text.Number.stoi
groups-relays = refl

files-IsServable : IsServable with_netlist (codes "bom") []
unfolding get_bill_data Bill.read_lines Bill.read_bill Bill.read_identifiers Bill.read_description
    Bill.is_after Text.equal Text.front Text.is_digit Text.cell Text.after_cell Text.find_char
    Text.substr_to Text.erase_to Text.upper
files-IsServable = record {
  bills = part ∷ [];
  values = part_values ∷ [];
  relays = relay_on_first ∷ [];
  first = codes "U1";
  rank = λ s. 0;
  billed = refl;
  valued = part-Reads;
  grouped = subst (λ gs. relay_groups gs ≡ ok (relay_on_first ∷ [])) (sym groups-eq) groups-relays;
  convertible = (relay_on_first-IsConvertible, tt);
  found = subst (λ gs. find_first gs ≡ some (codes "U1")) (sym groups-eq) groups-found;
  finite = subst (λ gs. IsFinite (λ s. 0) gs (codes "U1")) (sym groups-eq) groups-IsFinite;
  in_time = omega arith;
}

handle_query-total_example :
    (body : Bytes) × ((handle_query with_netlist (query (codes "bom") []) server).0
      ≡ response 200 body)
handle_query-total_example =
    handle_query-total with_netlist (codes "bom") [] server 0 (record (new_pool 1) { pool = [] })
      first_connection files-IsServable
