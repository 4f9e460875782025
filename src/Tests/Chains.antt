-- ===== src/Tests/Chains.antt =====
-- The daisy chain of two expanders, and netlists without one.
use relay_dev.Common.{
  ℕ, ◌∙◌, ◌≡◌, refl, sym, inl, inr, List, [], ◌∷◌, none, some, arith, if◌then◌else◌, true, false,
  ap, ok, err, out_of_fuel, undefined,
}
use relay_dev.Text.{Bytes, codes, equal}
use relay_dev.Data.{IoData, NetlistData}
use relay_dev.Input.Netlist.{Row, rows}
use relay_dev.Input.Filter
use relay_dev.Input.Netlist
use relay_dev.Input.Chain.{find_first, find_din, is_dout, get_device_order}
use relay_dev.Input.Chain
use relay_dev.Input.Chain.Links.{
  Outputs, Link, Ends, here, there, IsComplete, get_device_order-IsComplete,
}
use relay_dev.Input.Chain.Finite.{IsFinite, get_device_order-total}
use relay_dev.Input.Chain.Order.{Gives, SameGroups, IsClear, get_device_order-same}
use relay_dev.Common.Rounds.{All-Occurs, Occurs}
use relay_dev.Input.Chain.Endless.{any_dout, get_device_order-lost}
use relay_dev.Tests.Samples.{chain_groups, input_group, link_group, output_group}

find_first_of_chain : find_first chain_groups ≡ some (codes "U1")
unfolding find_first Chain.scan_first Chain.is_din is_dout Filter.is_expander rows Netlist.zip_rows
    equal
find_first_of_chain = refl

find_first_of_input : find_first (input_group ∷ []) ≡ some (codes "U1")
unfolding find_first Chain.scan_first Chain.is_din is_dout Filter.is_expander rows Netlist.zip_rows
    equal
find_first_of_input = refl

abbrev chain_order : List IoData
chain_order =
    record { identifier = codes "U1"; position = 1 }
    ∷ record { identifier = codes "U2"; position = 2 }
    ∷ []

order_of_chain : get_device_order 3 chain_groups [] ≡ ok chain_order
unfolding get_device_order Chain.first_device Chain.follow_chain Chain.scan_groups Chain.scan_rows
    Chain.visit Chain.last_identifier Chain.follow find_din find_first Chain.scan_first Chain.is_din
    is_dout Filter.is_expander rows Netlist.zip_rows equal
order_of_chain = refl

get_device_order-IsComplete_example : IsComplete chain_groups (codes "U1") chain_order
get_device_order-IsComplete_example =
    get_device_order-IsComplete 3 chain_groups (codes "U1") chain_order find_first_of_chain
      order_of_chain

-- The first expander is above the others.
abbrev rank : Bytes → ℕ
rank s = if equal s (codes "U1") then 1 else 0

chain-Link : (a b : Bytes) → Link chain_groups a b → (a ≡ codes "U1") × (b ≡ codes "U2")
unfolding find_din Chain.is_din is_dout Filter.is_expander rows Netlist.zip_rows equal
chain-Link a b (here (inl (p, q)) e) = cc
chain-Link a b (there (here (inl (p, q)) e)) = (sym q, cc)
chain-Link a b (there (here (inr (inl (p, q))) e)) = cc
chain-Link a b (there (there (here (inl (p, q)) e))) = cc
chain-Link a b (here (inr x) e) = elim x [ ]
chain-Link a b (there (here (inr (inr x)) e)) = elim x [ ]
chain-Link a b (there (there (here (inr x) e))) = elim x [ ]
chain-Link a b (there (there (there x))) = elim x [ ]

chain-IsFinite : IsFinite rank chain_groups (codes "U1")
unfolding is_dout Filter.is_expander rows Netlist.zip_rows equal
chain-IsFinite = record {
  descends = λ a b l. let (p, q) = chain-Link a b l in rw (p, q) (omega arith);
  first_output = inr (inl (inl (refl, refl)));
  next_output = λ a b l. let (p, q) = chain-Link a b l in rw q (inr (inr (inl (inl (refl, refl)))));
}

get_device_order-total_example : (io : List IoData) × (get_device_order 3 chain_groups [] ≡ ok io)
unfolding equal
get_device_order-total_example =
    get_device_order-total rank 3 chain_groups (codes "U1") find_first_of_chain chain-IsFinite
      (omega arith)

find_first_of_nothing : find_first [] ≡ none
unfolding find_first
find_first_of_nothing = refl

get_device_order-lost_example :
    get_device_order 100 [] [] ≡ err (if any_dout [] then undefined else out_of_fuel)
get_device_order-lost_example = get_device_order-lost 99 [] [] find_first_of_nothing

no_output : ¬ Outputs (input_group ∷ []) (codes "U1")
unfolding is_dout Filter.is_expander rows Netlist.zip_rows equal
no_output (inl (inl (p, q))) = cc
no_output (inl (inr x)) = elim x [ ]
no_output (inr x) = elim x [ ]

chain-Gives : (g : NetlistData) (a : Bytes) → Occurs g chain_groups → Gives g a → a ≡ codes "U1"
unfolding Chain.scan_first Chain.is_din is_dout Filter.is_expander rows Netlist.zip_rows equal
chain-Gives g a o =
    All-Occurs (λ k. Gives k a → a ≡ codes "U1") g chain_groups
      ((λ h. sym h.0), ((λ h. cc), ((λ h. cc), tt))) o

chain-Ends : (a : Bytes) → Ends chain_groups a → a ≡ codes "U2"
unfolding find_din Chain.is_din is_dout Filter.is_expander rows Netlist.zip_rows equal
chain-Ends a (here (inl (p, q)) e) = cc
chain-Ends a (there (here (inl (p, q)) e)) = cc
chain-Ends a (there (here (inr (inl (p, q))) e)) = cc
chain-Ends a (there (there (here (inl (p, q)) e))) = sym q
chain-Ends a (here (inr x) e) = elim x [ ]
chain-Ends a (there (here (inr (inr x)) e)) = elim x [ ]
chain-Ends a (there (there (here (inr x) e))) = elim x [ ]
chain-Ends a (there (there (there x))) = elim x [ ]

apart : ¬ (codes "U1" ≡ codes "U2")
unfolding equal
apart e = let differ : true ≡ false = ap (equal (codes "U1")) e in cc

chain-IsClear : IsClear chain_groups
chain-IsClear = record {
  one_start =
      λ g h a b o o' gives gives'. chain-Gives g a o gives ∙ sym (chain-Gives h b o' gives');
  one_link = λ a b c l l'. (chain-Link a b l).1 ∙ sym (chain-Link a c l').1;
  one_end = λ a b l end. apart (sym (chain-Link a b l).0 ∙ chain-Ends a end);
}

-- The same groups from the last to the first.
abbrev turned : List NetlistData
turned = output_group ∷ link_group ∷ input_group ∷ []

turned-SameGroups : SameGroups chain_groups turned
turned-SameGroups g = (to, from)
  where
    to : Occurs g chain_groups → Occurs g turned
    to (inl e) = inr (inr (inl e))
    to (inr (inl e)) = inr (inl e)
    to (inr (inr (inl e))) = inl e
    to (inr (inr (inr x))) = elim x [ ]

    from : Occurs g turned → Occurs g chain_groups
    from (inl e) = inr (inr (inl e))
    from (inr (inl e)) = inr (inl e)
    from (inr (inr (inl e))) = inl e
    from (inr (inr (inr x))) = elim x [ ]

get_device_order-same_example : get_device_order 3 turned [] ≡ get_device_order 3 chain_groups []
unfolding equal
get_device_order-same_example =
    get_device_order-same rank 3 chain_groups turned (codes "U1") find_first_of_chain chain-IsFinite
      (omega arith) chain-IsClear turned-SameGroups
