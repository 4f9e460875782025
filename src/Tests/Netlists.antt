-- ===== src/Tests/Netlists.antt =====
-- The lines of a netlist, its groups and its relay list.
use relay_dev.Common.{
  ℕ, ◌≢◌, true, false, not, all, All, ◌==◌, ◌++◌, replicate, ◌≡◌, refl, List, [], ◌∷◌, map, length,
}
use relay_dev.Text.{Bytes, codes, upper, equal, front}
use relay_dev.Text.Search.{all-Lacks, equal_iff}
use relay_dev.Data.{NetlistData, new_netlist}
use relay_dev.Input.Netlist
use relay_dev.Input.Netlist.{Row, rows, read_row, get_netlist_data}
use relay_dev.Input.Netlist.Columns.{write_row}
use relay_dev.Input.Netlist.RoundTrip.{get_netlist_data-write}
use relay_dev.Input.Netlist.RoundTrip.Written.{IsLine}
use relay_dev.Input.Netlist.Lines.{all_rows, IsAligned, get_netlist_data-rows}
use relay_dev.Input.Netlist.Names.{Alternates, single, switch}
use relay_dev.Input.Filter.{expander_device, filter_netlist_data}
use relay_dev.Input.Filter.Spec.{relay_groups, filter_netlist_data-relay_groups}
use relay_dev.Tests.Samples.{board, row, input_group, link_group, output_group, relay_group}
use relay_dev.Text

abbrev lines : List Bytes
lines = codes "gnd K1 2 relay" ∷ codes "GND U2 5 chip" ∷ codes "SDI U2 33 chip" ∷ []

get_netlist_data-rows_example :
    (all_rows (get_netlist_data lines []) ≡ map read_row (map (map upper) lines))
    × (length (get_netlist_data lines []) ≡ length lines)
get_netlist_data-rows_example = get_netlist_data-rows lines

filter_netlist_data-relay_groups_example : filter_netlist_data board [] ≡ relay_groups board
filter_netlist_data-relay_groups_example = filter_netlist_data-relay_groups board

pub apart : (s t : Bytes) → equal s t ≡ false → s ≢ t
apart s t h e = cc ((equal_iff s t).1 e)

-- The tests of a line.
pub line :
    (r : Row)
    → all (λ x. not (x == b' ')) r.name ≡ true
    → all (λ x. not (x == b' ')) r.identifier ≡ true
    → all (λ x. not (x == b' ')) r.connection ≡ true
    → (front r.device == b' ') ≡ false
    → equal r.name [] ≡ false
    → equal r.identifier [] ≡ false
    → equal r.connection [] ≡ false
    → map upper r.name ≡ r.name
    → map upper r.identifier ≡ r.identifier
    → map upper r.connection ≡ r.connection
    → map upper r.device ≡ r.device
    → IsLine r
line r n i c d n' i' c' un ui uc ud = record {
  writable = record {
    name = all-Lacks b' ' r.name n;
    identifier = all-Lacks b' ' r.identifier i;
    has_identifier = apart r.identifier [] i';
    connection = all-Lacks b' ' r.connection c;
    has_connection = apart r.connection [] c';
    device = d;
  };
  has_name = apart r.name [] n';
  name = un;
  identifier = ui;
  connection = uc;
  device = ud;
}

board-lines : All (λ g. All IsLine (rows g)) board
unfolding rows Netlist.zip_rows Text.front Text.upper equal
board-lines = (
  (
    line (row (codes "SDI") (codes "U1") (codes "33") expander_device) refl refl refl refl refl refl
        refl refl refl refl refl,
    tt,
  ),
  (
    (
      line (row (codes "LINK") (codes "U1") (codes "40") expander_device) refl refl refl refl refl
          refl refl refl refl refl refl,
      (
        line (row (codes "LINK") (codes "U2") (codes "33") expander_device) refl refl refl refl refl
            refl refl refl refl refl refl,
        tt,
      ),
    ),
    (
      (
        line (row (codes "SDO") (codes "U2") (codes "40") expander_device) refl refl refl refl refl
            refl refl refl refl refl refl,
        tt,
      ),
      (
        (
          line (row (codes "K_REL_12") (codes "K12") (codes "1") (codes "G3VM-101QR1")) refl refl
              refl refl refl refl refl refl refl refl refl,
          (
            line (row (codes "K_REL_12") (codes "U2") (codes "28") expander_device) refl refl refl
                refl refl refl refl refl refl refl refl,
            tt,
          ),
        ),
        tt,
      ),
    ),
  ),
)

pub aligned :
    (g : NetlistData)
    → length g.identifier ≡ length g.name
    → length g.connection ≡ length g.name
    → length g.device ≡ length g.name
    → IsAligned g
aligned g i c d = record { identifiers = i; connections = c; devices = d }

board-Alternates : Alternates (codes "SDI") board
unfolding equal
board-Alternates =
    switch (record { filled = λ e. cc; named = (refl, tt) })
      (apart (codes "SDI") (codes "LINK") refl)
      (switch (record { filled = λ e. cc; named = (refl, (refl, tt)) })
        (apart (codes "LINK") (codes "SDO") refl)
        (switch (record { filled = λ e. cc; named = (refl, tt) })
          (apart (codes "SDO") (codes "K_REL_12") refl)
          (single (record { filled = λ e. cc; named = (refl, (refl, tt)) }))))

get_netlist_data-write_example :
    (m : ℕ) × (get_netlist_data (map (write_row 3 2 1) (all_rows board)) []
      ≡ board ++ replicate m new_netlist)
get_netlist_data-write_example =
    get_netlist_data-write 3 2 1 (codes "SDI") input_group
      (link_group ∷ output_group ∷ relay_group ∷ []) board-Alternates
      (
        aligned input_group refl refl refl,
        (
          aligned link_group refl refl refl,
          (aligned output_group refl refl refl, (aligned relay_group refl refl refl, tt)),
        ),
      )
      board-lines
