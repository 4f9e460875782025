-- ===== src/Legacy/Convert/State.antt =====
-- The normal state that convertNormalState of relay.cpp gives a relay, from the netlist.
use relay_dev.Common.{
  ◌≡◌, refl, ap, ◌∙◌, inl, inr, Bool, true, false, ◌&&◌, List, [], ◌∷◌, ◌++◌, map, select, any, All,
  if◌then◌else◌, ◌==◌, ok, Bool-cases, arith,
}
use relay_dev.Text.{Bytes, codes, equal, front}
use relay_dev.Text.Search.{Lacks, equal_iff}
use relay_dev.Input.Netlist.{Row, read_row}
use relay_dev.Legacy.Netlist.{Reading, is_gnd, gnd_name, get_netlist_data}
use relay_dev.Legacy.Netlist.Ground.{get_netlist_data-gnd}
use relay_dev.Legacy.Convert.{scan_state, convert_normal_state}

-- The texts with an underscore between the two parts are equal if the parts are.
equal-append :
    (a b d e : Bytes)
    → Lacks b'_' a
    → Lacks b'_' b
    → equal (a ++ b'_' ∷ d) (b ++ b'_' ∷ e) ≡ (equal a b && equal d e)
unfolding equal
equal-append [] [] d e la lb = refl
equal-append (x ∷ a) [] d e la lb = ground arith
equal-append [] (y ∷ b) d e la lb = ground arith
equal-append (x ∷ a) (y ∷ b) d e la lb = elim (Bool-cases (x == y)) [
  | inl same ↦ rw same (equal-append a b d e la.1 lb.1)
  | inr differ ↦ rw differ
]

abbrev pub same_part : Row → Row → Bool
same_part r l = equal l.identifier r.identifier && equal l.device r.device

-- The part of the line begins with K, and has a line on the net GND.
abbrev pub is_tied : List Bytes → Row → Bool
is_tied lines r =
    (front r.identifier == b'K')
    && any (λ line. equal (read_row line).name (codes "GND") && same_part r (read_row line)) lines

any-gnd :
    (r : Row) (lines : List Bytes)
    → (front r.identifier == b'K') ≡ true
    → Lacks b'_' r.identifier
    → All (λ line. Lacks b'_' (read_row line).identifier) lines
    → any (λ name. equal name (gnd_name r)) (map gnd_name (select is_gnd (map read_row lines)))
      ≡ any (λ line. equal (read_row line).name (codes "GND") && same_part r (read_row line)) lines
unfolding is_gnd
any-gnd r [] k lr ls = refl
any-gnd r (line ∷ lines) k lr ls =
    let rest = any-gnd r lines k lr ls.1 in
    let l = read_row line in
    let key = equal-append l.identifier r.identifier l.device r.device ls.0 lr in
    elim (Bool-cases (equal l.name (codes "GND"))) [
      | inr other ↦ rw other rest
      | inl gnd ↦ elim (Bool-cases (equal l.identifier r.identifier)) [
        | inl same ↦
            let begins : (front l.identifier == b'K') ≡ true =
              ap (λ s. front s == b'K') ((equal_iff l.identifier r.identifier).0 same) ∙ k in
            rw (gnd, begins, key, rest)
        | inr differ ↦ elim (Bool-cases (front l.identifier == b'K')) [
          | inl begins ↦ rw (gnd, begins, key, rest, differ)
          | inr no_part ↦ rw (gnd, no_part, differ) rest
        ]
      ]
    ]

if_same : (b : Bool) (s : Bytes) → (if b then s else s) ≡ s
if_same true s = refl
if_same false s = refl

scan_state-tied :
    (gnd_data : List Bytes) (lines : List Bytes) (rs : List Row) (state : Bytes)
    → gnd_data ≡ map gnd_name (select is_gnd (map read_row lines))
    → All (λ line. Lacks b'_' (read_row line).identifier) lines
    → All (λ (r : Row). Lacks b'_' r.identifier) rs
    → scan_state gnd_data rs state ≡ (if any (is_tied lines) rs then codes "RELAY_NC" else state)
unfolding scan_state
scan_state-tied gnd_data lines [] state e ls lr = refl
scan_state-tied gnd_data lines (r ∷ rs) state e ls lr =
    elim (Bool-cases (front r.identifier == b'K')) [
      | inr no_part ↦ rw (no_part, scan_state) (scan_state-tied gnd_data lines rs state e ls lr.1)
      | inl part ↦
          let tied = ap (any (λ name. equal name (gnd_name r))) e ∙ any-gnd r lines part lr.0 ls in
          elim (Bool-cases (
            any (λ line. equal (read_row line).name (codes "GND") && same_part r (read_row line))
              lines)) [
                | inl found ↦
                    rw (part, scan_state, tied, found)
                      (scan_state-tied gnd_data lines rs (codes "RELAY_NC") e ls lr.1
                        ∙ if_same (any (is_tied lines) rs) (codes "RELAY_NC"))
                | inr missed ↦
                    rw (part, scan_state, tied, missed)
                      (scan_state-tied gnd_data lines rs state e ls lr.1)
              ]
    ]

-- If the one pass ends, and no identifier of the netlist or of the relay has an underscore in it, the
-- console program takes the relay for normally closed exactly if a part of the relay whose identifier
-- begins with K has a line on the net GND.
pub convert_normal_state-tied :
    (lines : List Bytes) (s : Reading) (rs : List Row)
    → get_netlist_data lines ≡ ok s
    → All (λ line. Lacks b'_' (read_row line).identifier) lines
    → All (λ (r : Row). Lacks b'_' r.identifier) rs
    → convert_normal_state s.gnd_data rs
      ≡ (if any (is_tied lines) rs then codes "RELAY_NC" else codes "RELAY_NO")
unfolding convert_normal_state
convert_normal_state-tied lines s rs h ls lr =
    scan_state-tied s.gnd_data lines rs (codes "RELAY_NO") (get_netlist_data-gnd lines s h) ls lr
