-- ===== src/Legacy/Convert/Strength.antt =====
-- The drive strength of a relay is that of its first line that gives one.
use relay_dev.Common.{◌≡◌, refl, inl, inr, true, List, [], ◌∷◌, if◌then◌else◌}
use relay_dev.Common.{Bool-cases}
use relay_dev.Text.{Bytes, codes, equal}
use relay_dev.Input.Netlist.{Row}
use relay_dev.Legacy.Convert.{
  get_strength_from_map, is_config_out, scan_strength, default_strength, convert_drive_strength,
}

-- What one line gives, and what the first line gives that gives anything.
pub line_strength : Row → Bytes
line_strength r = if is_config_out r then codes "CONFIG_OUT" else get_strength_from_map r.device

pub first_strength : List Row → Bytes
unfolding line_strength
first_strength [] = []
first_strength (r ∷ rs) =
    let rest = first_strength rs in if equal (line_strength r) [] then rest else line_strength r

equal-nil : (s : Bytes) → equal s [] ≡ true → s ≡ []
unfolding equal
equal-nil [] h = refl
equal-nil (x ∷ s) h = cc

scan_strength-cons :
    (r : Row) (rs : List Row) (d : Bytes)
    → scan_strength rs [] ≡ first_strength rs
    → scan_strength (r ∷ rs) d ≡ first_strength (r ∷ rs)
unfolding scan_strength first_strength line_strength equal
scan_strength-cons r rs d ih = elim (Bool-cases (is_config_out r)) [
  | inl marked ↦ rw marked
  | inr plain ↦ elim (Bool-cases (equal (get_strength_from_map r.device) [])) [
    | inr known ↦ rw (plain, known)
    | inl unknown ↦ rw (plain, unknown, equal-nil (get_strength_from_map r.device) unknown) ih
  ]
]

scan_strength-first : (rs : List Row) → scan_strength rs [] ≡ first_strength rs
unfolding scan_strength first_strength
scan_strength-first [] = refl
scan_strength-first (r ∷ rs) = scan_strength-cons r rs [] (scan_strength-first rs)

-- On a relay with a line the strength is that of the first line that gives one, and empty if none
-- does: the default that the code begins with is always overwritten.
pub convert_drive_strength-first :
    (r : Row) (rs : List Row) → convert_drive_strength (r ∷ rs) ≡ first_strength (r ∷ rs)
unfolding convert_drive_strength
convert_drive_strength-first r rs =
    scan_strength-cons r rs default_strength (scan_strength-first rs)
