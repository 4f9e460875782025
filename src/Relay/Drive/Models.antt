-- ===== src/Relay/Drive/Models.antt =====
-- The drive strength is that of the first relay model that the lines of the relay name.
use relay_dev.Common.{
  ◌≡◌, refl, inl, inr, true, false, not, List, [], ◌∷◌, Option, none, some, if◌then◌else◌,
  Bool-cases, All,
}
use relay_dev.Text.{Bytes, equal, contains}
use relay_dev.Data.{ModelData}
use relay_dev.Input.Netlist.{Row}
use relay_dev.Relay.Drive.{config_out, match_models, scan_devices, convert_drive_strength}

-- The first model that the device names.
pub model_of : List ModelData → Bytes → Option ModelData
model_of [] device = none
model_of (m ∷ ms) device = if contains device m.relay_model then some m else model_of ms device

-- The first line with a model, and that model.
pub first_model : List ModelData → List Row → Option ModelData
unfolding model_of
first_model ms [] = none
first_model ms (r ∷ rs) = elim (model_of ms r.device) [ none ↦ first_model ms rs | some m ↦ some m ]

abbrev pub strength_or_out : Option ModelData → Bytes
strength_or_out none = config_out
strength_or_out (some m) = m.drive_strength

-- The model has another strength than the default of the loop.
abbrev pub IsStrong : ModelData → Type 0
IsStrong m = equal m.drive_strength config_out ≡ false

abbrev StrongOption : Option ModelData → Type 0
StrongOption none = Unit
StrongOption (some m) = IsStrong m

match_models-model_of :
    (ms : List ModelData) (device : Bytes)
    → All IsStrong ms
    → (match_models device ms config_out ≡ strength_or_out (model_of ms device))
      × StrongOption (model_of ms device)
unfolding match_models model_of
match_models-model_of [] device h = (refl, tt)
match_models-model_of (m ∷ ms) device h = elim (Bool-cases (contains device m.relay_model)) [
  | inl hit ↦ rw hit (refl, h.0)
  | inr miss ↦ rw miss (match_models-model_of ms device h.1)
]

out_is_out : equal config_out config_out ≡ true
unfolding equal
out_is_out = refl

scan_devices-first_model :
    (ms : List ModelData) (rs : List Row)
    → All IsStrong ms
    → scan_devices ms rs config_out ≡ strength_or_out (first_model ms rs)
unfolding scan_devices first_model
scan_devices-first_model ms [] h = refl
scan_devices-first_model ms (r ∷ rs) h = rw (match_models-model_of ms r.device h).0 (
    go (model_of ms r.device) (match_models-model_of ms r.device h).1
      (scan_devices-first_model ms rs h))
  where
    go :
        (o : Option ModelData)
        → StrongOption o
        → scan_devices ms rs config_out ≡ strength_or_out (first_model ms rs)
        → (if not (equal (strength_or_out o) config_out)
            then strength_or_out o
            else scan_devices ms rs (strength_or_out o))
          ≡ strength_or_out (elim o [ none ↦ first_model ms rs | some m ↦ some m ])
    go none s ih = rw out_is_out ih
    go (some m) s ih = rw s

-- With models that all have a strength of their own, the relay gets the strength of the first model
-- named on the first line that names one, and CONFIG_OUT if no line does.
pub convert_drive_strength-first_model :
    (ms : List ModelData) (rs : List Row)
    → All IsStrong ms
    → convert_drive_strength ms rs ≡ strength_or_out (first_model ms rs)
unfolding convert_drive_strength
convert_drive_strength-first_model ms rs h = scan_devices-first_model ms rs h
