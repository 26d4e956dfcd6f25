-- ===== src/Uplift/Wave/Members.antt =====
-- What the loops over a wave's members do to the devices.
use gard.Prelude.{
  ℕ, ◌≡◌, refl, Bool, true, false, Option, none, some, List, [], ◌∷◌, arith, ◌==◌, ◌||◌, any_of,
  if◌then◌else◌, Bool-cases, inl, inr,
}
use gard.Prelude.Rows.{find_row, update_row, find_row-update_row, map_option}
use gard.Lifecycle.{LifecycleState, lifecycle_eq}
use gard.Db.{Device, UpliftWaveDevice, Db}
use gard.Uplift.Wave.{shift, shift_all, shift_members, load_wave_members}

abbrev pub get_device : ℕ → Db → Option Device
get_device i db = find_row (λ d. d.id) i db.devices

abbrev pub is_member : ℕ → List (Device × UpliftWaveDevice) → Bool
is_member i members = any_of (λ m. i == m.0.id) members

module _ (from to : LifecycleState) (moves : lifecycle_eq to from ≡ false) where
  shift-shift :
      (o : Option Device)
      → map_option (shift from to) (map_option (shift from to) o) ≡ map_option (shift from to) o
  shift-shift none = refl
  shift-shift (some d) = elim (Bool-cases (lifecycle_eq d.lifecycle_state from)) [
    | inl e ↦ rw e (rw moves refl)
    | inr e ↦ rw e (rw e refl)
  ]

  shift_all-find :
      (i : ℕ) (members : List (Device × UpliftWaveDevice)) (devices : List Device)
      → find_row (λ d. d.id) i (shift_all from to members devices) ≡ (
          if is_member i members
          then map_option (shift from to) (find_row (λ d. d.id) i devices)
          else find_row (λ d. d.id) i devices)
  unfolding shift_all
  shift_all-find i [] devices = refl
  shift_all-find i ((d, wd) ∷ members) devices =
      rw (shift_all-find i members (update_row (λ r. r.id) d.id (shift from to) devices)) (
        rw (find_row-update_row (λ r. r.id) d.id i (shift from to) (λ r. ground arith) devices)
          (branches (i == d.id) (is_member i members) (find_row (λ r. r.id) i devices)))
    where
      branches :
          (here later : Bool) (o : Option Device)
          → (if later
              then map_option (shift from to) (if here then map_option (shift from to) o else o)
              else if here
              then map_option (shift from to) o
              else o)
            ≡ (if here || later then map_option (shift from to) o else o)
      branches true true o = shift-shift o
      branches true false o = refl
      branches false true o = refl
      branches false false o = refl

  -- Each member still in the state `from` goes to `to`; no other device and no other column of a
  -- device changes.
  pub get_device-shift_members :
      (wave_id i : ℕ) (db : Db)
      → get_device i (shift_members from to wave_id db) ≡ (
          if is_member i (load_wave_members wave_id db)
          then map_option (shift from to) (get_device i db)
          else get_device i db)
  unfolding shift_members
  get_device-shift_members wave_id i db = shift_all-find i (load_wave_members wave_id db) db.devices
