-- ===== src/Targets/Set/Table.antt =====
-- The device table of the active targets, under the device matcher.
use falcon_vanity_generator.Base.{
  ℕ, ◌+◌, true, some, List, [], ◌∷◌, All, ◌≡◌, refl, inl, inr, arith, Bool-cases, ◌>>=◌, is_some,
}
use falcon_vanity_generator.Crates.{Crates}
use falcon_vanity_generator.Address.{Address, IsAddress, to_address_string}
use falcon_vanity_generator.Targets.{Target, DeviceWords, IsTarget, FitsGpu}
use falcon_vanity_generator.Targets.Device.{match_targets}
use falcon_vanity_generator.Targets.Device.Agrees.{device_words-agrees}
use falcon_vanity_generator.Targets.Set.{
  TargetSet, is_active, check_gpu, device_table, device_table_from, first_match_display,
  first_match_display_from, IsTargetSet,
}

check_gpu-FitsGpu : (ts : List Target) → check_gpu ts ≡ true → All FitsGpu ts
unfolding check_gpu
check_gpu-FitsGpu [] h = tt
check_gpu-FitsGpu (t ∷ ts) h = ground (arith, check_gpu-FitsGpu ts)

module _ (x : Crates) (a : Address) (ok : IsAddress a) (s : TargetSet) where
  -- The table of some targets, and what the device makes of it.
  abbrev TableAgrees : List Target → ℕ → Type 0
  TableAgrees ts i =
      (ws : List DeviceWords) × (device_table_from s ts i ≡ some ws)
      × (match_targets x a.bytes ws
          ≡ is_some (first_match_display_from s (to_address_string x a) ts i))

  device_table_from-agrees :
      (ts : List Target) (i : ℕ) → All IsTarget ts → All FitsGpu ts → TableAgrees ts i
  unfolding device_table_from match_targets first_match_display_from
  device_table_from-agrees [] i good fits = ([], refl, refl)
  device_table_from-agrees (t ∷ ts) i good fits =
      let (ws, ews, hws) = device_table_from-agrees ts (i + 1) good.1 fits.1 in
      let (w, ew, hw) = device_words-agrees x a ok t good.0 fits.0 in
      elim (Bool-cases (is_active s i)) [
        | inl on ↦ (w ∷ ws, rw (on, ew, ews, ◌>>=◌), ground (arith, hw, hws))
        | inr off ↦ (ws, rw (off, ews), ground (arith, hws))
      ]

  -- Within the device limits the active targets have a device table, and the device matches an
  -- address against it exactly when the display string of the address matches an active target.
  pub device_table-agrees :
      IsTargetSet s
      → check_gpu s.list ≡ true
      → (ws : List DeviceWords) × (device_table s ≡ some ws)
        × (match_targets x a.bytes ws ≡ is_some (first_match_display s (to_address_string x a)))
  unfolding device_table first_match_display
  device_table-agrees good fits =
      device_table_from-agrees s.list 0 good.targets (check_gpu-FitsGpu s.list fits)
