-- ===== src/DisplayConfigs/Tests.antt =====
-- Runs of hwc/HwcDisplayConfigs.cpp, and the theorems about it at concrete modes. A mode is its refresh rate in
-- thousandths of a hertz; 60 Hz is preferred.
use android_hardware_nvidia.DisplayConfigs.Needed.{IsKeptOrNear, sanitize_groups-IsKeptOrNear}
use android_hardware_nvidia.DisplayConfigs.Generated.{IsFresh, generate_display_configs-IsFresh}
use android_hardware_nvidia.DisplayConfigs.{
  HwcConfigParameters, HwcDisplayConfig, HwcDisplayConfigs, Modes, clash, configs_of,
  configs_of_type, enables_hdr, erase_near, erased_by, generate_display_configs, join_group,
  preferred_from, sanitize_groups, sdr, usable_modes,
}
use android_hardware_nvidia.Prelude.{
  All, List, [], arith, false, inl, inr, ltb, none, refl, some, true, ℕ, ◌+◌, ◌-◌, ◌==◌, ◌∷◌, ◌≡◌,
}

abbrev rates : Modes ℕ
rates = record {
  is_3d = λ m. m == 0;
  is_preferred = λ m. m == 60000;
  is_near = λ m n. ltb ((m - n) + (n - m)) 1000;
}

abbrev plain_params : HwcConfigParameters ℕ
plain_params = record {
  use_color_pipeline = true;
  persistent_hdr_enabled = false;
  external_hdr_enabled = true;
  capabilities = none;
}

abbrev panel_modes : List ℕ
panel_modes = 0 ∷ 59940 ∷ 60000 ∷ []

abbrev config : ℕ → ℕ → ℕ → HwcDisplayConfig ℕ
config id group mode = record { id = id; group_id = group; mode = mode; output_type = sdr }

panel_generated : generate_display_configs rates plain_params false panel_modes 1 ≡ (
  some (record { hwc_configs = config 1 1 59940 ∷ config 2 2 60000 ∷ []; preferred_config_id = 2 }),
  3,
)
unfolding generate_display_configs enables_hdr usable_modes configs_of configs_of_type
    preferred_from
panel_generated = refl

abbrev joined : HwcDisplayConfigs ℕ
joined = record { hwc_configs = config 1 2 59940 ∷ config 2 2 60000 ∷ []; preferred_config_id = 2 }

-- The preferred configuration, which is the active one, is left out where an earlier one is as fast.
joined_sanitized :
    (join_group (λ c. true) 2 (config 1 1 59940 ∷ config 2 2 60000 ∷ []) ≡ joined.hwc_configs)
    × (sanitize_groups rates joined
        ≡ record { hwc_configs = config 1 2 59940 ∷ []; preferred_config_id = 2 })
unfolding join_group sanitize_groups erased_by erase_near clash
joined_sanitized = (refl, refl)

generate_display_configs-IsFresh_example :
    IsFresh rates 1 (generate_display_configs rates plain_params false panel_modes 1)
generate_display_configs-IsFresh_example =
    generate_display_configs-IsFresh rates plain_params false panel_modes 1 (omega arith)

rates_near_sym : (m n : ℕ) → rates.is_near m n ≡ rates.is_near n m
rates_near_sym m n = ground arith

sanitize_groups-IsKeptOrNear_example :
    All
      (IsKeptOrNear rates rates_near_sym (sanitize_groups rates joined).hwc_configs)
      joined.hwc_configs
sanitize_groups-IsKeptOrNear_example =
    sanitize_groups-IsKeptOrNear rates rates_near_sym joined
      ((inr refl, (inl refl, tt)), ((inl refl, (inr refl, tt)), tt))
