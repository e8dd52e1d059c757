-- ===== src/DisplayConfigs.antt =====
-- hwc/HwcDisplayConfigs.cpp: the configurations of a display, how they are made of the modes of a connector and
-- which of them leave a group again. A map from identities is the list of its entries in the order of the
-- identities, which do not overflow; a mode is what is asked of it.
pub mod Generated
pub mod Sanitized
pub mod Needed
pub mod Spared
pub mod Lists
mod Tests
use android_hardware_nvidia.Prelude.{
  Bool, List, Option, [], false, if◌then◌else◌, length, none, not, some, suc, true, ℕ, ◌&&◌, ◌++◌,
  ◌+◌, ◌==◌, ◌||◌, ◌∷◌,
}

pub data OutputType : Type 0 where
  invalid : OutputType
  system : OutputType
  sdr : OutputType
  hdr10 : OutputType

-- Whether a mode is one of three dimensions or is preferred, and whether two modes are less than 1 Hz apart.
pub record Modes (Mode : Type 0) : Type 0 where
  pub is_3d : Mode → Bool
  pub is_preferred : Mode → Bool
  pub is_near : Mode → Mode → Bool

pub record HwcDisplayConfig (Mode : Type 0) : Type 0 where
  pub id : ℕ
  pub group_id : ℕ
  pub mode : Mode
  pub output_type : OutputType

pub record HwcDisplayConfigs (Mode : Type 0) : Type 0 where
  pub hwc_configs : List (HwcDisplayConfig Mode)
  pub preferred_config_id : ℕ

-- What a backend answers: whether the types of HDR are overridden, and if so whether there are any.
pub record Capabilities (Mode : Type 0) : Type 0 where
  pub overrides_hdr : Option Bool
  pub filter_modes : List Mode → List Mode

pub record HwcConfigParameters (Mode : Type 0) : Type 0 where
  pub use_color_pipeline : Bool
  pub persistent_hdr_enabled : Bool
  pub external_hdr_enabled : Bool
  pub capabilities : Option (Capabilities Mode)

abbrev pub same_output : OutputType → OutputType → Bool
same_output invalid invalid = true
same_output system system = true
same_output sdr sdr = true
same_output hdr10 hdr10 = true
same_output _ _ = false

abbrev pub has : ℕ → List ℕ → Bool
has n [] = false
has n (k ∷ ks) = k == n || has n ks

abbrev pub filter : {A : Type 0} → (A → Bool) → List A → List A
filter p [] = []
filter p (a ∷ bs) = let rest = filter p bs in if p a then a ∷ rest else rest

abbrev pub supported_types : Bool → List OutputType
supported_types enable_hdr = if enable_hdr then system ∷ sdr ∷ [] else sdr ∷ []

module _ {Mode : Type 0} where
  unfoldable pub enables_hdr : Bool → HwcConfigParameters Mode → Bool
  enables_hdr is_external p =
      let enabled =
        p.use_color_pipeline
        && (if is_external then p.external_hdr_enabled else p.persistent_hdr_enabled) in
      elim p.capabilities [
        | none ↦ enabled
        | some c ↦ elim c.overrides_hdr [ none ↦ enabled | some any ↦ any ]
      ]

  unfoldable pub usable_modes : Modes Mode → HwcConfigParameters Mode → List Mode → List Mode
  usable_modes k p modes =
      let flat = filter (λ m. not (k.is_3d m)) modes in
      elim p.capabilities [ none ↦ flat | some c ↦ c.filter_modes flat ]

  -- The inner loop: one configuration for each mode, from the next identity and the next group on.
  unfoldable pub configs_of_type : OutputType → ℕ → ℕ → List Mode → List (HwcDisplayConfig Mode)
  configs_of_type t id group [] = []
  configs_of_type t id group (m ∷ ms) =
      record { id = id; group_id = group; mode = m; output_type = t }
      ∷ configs_of_type t (suc id) (suc group) ms

  unfoldable pub configs_of : List OutputType → ℕ → ℕ → List Mode → List (HwcDisplayConfig Mode)
  unfolding configs_of_type
  configs_of [] id group modes = []
  configs_of (t ∷ ts) id group modes =
      configs_of_type t id group modes
      ++ configs_of ts (id + length modes) (group + length modes) modes

  unfoldable pub preferred_from : Modes Mode → ℕ → List (HwcDisplayConfig Mode) → ℕ
  preferred_from k id [] = id
  preferred_from k id (c ∷ cs) =
      preferred_from k (if k.is_preferred c.mode && id == 0 then c.id else id) cs

  abbrev pub first_or : ℕ → List (HwcDisplayConfig Mode) → ℕ
  first_or id [] = id
  first_or id (c ∷ cs) = if id == 0 then c.id else id

  -- With the identity that is next.
  unfoldable pub generate_display_configs :
      Modes Mode
      → HwcConfigParameters Mode
      → Bool
      → List Mode
      → ℕ
      → Option (HwcDisplayConfigs Mode) × ℕ
  unfolding enables_hdr usable_modes configs_of preferred_from
  generate_display_configs k p is_external modes next =
      let cs =
        configs_of (supported_types (enables_hdr is_external p)) next 1 (usable_modes k p modes) in
      let made : HwcDisplayConfigs Mode = record {
        hwc_configs = cs;
        preferred_config_id = first_or (preferred_from k 0 cs) cs;
      } in
      if length modes == 0
      then (none, next)
      else (if length cs == 0 then none else some made, next + length cs)

  -- `HwcDisplay::SetConfigGroupsForActiveConfig`: what the display can be switched to without a modeset
  -- joins the group of the active one.
  unfoldable pub join_group :
      (HwcDisplayConfig Mode → Bool)
      → ℕ
      → List (HwcDisplayConfig Mode)
      → List (HwcDisplayConfig Mode)
  join_group is_seamless group [] = []
  join_group is_seamless group (c ∷ cs) =
      (if is_seamless c then record c { group_id = group } else c) ∷ join_group is_seamless group cs

  unfoldable pub clash : Modes Mode → HwcDisplayConfig Mode → HwcDisplayConfig Mode → Bool
  clash k a b =
      not (a.id == b.id)
      && a.group_id == b.group_id
      && same_output a.output_type b.output_type
      && k.is_near a.mode b.mode

  -- The loop over the second of two configurations.
  unfoldable pub erase_near :
      Modes Mode → HwcDisplayConfig Mode → List ℕ → List (HwcDisplayConfig Mode) → List ℕ
  unfolding clash
  erase_near k a erased [] = erased
  erase_near k a erased (b ∷ bs) =
      erase_near k a (if clash k a b && not (has b.id erased) then b.id ∷ erased else erased) bs

  unfoldable pub erased_by :
      Modes Mode → List (HwcDisplayConfig Mode) → List ℕ → List (HwcDisplayConfig Mode) → List ℕ
  unfolding erase_near
  erased_by k all erased [] = erased
  erased_by k all erased (a ∷ bs) =
      erased_by k all (if has a.id erased then erased else erase_near k a erased all) bs

  unfoldable pub sanitize_groups : Modes Mode → HwcDisplayConfigs Mode → HwcDisplayConfigs Mode
  unfolding erased_by
  sanitize_groups k c =
      let erased = erased_by k c.hwc_configs [] c.hwc_configs in
      record c { hwc_configs = filter (λ a. not (has a.id erased)) c.hwc_configs }
