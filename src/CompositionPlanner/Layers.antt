-- ===== src/CompositionPlanner/Layers.antt =====
-- compositor/CompositionPlanner.h, compositor/ICompositorDisplay.h: layers as the planner reads them, what
-- it answers, and what it asks of the display. The map from layers to types is the list of the types in
-- the order of the layers; a list of layers is the list of their places.
-- The mark that the GPU draws the client's layers, which is set after the planner, is left out.
use android_hardware_nvidia.Prelude.{
  Bool, List, Option, [], false, none, not, true, ℕ, ◌&&◌, ◌==◌, ◌||◌, ◌∷◌,
}

pub data CompositionType : Type 0 where
  invalid : CompositionType
  client : CompositionType
  device : CompositionType
  solid_color : CompositionType
  cursor : CompositionType
  device_occluded : CompositionType

pub record HwcLayer : Type 0 where
  pub sf_type : CompositionType
  pub has_effects : Bool
  pub usable_as_device : Bool
  pub requires_scaling : Bool
  pub colorspace : ℕ
  pub pix_ops : ℕ

pub data FlattenReason : Type 0 where
  no_flattening : FlattenReason
  validate_failed : FlattenReason
  ctm_with_offset : FlattenReason
  no_per_plane_colorspace : FlattenReason

pub record ValidatedComposition (JoiningPlan : Type 0) : Type 0 where
  pub composition_types : List CompositionType
  pub punch_out_layers : List ℕ
  pub composition_plan : Option JoiningPlan
  pub flatten_reason : FlattenReason
  pub cursor_plane_validated : Option Bool
  pub error_code : ℕ

pub record CommitStatus : Type 0 where
  pub success : Bool
  pub error_code : ℕ

-- A frame's display: what it answers, and its test of a composition, which finds a plan for one that it
-- accepts.
pub record Display (JoiningPlan : Type 0) : Type 0 where
  pub layers : List HwcLayer
  pub num_available_planes : ℕ
  pub num_direct_planes : ℕ
  pub has_cursor_plane : Bool
  pub cursor_plane_takes : HwcLayer → Bool
  pub cursor_needs_pipeline : HwcLayer → Bool
  pub test : ValidatedComposition JoiningPlan → CommitStatus × Option JoiningPlan
  pub reusable_plan : Option (ValidatedComposition JoiningPlan)
  pub plan_invalidators : ℕ
  pub ctm_by_gpu : Bool
  pub forced_scaling_with_gpu : Bool
  pub use_color_pipeline : Bool

pub record ValidationResult (JoiningPlan : Type 0) : Type 0 where
  pub composition : ValidatedComposition JoiningPlan
  pub short_circuited : Bool

abbrev pub is_cursor : CompositionType → Bool
is_cursor cursor = true
is_cursor _ = false

unfoldable pub hardware_supports_layer_type : CompositionType → Bool
hardware_supports_layer_type device = true
hardware_supports_layer_type cursor = true
hardware_supports_layer_type _ = false

unfoldable pub is_client_layer : {JoiningPlan : Type 0} → Display JoiningPlan → HwcLayer → Bool
is_client_layer d l =
    l.has_effects
    || not (hardware_supports_layer_type l.sf_type)
    || not l.usable_as_device
    || d.ctm_by_gpu
    || (l.requires_scaling && d.forced_scaling_with_gpu)

abbrev pub flattened_types : List HwcLayer → List CompositionType
flattened_types [] = []
flattened_types (l ∷ ls) = client ∷ flattened_types ls

unfoldable pub get_flattened_composition :
    {JoiningPlan : Type 0} → List HwcLayer → FlattenReason → ValidatedComposition JoiningPlan
get_flattened_composition layers reason = record {
  composition_types = flattened_types layers;
  punch_out_layers = [];
  composition_plan = none;
  flatten_reason = reason;
  cursor_plane_validated = none;
  error_code = 0;
}

abbrev pub any_colorspace_but : ℕ → List HwcLayer → Bool
any_colorspace_but colorspace [] = false
any_colorspace_but colorspace (l ∷ ls) =
    not (l.colorspace == colorspace) || any_colorspace_but colorspace ls

unfoldable pub layers_use_different_colorspaces : List HwcLayer → Bool
layers_use_different_colorspaces [] = false
layers_use_different_colorspaces (l ∷ ls) = any_colorspace_but l.colorspace ls
