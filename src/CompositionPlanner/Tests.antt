-- ===== src/CompositionPlanner/Tests.antt =====
-- Runs of compositor/GenericCompositionPlanner.cpp, and the theorems about it at a concrete display.
use android_hardware_nvidia.CompositionPlanner.Layers.{
  CompositionType, Display, HwcLayer, client, cursor, device, get_flattened_composition,
  hardware_supports_layer_type, is_client_layer, layers_use_different_colorspaces,
}
use android_hardware_nvidia.CompositionPlanner.Ranges.{
  budget_for, calc_pix_ops, cheapest_range, client_range, counted_budget, extra_client,
  get_client_layers, get_extra_client_range, needs_extra, search_for, slide, with_place,
}
use android_hardware_nvidia.CompositionPlanner.Kept.{ClientsLeft, validate_display-ClientsLeft}
use android_hardware_nvidia.CompositionPlanner.Validate.{
  composition_of, cursor_attempt, final_composition, first_attempt, get_punch_out_layers, plan_anew,
  reused_plan, rung_of, second_attempt, top_cursor, types_from, uses_cursor_plane,
  validate_and_test, validate_display,
}
use android_hardware_nvidia.CompositionPlanner.Fits.{
  IsClientRange, device_count, get_client_layers-IsClientRange,
}
use android_hardware_nvidia.Prelude.{
  Bool, List, [], arith, false, leb, none, refl, some, true, ℕ, ◌∷◌, ◌≡◌,
}

abbrev plain : ℕ → HwcLayer
plain pix_ops = record {
  sf_type = device;
  has_effects = false;
  usable_as_device = true;
  requires_scaling = false;
  colorspace = 0;
  pix_ops = pix_ops;
}

-- Rounded corners, which no window can show.
abbrev rounded : HwcLayer
rounded = record (plain 300) { has_effects = true }

abbrev pointer : HwcLayer
pointer = record (plain 10) { sf_type = cursor; has_effects = true }

-- A display with two planes that refuses what leaves more than one layer to the hardware.
abbrev panel : List HwcLayer → Display ℕ
panel layers = record {
  layers = layers;
  num_available_planes = 2;
  num_direct_planes = 2;
  has_cursor_plane = false;
  cursor_plane_takes = λ l. true;
  cursor_needs_pipeline = λ l. false;
  test =
      λ c. (record { success = leb (device_count c.composition_types) 1; error_code = 22 }, some 7);
  reusable_plan = none;
  plan_invalidators = 1;
  ctm_by_gpu = false;
  forced_scaling_with_gpu = false;
  use_color_pipeline = false;
}

abbrev is_pointer_alone : List CompositionType → Bool
is_pointer_alone (client ∷ client ∷ device ∷ []) = true
is_pointer_alone _ = false

abbrev scene : List HwcLayer
scene = plain 1000 ∷ rounded ∷ plain 20 ∷ plain 50 ∷ []

-- One window is left for the layers: the two small ones join the client's.
scene_range : get_client_layers (panel scene) false 0 ≡ record { start = 1; size = 3 }
unfolding hardware_supports_layer_type is_client_layer get_flattened_composition
    layers_use_different_colorspaces with_place client_range calc_pix_ops counted_budget budget_for
    extra_client search_for slide needs_extra cheapest_range get_extra_client_range
    get_client_layers types_from get_punch_out_layers top_cursor composition_of validate_and_test
    uses_cursor_plane first_attempt rung_of second_attempt cursor_attempt final_composition
    plan_anew reused_plan validate_display
scene_range = refl

scene_planned :
    (validate_display (panel scene)).composition.composition_types
    ≡ device ∷ client ∷ client ∷ client ∷ []
unfolding hardware_supports_layer_type is_client_layer get_flattened_composition
    layers_use_different_colorspaces with_place client_range calc_pix_ops counted_budget budget_for
    extra_client search_for slide needs_extra cheapest_range get_extra_client_range
    get_client_layers types_from get_punch_out_layers top_cursor composition_of validate_and_test
    uses_cursor_plane first_attempt rung_of second_attempt cursor_attempt final_composition
    plan_anew reused_plan validate_display
scene_planned = refl

-- Where the display refuses both attempts, a pointer is left to the hardware though it has an effect
-- that only the client can draw.
pointer_planned :
    (validate_display (record (panel (plain 9 ∷ plain 9 ∷ pointer ∷ [])) {
      num_available_planes = 9;
      test =
          λ c. (record { success = is_pointer_alone c.composition_types; error_code = 22 }, some 7);
    })).composition.composition_types
    ≡ client ∷ client ∷ device ∷ []
unfolding hardware_supports_layer_type is_client_layer get_flattened_composition
    layers_use_different_colorspaces with_place client_range calc_pix_ops counted_budget budget_for
    extra_client search_for slide needs_extra cheapest_range get_extra_client_range
    get_client_layers types_from get_punch_out_layers top_cursor composition_of validate_and_test
    uses_cursor_plane first_attempt rung_of second_attempt cursor_attempt final_composition
    plan_anew reused_plan validate_display
pointer_planned = refl

get_client_layers-IsClientRange_example :
    IsClientRange
      (panel scene)
      (uses_cursor_plane (panel scene))
      (counted_budget 2 4 (uses_cursor_plane (panel scene))).layers_size
      (get_client_layers (panel scene) (uses_cursor_plane (panel scene)) 1)
get_client_layers-IsClientRange_example =
    get_client_layers-IsClientRange (panel scene) 1 (omega arith) (omega arith)

validate_display-ClientsLeft_example :
    ClientsLeft (panel scene) (validate_display (panel scene)).composition
validate_display-ClientsLeft_example =
    validate_display-ClientsLeft (panel scene) (omega arith) (omega arith) (λ c clean e. cc)
