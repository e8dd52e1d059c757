-- ===== src/CompositionPlanner/Validate.antt =====
-- GenericCompositionPlanner.cpp: `ValidateDisplay`, from the asking of the display to the plan. The counts
-- that are kept for the dump are left out, and so is that the asking clears the invalidators.
use android_hardware_nvidia.CompositionPlanner.Layers.{
  CommitStatus, CompositionType, Display, HwcLayer, ValidatedComposition, ValidationResult, client,
  ctm_with_offset, cursor, device, get_flattened_composition, is_client_layer, is_cursor,
  layers_use_different_colorspaces, no_flattening, no_per_plane_colorspace, validate_failed,
}
use android_hardware_nvidia.CompositionPlanner.Ranges.{Range, get_client_layers, is_top_cursor}
use android_hardware_nvidia.Prelude.{
  Bool, List, Option, [], false, if◌then◌else◌, leb, length, ltb, none, not, some, suc, true, ℕ,
  ◌&&◌, ◌+◌, ◌-◌, ◌==◌, ◌||◌, ◌∷◌,
}

-- `GetCompositionTypes` from the `z`-th layer on.
unfoldable pub types_from : ℕ → Range → Bool → List HwcLayer → List CompositionType
types_from z r use_cursor_plane [] = []
types_from z r use_cursor_plane (l ∷ ls) =
    let rest = types_from (suc z) r use_cursor_plane ls in
    if leb r.start z && ltb z (r.start + r.size)
    then client ∷ rest
    else if use_cursor_plane && is_cursor l.sf_type
    then cursor ∷ rest
    else device ∷ rest

-- `GetPunchOutLayers`: the places below the client's range.
abbrev pub places_below : ℕ → ℕ → List HwcLayer → List ℕ
places_below z start [] = []
places_below z start (l ∷ ls) =
    let rest = places_below (suc z) start ls in if ltb z start then z ∷ rest else rest

unfoldable pub get_punch_out_layers : List HwcLayer → Range → List ℕ
get_punch_out_layers layers r = if r.size == 0 then [] else places_below 0 r.start layers

-- Whether the first layer that is a cursor is the topmost: the layer, if so.
unfoldable pub top_cursor : List HwcLayer → Option HwcLayer
top_cursor [] = none
top_cursor (l ∷ []) = if is_cursor l.sf_type then some l else none
top_cursor (l ∷ k ∷ ls) =
    let rest = top_cursor (k ∷ ls) in if is_cursor l.sf_type then none else rest

abbrev pub any_cursor : List HwcLayer → Bool
any_cursor [] = false
any_cursor (l ∷ ls) = is_cursor l.sf_type || any_cursor ls

-- What `validate_and_test` leaves behind.
pub record Attempt (JoiningPlan : Type 0) : Type 0 where
  pub range : Range
  pub succeeds : Bool
  pub composition : ValidatedComposition JoiningPlan
  pub status : CommitStatus

abbrev pub first_status : CommitStatus
first_status = record { success = true; error_code = 0 }

abbrev pub made :
    {JoiningPlan : Type 0} → ValidatedComposition JoiningPlan → ValidationResult JoiningPlan
made c = record { composition = c; short_circuited = false }

abbrev pub reused :
    {JoiningPlan : Type 0} → ValidatedComposition JoiningPlan → ValidationResult JoiningPlan
reused c = record { composition = c; short_circuited = true }

abbrev pub planned_or :
    {JoiningPlan : Type 0}
    → ValidatedComposition JoiningPlan
    → Option (ValidatedComposition JoiningPlan)
    → ValidationResult JoiningPlan
planned_or anew none = made anew
planned_or anew (some c) = reused c

module _ {JoiningPlan : Type 0} where
  unfoldable pub composition_of :
      List HwcLayer → Range → Bool → Option JoiningPlan → ValidatedComposition JoiningPlan
  unfolding types_from get_punch_out_layers
  composition_of layers r use_cursor_plane plan = record {
    composition_types = types_from 0 r use_cursor_plane layers;
    punch_out_layers = get_punch_out_layers layers r;
    composition_plan = plan;
    flatten_reason = no_flattening;
    cursor_plane_validated = none;
    error_code = 0;
  }

  -- A frame that is the client's alone needs no test.
  unfoldable pub validate_and_test :
      Display JoiningPlan → Bool → Option JoiningPlan → CommitStatus → Range → Attempt JoiningPlan
  unfolding composition_of
  validate_and_test d use_cursor_plane plan status r =
      let wanted = composition_of d.layers r use_cursor_plane plan in
      let tested = d.test wanted in
      if not (r.start == 0) || not (r.size == length d.layers)
      then record {
        range = r;
        succeeds = tested.0.success;
        composition = record wanted {
          composition_plan = if tested.0.success then tested.1 else plan;
        };
        status = tested.0;
      }
      else record {
        range = r;
        succeeds = true;
        composition = record wanted { composition_plan = none };
        status = status;
      }

  -- Whether the plane of the cursor is to be used.
  unfoldable pub uses_cursor_plane : Display JoiningPlan → Bool
  unfolding composition_of
  uses_cursor_plane d = elim (top_cursor d.layers) [
    | none ↦ false
    | some l ↦
        d.has_cursor_plane
        && not (is_client_layer d l)
        && d.cursor_plane_takes l
        && not (d.cursor_needs_pipeline l)
        && (d.test (
            composition_of d.layers (record { start = 0; size = length d.layers - 1 }) true
              none)).0.success
  ]

  unfoldable pub first_attempt : Display JoiningPlan → Bool → Attempt JoiningPlan
  unfolding validate_and_test get_client_layers
  first_attempt d use_cursor_plane =
      validate_and_test d use_cursor_plane none first_status
        (get_client_layers d use_cursor_plane 0)

  -- How many layers fewer the ladder asks for.
  unfoldable pub rung_of : Display JoiningPlan → Range → ℕ
  rung_of d refused =
      let device_layers = length d.layers - refused.size in
      if ltb 0 d.num_direct_planes && ltb d.num_direct_planes (device_layers + 1)
      then device_layers + 1 - d.num_direct_planes
      else 1

  unfoldable pub second_attempt :
      Display JoiningPlan → Bool → Attempt JoiningPlan → Attempt JoiningPlan
  unfolding rung_of validate_and_test get_client_layers
  second_attempt d use_cursor_plane a =
      let r = get_client_layers d use_cursor_plane (rung_of d a.range) in
      if a.succeeds || leb (length d.layers) 1
      then a
      else if not (r.start == a.range.start) || not (r.size == a.range.size)
      then validate_and_test d use_cursor_plane a.composition.composition_plan a.status r
      else record a { range = r }

  -- Everything below the cursor is left to the client, where the topmost layer is a cursor.
  unfoldable pub cursor_attempt :
      Display JoiningPlan → Bool → Attempt JoiningPlan → Attempt JoiningPlan
  unfolding validate_and_test
  cursor_attempt d use_cursor_plane a =
      if a.succeeds || not (any_cursor d.layers) || not (is_top_cursor d.layers)
      then a
      else validate_and_test d use_cursor_plane a.composition.composition_plan a.status
          (record { start = 0; size = length d.layers - 1 })

  unfoldable pub final_composition :
      Display JoiningPlan → Bool → Attempt JoiningPlan → ValidatedComposition JoiningPlan
  final_composition d use_cursor_plane a =
      let c =
        if a.succeeds
        then a.composition
        else record (get_flattened_composition d.layers validate_failed) {
          error_code = a.status.error_code;
        } in
      if use_cursor_plane then record c { cursor_plane_validated = some a.succeeds } else c

  unfoldable pub plan_anew : Display JoiningPlan → ValidatedComposition JoiningPlan
  unfolding uses_cursor_plane first_attempt second_attempt cursor_attempt final_composition
  plan_anew d =
      let use_cursor_plane = uses_cursor_plane d in
      final_composition d use_cursor_plane (
        cursor_attempt d use_cursor_plane
          (second_attempt d use_cursor_plane (first_attempt d use_cursor_plane)))

  abbrev pub is_live_plan : ValidatedComposition JoiningPlan → Bool
  is_live_plan c = elim c.flatten_reason [ no_flattening ↦ true | _ ↦ false ]

  unfoldable pub reused_plan : Display JoiningPlan → Option (ValidatedComposition JoiningPlan)
  reused_plan d = elim d.reusable_plan [
    | none ↦ none
    | some c ↦ if d.plan_invalidators == 0 && is_live_plan c then some c else none
  ]

  unfoldable pub validate_display : Display JoiningPlan → ValidationResult JoiningPlan
  unfolding plan_anew reused_plan
  validate_display d =
      if d.ctm_by_gpu
      then made (get_flattened_composition d.layers ctm_with_offset)
      else if layers_use_different_colorspaces d.layers && not d.use_color_pipeline
      then made (get_flattened_composition d.layers no_per_plane_colorspace)
      else planned_or (plan_anew d) (reused_plan d)
