-- ===== src/JoiningPlan/Create.antt =====
-- LayerToPlaneJoiningPlan.cpp: the whole plan, with the layer of the cursor.
use android_hardware_nvidia.JoiningPlan.Fit.{
  Joining, JoiningPlan, LayerData, Pipe, emplace, fits_ordinary, place_first_fit,
}
use android_hardware_nvidia.JoiningPlan.Steer.{place_steered}
use android_hardware_nvidia.Prelude.{
  Bool, List, Option, [], false, get_elem?, if◌then◌else◌, none, not, some, true, ℕ, ◌++◌, ◌∷◌,
}

module _ (pipe : Pipe) where
  open pipe use {Data, Plane, is_merging, is_valid, pixels_of, scale_pct_of}

  -- `std::stable_partition`.
  abbrev pub of_class : Bool → List Plane → List Plane
  of_class merging [] = []
  of_class merging (p ∷ ps) =
      let rest = of_class merging ps in
      if if merging then is_merging p else not (is_merging p) then p ∷ rest else rest

  abbrev pub merging_first : List Plane → List Plane
  merging_first ps = of_class true ps ++ of_class false ps

  abbrev pub no_plan : (JoiningPlan pipe)
  no_plan = record {
    plan = [];
    steering = fits_ordinary;
    runs = [];
    chosen_run = 0;
    run_len = 0;
    rank_of_input = [];
  }

  unfoldable pub place : List Plane → List (LayerData Data) → Bool → Option (JoiningPlan pipe)
  unfolding place_steered place_first_fit
  place avail composition prefer_merge =
      let a = place_steered pipe no_plan avail composition prefer_merge in
      if a.placed
      then some a.plan
      else elim (place_first_fit pipe a.plan.plan avail a.composition) [
        | none ↦ none
        | some joined ↦ some (record a.plan { plan = joined })
      ]

  unfoldable pub is_cursor_refused : Option Plane → Option (LayerData Data) → Bool
  is_cursor_refused cursor_plane none = false
  is_cursor_refused none (some l) = true
  is_cursor_refused (some p) (some l) = not (is_valid p l)

  -- The cursor's plane comes last, on top.
  unfoldable pub add_cursor :
      Option Plane → Option (LayerData Data) → List (Joining pipe) → List (Joining pipe)
  add_cursor (some p) (some l) joined = emplace pipe joined l p
  add_cursor none cursor joined = joined
  add_cursor (some p) none joined = joined

  unfoldable pub create :
      List Plane
      → Option Plane
      → List (LayerData Data)
      → Option (LayerData Data)
      → Bool
      → Option (JoiningPlan pipe)
  unfolding is_cursor_refused place add_cursor
  create usable cursor_plane composition cursor prefer_merge =
      let avail = if prefer_merge then merging_first usable else usable in
      if is_cursor_refused cursor_plane cursor
      then none
      else elim (place avail composition prefer_merge) [
        | none ↦ none
        | some plan ↦ some (record plan { plan = add_cursor cursor_plane cursor plan.plan })
      ]

  -- `RankOf`.
  unfoldable pub rank_of : (JoiningPlan pipe) → ℕ → ℕ
  rank_of plan input = elim (get_elem? plan.rank_of_input input) [ none ↦ input | some r ↦ r ]
