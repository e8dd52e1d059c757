-- ===== src/JoiningPlan/Tests.antt =====
-- Runs of compositor/LayerToPlaneJoiningPlan.cpp, and the theorems about it at concrete layers and planes.
use android_hardware_nvidia.JoiningPlan.Runs.{CountsRight, weigh_runs-live_count}
use android_hardware_nvidia.JoiningPlan.Enough.{only_cursor_is_refused}
use android_hardware_nvidia.JoiningPlan.Fit.{
  JoiningPlan, LayerData, Pipe, accepts, emplace, find_if, fits_class, live_count, place_first_fit,
  same_flag, seats, shares_turn, steered,
}
use android_hardware_nvidia.JoiningPlan.Places.{AreSound, count, layers_of, planes_of}
use android_hardware_nvidia.JoiningPlan.Made.{StandFor}
use android_hardware_nvidia.JoiningPlan.Steer.{
  emplace_all, is_seatable, last_beginning, member_of, pick, place_steered, recorded_run, reorder,
  run_uniform, seat_group, set_ranks, steer_width, weigh_runs,
}
use android_hardware_nvidia.JoiningPlan.Plans.{create-AreSound}
use android_hardware_nvidia.JoiningPlan.Create.{
  add_cursor, create, is_cursor_refused, no_plan, place, rank_of,
}
use android_hardware_nvidia.Prelude.{
  All, Bool, List, Option, [], arith, drop, false, leb, max_ℤ, min_ℤ, none, pos, refl, some, take,
  true, ℕ, ◌++◌, ◌+◌, ◌↔◌, ◌∷◌, ◌≡◌, ◌≤◌,
}
use android_hardware_nvidia.MergeGroup.{
  choose_merge_group, is_clear, is_cut, overlaps, record_choice, search_from, walk,
}

-- Two windows, numbered 0 and 1, and two planes that merge.
abbrev panel : Pipe
panel = record {
  Data = ℕ;
  Plane = ℕ;
  is_merging = λ p. leb 2 p;
  is_valid = λ p l. true;
  pixels_of = λ l. 100;
  scale_pct_of = λ l. 100;
}

abbrev windows : List ℕ
windows = 0 ∷ 1 ∷ 2 ∷ 3 ∷ []

abbrev column : ℕ → Bool → LayerData ℕ
column n live = record {
  live = live;
  frame = some (record { left = pos n; top = pos 0; right = pos (n + 10); bottom = pos 10 });
  transform = record { hflip = false; vflip = false; rotate90 = false };
  content = n;
}

-- Four columns side by side, every other one live.
abbrev columns : List (LayerData ℕ)
columns = column 0 false ∷ column 20 true ∷ column 40 false ∷ column 60 true ∷ []

abbrev made : Option (JoiningPlan panel) → JoiningPlan panel
made none = no_plan panel
made (some plan) = plan

abbrev columns_plan : JoiningPlan panel
columns_plan = made (create panel windows none columns none false)

columns_made : create panel windows none columns none false ≡ some columns_plan
unfolding same_flag shares_turn find_if accepts emplace place_first_fit fits_class seats run_uniform
    is_seatable recorded_run weigh_runs member_of pick set_ranks last_beginning reorder emplace_all
    seat_group steer_width place_steered place is_cursor_refused add_cursor create rank_of overlaps
    is_cut is_clear record_choice walk search_from choose_merge_group max_ℤ min_ℤ
columns_made = refl

-- The first live column is lowered beneath the quiet ones, which are merged.
columns_steered :
    (columns_plan.steering ≡ steered) × (planes_of panel columns_plan.plan ≡ 0 ∷ 2 ∷ 3 ∷ 1 ∷ [])
unfolding same_flag shares_turn find_if accepts emplace place_first_fit fits_class seats run_uniform
    is_seatable recorded_run weigh_runs member_of pick set_ranks last_beginning reorder emplace_all
    seat_group steer_width place_steered place is_cursor_refused add_cursor create rank_of overlaps
    is_cut is_clear record_choice walk search_from choose_merge_group max_ℤ min_ℤ
columns_steered = (refl, refl)

create-AreSound_example :
    AreSound panel columns_plan.plan
    × ((shown : List (LayerData ℕ)) × StandFor panel columns shown
        × (layers_of panel columns_plan.plan ≡ shown ++ []))
    × ((q : ℕ → Bool) → count q (planes_of panel columns_plan.plan) ≤ count q windows + count q [])
create-AreSound_example =
    create-AreSound panel windows none columns none false columns_plan tt columns_made

abbrev sprite : LayerData ℕ
sprite = column 5 true

only_cursor_is_refused_example :
    (create panel windows none (column 0 true ∷ column 20 false ∷ []) (some sprite) true ≡ none)
    ↔ (is_cursor_refused panel none (some sprite) ≡ true)
only_cursor_is_refused_example =
    only_cursor_is_refused panel windows none (column 0 true ∷ column 20 false ∷ []) (some sprite)
      true
      (
        (λ own. (refl, (refl, tt))),
        (
          (λ own. (refl, (refl, tt))),
          ((λ merges. (refl, (refl, tt))), ((λ merges. (refl, (refl, tt))), tt)),
        ),
      )
      (omega arith)

weigh_runs-live_count_example : All (CountsRight panel 2 columns) (
    weigh_runs panel 2 windows columns 0
      (live_count panel (take 2 columns))
      columns
      (drop 2 columns))
weigh_runs-live_count_example = weigh_runs-live_count panel 2 windows columns (omega arith)
