-- ===== src/JoiningPlan/Runs.antt =====
-- LayerToPlaneJoiningPlan.cpp: the runs that are weighed, and the drawing layers counted in them.
use android_hardware_nvidia.JoiningPlan.Fit.{LayerData, Pipe, Run, live_count}
use android_hardware_nvidia.JoiningPlan.Steer.{recorded_run, run_uniform, weigh_runs}
use android_hardware_nvidia.Prelude.{
  All, Bool, List, [], ap, arith, drop, false, if◌then◌else◌, refl, suc, sym, take, true, zero, ℕ,
  ◌+◌, ◌∙◌, ◌∷◌, ◌≡◌, ◌≤◌,
}
use android_hardware_nvidia.MergeGroup.{as_one}

module _ (pipe : Pipe) where
  open pipe use {Data, Plane, is_merging, is_valid}

  drop-next :
      (n : ℕ) (ls : List (LayerData Data)) (l : LayerData Data) (rest : List (LayerData Data))
      → drop n ls ≡ l ∷ rest
      → drop (suc n) ls ≡ rest
  drop-next zero [] l rest e = cc
  drop-next zero (k ∷ ls) l rest e = cc
  drop-next (suc n) [] l rest e = cc
  drop-next (suc n) (k ∷ ls) l rest e = drop-next n ls l rest e

  -- One more layer at the end of a run.
  live_count-take :
      (n : ℕ) (ls : List (LayerData Data)) (l : LayerData Data) (rest : List (LayerData Data))
      → drop n ls ≡ l ∷ rest
      → live_count pipe (take (suc n) ls) ≡ live_count pipe (take n ls) + as_one l.live
  live_count-take zero [] l rest e = cc
  live_count-take zero (k ∷ ls) l rest e =
      let same : k.live ≡ l.live = ground (arith, e) in ground (arith, same)
  live_count-take (suc n) [] l rest e = cc
  live_count-take (suc n) (k ∷ ls) l rest e = omega (arith, live_count-take n ls l rest e)

  abbrev pub CountsRight : ℕ → List (LayerData Data) → Run → Type 0
  CountsRight run_len composition run =
      run.live ≡ live_count pipe (take run_len (drop run.begin composition))

  keep_if :
      (P : Run → Type 0) (b : Bool) (run : Run) (rest : List Run)
      → P run
      → All P rest
      → All P (if b then run ∷ rest else rest)
  keep_if P true run rest h k = (h, k)
  keep_if P false run rest h k = k

  weigh_runs-CountsRight :
      (n : ℕ) (avail : List Plane) (composition : List (LayerData Data)) (begin live : ℕ)
      (leaving entering : List (LayerData Data))
      → drop begin composition ≡ leaving
      → drop (suc n) leaving ≡ entering
      → live ≡ live_count pipe (take (suc n) leaving)
      → All
          (CountsRight (suc n) composition)
          (weigh_runs pipe (suc n) avail composition begin live leaving entering)
  unfolding weigh_runs recorded_run
  weigh_runs-CountsRight n avail composition begin live leaving [] at ends counts =
      keep_if (CountsRight (suc n) composition) (run_uniform pipe (take (suc n) leaving)) _ []
        (counts ∙ ap (λ ls. live_count pipe (take (suc n) ls)) (sym at)) tt
  weigh_runs-CountsRight n avail composition begin live [] (e ∷ entering) at ends counts = cc
  weigh_runs-CountsRight n avail composition begin live (l ∷ leaving) (e ∷ entering) at ends
        counts =
      keep_if (CountsRight (suc n) composition) (run_uniform pipe (take (suc n) (l ∷ leaving))) _ _
        (counts ∙ ap (λ ls. live_count pipe (take (suc n) ls)) (sym at))
        (weigh_runs-CountsRight n avail composition (suc begin) _ leaving entering
          (drop-next begin composition l leaving at) (drop-next n leaving e entering ends)
          (omega (arith, counts, live_count-take n leaving e entering ends)))

  -- For runs of at least one layer: each run recorded, as the window moves up the stack, says how many of
  -- its layers are live as counting them anew does.
  pub weigh_runs-live_count :
      (run_len : ℕ) (avail : List Plane) (composition : List (LayerData Data))
      → 1 ≤ run_len
      → All (CountsRight run_len composition) (
          weigh_runs pipe run_len avail composition 0
            (live_count pipe (take run_len composition))
            composition
            (drop run_len composition))
  weigh_runs-live_count zero avail composition h = absurd (omega arith)
  weigh_runs-live_count (suc n) avail composition h =
      weigh_runs-CountsRight n avail composition 0 _ composition _ refl refl refl
