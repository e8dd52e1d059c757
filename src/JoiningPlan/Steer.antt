-- ===== src/JoiningPlan/Steer.antt =====
-- LayerToPlaneJoiningPlan.cpp: the steering of the merge onto layers that hold still.
use android_hardware_nvidia.JoiningPlan.Fit.{
  Joining, JoiningPlan, LayerData, LayerTransform, Pipe, Run, Steering, emplace, fits_ordinary,
  live_count, merging_count, mixed_turn, monotone, ordinary_count, run_too_long, seat_refused,
  seats, shares_turn, steered, turn_bits,
}
use Prim.Native.Nat.{min}
use android_hardware_nvidia.Prelude.{
  Bool, List, [], drop, false, get_elem?, if◌then◌else◌, leb, length, ltb, none, not, set, some,
  suc, take, true, ℕ, ◌%◌, ◌&&◌, ◌++◌, ◌+◌, ◌-◌, ◌==◌, ◌^◌, ◌||◌, ◌∷◌,
}
use android_hardware_nvidia.MergeGroup.{
  GroupChoice, GroupMember, Placed, as_one, choose_merge_group,
}

module _ (pipe : Pipe) where
  open pipe use {Data, Plane, is_merging, is_valid, pixels_of, scale_pct_of}

  abbrev pub uniform_with : LayerTransform → List (LayerData Data) → Bool
  uniform_with t [] = true
  uniform_with t (l ∷ ls) = shares_turn l.transform t && uniform_with t ls

  -- `run_uniform`, of the layers of a run.
  unfoldable pub run_uniform : List (LayerData Data) → Bool
  run_uniform [] = true
  run_uniform (l ∷ ls) = uniform_with l.transform ls

  abbrev pub sum_pixels : ℕ → List (LayerData Data) → ℕ
  sum_pixels n [] = n
  sum_pixels n (l ∷ ls) = sum_pixels ((n + pixels_of l) % 2 ^ 64) ls

  abbrev pub steepest : ℕ → List (LayerData Data) → ℕ
  steepest n [] = n
  steepest n (l ∷ ls) = let s = scale_pct_of l in steepest (if ltb n s then s else n) ls

  unfoldable pub is_seatable : ℕ → ℕ → List Plane → List (LayerData Data) → Bool
  unfolding seats
  is_seatable begin run_len avail composition =
      elim (seats pipe begin run_len 0 avail avail composition) [ none ↦ false | some _ ↦ true ]

  -- `record`, of the run of the layers `members`.
  unfoldable pub recorded_run :
      ℕ → ℕ → ℕ → List (LayerData Data) → List Plane → List (LayerData Data) → Run
  recorded_run begin live run_len members avail composition = record {
    begin = begin;
    live = live;
    pixels = sum_pixels 0 members;
    scale_pct = steepest 100 members;
    seatable = is_seatable begin run_len avail composition;
    lowered = 0;
  }

  -- The loop over the contiguous runs: `leaving` are the layers from the run's first on, `entering` those
  -- after its last.
  unfoldable pub weigh_runs :
      ℕ
      → List Plane
      → List (LayerData Data)
      → ℕ
      → ℕ
      → List (LayerData Data)
      → List (LayerData Data)
      → List Run
  unfolding recorded_run
  weigh_runs run_len avail composition begin live leaving [] =
      if run_uniform (take run_len leaving)
      then recorded_run begin live run_len (take run_len leaving) avail composition ∷ []
      else []
  weigh_runs run_len avail composition begin live [] (e ∷ entering) = []
  weigh_runs run_len avail composition begin live (l ∷ leaving) (e ∷ entering) =
      let rest =
        weigh_runs run_len avail composition (suc begin) (live - as_one l.live + as_one e.live)
          leaving entering in
      if run_uniform (take run_len (l ∷ leaving))
      then recorded_run begin live run_len (take run_len (l ∷ leaving)) avail composition ∷ rest
      else rest

  unfoldable pub member_of : LayerData Data → GroupMember
  member_of l = record { live = l.live; frame = l.frame; turn = turn_bits l.transform }

  abbrev pub members_of : List (LayerData Data) → List GroupMember
  members_of [] = []
  members_of (l ∷ ls) = member_of l ∷ members_of ls

  -- `reordered`: the layers that the order names.
  unfoldable pub pick : List (LayerData Data) → List Placed → List (LayerData Data)
  pick composition [] = []
  pick composition (p ∷ ps) = elim (get_elem? composition p.index) [
    | none ↦ pick composition ps
    | some l ↦ l ∷ pick composition ps
  ]

  abbrev pub zeros : List (LayerData Data) → List ℕ
  zeros [] = []
  zeros (l ∷ ls) = 0 ∷ zeros ls

  unfoldable pub set_ranks : List ℕ → ℕ → List Placed → List ℕ
  set_ranks ranks rank [] = ranks
  set_ranks ranks rank (p ∷ ps) = set_ranks (set ranks p.index rank) (suc rank) ps

  -- The last of the runs that begins where the group does, or the first if there is none.
  unfoldable pub last_beginning : ℕ → ℕ → ℕ → List Run → ℕ
  last_beginning begin chosen r [] = chosen
  last_beginning begin chosen r (run ∷ runs) =
      last_beginning begin (if run.begin == begin then r else chosen) (suc r) runs

  -- The layers as they are to be seated, and the plan with what it keeps of the choice.
  unfoldable pub reorder :
      GroupChoice
      → List Plane
      → List (LayerData Data)
      → (JoiningPlan pipe)
      → List (LayerData Data) × (JoiningPlan pipe)
  unfolding recorded_run
  reorder group avail composition plan =
      let moved = pick composition group.order in
      let run =
        recorded_run group.begin group.live plan.run_len
          (take plan.run_len (drop group.begin moved)) avail moved in
      if group.lowered == 0
      then (
        composition,
        record plan { chosen_run = last_beginning group.begin plan.chosen_run 0 plan.runs },
      )
      else (
        moved,
        record plan {
          rank_of_input = set_ranks (zeros moved) 0 group.order;
          runs = plan.runs ++ record run { lowered = group.lowered } ∷ [];
          chosen_run = length plan.runs;
        },
      )

  unfoldable pub emplace_all :
      List (Joining pipe) → List (LayerData Data) → List Plane → List (Joining pipe)
  emplace_all joined (l ∷ ls) (p ∷ ps) = emplace_all (emplace pipe joined l p) ls ps
  emplace_all joined _ _ = joined

  -- What `PlaceSteered` leaves: whether it seated the layers, the plan, and the layers as they now stand.
  pub record Attempt : Type 0 where
    pub placed : Bool
    pub plan : (JoiningPlan pipe)
    pub composition : List (LayerData Data)

  abbrev pub refuse : Steering → (JoiningPlan pipe) → List (LayerData Data) → Attempt
  refuse why plan composition = record {
    placed = false;
    plan = record plan { steering = why };
    composition = composition;
  }

  unfoldable pub seat_group :
      GroupChoice → List Plane → List (LayerData Data) → (JoiningPlan pipe) → Attempt
  unfolding seats emplace_all
  seat_group group avail composition plan =
      elim (seats pipe group.begin plan.run_len 0 avail avail composition) [
        | none ↦ refuse seat_refused plan composition
        | some ps ↦ record {
          placed = true;
          plan = record plan { plan = emplace_all plan.plan composition ps; steering = steered };
          composition = composition;
        }
      ]

  unfoldable pub steer_width : Bool → List Plane → List (LayerData Data) → ℕ
  steer_width prefer_merge avail composition =
      if prefer_merge
      then min (length composition) (merging_count pipe avail)
      else length composition - ordinary_count pipe avail

  unfoldable pub place_steered :
      (JoiningPlan pipe) → List Plane → List (LayerData Data) → Bool → Attempt
  unfolding seat_group reorder
  place_steered plan avail composition prefer_merge =
      let need = steer_width prefer_merge avail composition in
      let live = live_count pipe composition in
      let weighed = record plan {
        run_len = need;
        runs =
            weigh_runs need avail composition 0 (live_count pipe (take need composition))
              composition (drop need composition);
      } in
      if merging_count pipe avail == 0
        || (not prefer_merge && leb (length composition) (ordinary_count pipe avail))
      then refuse fits_ordinary plan composition
      else if live == 0 || live == length composition
      then refuse monotone plan composition
      else if ltb (merging_count pipe avail) need
      then refuse run_too_long plan composition
      else elim (choose_merge_group (members_of composition) need) [
        | none ↦ refuse mixed_turn weighed composition
        | some group ↦
            let (standing, chosen) = reorder group avail composition weighed in
            seat_group group avail standing chosen
      ]
