-- ===== src/JoiningPlan/Made.antt =====
-- LayerToPlaneJoiningPlan.cpp: what holds of every plan that is made.
use android_hardware_nvidia.JoiningPlan.Create.{no_plan, place}
use android_hardware_nvidia.JoiningPlan.Places.{
  AreSound, count, layers_of, place_first_fit-AreSound, planes_of,
}
use android_hardware_nvidia.JoiningPlan.Fit.{
  Joining, JoiningPlan, LayerData, Pipe, Steering, fits_ordinary, live_count, merging_count,
  mixed_turn, monotone, ordinary_count, place_first_fit, run_too_long, seat_refused, seats,
}
use android_hardware_nvidia.JoiningPlan.Steer.{
  Attempt, emplace_all, members_of, pick, place_steered, refuse, reorder, seat_group, steer_width,
  weigh_runs,
}
use android_hardware_nvidia.JoiningPlan.Seats.{AreTurned, seats-AreSound}
use android_hardware_nvidia.JoiningPlan.Picks.{
  AreOfTurn, Perm-total, before-AreOfTurn, group-AreOfTurn, misnamed, numbered-named, numbered-pick,
  pick-AreTurned,
}
use android_hardware_nvidia.Rect.{width}
use android_hardware_nvidia.Prelude.{
  Bool, Bool-cases, List, Option, Option-cases, [], ap, arith, drop, false, if◌then◌else◌, inl, inr,
  leb, length, ltb, none, not, refl, some, sym, take, true, ℕ, ◌&&◌, ◌++◌, ◌==◌, ◌||◌, ◌∙◌, ◌≡◌,
  ◌≤◌,
}
use android_hardware_nvidia.MergeGroup.{GroupChoice, Placed, choose_merge_group, numbered}
use android_hardware_nvidia.MergeGroup.Moves.{Pairs, numbered-Pairs}
use android_hardware_nvidia.MergeGroup.Sound.{BestIsSound, IsSound, chosen_is_sound}
use mathlib.Core.List.{Perm}
use mathlib.Core.List.Perm
use mathlib.Core.Path.{subst}
use mathlib.Core.Option.{some-injective}

module _ (pipe : Pipe) where
  open pipe use {Data, Plane, is_merging, is_valid}

  -- The layers stand in an order of the stack in which those that overlap stand as they did.
  abbrev pub StandFor : List (LayerData Data) → List (LayerData Data) → Type 0
  StandFor composition ls =
      (order : List Placed) × Perm order (numbered 0 (members_of pipe composition))
      × Pairs order
      × (ls ≡ pick pipe composition order)

  StandFor-self : (composition : List (LayerData Data)) → StandFor composition composition
  StandFor-self composition = (
    numbered 0 (members_of pipe composition),
    Perm.refl (numbered 0 (members_of pipe composition)),
    numbered-Pairs 0 (members_of pipe composition),
    sym (numbered-pick pipe [] composition),
  )

  -- The layers of a chosen group are of one turn, where they stand.
  chosen-AreTurned :
      (composition : List (LayerData Data)) (width : ℕ) (group : GroupChoice)
      → choose_merge_group (members_of pipe composition) width ≡ some group
      → let moved = pick pipe composition group.order in
        StandFor composition moved
        × (group.lowered ≡ 0 → moved ≡ composition)
        × ((turn : ℕ) × AreTurned pipe group.begin width turn 0 moved)
  chosen-AreTurned composition width group e =
      let all = numbered 0 (members_of pipe composition) in
      let sound : IsSound all width group =
        subst (BestIsSound all width) e (chosen_is_sound (members_of pipe composition) width) in
      let (
        perm,
        pairs,
        _,
        unmoved,
        (before, members, after, turn, order, begins, fills, turned, _),
      ) =
        sound in
      let named =
        Perm-total (misnamed pipe composition) group.order all perm
        ∙ numbered-named pipe [] composition in
      let of_turn = subst (AreOfTurn pipe group.begin width turn 0) (sym order) (
        before-AreOfTurn pipe group.begin width turn 0 before (members ++ after)
          (omega (arith, begins))
          (group-AreOfTurn pipe group.begin width turn group.begin members after (omega arith)
            turned)) in
      (
        (group.order, perm, pairs, refl),
        (λ none_moved.
            ap (pick pipe composition) (unmoved none_moved) ∙ numbered-pick pipe [] composition),
        (turn, pick-AreTurned pipe composition group.begin width turn 0 group.order named of_turn),
      )

  abbrev UsesFew : List Plane → List Plane → Type 0
  UsesFew avail used = (q : Plane → Bool) → count q used ≤ count q avail

  abbrev IsSeated : List Plane → Attempt pipe → Type 0
  IsSeated avail a =
      AreSound pipe a.plan.plan
      × (layers_of pipe a.plan.plan ≡ a.composition)
      × UsesFew avail (planes_of pipe a.plan.plan)

  -- What an attempt at steering leaves.
  abbrev Attempted : List Plane → List (LayerData Data) → Attempt pipe → Type 0
  Attempted avail composition a =
      StandFor composition a.composition
      × (a.placed ≡ false → a.plan.plan ≡ [])
      × (a.placed ≡ true → IsSeated avail a)

  refuse-Attempted :
      (why : Steering) (avail : List Plane) (plan : JoiningPlan pipe)
      (composition ls : List (LayerData Data))
      → plan.plan ≡ []
      → StandFor composition ls
      → Attempted avail composition (refuse pipe why plan ls)
  refuse-Attempted why avail plan composition ls e s = (s, λ _. e, λ k. cc)

  seat_group-Attempted :
      (group : GroupChoice) (avail : List Plane) (plan : JoiningPlan pipe) (turn : ℕ)
      (composition ls : List (LayerData Data))
      → plan.plan ≡ []
      → StandFor composition ls
      → AreTurned pipe group.begin plan.run_len turn 0 ls
      → Attempted avail composition (seat_group pipe group avail ls plan)
  unfolding seat_group
  seat_group-Attempted group avail plan turn composition ls e s t =
      elim (Option-cases (seats pipe group.begin plan.run_len 0 avail avail ls)) [
        | inl gone ↦
            rw (gone, seat_group) (refuse-Attempted seat_refused avail plan composition ls e s)
        | inr (ps, found) ↦
            rw (found, seat_group)
              (
                s,
                (λ k. cc),
                λ _.
                    subst
                      (λ (js : List (Joining pipe)).
                        AreSound pipe (emplace_all pipe js ls ps)
                        × (layers_of pipe (emplace_all pipe js ls ps) ≡ ls)
                        × UsesFew avail (planes_of pipe (emplace_all pipe js ls ps)))
                      (sym e)
                      (seats-AreSound pipe group.begin plan.run_len turn avail ls ps found t),
              )
      ]

  reorder-Attempted :
      (avail : List Plane) (plan : JoiningPlan pipe) (composition : List (LayerData Data))
      (group : GroupChoice)
      → plan.plan ≡ []
      → choose_merge_group (members_of pipe composition) plan.run_len ≡ some group
      → let (standing, chosen) = reorder pipe group avail composition plan in
        Attempted avail composition (seat_group pipe group avail standing chosen)
  unfolding reorder
  reorder-Attempted avail plan composition group e chosen =
      let (stands, unmoved, (turn, turned)) =
        chosen-AreTurned composition plan.run_len group chosen in
      elim (Bool-cases (group.lowered == 0)) [
        | inl kept ↦
            let same = unmoved (ground arith) in
            rw (kept, reorder)
              (seat_group-Attempted group avail _ turn composition composition e
                (StandFor-self composition)
                (subst (AreTurned pipe group.begin plan.run_len turn 0) same turned))
        | inr moved ↦
            rw (moved, reorder)
              (seat_group-Attempted group avail _ turn composition _ e stands turned)
      ]

  if_refused :
      (P : Attempt pipe → Type 0) (b : Bool) (a : Attempt pipe) {c : Attempt pipe}
      → P a
      → P c
      → P (if b then a else c)
  if_refused P true a h k = h
  if_refused P false a h k = k

  pub place_steered-Attempted :
      (avail : List Plane) (composition : List (LayerData Data)) (prefer_merge : Bool)
      → Attempted avail composition
          (place_steered pipe (no_plan pipe) avail composition prefer_merge)
  unfolding place_steered
  place_steered-Attempted avail composition prefer_merge =
      let stays = StandFor-self composition in
      let refused = λ (why : Steering).
        refuse-Attempted why avail (no_plan pipe) composition composition refl stays in
      let right = Attempted avail composition in
      let live = live_count pipe composition in
      if_refused right
        (merging_count pipe avail == 0
          || (not prefer_merge && leb (length composition) (ordinary_count pipe avail)))
        (refuse pipe fits_ordinary (no_plan pipe) composition) (refused fits_ordinary)
        (if_refused right (live == 0 || live == length composition)
          (refuse pipe monotone (no_plan pipe) composition) (refused monotone)
          (if_refused right
            (ltb (merging_count pipe avail) (steer_width pipe prefer_merge avail composition))
            (refuse pipe run_too_long (no_plan pipe) composition) (refused run_too_long)
            (by_group
              (choose_merge_group (members_of pipe composition)
                (steer_width pipe prefer_merge avail composition))
              refl)))
    where
      weighed : JoiningPlan pipe
      weighed = record (no_plan pipe) {
        run_len = steer_width pipe prefer_merge avail composition;
        runs =
            weigh_runs pipe (steer_width pipe prefer_merge avail composition) avail composition 0
              (live_count pipe (take (steer_width pipe prefer_merge avail composition) composition))
              composition (drop (steer_width pipe prefer_merge avail composition) composition);
      }

      by_group :
          (o : Option GroupChoice)
          → choose_merge_group
              (members_of pipe composition)
              (steer_width pipe prefer_merge avail composition)
            ≡ o
          → Attempted avail composition (elim o [
            | none ↦ refuse pipe mixed_turn weighed composition
            | some group ↦
                let (standing, chosen) = reorder pipe group avail composition weighed in
                seat_group pipe group avail standing chosen
          ])
      by_group none e =
          refuse-Attempted mixed_turn avail weighed composition composition refl
            (StandFor-self composition)
      by_group (some group) e = reorder-Attempted avail weighed composition group refl e

  pub place-StandFor :
      (avail : List Plane) (composition : List (LayerData Data)) (prefer_merge : Bool)
      (plan : JoiningPlan pipe)
      → place pipe avail composition prefer_merge ≡ some plan
      → AreSound pipe plan.plan
        × StandFor composition (layers_of pipe plan.plan)
        × UsesFew avail (planes_of pipe plan.plan)
  unfolding place
  place-StandFor avail composition prefer_merge plan e =
      let a = place_steered pipe (no_plan pipe) avail composition prefer_merge in
      let (stands, empty, seated) = place_steered-Attempted avail composition prefer_merge in
      let right = λ (p : JoiningPlan pipe).
        AreSound pipe p.plan
        × StandFor composition (layers_of pipe p.plan)
        × UsesFew avail (planes_of pipe p.plan) in
      elim (Bool-cases a.placed) [
        | inl placed ↦
            let (sound, shown, few) = seated placed in
            subst right (some-injective a.plan plan (ground arith))
              (sound, subst (StandFor composition) (sym shown) stands, few)
        | inr left ↦ elim (Option-cases (place_first_fit pipe a.plan.plan avail a.composition)) [
          | inl gone ↦ absurd (ground arith)
          | inr (joined, fits) ↦
              let from_none : place_first_fit pipe [] avail a.composition ≡ some joined =
                subst (λ js. place_first_fit pipe js avail a.composition ≡ some joined) (empty left)
                  fits in
              let (sound, shown, few) =
                place_first_fit-AreSound pipe [] avail a.composition joined from_none
                  (tt, tt, tt) in
              subst right (some-injective (record a.plan { plan = joined }) plan (ground arith))
                (sound, subst (StandFor composition) (sym shown) stands, λ q. omega (arith, few q))
        ]
      ]
