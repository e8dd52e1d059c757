-- ===== src/JoiningPlan/Enough.antt =====
-- LayerToPlaneJoiningPlan.cpp: when there is no plan.
use mathlib.Core.Path.{subst}
use mathlib.Core.Option.{some-injective}
use android_hardware_nvidia.MergeGroup.{Placed, numbered}
use mathlib.Core.Path.{subst}
use android_hardware_nvidia.JoiningPlan.Places.{count}
use android_hardware_nvidia.JoiningPlan.Made.{StandFor, place_steered-Attempted}
use android_hardware_nvidia.JoiningPlan.Steer.{members_of, pick, place_steered}
use android_hardware_nvidia.JoiningPlan.Plans.{offered-count}
use android_hardware_nvidia.JoiningPlan.Picks.{Perm-total, total}
use android_hardware_nvidia.JoiningPlan.Create.{
  create, is_cursor_refused, merging_first, no_plan, of_class, place,
}
use android_hardware_nvidia.JoiningPlan.Fit.{
  Joining, JoiningPlan, LayerData, Pipe, accepts, emplace, find_if, ordinary_count, place_first_fit,
}
use android_hardware_nvidia.Prelude.{
  All, Bool, Bool-cases, List, Option, Option-cases, [], ap, arith, false, get_elem?, if◌then◌else◌,
  inl, inr, length, none, not, refl, some, suc, sym, true, zero, ℕ, ◌++◌, ◌+◌, ◌↔◌, ◌∷◌, ◌≡◌, ◌≤◌,
}

module _ (pipe : Pipe) where
  open pipe use {Data, Plane, is_merging, is_valid}

  -- A plane of the display's own takes any of the layers.
  abbrev pub Suits : List (LayerData Data) → Plane → Type 0
  Suits ls p = is_merging p ≡ false → All (λ l. is_valid p l ≡ true) ls

  find_if-accepts :
      (joined : List (Joining pipe)) (l : LayerData Data) (ls : List (LayerData Data))
      (avail : List Plane)
      → All (Suits (l ∷ ls)) avail
      → 1 ≤ ordinary_count pipe avail
      → (p : Plane) × (after : List Plane) × (find_if (accepts pipe joined l) avail
          ≡ some (p, after))
        × All (Suits ls) after
        × (ordinary_count pipe avail ≤ 1 + ordinary_count pipe after)
  unfolding find_if
  find_if-accepts joined l ls [] s h = absurd (omega arith)
  find_if-accepts joined l ls (p ∷ ps) (s, ss) h = elim (Bool-cases (accepts pipe joined l p)) [
    | inl taken ↦ (p, ps, ground (arith, taken), fewer ps ss, ground arith)
    | inr passed ↦
        let merges : is_merging p ≡ true = passed_merges p s passed in
        let (q, after, found, suits, few) =
          find_if-accepts joined l ls ps ss (ground (arith, merges, h)) in
        (q, after, ground (arith, passed, found), suits, ground (arith, merges, few))
  ]
    where
      fewer : (qs : List Plane) → All (Suits (l ∷ ls)) qs → All (Suits ls) qs
      fewer [] t = tt
      fewer (q ∷ qs) (t, ts) = ((λ m. (t m).1), fewer qs ts)

      passed_merges :
          (q : Plane) → Suits (l ∷ ls) q → accepts pipe joined l q ≡ false → is_merging q ≡ true
      passed_merges q t e = elim (Bool-cases (is_merging q)) [
        | inl merges ↦ merges
        | inr own ↦ absurd (unfold accepts in ground (arith, own, (t own).0, e))
      ]

  place_first_fit-places :
      (joined : List (Joining pipe)) (avail : List Plane) (ls : List (LayerData Data))
      → All (Suits ls) avail
      → length ls ≤ ordinary_count pipe avail
      → (out : List (Joining pipe)) × (place_first_fit pipe joined avail ls ≡ some out)
  unfolding place_first_fit
  place_first_fit-places joined avail [] s h = (joined, refl)
  place_first_fit-places joined avail (l ∷ ls) s h =
      let (p, after, found, suits, few) = find_if-accepts joined l ls avail s (omega arith) in
      let (out, fits) =
        place_first_fit-places (emplace pipe joined l p) after ls suits (omega arith) in
      (out, rw (found, place_first_fit) fits)

  pick-length :
      (composition : List (LayerData Data)) (order : List Placed)
      → length (pick pipe composition order) ≤ total (λ _. 1) order
  unfolding pick
  pick-length composition [] = omega arith
  pick-length composition (p ∷ ps) =
      let rest = pick-length composition ps in
      elim (Option-cases (get_elem? composition p.index)) [
        | inl gone ↦ rw (gone, pick) (omega (arith, rest))
        | inr (l, there) ↦ rw (there, pick) (omega (arith, rest))
      ]

  numbered-length :
      (n : ℕ) (ls : List (LayerData Data))
      → total (λ _. 1) (numbered n (members_of pipe ls)) ≡ length ls
  numbered-length n [] = refl
  numbered-length n (l ∷ ls) = omega (arith, numbered-length (suc n) ls)

  get_elem?-All :
      (P : LayerData Data → Type 0) (ls : List (LayerData Data)) (i : ℕ) (l : LayerData Data)
      → All P ls
      → get_elem? ls i ≡ some l
      → P l
  get_elem?-All P [] i l h e = cc
  get_elem?-All P (k ∷ ls) zero l h e = subst P (some-injective k l e) h.0
  get_elem?-All P (k ∷ ls) (suc i) l h e = get_elem?-All P ls i l h.1 e

  pick-All :
      (P : LayerData Data → Type 0) (composition : List (LayerData Data)) (order : List Placed)
      → All P composition
      → All P (pick pipe composition order)
  unfolding pick
  pick-All P composition [] h = tt
  pick-All P composition (p ∷ ps) h =
      let rest = pick-All P composition ps h in
      elim (Option-cases (get_elem? composition p.index)) [
        | inl gone ↦ rw (gone, pick) rest
        | inr (l, there) ↦ rw (there, pick) (get_elem?-All P composition p.index l h there, rest)
      ]

  StandFor-length :
      (composition ls : List (LayerData Data))
      → StandFor pipe composition ls
      → length ls ≤ length composition
  StandFor-length composition ls (order, perm, _, same) = omega (
    arith,
    ap length same,
    pick-length composition order,
    Perm-total (λ _. 1) order (numbered 0 (members_of pipe composition)) perm,
    numbered-length 0 composition,
  )

  StandFor-Suits :
      (composition ls : List (LayerData Data)) (avail : List Plane)
      → StandFor pipe composition ls
      → All (Suits composition) avail
      → All (Suits ls) avail
  StandFor-Suits composition ls [] stands s = tt
  StandFor-Suits composition ls (p ∷ ps) (order, perm, pairs, same) (s, ss) = (
    (λ own.
        subst (All (λ l. is_valid p l ≡ true)) (sym same)
          (pick-All (λ l. is_valid p l ≡ true) composition order (s own))),
    StandFor-Suits composition ls ps (order, perm, pairs, same) ss,
  )

  place-places :
      (avail : List Plane) (composition : List (LayerData Data)) (prefer_merge : Bool)
      → All (Suits composition) avail
      → length composition ≤ ordinary_count pipe avail
      → (plan : JoiningPlan pipe) × (place pipe avail composition prefer_merge ≡ some plan)
  unfolding place
  place-places avail composition prefer_merge s h =
      let a = place_steered pipe (no_plan pipe) avail composition prefer_merge in
      let (stands, _, _) = place_steered-Attempted pipe avail composition prefer_merge in
      let (joined, fits) =
        place_first_fit-places a.plan.plan avail a.composition
          (StandFor-Suits composition a.composition avail stands s)
          (omega (arith, h, StandFor-length composition a.composition stands)) in
      elim (Bool-cases a.placed) [
        | inl placed ↦ (a.plan, rw (placed, place) refl)
        | inr left ↦ (record a.plan { plan = joined }, rw (left, place) rw (fits, place) refl)
      ]

  of_class-Suits :
      (merging : Bool) (ls : List (LayerData Data)) (ps : List Plane)
      → All (Suits ls) ps
      → All (Suits ls) (of_class pipe merging ps)
  of_class-Suits merging ls [] s = tt
  of_class-Suits merging ls (p ∷ ps) (s, ss) =
      if_all (if merging then is_merging p else not (is_merging p))
        (s, of_class-Suits merging ls ps ss)
    where
      if_all :
          (b : Bool)
          → All (Suits ls) (p ∷ of_class pipe merging ps)
          → All (Suits ls) (if b then p ∷ of_class pipe merging ps else of_class pipe merging ps)
      if_all true (t, ts) = (t, ts)
      if_all false (t, ts) = ts

  Suits-append :
      (ls : List (LayerData Data)) (ps qs : List Plane)
      → All (Suits ls) ps
      → All (Suits ls) qs
      → All (Suits ls) (ps ++ qs)
  Suits-append ls [] qs s t = t
  Suits-append ls (p ∷ ps) qs (s, ss) t = (s, Suits-append ls ps qs ss t)

  count-ordinary : (ps : List Plane) → count (λ p. not (is_merging p)) ps ≡ ordinary_count pipe ps
  count-ordinary [] = refl
  count-ordinary (p ∷ ps) = ground (arith, count-ordinary ps)

  offered-Suits :
      (prefer_merge : Bool) (ls : List (LayerData Data)) (usable : List Plane)
      → All (Suits ls) usable
      → All (Suits ls) (if prefer_merge then merging_first pipe usable else usable)
  offered-Suits true ls usable s =
      Suits-append ls (of_class pipe true usable) (of_class pipe false usable)
        (of_class-Suits true ls usable s) (of_class-Suits false ls usable s)
  offered-Suits false ls usable s = s

  -- There are at least as many ordinary planes as layers, and each of them is valid for every layer. Then,
  -- whatever the merging planes refuse, and whether merging is preferred or not, the one reason to make
  -- no plan is that the layer of the cursor cannot be shown by the cursor's plane.
  pub only_cursor_is_refused :
      (usable : List Plane) (cursor_plane : Option Plane) (composition : List (LayerData Data))
      (cursor : Option (LayerData Data)) (prefer_merge : Bool)
      → All (Suits composition) usable
      → length composition ≤ ordinary_count pipe usable
      → (create pipe usable cursor_plane composition cursor prefer_merge ≡ none)
        ↔ (is_cursor_refused pipe cursor_plane cursor ≡ true)
  unfolding create
  only_cursor_is_refused usable cursor_plane composition cursor prefer_merge s h =
      let avail = if prefer_merge then merging_first pipe usable else usable in
      let as_many = offered-count pipe (λ p. not (is_merging p)) prefer_merge usable in
      let (plan, placed) =
        place-places avail composition prefer_merge
          (offered-Suits prefer_merge composition usable s)
          (omega (arith, h, as_many, count-ordinary avail, count-ordinary usable)) in
      (
        (λ gone. elim (Bool-cases (is_cursor_refused pipe cursor_plane cursor)) [
          | inl refused ↦ refused
          | inr fine ↦ absurd (ground (arith, fine, placed, gone))
        ]),
        (λ refused. rw (refused, create) refl),
      )
