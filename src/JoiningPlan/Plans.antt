-- ===== src/JoiningPlan/Plans.antt =====
-- LayerToPlaneJoiningPlan.cpp: what holds of every plan, with the layer of the cursor.
use android_hardware_nvidia.JoiningPlan.Fit.{Joining, JoiningPlan, LayerData, Pipe, emplace}
use android_hardware_nvidia.JoiningPlan.Places.{
  Alike, All-append_one, AreSound, Together, count, count-append, emplace-RiseFrom, layers_of,
  layers_of-emplace, planes_of, planes_of-emplace,
}
use android_hardware_nvidia.JoiningPlan.Made.{StandFor, place-StandFor}
use android_hardware_nvidia.JoiningPlan.Create.{
  add_cursor, create, is_cursor_refused, merging_first, of_class, place,
}
use android_hardware_nvidia.Prelude.{
  Bool, Bool-cases, List, Option, Option-cases, [], ap, arith, false, if◌then◌else◌, inl, inr,
  length, none, refl, some, sym, true, ◌++◌, ◌+◌, ◌∙◌, ◌∷◌, ◌≡◌, ◌≤◌,
}
use mathlib.Core.List.{append-nil}
use mathlib.Core.Path.{subst}
use mathlib.Core.Option.{some-injective}

abbrev pub listed : {A : Type 0} → Option A → List A
listed none = []
listed (some x) = x ∷ []

module _ (pipe : Pipe) where
  open pipe use {Data, Plane, is_merging, is_valid}

  merging_first-count :
      (q : Plane → Bool) (ps : List Plane) → count q (merging_first pipe ps) ≡ count q ps
  merging_first-count q ps = count-append q (of_class pipe true ps) (of_class pipe false ps) ∙ go ps
    where
      go :
          (ps : List Plane)
          → count q (of_class pipe true ps) + count q (of_class pipe false ps) ≡ count q ps
      go [] = omega arith
      go (p ∷ ps) = ground (arith, go ps)

  -- The cursor's plane is not one of the merge's.
  abbrev pub IsApart : Option Plane → Type 0
  IsApart none = Unit {0}
  IsApart (some p) = is_merging p ≡ false

  unmerged-Alike :
      (js : List (Joining pipe)) (j : Joining pipe)
      → is_merging j.plane ≡ false
      → Together pipe js
      → Together pipe (js ++ j ∷ [])
  unmerged-Alike [] j a t = (tt, tt)
  unmerged-Alike (i ∷ js) j a (h, t) =
      (All-append_one pipe (Alike pipe i) js j h (λ _ m. cc), unmerged-Alike js j a t)

  add_cursor-AreSound :
      (cursor_plane : Option Plane) (cursor : Option (LayerData Data)) (js : List (Joining pipe))
      → is_cursor_refused pipe cursor_plane cursor ≡ false
      → IsApart cursor_plane
      → AreSound pipe js
      → let out = add_cursor pipe cursor_plane cursor js in
        AreSound pipe out
        × (layers_of pipe out ≡ layers_of pipe js ++ listed cursor)
        × ((q : Plane → Bool)
            → count q (planes_of pipe out)
              ≤ count q (planes_of pipe js) + count q (listed cursor_plane))
  unfolding is_cursor_refused add_cursor emplace
  add_cursor-AreSound none none js c a s =
      (s, sym (append-nil (layers_of pipe js)), λ q. omega arith)
  add_cursor-AreSound none (some l) js c a s = absurd (ground arith)
  add_cursor-AreSound (some p) none js c a s =
      (s, sym (append-nil (layers_of pipe js)), λ q. omega arith)
  add_cursor-AreSound (some p) (some l) js c a (v, z, t) = (
    (
      All-append_one pipe (λ j. is_valid j.plane j.layer ≡ true) js _ v (ground (arith, c)),
      emplace-RiseFrom pipe 0 js _ z (omega arith),
      unmerged-Alike js _ a t,
    ),
    layers_of-emplace pipe js l p (length js),
    λ q. omega (
      arith,
      ap (count q) (planes_of-emplace pipe js l p (length js)),
      count-append q (planes_of pipe js) (p ∷ []),
    ),
  )

  pub offered-count :
      (q : Plane → Bool) (prefer_merge : Bool) (usable : List Plane)
      → count q (if prefer_merge then merging_first pipe usable else usable) ≡ count q usable
  offered-count q true usable = merging_first-count q usable
  offered-count q false usable = refl

  -- A plan is made, where the plane of the cursor is not one that merges. Then each layer is on a plane
  -- that is valid for it, from the bottom up in ranks from nought; all that is merged is turned the same
  -- way; the layers are those that came in, each once, in an order in which any two that overlap stand
  -- as they did, with the cursor's on top; and no plane is used more often than it is offered.
  pub create-AreSound :
      (usable : List Plane) (cursor_plane : Option Plane) (composition : List (LayerData Data))
      (cursor : Option (LayerData Data)) (prefer_merge : Bool) (plan : JoiningPlan pipe)
      → IsApart cursor_plane
      → create pipe usable cursor_plane composition cursor prefer_merge ≡ some plan
      → AreSound pipe plan.plan
        × ((shown : List (LayerData Data)) × StandFor pipe composition shown
            × (layers_of pipe plan.plan ≡ shown ++ listed cursor))
        × ((q : Plane → Bool)
            → count q (planes_of pipe plan.plan) ≤ count q usable + count q (listed cursor_plane))
  unfolding create
  create-AreSound usable cursor_plane composition cursor prefer_merge plan apart e =
      let avail = if prefer_merge then merging_first pipe usable else usable in
      elim (Bool-cases (is_cursor_refused pipe cursor_plane cursor)) [
        | inl refused ↦ absurd (ground arith)
        | inr fine ↦ elim (Option-cases (place pipe avail composition prefer_merge)) [
          | inl gone ↦ absurd (ground arith)
          | inr (p, placed) ↦
              let (sound, stands, few) =
                place-StandFor pipe avail composition prefer_merge p placed in
              let (sound', shown, few') =
                add_cursor-AreSound cursor_plane cursor p.plan fine apart sound in
              let made : record p { plan = add_cursor pipe cursor_plane cursor p.plan } ≡ plan =
                some-injective _ plan (ground (arith, fine, placed, e)) in
              subst
                (λ (r : JoiningPlan pipe).
                  AreSound pipe r.plan
                  × ((shown : List (LayerData Data)) × StandFor pipe composition shown
                      × (layers_of pipe r.plan ≡ shown ++ listed cursor))
                  × ((q : Plane → Bool)
                      → count q (planes_of pipe r.plan)
                        ≤ count q usable + count q (listed cursor_plane)))
                made
                (
                  sound',
                  (layers_of pipe p.plan, stands, shown),
                  λ q. omega (arith, few q, few' q, offered-count q prefer_merge usable),
                )
        ]
      ]
