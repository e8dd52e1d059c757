-- ===== src/CompositionPlanner/Kept.antt =====
-- GenericCompositionPlanner.cpp: whatever the display refuses, a layer that only the client can draw is
-- left to it.
use android_hardware_nvidia.CompositionPlanner.Scans.{HoldsFrom}
use android_hardware_nvidia.CompositionPlanner.Layers.{
  CommitStatus, CompositionType, Display, HwcLayer, ValidatedComposition, ValidationResult, client,
  cursor, device, flattened_types, get_flattened_composition, is_client_layer, is_cursor,
  layers_use_different_colorspaces,
}
use android_hardware_nvidia.CompositionPlanner.Ranges.{Range, get_client_layers, is_top_cursor}
use android_hardware_nvidia.CompositionPlanner.Windows.{HaveFewPixels}
use android_hardware_nvidia.CompositionPlanner.Fits.{get_client_layers-IsClientRange}
use android_hardware_nvidia.CompositionPlanner.Validate.{
  Attempt, any_cursor, composition_of, cursor_attempt, final_composition, first_attempt,
  first_status, plan_anew, planned_or, reused_plan, rung_of, second_attempt, types_from,
  uses_cursor_plane, validate_and_test, validate_display,
}
use android_hardware_nvidia.Prelude.{
  Bool, List, Option, Option-cases, [], arith, false, if_result, if◌then◌else◌, inl, inr, leb,
  length, ltb, none, not, refl, some, suc, true, ℕ, ◌&&◌, ◌+◌, ◌-◌, ◌<◌, ◌==◌, ◌||◌, ◌∷◌, ◌≡◌, ◌≤◌,
  ◌⊎◌,
}

-- Each layer that only the client can draw has the client's type, unless it is the topmost and a cursor.
abbrev pub LeftToClient : (HwcLayer → Bool) → List HwcLayer → List CompositionType → Type 0
LeftToClient is_client [] [] = Unit {0}
LeftToClient is_client (l ∷ ls) (t ∷ ts) =
    (is_client l ≡ true → (t ≡ client) ⊎ ((ls ≡ []) × (is_cursor l.sf_type ≡ true)))
    × LeftToClient is_client ls ts
LeftToClient is_client [] (t ∷ ts) = ⊥
LeftToClient is_client (l ∷ ls) [] = ⊥

flattened_types-LeftToClient :
    (is_client : HwcLayer → Bool) (ls : List HwcLayer)
    → LeftToClient is_client ls (flattened_types ls)
flattened_types-LeftToClient is_client [] = tt
flattened_types-LeftToClient is_client (l ∷ ls) =
    ((λ _. inl refl), flattened_types-LeftToClient is_client ls)

if_typed :
    (P : List CompositionType → Type 0) (b c : Bool) (rest : List CompositionType)
    → (b ≡ true → P (client ∷ rest))
    → (b ≡ false → (t : CompositionType) → P (t ∷ rest))
    → P (if b then client ∷ rest else if c then cursor ∷ rest else device ∷ rest)
if_typed P true c rest h k = h refl
if_typed P false true rest h k = k refl cursor
if_typed P false false rest h k = k refl device

types_from-LeftToClient :
    (is_client : HwcLayer → Bool) (z : ℕ) (r : Range) (use_cursor_plane : Bool) (ls : List HwcLayer)
    → HoldsFrom is_client z r ls
    → LeftToClient is_client ls (types_from z r use_cursor_plane ls)
unfolding types_from
types_from-LeftToClient is_client z r use_cursor_plane [] h = tt
types_from-LeftToClient is_client z r use_cursor_plane (l ∷ ls) (h, hs) =
    let rest = types_from-LeftToClient is_client (suc z) r use_cursor_plane ls hs in
    if_typed (LeftToClient is_client (l ∷ ls)) (leb r.start z && ltb z (r.start + r.size))
      (use_cursor_plane && is_cursor l.sf_type) (types_from (suc z) r use_cursor_plane ls)
      (λ _. ((λ _. inl refl), rest)) (λ out t. ((λ c. absurd (ground (arith, out, h c))), rest))

-- All but the topmost are the client's.
types_from-top :
    (is_client : HwcLayer → Bool) (z : ℕ) (r : Range) (use_cursor_plane : Bool) (ls : List HwcLayer)
    → r.start ≤ z
    → r.start + r.size + 1 ≡ z + length ls
    → is_top_cursor ls ≡ true
    → LeftToClient is_client ls (types_from z r use_cursor_plane ls)
unfolding types_from
types_from-top is_client z r use_cursor_plane [] from to top = tt
types_from-top is_client z r use_cursor_plane (l ∷ []) from to top =
    if_typed (LeftToClient is_client (l ∷ [])) (leb r.start z && ltb z (r.start + r.size))
      (use_cursor_plane && is_cursor l.sf_type) [] (λ _. ((λ _. inl refl), tt))
      (λ out t. ((λ c. inr (refl, top)), tt))
types_from-top is_client z r use_cursor_plane (l ∷ k ∷ ls) from to top =
    let rest =
      types_from-top is_client (suc z) r use_cursor_plane (k ∷ ls) (omega (arith, from))
        (omega (arith, to)) top in
    if_typed (LeftToClient is_client (l ∷ k ∷ ls)) (leb r.start z && ltb z (r.start + r.size))
      (use_cursor_plane && is_cursor l.sf_type) (types_from (suc z) r use_cursor_plane (k ∷ ls))
      (λ _. ((λ _. inl refl), rest)) (λ out t. absurd (ground (arith, out, from, to)))

is_top_cursor-length :
    (ls : List HwcLayer) → is_top_cursor ls ≡ true → 0 + (length ls - 1) + 1 ≡ 0 + length ls
is_top_cursor-length [] h = cc
is_top_cursor-length (l ∷ ls) h = omega arith

module _ {JoiningPlan : Type 0} (d : Display JoiningPlan) where
  abbrev pub ClientsLeft : ValidatedComposition JoiningPlan → Type 0
  ClientsLeft c = LeftToClient (is_client_layer d) d.layers c.composition_types

  abbrev AttemptLeft : Attempt JoiningPlan → Type 0
  AttemptLeft a = ClientsLeft a.composition

  if_attempt :
      (P : Attempt JoiningPlan → Type 0) (b : Bool) {s t : Attempt JoiningPlan}
      → (b ≡ true → P s)
      → (b ≡ false → P t)
      → P (if b then s else t)
  if_attempt P true h k = h refl
  if_attempt P false h k = k refl

  validate_and_test-AttemptLeft :
      (use_cursor_plane : Bool) (plan : Option JoiningPlan) (status : CommitStatus) (r : Range)
      → LeftToClient (is_client_layer d) d.layers (types_from 0 r use_cursor_plane d.layers)
      → AttemptLeft (validate_and_test d use_cursor_plane plan status r)
  unfolding validate_and_test composition_of
  validate_and_test-AttemptLeft use_cursor_plane plan status r h =
      if_attempt AttemptLeft (not (r.start == 0) || not (r.size == length d.layers)) (λ _. h)
        (λ _. h)

  found-LeftToClient :
      (forced : ℕ)
      → 0 < d.num_available_planes
      → HaveFewPixels d.layers
      → LeftToClient (is_client_layer d) d.layers (
          types_from 0
            (get_client_layers d (uses_cursor_plane d) forced)
            (uses_cursor_plane d)
            d.layers)
  found-LeftToClient forced some_plane few =
      types_from-LeftToClient (is_client_layer d) 0 _ (uses_cursor_plane d) d.layers
        (get_client_layers-IsClientRange d forced some_plane few).0

  first_attempt-AttemptLeft :
      0 < d.num_available_planes
      → HaveFewPixels d.layers
      → AttemptLeft (first_attempt d (uses_cursor_plane d))
  unfolding first_attempt
  first_attempt-AttemptLeft some_plane few =
      validate_and_test-AttemptLeft (uses_cursor_plane d) none first_status
        (get_client_layers d (uses_cursor_plane d) 0) (found-LeftToClient 0 some_plane few)

  second_attempt-AttemptLeft :
      (a : Attempt JoiningPlan)
      → 0 < d.num_available_planes
      → HaveFewPixels d.layers
      → AttemptLeft a
      → AttemptLeft (second_attempt d (uses_cursor_plane d) a)
  unfolding second_attempt
  second_attempt-AttemptLeft a some_plane few h =
      let u = uses_cursor_plane d in
      let r = get_client_layers d u (rung_of d a.range) in
      if_attempt AttemptLeft (a.succeeds || leb (length d.layers) 1) (λ _. h)
        (λ _.
          if_attempt AttemptLeft (not (r.start == a.range.start) || not (r.size == a.range.size))
            (λ _.
              validate_and_test-AttemptLeft u a.composition.composition_plan a.status r
                (found-LeftToClient (rung_of d a.range) some_plane few))
            (λ _. h))

  cursor_attempt-AttemptLeft :
      (use_cursor_plane : Bool) (a : Attempt JoiningPlan)
      → AttemptLeft a
      → AttemptLeft (cursor_attempt d use_cursor_plane a)
  unfolding cursor_attempt
  cursor_attempt-AttemptLeft use_cursor_plane a h =
      if_attempt AttemptLeft
        (a.succeeds || not (any_cursor d.layers) || not (is_top_cursor d.layers)) (λ _. h)
        (λ on.
          let top : is_top_cursor d.layers ≡ true = ground (arith, on) in
          validate_and_test-AttemptLeft use_cursor_plane a.composition.composition_plan a.status
            (record { start = 0; size = length d.layers - 1 })
            (types_from-top (is_client_layer d) 0 (record { start = 0; size = length d.layers - 1 })
              use_cursor_plane d.layers (omega arith) (is_top_cursor-length d.layers top) top))

  final_composition-ClientsLeft :
      (use_cursor_plane : Bool) (a : Attempt JoiningPlan)
      → AttemptLeft a
      → ClientsLeft (final_composition d use_cursor_plane a)
  unfolding final_composition get_flattened_composition
  final_composition-ClientsLeft use_cursor_plane a h =
      let flat = flattened_types-LeftToClient (is_client_layer d) d.layers in
      let chosen = if_result {A = ValidatedComposition JoiningPlan} ClientsLeft a.succeeds h flat in
      if_result {A = ValidatedComposition JoiningPlan} ClientsLeft use_cursor_plane chosen chosen

  plan_anew-ClientsLeft :
      0 < d.num_available_planes → HaveFewPixels d.layers → ClientsLeft (plan_anew d)
  unfolding plan_anew
  plan_anew-ClientsLeft some_plane few =
      let u = uses_cursor_plane d in
      let first = first_attempt d u in
      let second = second_attempt d u first in
      final_composition-ClientsLeft u (cursor_attempt d u second) (
        cursor_attempt-AttemptLeft u second (
          second_attempt-AttemptLeft first some_plane few
            (first_attempt-AttemptLeft some_plane few)))

  reused_plan-kept :
      (c : ValidatedComposition JoiningPlan)
      → reused_plan d ≡ some c
      → (d.plan_invalidators ≡ 0) × (d.reusable_plan ≡ some c)
  unfolding reused_plan
  reused_plan-kept c e = elim (Option-cases d.reusable_plan) [
    | inl gone ↦ absurd (ground (arith, gone, e))
    | inr (k, found) ↦ (ground (arith, found, e), ground (arith, found, e))
  ]

  planned_or-ClientsLeft :
      (o : Option (ValidatedComposition JoiningPlan))
      → ClientsLeft (plan_anew d)
      → ((c : ValidatedComposition JoiningPlan) → o ≡ some c → ClientsLeft c)
      → ClientsLeft (planned_or (plan_anew d) o).composition
  planned_or-ClientsLeft none h k = h
  planned_or-ClientsLeft (some c) h k = k c refl

  -- There is a plane at least, and the pixels of the layers are fewer than a count of 32 bits holds; and
  -- the plan to be reused, if nothing has changed since it was made, left the layers to the client that
  -- only the client can draw. Then so does the plan that is made, whatever the display refuses and
  -- whatever is tried after: the one exception is a cursor that is the topmost layer.
  pub validate_display-ClientsLeft :
      0 < d.num_available_planes
      → HaveFewPixels d.layers
      → ((c : ValidatedComposition JoiningPlan)
          → d.plan_invalidators ≡ 0
          → d.reusable_plan ≡ some c
          → ClientsLeft c)
      → ClientsLeft (validate_display d).composition
  unfolding validate_display get_flattened_composition
  validate_display-ClientsLeft some_plane few kept =
      let flat = flattened_types-LeftToClient (is_client_layer d) d.layers in
      let right = λ (v : ValidationResult JoiningPlan). ClientsLeft v.composition in
      if_result {A = ValidationResult JoiningPlan} right d.ctm_by_gpu flat (
        if_result {A = ValidationResult JoiningPlan} right
          (layers_use_different_colorspaces d.layers && not d.use_color_pipeline) flat
          (planned_or-ClientsLeft (reused_plan d) (plan_anew-ClientsLeft some_plane few)
            (λ c e. let (clean, same) = reused_plan-kept c e in kept c clean same)))
