-- ===== src/JoiningPlan/Fit.antt =====
-- LayerToPlaneJoiningPlan.cpp: layers, planes, and the first fit. A plane is what its `IsMerging` and
-- `IsValidForLayer` answer; the pixels and the scale of a layer are float arithmetic.
use android_hardware_nvidia.Prelude.{
  Bool, List, Option, [], false, if◌then◌else◌, leb, length, ltb, none, not, some, suc, true, ℕ,
  ◌&&◌, ◌++◌, ◌+◌, ◌||◌, ◌∷◌,
}
use android_hardware_nvidia.MergeGroup.{Frame}

pub record LayerTransform : Type 0 where
  pub hflip : Bool
  pub vflip : Bool
  pub rotate90 : Bool

pub record LayerData (Data : Type 0) : Type 0 where
  pub live : Bool
  pub frame : Option Frame
  pub transform : LayerTransform
  pub content : Data

-- What the planner asks of the planes, and of a layer in floats.
pub record Pipe : Type 1 where
  pub Data : Type 0
  pub Plane : Type 0
  pub is_merging : Plane → Bool
  pub is_valid : Plane → LayerData Data → Bool
  pub pixels_of : LayerData Data → ℕ
  pub scale_pct_of : LayerData Data → ℕ

pub data Steering : Type 0 where
  steered : Steering
  fits_ordinary : Steering
  monotone : Steering
  run_too_long : Steering
  lives_overflow : Steering
  seat_refused : Steering
  mixed_turn : Steering

pub record Run : Type 0 where
  pub begin : ℕ
  pub live : ℕ
  pub pixels : ℕ
  pub scale_pct : ℕ
  pub seatable : Bool
  pub lowered : ℕ

unfoldable pub same_flag : Bool → Bool → Bool
same_flag a b = if a then b else not b

unfoldable pub shares_turn : LayerTransform → LayerTransform → Bool
unfolding same_flag
shares_turn a b =
    same_flag a.hflip b.hflip && same_flag a.vflip b.vflip && same_flag a.rotate90 b.rotate90

-- `std::find_if` from an iterator on: what it stops at, and what comes after.
unfoldable pub find_if : {A : Type 0} → (A → Bool) → List A → Option (A × List A)
find_if p [] = none
find_if p (x ∷ xs) = let rest = find_if p xs in if p x then some (x, xs) else rest

abbrev pub turn_bits : LayerTransform → ℕ
turn_bits t =
    (if t.hflip then 1 else 0) + (if t.vflip then 2 else 0) + (if t.rotate90 then 4 else 0)

module _ (pipe : Pipe) where
  open pipe use {Data, Plane, is_merging, is_valid, pixels_of, scale_pct_of}

  pub record Joining : Type 0 where
    pub layer : LayerData Data
    pub plane : Plane
    pub z_pos : ℕ

  pub record JoiningPlan : Type 0 where
    pub plan : List Joining
    pub steering : Steering
    pub runs : List Run
    pub chosen_run : ℕ
    pub run_len : ℕ
    pub rank_of_input : List ℕ

  abbrev pub turns_with_merged : LayerData Data → List Joining → Bool
  turns_with_merged l [] = true
  turns_with_merged l (j ∷ js) =
      (not (is_merging j.plane) || shares_turn l.transform j.layer.transform)
      && turns_with_merged l js

  -- The test of the first fit.
  unfoldable pub accepts : List Joining → LayerData Data → Plane → Bool
  accepts joined l plane =
      is_valid plane l && (not (is_merging plane) || turns_with_merged l joined)

  unfoldable pub emplace : List Joining → LayerData Data → Plane → List Joining
  emplace joined l plane = joined ++ record { layer = l; plane = plane; z_pos = length joined } ∷ []

  unfoldable pub place_first_fit :
      List Joining → List Plane → List (LayerData Data) → Option (List Joining)
  place_first_fit joined avail [] = some joined
  place_first_fit joined avail (l ∷ ls) = elim (find_if (accepts joined l) avail) [
    | none ↦ none
    | some (plane, after) ↦ place_first_fit (emplace joined l plane) after ls
  ]

  abbrev pub merging_count : List Plane → ℕ
  merging_count [] = 0
  merging_count (p ∷ ps) = (if is_merging p then 1 else 0) + merging_count ps

  abbrev pub ordinary_count : List Plane → ℕ
  ordinary_count [] = 0
  ordinary_count (p ∷ ps) = (if is_merging p then 0 else 1) + ordinary_count ps

  abbrev pub live_count : List (LayerData Data) → ℕ
  live_count [] = 0
  live_count (l ∷ ls) = (if l.live then 1 else 0) + live_count ls

  unfoldable pub fits_class : Bool → LayerData Data → Plane → Bool
  fits_class merged l plane =
      (if merged then is_merging plane else not (is_merging plane)) && is_valid plane l

  abbrev pub is_merged : ℕ → ℕ → ℕ → Bool
  is_merged begin run_len i = leb begin i && ltb i (begin + run_len)

  -- The seats of the layers from the `i`-th on, where `ordinary` and `merging` are the planes from the
  -- two iterators on.
  unfoldable pub seats :
      ℕ → ℕ → ℕ → List Plane → List Plane → List (LayerData Data) → Option (List Plane)
  seats begin run_len i ordinary merging [] = some []
  seats begin run_len i ordinary merging (l ∷ ls) =
      if is_merged begin run_len i
      then elim (find_if (fits_class true l) merging) [
        | none ↦ none
        | some (plane, after) ↦ elim (seats begin run_len (suc i) ordinary after ls) [
          | none ↦ none
          | some ps ↦ some (plane ∷ ps)
        ]
      ]
      else elim (find_if (fits_class false l) ordinary) [
        | none ↦ none
        | some (plane, after) ↦ elim (seats begin run_len (suc i) after merging ls) [
          | none ↦ none
          | some ps ↦ some (plane ∷ ps)
        ]
      ]
