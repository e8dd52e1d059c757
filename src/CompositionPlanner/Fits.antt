-- ===== src/CompositionPlanner/Fits.antt =====
-- GenericCompositionPlanner.cpp: the layers that the hardware shows are no more than the planes.
use android_hardware_nvidia.CompositionPlanner.Scans.{
  HoldsFrom, HoldsFrom-Within, client_range-HoldsFrom,
}
use android_hardware_nvidia.CompositionPlanner.Budgets.{budget_for-Fair}
use android_hardware_nvidia.CompositionPlanner.Windows.{HaveFewPixels}
use android_hardware_nvidia.Rect.{within}
use android_hardware_nvidia.CompositionPlanner.Extra.{
  NoneCheaper, SparesCursor, client_range-below, get_extra_client_range-Extends,
}
use android_hardware_nvidia.CompositionPlanner.Layers.{
  CompositionType, Display, HwcLayer, client, cursor, device, is_client_layer, is_cursor,
}
use android_hardware_nvidia.CompositionPlanner.Ranges.{
  Range, budget_for, client_range, counted_budget, get_client_layers, one_less,
}
use android_hardware_nvidia.CompositionPlanner.Validate.{top_cursor, types_from, uses_cursor_plane}
use android_hardware_nvidia.Prelude.{
  Bool, Bool-cases, List, Option-cases, [], arith, false, if◌then◌else◌, inl, inr, leb, length, ltb,
  refl, some, suc, true, ℕ, ◌&&◌, ◌+◌, ◌-◌, ◌<◌, ◌==◌, ◌∷◌, ◌≡◌, ◌≤◌,
}
use Prim.Native.Nat.{max}

abbrev pub device_count : List CompositionType → ℕ
device_count [] = 0
device_count (device ∷ ts) = suc (device_count ts)
device_count (_ ∷ ts) = device_count ts

-- How much of a range lies at a place or above.
abbrev from_place : ℕ → Range → ℕ
from_place z r = r.start + r.size - max z r.start

-- A layer that its own plane does not show: the client's if it is in the range.
placed_count :
    (z : ℕ) (r : Range) (shows : Bool) (rest : List CompositionType) (n : ℕ)
    → shows ≡ false
    → device_count rest + from_place (suc z) r ≡ n
    → device_count (
          if leb r.start z && ltb z (r.start + r.size)
          then client ∷ rest
          else if shows
          then cursor ∷ rest
          else device ∷ rest)
        + from_place z r
      ≡ suc n
placed_count z r shows rest n h e = ground (arith, h, e)

types_from-count :
    (z : ℕ) (r : Range) (ls : List HwcLayer)
    → r.start + r.size ≤ z + length ls
    → device_count (types_from z r false ls) + from_place z r ≡ length ls
unfolding types_from
types_from-count z r [] h = omega (arith, h)
types_from-count z r (l ∷ ls) h = ground (arith, types_from-count (suc z) r ls (omega (arith, h)))

types_from-cursor_count :
    (z : ℕ) (r : Range) (ls : List HwcLayer) (l : HwcLayer)
    → top_cursor ls ≡ some l
    → r.start + r.size + 1 ≤ z + length ls
    → device_count (types_from z r true ls) + from_place z r + 1 ≡ length ls
unfolding types_from top_cursor
types_from-cursor_count z r [] l e h = cc
types_from-cursor_count z r (k ∷ []) l e h = elim (Bool-cases (is_cursor k.sf_type)) [
  | inl top ↦ ground (arith, top, h)
  | inr none_found ↦ absurd (ground (arith, none_found, e))
]
types_from-cursor_count z r (k ∷ j ∷ ls) l e h =
    let below : is_cursor k.sf_type ≡ false = ground (arith, e) in
    let rest =
      types_from-cursor_count (suc z) r (j ∷ ls) l (ground (arith, e)) (omega (arith, h)) in
    omega (
      arith,
      placed_count z r (is_cursor k.sf_type) (types_from (suc z) r true (j ∷ ls)) (length ls) below
          (omega (arith, rest)),
    )

-- A plane for each layer that the hardware shows without the cursor's own, and one for the client.
abbrev pub HavePlanes : ℕ → List HwcLayer → Range → Bool → Type 0
HavePlanes planes layers t use_cursor_plane =
    device_count (types_from 0 t use_cursor_plane layers) + (if t.size == 0 then 0 else 1) ≤ planes

top_cursor-counted :
    (layers : List HwcLayer) (l : HwcLayer)
    → top_cursor layers ≡ some l
    → one_less (length layers) + 1 ≡ length layers
unfolding top_cursor
top_cursor-counted [] l e = cc
top_cursor-counted (k ∷ ls) l e = ground arith

types_from-HavePlanes :
    (planes : ℕ) (layers : List HwcLayer) (t : Range) (use_cursor_plane : Bool)
    → (use_cursor_plane ≡ true → (l : HwcLayer) × (top_cursor layers ≡ some l))
    → let counted = (counted_budget planes (length layers) use_cursor_plane).layers_size in
      t.start + t.size ≤ counted
      → counted - t.size + (if t.size == 0 then 0 else 1) ≤ planes
      → HavePlanes planes layers t use_cursor_plane
unfolding counted_budget
types_from-HavePlanes planes layers t false top ends fits =
    omega (arith, types_from-count 0 t layers (omega (arith, ends)), fits)
types_from-HavePlanes planes layers t true top ends fits =
    let (l, at_top) = top refl in
    let counted = top_cursor-counted layers l at_top in
    omega (
      arith,
      types_from-cursor_count 0 t layers l at_top (omega (arith, ends, counted)),
      fits,
      counted,
    )

abbrev pub first_range : {JoiningPlan : Type 0} → Display JoiningPlan → Range
first_range d = client_range (is_client_layer d) 0 (record { start = 0; size = 0 }) d.layers

module _ {JoiningPlan : Type 0} (d : Display JoiningPlan) where
  uses_cursor_plane-SparesCursor :
      uses_cursor_plane d ≡ true → SparesCursor (is_client_layer d) d.layers
  unfolding uses_cursor_plane
  uses_cursor_plane-SparesCursor e = elim (Option-cases (top_cursor d.layers)) [
    | inl gone ↦ absurd (ground (arith, gone, e))
    | inr (l, found) ↦ (l, found, ground (arith, found, e))
  ]

  first_range-counted :
      (use_cursor_plane : Bool)
      → (use_cursor_plane ≡ true → SparesCursor (is_client_layer d) d.layers)
      → let r = first_range d in
        r.start + r.size
        ≤ (counted_budget d.num_available_planes (length d.layers) use_cursor_plane).layers_size
  unfolding counted_budget
  first_range-counted false s = omega (
    arith,
    (client_range-HoldsFrom (is_client_layer d) 0 (record { start = 0; size = 0 }) d.layers
        (omega arith)).0,
  )
  first_range-counted true s =
      let (l, top, _) = s refl in
      omega (
        arith,
        top_cursor-counted d.layers l top,
        client_range-below (is_client_layer d) 0 (record { start = 0; size = 0 }) d.layers
            (omega arith) (s refl),
      )

  -- What `GetClientLayers` finds, whatever it is forced to add.
  abbrev pub IsClientRange : Bool → ℕ → Range → Type 0
  IsClientRange use_cursor_plane counted t =
      HoldsFrom (is_client_layer d) 0 t d.layers
      × (t.start + t.size ≤ counted)
      × HavePlanes d.num_available_planes d.layers t use_cursor_plane
      × NoneCheaper d.layers
          (budget_for d.num_available_planes d.layers (first_range d) use_cursor_plane).layers_size
          (first_range d) t

  get_client_layers-found :
      (use_cursor_plane : Bool) (forced : ℕ)
      → 0 < d.num_available_planes
      → HaveFewPixels d.layers
      → (use_cursor_plane ≡ true → SparesCursor (is_client_layer d) d.layers)
      → IsClientRange use_cursor_plane
          (counted_budget d.num_available_planes (length d.layers) use_cursor_plane).layers_size
          (get_client_layers d use_cursor_plane forced)
  unfolding get_client_layers
  get_client_layers-found use_cursor_plane forced some_plane few s =
      let r = first_range d in
      let (_, _, _, holds) =
        client_range-HoldsFrom (is_client_layer d) 0 (record { start = 0; size = 0 }) d.layers
          (omega arith) in
      let (fits, counted, leaves) =
        budget_for-Fair d.num_available_planes d.layers r use_cursor_plane some_plane
          (first_range-counted use_cursor_plane s) in
      let (ends, within, wider, planes, cheapest) =
        get_extra_client_range-Extends d.num_available_planes d.layers r use_cursor_plane forced few
          fits in
      (
        HoldsFrom-Within (is_client_layer d) 0 r _ d.layers within holds,
        omega (arith, ends, counted),
        types_from-HavePlanes d.num_available_planes d.layers _ use_cursor_plane
            (λ u. ((s u).0, (s u).1)) (omega (arith, ends, counted))
            (leaves _ planes (omega (arith, ends))),
        cheapest,
      )

  -- There is a plane at least, and the pixels of the layers are fewer than a count of 32 bits holds. Then,
  -- however many layers the ladder forces on the client, the client's range holds every layer that only
  -- the client can draw and lies among the layers; there is a plane for each of the others, the cursor's
  -- own aside, and one for the client's; and of all ranges as wide that hold the client's layers, among
  -- those that are counted, none has fewer pixels.
  pub get_client_layers-IsClientRange :
      (forced : ℕ)
      → 0 < d.num_available_planes
      → HaveFewPixels d.layers
      → let counted =
          (counted_budget d.num_available_planes
            (length d.layers)
            (uses_cursor_plane d)).layers_size in
        IsClientRange
          (uses_cursor_plane d)
          counted
          (get_client_layers d (uses_cursor_plane d) forced)
  get_client_layers-IsClientRange forced some_plane few =
      get_client_layers-found (uses_cursor_plane d) forced some_plane few
        uses_cursor_plane-SparesCursor
