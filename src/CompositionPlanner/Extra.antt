-- ===== src/CompositionPlanner/Extra.antt =====
-- GenericCompositionPlanner.cpp: the range that is left to the client, with the layers added to it.
use android_hardware_nvidia.CompositionPlanner.Validate.{top_cursor}
use android_hardware_nvidia.CompositionPlanner.Scans.{Within, with_place-Grows}
use android_hardware_nvidia.CompositionPlanner.Layers.{HwcLayer, is_cursor}
use android_hardware_nvidia.CompositionPlanner.Budgets.{search_for_complete}
use android_hardware_nvidia.CompositionPlanner.Ranges.{
  Budget, Range, budget_for, cheapest_range, client_range, extra_client, get_extra_client_range,
  needs_extra, search_for, with_place,
}
use android_hardware_nvidia.CompositionPlanner.Windows.{
  HaveFewPixels, cheapest_range-IsCheapest, range_pixels,
}
use android_hardware_nvidia.Rect.{within}
use android_hardware_nvidia.Prelude.{
  Bool, Bool-cases, List, [], ap, arith, false, if◌then◌else◌, inl, inr, length, ltb, refl, some,
  suc, true, ℕ, ◌+◌, ◌-◌, ◌==◌, ◌∙◌, ◌∷◌, ◌≡◌, ◌≤◌,
}
use mathlib.Core.Option.{some-injective}

-- Of all ranges as wide that lie among the layers counted and hold the first range, none has fewer pixels.
abbrev pub NoneCheaper : List HwcLayer → ℕ → Range → Range → Type 0
NoneCheaper layers counted r t =
    (start : ℕ)
    → start + t.size ≤ counted
    → Within r (record { start = start; size = t.size })
    → range_pixels layers t.start t.size ≤ range_pixels layers start t.size

abbrev pub Extends : List HwcLayer → Budget → Range → Range → Type 0
Extends layers b r t =
    (t.start + t.size ≤ b.layers_size)
    × Within r t
    × (r.size ≤ t.size)
    × (b.layers_size - t.size ≤ b.avail_planes)
    × NoneCheaper layers b.layers_size r t

extra_client-fits :
    (b : Budget) (r : Range) (forced : ℕ)
    → let extra = extra_client b r forced in
      (extra ≤ b.layers_size - r.size) × (b.layers_size - (r.size + extra) ≤ b.avail_planes)
unfolding extra_client
extra_client-fits b r forced = elim (Bool-cases (ltb b.avail_planes (b.layers_size - r.size))) [
  | inl scarce ↦ rw (scarce, extra_client) (omega arith, ground (arith, scarce))
  | inr plenty ↦ rw (plenty, extra_client) (omega arith, ground (arith, plenty))
]

same_start :
    (layers : List HwcLayer) (r : Range) (start : ℕ)
    → Within r (record { start = start; size = r.size })
    → range_pixels layers r.start r.size ≤ range_pixels layers start r.size
same_start layers r start w = elim (Bool-cases (r.size == 0)) [
  | inl empty ↦ let nothing : r.size ≡ 0 = ground (arith, empty) in rw nothing (omega arith)
  | inr held ↦
      let (below, above) = w (ground (arith, held)) in
      let same : start ≡ r.start = omega (arith, below, above) in
      omega (arith, ap (λ z. range_pixels layers z r.size) same)
]

left-Extends :
    (layers : List HwcLayer) (b : Budget) (r : Range) (forced : ℕ)
    → r.start + r.size ≤ b.layers_size
    → needs_extra b r forced ≡ false
    → Extends layers b r r
unfolding needs_extra
left-Extends layers b r forced h e = (
  h,
  (λ _. (omega arith, omega arith)),
  omega arith,
  ground (arith, h, e),
  λ start _ w. same_start layers r start w,
)

found-Extends :
    (layers : List HwcLayer) (b : Budget) (r : Range) (forced : ℕ)
    → HaveFewPixels layers
    → r.start + r.size ≤ b.layers_size
    → Extends layers b r (cheapest_range layers (search_for b r (extra_client b r forced)) r)
unfolding cheapest_range
found-Extends layers b r forced few h =
    let extra = extra_client b r forced in
    let s = search_for b r extra in
    let (enough, fits) = extra_client-fits b r forced in
    let (some_step, wide, all) = search_for_complete b r extra h enough in
    let (from, to, least) = cheapest_range-IsCheapest layers s r few some_step in
    let (ends, within) = (all (cheapest_range layers s r).start).0 (from, to) in
    (
      ends,
      within,
      omega (arith, wide),
      omega (arith, fits, wide),
      λ start e w. let (low, high) = (all start).1 (e, w) in least start low high,
    )

pub get_extra_client_range-Extends :
    (planes : ℕ) (layers : List HwcLayer) (r : Range) (use_cursor_plane : Bool) (forced : ℕ)
    → HaveFewPixels layers
    → let b = budget_for planes layers r use_cursor_plane in
      r.start + r.size ≤ b.layers_size
      → Extends layers b r (get_extra_client_range planes layers r use_cursor_plane forced)
unfolding get_extra_client_range
get_extra_client_range-Extends planes layers r use_cursor_plane forced few h =
    by_need (needs_extra (budget_for planes layers r use_cursor_plane) r forced) refl
  where
    by_need :
        (more : Bool)
        → needs_extra (budget_for planes layers r use_cursor_plane) r forced ≡ more
        → let b = budget_for planes layers r use_cursor_plane in
          Extends layers b r
            (if more then cheapest_range layers (search_for b r (extra_client b r forced)) r else r)
    by_need true e =
        found-Extends layers (budget_for planes layers r use_cursor_plane) r forced few h
    by_need false e = left-Extends layers (budget_for planes layers r use_cursor_plane) r forced h e

-- The topmost layer, if it is the one cursor, is not the client's.
abbrev pub SparesCursor : (HwcLayer → Bool) → List HwcLayer → Type 0
SparesCursor is_client layers =
    (l : HwcLayer) × (top_cursor layers ≡ some l) × (is_client l ≡ false)

pub client_range-below :
    (is_client : HwcLayer → Bool) (z : ℕ) (r : Range) (ls : List HwcLayer)
    → r.start + r.size ≤ z
    → SparesCursor is_client ls
    → let t = client_range is_client z r ls in t.start + t.size + 1 ≤ z + length ls
unfolding client_range top_cursor
client_range-below is_client z r [] h (l, e, c) = cc
client_range-below is_client z r (k ∷ []) h (l, e, c) = elim (Bool-cases (is_cursor k.sf_type)) [
  | inl top ↦
      let same : k ≡ l = some-injective k l (ground (arith, top, e)) in
      let spared : is_client k ≡ false = ap is_client same ∙ c in
      rw (spared, client_range) (omega (arith, h))
  | inr none_found ↦ absurd (ground (arith, none_found, e))
]
client_range-below is_client z r (k ∷ j ∷ ls) h (l, e, c) =
    let q = if is_client k then with_place z r else r in
    let ends = (with_place-Grows (is_client k) z r h).0 in
    omega (arith, client_range-below is_client (suc z) q (j ∷ ls) ends (l, ground (arith, e), c))
