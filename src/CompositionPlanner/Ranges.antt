-- ===== src/CompositionPlanner/Ranges.antt =====
-- GenericCompositionPlanner.cpp: the range of the layers that the client draws. Sizes are of 64 bits and
-- pixels of 32; the range stays within the layers, so that no difference of sizes falls below nought but
-- the count of planes, which wraps.
use Prim.Native.Nat.{min}
use android_hardware_nvidia.CompositionPlanner.Layers.{
  Display, HwcLayer, is_client_layer, is_cursor,
}
use android_hardware_nvidia.Prelude.{
  Bool, List, [], drop, false, if◌then◌else◌, length, ltb, not, suc, take, zero, ℕ, ◌%◌, ◌&&◌, ◌+◌,
  ◌-◌, ◌==◌, ◌^◌, ◌||◌, ◌∷◌,
}

pub record Range : Type 0 where
  pub start : ℕ
  pub size : ℕ

unfoldable pub with_place : ℕ → Range → Range
with_place z r =
    let start = if r.size == 0 then z else r.start in record { start = start; size = z - start + 1 }

-- The loop of `GetClientLayers` from the `z`-th layer on.
unfoldable pub client_range : (HwcLayer → Bool) → ℕ → Range → List HwcLayer → Range
unfolding with_place
client_range is_client z r [] = r
client_range is_client z r (l ∷ ls) =
    client_range is_client (suc z) (if is_client l then with_place z r else r) ls

abbrev pub sum_pix_ops : ℕ → List HwcLayer → ℕ
sum_pix_ops n [] = n
sum_pix_ops n (l ∷ ls) = sum_pix_ops ((n + l.pix_ops) % 2 ^ 32) ls

unfoldable pub calc_pix_ops : List HwcLayer → ℕ → ℕ → ℕ
calc_pix_ops layers first_z size = sum_pix_ops 0 (take size (drop first_z layers))

abbrev pub one_less : ℕ → ℕ
one_less n = if n == 0 then 2 ^ 64 - 1 else n - 1

abbrev pub is_top_cursor : List HwcLayer → Bool
is_top_cursor [] = false
is_top_cursor (l ∷ []) = is_cursor l.sf_type
is_top_cursor (l ∷ k ∷ ls) = is_top_cursor (k ∷ ls)

-- The planes to be had by the layers from the bottom up that are counted against them.
pub record Budget : Type 0 where
  pub avail_planes : ℕ
  pub layers_size : ℕ

unfoldable pub counted_budget : ℕ → ℕ → Bool → Budget
counted_budget planes size use_cursor_plane =
    let layers_size = if use_cursor_plane then one_less size else size in
    record {
      avail_planes = if ltb planes layers_size then one_less planes else planes;
      layers_size = layers_size;
    }

-- A plane kept for a layer of the cursor that its own plane does not show.
unfoldable pub budget_for : ℕ → List HwcLayer → Range → Bool → Budget
unfolding counted_budget
budget_for planes layers r use_cursor_plane =
    let b = counted_budget planes (length layers) use_cursor_plane in
    if not use_cursor_plane
      && ltb 0 b.avail_planes
      && ltb 0 b.layers_size
      && ltb (r.start + r.size) b.layers_size
      && is_top_cursor layers
    then record { avail_planes = b.avail_planes - 1; layers_size = b.layers_size - 1 }
    else b

pub record Search : Type 0 where
  pub from : ℕ
  pub width : ℕ
  pub steps : ℕ

unfoldable pub extra_client : Budget → Range → ℕ → ℕ
extra_client b r forced =
    let rest = b.layers_size - r.size in
    min ((if ltb b.avail_planes rest then rest - b.avail_planes else 0) + forced) rest

unfoldable pub search_for : Budget → Range → ℕ → Search
search_for b r extra =
    let prepend = min r.start extra in
    let append = min (b.layers_size - (r.start + r.size)) extra in
    let from = r.start - prepend in
    let width = r.size + extra in
    if r.size == 0
    then record { from = 0; width = extra; steps = 1 + b.layers_size - extra }
    else record {
      from = from;
      width = width;
      steps = 1 + min (min append prepend) (b.layers_size - (from + width));
    }

-- The sliding window: the fewest pixels so far, and where they start.
unfoldable pub slide : List HwcLayer → ℕ → ℕ → ℕ → ℕ × ℕ → ℕ × ℕ
slide layers width from zero best = best
slide layers width from (suc steps) best =
    let po = calc_pix_ops layers from width in
    slide layers width (suc from) steps (if ltb po best.0 then (po, from) else best)

unfoldable pub needs_extra : Budget → Range → ℕ → Bool
needs_extra b r forced =
    (ltb b.avail_planes (b.layers_size - r.size) || ltb 0 forced) && ltb r.size b.layers_size

unfoldable pub cheapest_range : List HwcLayer → Search → Range → Range
unfolding slide
cheapest_range layers s r = record {
  start = (slide layers s.width s.from s.steps (2 ^ 32 - 1, r.start)).1;
  size = s.width;
}

unfoldable pub get_extra_client_range : ℕ → List HwcLayer → Range → Bool → ℕ → Range
unfolding budget_for needs_extra search_for cheapest_range extra_client
get_extra_client_range planes layers r use_cursor_plane forced =
    let b = budget_for planes layers r use_cursor_plane in
    if needs_extra b r forced
    then cheapest_range layers (search_for b r (extra_client b r forced)) r
    else r

unfoldable pub get_client_layers : {JoiningPlan : Type 0} → Display JoiningPlan → Bool → ℕ → Range
unfolding get_extra_client_range client_range
get_client_layers d use_cursor_plane forced =
    get_extra_client_range d.num_available_planes d.layers
      (client_range (is_client_layer d) 0 (record { start = 0; size = 0 }) d.layers)
      use_cursor_plane forced
