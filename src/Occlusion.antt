-- ===== src/Occlusion.antt =====
-- compositor/Occlusion.cpp: what of each layer can be seen once everything above it is in place.
-- A corner radius is a float in the source; what the code reads of it, whether it is above nought and
-- its ceiling as an int32_t, is a parameter.
pub mod Subtract
pub mod Bounds
pub mod Exact
pub mod Corners
mod Tests
use android_hardware_nvidia.Prelude.{
  Bool, List, [], false, if◌then◌else◌, ltb_ℤ, max_ℤ, min_ℤ, not, true, ℤ, ◌++◌, ◌+ℤ◌, ◌-ℤ◌, ◌||◌,
  ◌∷◌,
}
use android_hardware_nvidia.Rect.{IRect, is_empty}

pub intersect : IRect → IRect → IRect
intersect a b = record {
  left = max_ℤ a.left b.left;
  top = max_ℤ a.top b.top;
  right = min_ℤ a.right b.right;
  bottom = min_ℤ a.bottom b.bottom;
}

-- The four pieces of `r` around `overlap`, of which the source keeps those that are not empty.
piece_above : IRect → IRect → IRect
piece_above r overlap = record r { bottom = overlap.top }

piece_below : IRect → IRect → IRect
piece_below r overlap = record r { top = overlap.bottom }

piece_left : IRect → IRect → IRect
piece_left r overlap = record r { top = overlap.top; right = overlap.left; bottom = overlap.bottom }

piece_right : IRect → IRect → IRect
piece_right r overlap = record r {
  left = overlap.right;
  top = overlap.top;
  bottom = overlap.bottom;
}

abbrev push_if : Bool → IRect → List IRect
push_if b r = if b then r ∷ [] else []

pieces : IRect → IRect → List IRect
unfolding piece_above piece_below piece_left piece_right
pieces r overlap =
    push_if (ltb_ℤ r.top overlap.top) (piece_above r overlap)
    ++ (push_if (ltb_ℤ overlap.bottom r.bottom) (piece_below r overlap)
        ++ (push_if (ltb_ℤ r.left overlap.left) (piece_left r overlap)
            ++ push_if (ltb_ℤ overlap.right r.right) (piece_right r overlap)))

pub subtract : List IRect → IRect → List IRect
unfolding intersect pieces
subtract [] cut = []
subtract (r ∷ rs) cut =
    let overlap = intersect r cut in
    (if is_empty overlap then r ∷ [] else pieces r overlap) ++ subtract rs cut

-- What the code reads of a corner radius.
pub record Radius : Type 0 where
  pub is_above_nought : Bool
  pub ceiling : ℤ

pub record Layer : Type 0 where
  pub frame : IRect
  pub visible : List IRect
  pub is_opaque : Bool
  pub corner_crop : IRect
  pub radius : Radius
  pub keep : Bool

pub record Shown : Type 0 where
  pub hidden : Bool
  pub bounds : IRect

pub push_seen : IRect → List IRect → List IRect
push_seen p parts = if is_empty p then parts else p ∷ parts

pub tall_part : IRect → ℤ → IRect
tall_part crop r = record crop { left = crop.left +ℤ r; right = crop.right -ℤ r }

pub wide_part : IRect → ℤ → IRect
wide_part crop r = record crop { top = crop.top +ℤ r; bottom = crop.bottom -ℤ r }

pub opaque_parts : Layer → List IRect
unfolding push_seen
opaque_parts l =
    if not l.is_opaque
    then []
    else if not l.radius.is_above_nought
    then l.frame ∷ []
    else let crop = intersect l.frame l.corner_crop in
      push_seen (tall_part crop l.radius.ceiling) (push_seen (wide_part crop l.radius.ceiling) [])

-- The loop over SurfaceFlinger's visible region.
pub clip_visible : List IRect → IRect → List IRect
unfolding push_seen
clip_visible [] frame = []
clip_visible (v ∷ vs) frame = push_seen (intersect v frame) (clip_visible vs frame)

pub region_of : Layer → List IRect
unfolding clip_visible
region_of l = elim l.visible [ [] ↦ l.frame ∷ [] | v ∷ vs ↦ clip_visible (v ∷ vs) l.frame ]

-- The loop over what hides, which ends early when nothing of the region is left.
pub subtract_all : List IRect → List IRect → List IRect
subtract_all [] hiding = []
subtract_all (r ∷ rs) [] = r ∷ rs
subtract_all (r ∷ rs) (h ∷ hs) = subtract_all (subtract (r ∷ rs) h) hs

pub join : IRect → IRect → IRect
join b r = record {
  left = min_ℤ b.left r.left;
  top = min_ℤ b.top r.top;
  right = max_ℤ b.right r.right;
  bottom = max_ℤ b.bottom r.bottom;
}

pub join_all : IRect → List IRect → IRect
unfolding join
join_all b [] = b
join_all b (r ∷ rs) = join_all (join b r) rs

-- What of a layer is seen under what hides.
pub show : Layer → List IRect → Shown
unfolding region_of join_all
show l hiding =
    if l.keep || is_empty l.frame
    then record { hidden = false; bounds = l.frame }
    else elim (subtract_all (region_of l) hiding) [
      | [] ↦ record { hidden = true; bounds = l.frame }
      | r ∷ rs ↦ record { hidden = false; bounds = join_all r (r ∷ rs) }
    ]

-- The walk down from the top: the layers above come first, and leave what they hide.
pub resolve_layers : List Layer → List Shown × List IRect
unfolding show opaque_parts
resolve_layers [] = ([], [])
resolve_layers (l ∷ above) =
    let (shown, hiding) = resolve_layers above in (show l hiding ∷ shown, hiding ++ opaque_parts l)

pub resolve : List Layer → List Shown
unfolding resolve_layers
resolve bottom_first = (resolve_layers bottom_first).0
