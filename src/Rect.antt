-- ===== src/Rect.antt =====
-- compositor/Rect.h: rectangles of int32_t edges, right and bottom exclusive. Coordinates are integers:
-- what is done with them here does not leave the range of int32_t on a display's coordinates.
pub mod Contains
use android_hardware_nvidia.Prelude.{
  Bool, List, [], arith, false, leb_ℤ, ltb_ℤ, refl, true, ℤ, ◌&&◌, ◌++◌, ◌-ℤ◌, ◌||◌, ◌∷◌, ◌≡◌,
}

pub record IRect : Type 0 where
  pub left : ℤ
  pub top : ℤ
  pub right : ℤ
  pub bottom : ℤ

unfoldable pub width : IRect → ℤ
width r = r.right -ℤ r.left

unfoldable pub height : IRect → ℤ
height r = r.bottom -ℤ r.top

-- `x` lies between two edges.
abbrev pub within : ℤ → ℤ → ℤ → Bool
within low high x = leb_ℤ low x && ltb_ℤ x high

-- The pixel at `x`, `y` lies in the rectangle.
unfoldable pub covers : IRect → ℤ → ℤ → Bool
covers r x y = within r.left r.right x && within r.top r.bottom y

-- The pixel lies in one of the rectangles.
unfoldable pub covered : List IRect → ℤ → ℤ → Bool
covered [] x y = false
covered (r ∷ rs) x y = covers r x y || covered rs x y

pub covered-append :
    (rs ss : List IRect) (x y : ℤ) → covered (rs ++ ss) x y ≡ (covered rs x y || covered ss x y)
unfolding covered
covered-append [] ss x y = refl
covered-append (r ∷ rs) ss x y = ground (arith, covered-append rs ss x y)

-- No pixel lies in it.
unfoldable pub is_empty : IRect → Bool
is_empty r = leb_ℤ r.right r.left || leb_ℤ r.bottom r.top

-- An empty rectangle covers no pixel, and any other one its top left pixel.
pub is_empty-covers : (r : IRect) (x y : ℤ) → is_empty r ≡ true → covers r x y ≡ false
unfolding is_empty covers
is_empty-covers r x y h = ground arith

pub covers_corner : (r : IRect) → is_empty r ≡ false → covers r r.left r.top ≡ true
unfolding is_empty covers
covers_corner r h = ground arith
