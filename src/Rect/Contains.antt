-- ===== src/Rect/Contains.antt =====
-- compositor/Rect.h: which rectangles lie in which.
use android_hardware_nvidia.Rect.{IRect, covers, is_empty, within}
use android_hardware_nvidia.Prelude.{
  and_true, arith, false, pos, true, ℤ, ◌-ℤ◌, ◌≡◌, ◌≤ℤ◌, -ℤ_parts,
}

pub record Contains (box r : IRect) : Type 0 where
  pub left_in : box.left ≤ℤ r.left
  pub right_in : r.right ≤ℤ box.right
  pub top_in : box.top ≤ℤ r.top
  pub bottom_in : r.bottom ≤ℤ box.bottom

within_mono : (l l' h h' x : ℤ) → l' ≤ℤ l → h ≤ℤ h' → within l h x ≡ true → within l' h' x ≡ true
within_mono l l' h h' x p q e = ground arith

pub Contains-covers :
    (box r : IRect) (x y : ℤ) → Contains box r → covers r x y ≡ true → covers box x y ≡ true
unfolding covers
Contains-covers box r x y v h =
    let (across, down) = and_true (within r.left r.right x) (within r.top r.bottom y) h in
    rw (within_mono r.left box.left r.right box.right x v.left_in v.right_in across)
      (within_mono r.top box.top r.bottom box.bottom y v.top_in v.bottom_in down)

-- A box that has every pixel of a rectangle that is not empty contains its edges.
pub covers-Contains :
    (box r : IRect)
    → is_empty r ≡ false
    → ((x y : ℤ) → covers r x y ≡ true → covers box x y ≡ true)
    → Contains box r
unfolding covers is_empty
covers-Contains box r h all =
    let low : covers box r.left r.top ≡ true = all r.left r.top (ground arith) in
    let last_x = r.right -ℤ pos 1 in
    let last_y = r.bottom -ℤ pos 1 in
    let px = -ℤ_parts r.right (pos 1) in
    let py = -ℤ_parts r.bottom (pos 1) in
    let high : covers box last_x last_y ≡ true = all last_x last_y (ground arith) in ground arith

pub Contains-trans : (a b c : IRect) → Contains a b → Contains b c → Contains a c
Contains-trans a b c v w = omega arith
