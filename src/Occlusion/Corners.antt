-- ===== src/Occlusion/Corners.antt =====
-- Occlusion.cpp: what of a layer with rounded corners is taken for opaque.
use android_hardware_nvidia.Rect.{IRect, covered, covers, is_empty-covers, within}
use android_hardware_nvidia.Prelude.{
  +ℤ_parts, Bool, List, [], arith, false, leb_ℤ, ltb_ℤ, pos, true, ℤ, ◌&&◌, ◌+ℤ◌, ◌-ℤ◌, ◌||◌, ◌≡◌,
  ◌≤ℤ◌, -ℤ_parts,
}
use android_hardware_nvidia.Occlusion.{
  Layer, intersect, opaque_parts, push_seen, tall_part, wide_part,
}
use android_hardware_nvidia.Occlusion.Subtract.{covers-intersect}

covered-push_seen :
    (p : IRect) (parts : List IRect) (x y : ℤ)
    → covered (push_seen p parts) x y ≡ (covers p x y || covered parts x y)
unfolding push_seen covered
covered-push_seen p parts x y = ground (arith, is_empty-covers p x y)

-- Away from an edge by the radius.
abbrev pub clear_of : ℤ → ℤ → ℤ → ℤ → Bool
clear_of low high r x = leb_ℤ (low +ℤ r) x && ltb_ℤ x (high -ℤ r)

clear_within :
    (low high r x : ℤ) → pos 0 ≤ℤ r → clear_of low high r x ≡ true → within low high x ≡ true
clear_within low high r x n h = ground (arith, +ℤ_parts low r, -ℤ_parts high r)

cross_bool :
    (wx wy cx cy : Bool)
    → (cx ≡ true → wx ≡ true)
    → (cy ≡ true → wy ≡ true)
    → ((cx && wy) || ((wx && cy) || false)) ≡ ((wx && wy) && (cx || cy))
cross_bool wx wy cx cy h k = ground arith

cross :
    (crop : IRect) (r x y : ℤ)
    → pos 0 ≤ℤ r
    → (covers (tall_part crop r) x y || (covers (wide_part crop r) x y || covered [] x y)) ≡ (
        covers crop x y && (clear_of crop.left crop.right r x || clear_of crop.top crop.bottom r y))
unfolding tall_part wide_part covers covered
cross crop r x y n =
    cross_bool (within crop.left crop.right x) (within crop.top crop.bottom y)
      (clear_of crop.left crop.right r x) (clear_of crop.top crop.bottom r y)
      (clear_within crop.left crop.right r x n) (clear_within crop.top crop.bottom r y n)

opaque_parts_round :
    (l : Layer)
    → l.is_opaque ≡ true
    → l.radius.is_above_nought ≡ true
    → let crop = intersect l.frame l.corner_crop in
      opaque_parts l
      ≡ push_seen (tall_part crop l.radius.ceiling) (push_seen (wide_part crop l.radius.ceiling) [])
unfolding opaque_parts
opaque_parts_round l o r = rw (o, r)

-- The opaque parts of an opaque layer with rounded corners: the pixels of its frame and of the crop
-- that the corners round, except those in the square that each corner takes, of as many pixels on a
-- side as the ceiling of the radius.
pub opaque_parts_spare_corners :
    (l : Layer) (x y : ℤ)
    → l.is_opaque ≡ true
    → l.radius.is_above_nought ≡ true
    → pos 0 ≤ℤ l.radius.ceiling
    → let crop = intersect l.frame l.corner_crop in
      covered (opaque_parts l) x y ≡ (
        covers l.frame x y
        && covers l.corner_crop x y
        && (clear_of crop.left crop.right l.radius.ceiling x
            || clear_of crop.top crop.bottom l.radius.ceiling y))
opaque_parts_spare_corners l x y o r n =
    let crop = intersect l.frame l.corner_crop in
    let c = l.radius.ceiling in
    rw (opaque_parts_round l o r) (
      rw (covered-push_seen (tall_part crop c) (push_seen (wide_part crop c) []) x y) (
        rw (covered-push_seen (wide_part crop c) [] x y)
          (rw (← covers-intersect l.frame l.corner_crop x y) (cross crop c x y n))))
