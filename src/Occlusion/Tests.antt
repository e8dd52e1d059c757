-- ===== src/Occlusion/Tests.antt =====
-- Stacks of layers through compositor/Occlusion.cpp, and the theorems about it at them.
use android_hardware_nvidia.Occlusion.Corners.{clear_of, opaque_parts_spare_corners}
use android_hardware_nvidia.Rect.{IRect, covered, covers, is_empty}
use android_hardware_nvidia.Prelude.{
  Bool, [], arith, false, max_ℤ, min_ℤ, pos, refl, true, ℕ, ◌&&◌, ◌||◌, ◌∷◌, ◌≡◌,
}
use android_hardware_nvidia.Occlusion.{
  Layer, Radius, Shown, intersect, opaque_parts, resolve, subtract, subtract_all,
}
use android_hardware_nvidia.Occlusion.Exact.{SaysExactly, is_seen, resolve_exact}

abbrev rect : ℕ → ℕ → ℕ → ℕ → IRect
rect l t r b = record { left = pos l; top = pos t; right = pos r; bottom = pos b }

abbrev square : Radius
square = record { is_above_nought = false; ceiling = pos 0 }

abbrev plain : IRect → Bool → Layer
plain frame is_opaque = record {
  frame = frame;
  visible = [];
  is_opaque = is_opaque;
  corner_crop = frame;
  radius = square;
  keep = false;
}

abbrev wallpaper : Layer
wallpaper = plain (rect 0 0 100 60) true

abbrev app : Layer
app = plain (rect 0 10 100 60) true

abbrev bar : Layer
bar = plain (rect 0 0 100 4) true

abbrev dialog : Layer
dialog = record (plain (rect 20 20 60 40) true) {
  radius = record { is_above_nought = true; ceiling = pos 5 };
}

-- Under the app and the bar only a strip of the wallpaper is seen.
abbrev strip : Shown
strip = record { hidden = false; bounds = rect 0 4 100 10 }

strip_runs :
    resolve (wallpaper ∷ app ∷ bar ∷ [])
    ≡ strip
      ∷ record { hidden = false; bounds = app.frame }
      ∷ record { hidden = false; bounds = bar.frame }
      ∷ []
unfolding resolve is_empty subtract_all subtract min_ℤ max_ℤ
strip_runs = refl

resolve_exact_example : SaysExactly strip (is_seen wallpaper (app ∷ bar ∷ []))
unfolding resolve is_empty subtract_all subtract min_ℤ max_ℤ
resolve_exact_example = resolve_exact [] (app ∷ bar ∷ []) wallpaper strip refl refl refl

opaque_parts_spare_corners_example :
    let crop = intersect dialog.frame dialog.corner_crop in
    covered (opaque_parts dialog) (pos 21) (pos 30) ≡ (
      (covers dialog.frame (pos 21) (pos 30) && covers dialog.corner_crop (pos 21) (pos 30))
      && (clear_of crop.left crop.right (pos 5) (pos 21)
          || clear_of crop.top crop.bottom (pos 5) (pos 30)))
opaque_parts_spare_corners_example =
    opaque_parts_spare_corners dialog (pos 21) (pos 30) refl refl (omega arith)
