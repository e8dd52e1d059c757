-- ===== src/PictureMemory/Tests.antt =====
-- Runs of compositor/PictureMemory.cpp, and the theorems about it at a concrete picture.
use android_hardware_nvidia.PictureMemory.Recognised.{
  AllAlike, recognised_is_the_same, remembered_is_recognised,
}
use android_hardware_nvidia.Prelude.{
  List, [], arith, false, inr, pos, refl, true, ℕ, ◌==◌, ◌∷◌, ◌≡◌,
}
use android_hardware_nvidia.PictureMemory.{
  Floats, Member, PictureMemory, compare_look, compare_member, compare_members, compare_picture,
  first_sight, forget, judge, remember, same,
}

abbrev whole : Floats
whole = record { Group = ℕ; is_same = λ a b. a == b }

abbrev wallpaper : Member ℕ
wallpaper = record {
  source = 11;
  generation = 3;
  serial = 1;
  solid = false;
  color = 0;
  src = 1;
  dst = record { left = pos 0; top = pos 0; right = pos 1536; bottom = pos 2048 };
  alpha = 1;
  premultiplied = true;
  opaque = true;
  transform = 0;
  corners = 0;
  turned = 0;
}

abbrev shown : PictureMemory ℕ
shown = record { remembered = true; width = 1536; height = 2048; members = wallpaper ∷ [] }

remembered_is_recognised_example :
    (judge whole (remember whole shown 1536 2048 (wallpaper ∷ [])) 1536 2048 (wallpaper ∷ [])
      ≡ same)
    × ((other : List (Member ℕ)) (w h : ℕ)
        → judge whole (forget whole (remember whole shown 1536 2048 (wallpaper ∷ []))) w h other
          ≡ first_sight)
remembered_is_recognised_example =
    remembered_is_recognised whole shown 1536 2048 (wallpaper ∷ [])
      ((inr (omega arith), refl, refl, refl, refl, refl), tt)

shown_again : judge whole shown 1536 2048 (wallpaper ∷ []) ≡ same
unfolding judge compare_picture compare_members compare_member compare_look
shown_again = refl

recognised_is_the_same_example :
    (shown.remembered ≡ true)
    × (1536 ≡ shown.width)
    × (2048 ≡ shown.height)
    × AllAlike whole (wallpaper ∷ []) (wallpaper ∷ [])
recognised_is_the_same_example =
    recognised_is_the_same whole shown 1536 2048 (wallpaper ∷ []) shown_again
