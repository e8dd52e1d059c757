-- ===== src/PartialRedraw/Tests.antt =====
-- Runs of compositor/PartialRedraw.cpp, and the theorems about it at concrete pictures.
use android_hardware_nvidia.PartialRedraw.Near.{AreFar, join_near_settles}
use android_hardware_nvidia.PartialRedraw.Painter.{
  IsAlike, IsHonest, KeepTurns, LayersHonest, Painter,
}
use mathlib.Core.Option.{some-injective}
use android_hardware_nvidia.PartialRedraw.Slots.{drawn_slot, record_member}
use mathlib.Core.Path.{subst}
use android_hardware_nvidia.PartialRedraw.Refines.{Redraws, decide-Redraws}
use android_hardware_nvidia.PartialRedraw.Turns.{turn_is_missed, turned_as}
use android_hardware_nvidia.PartialRedraw.Parts.{gather_parts}
use android_hardware_nvidia.PartialRedraw.Recorded.{record_damage-LayersHonest}
use android_hardware_nvidia.PartialRedraw.Covers.{AllInside}
use android_hardware_nvidia.PartialRedraw.Shown.{
  AllShow, World, done, drawn_world, drew, heard_world, known_slots_show, recorded, start,
  then_step, Steps,
}
use android_hardware_nvidia.PartialRedraw.Redraws.{same_rect-covers}
use android_hardware_nvidia.Rect.{IRect, covered, covers, height, is_empty, width}
use android_hardware_nvidia.PartialRedraw.Gather.{
  Engine, area, area_of, best_partner, bounds_from, bounds_of, down, draws_something, first_idle,
  first_near, fit, fit_all, gather, growth, is_near, join, join_at, join_idle, join_idle_if,
  join_least, join_near, join_with, least, meet, most_parts, near_pair, pairs_from, pairs_with,
  partner_of, up,
}
use android_hardware_nvidia.PartialRedraw.Plans.{
  FloatMath, Snapshot, all_places, buffer_bounds, decide, found_and, known_places, member_places,
  no_reason, partly, plan_found, plan_parts, same_but_frame, unchanged,
}
use android_hardware_nvidia.PartialRedraw.History.{
  DamageHistory, add_frame, between, between_from, drop_oldest, erase_layer, find_frame, find_layer,
  frames_of, is_old, keep_last, last_generation, no_history, oldest_from, put_layer, record_damage,
  seen_rects,
}
use android_hardware_nvidia.Rect.{IRect, covered, covers, height, width}
use android_hardware_nvidia.Prelude.{
  All, List, [], arith, false, if◌then◌else◌, length, max_ℤ, min_ℤ, not, pos, refl, some, sym, true,
  ℕ, ℤ, ◌+ℤ◌, ◌+◌, ◌-ℤ◌, ◌==◌, ◌||◌, ◌∙◌, ◌∷◌, ◌≡◌, ◌≤◌,
}
use android_hardware_nvidia.PictureMemory.{Member}

-- Members are as large as their places, and damage is in the picture's own axes.
abbrev unscaled : FloatMath
unscaled = record {
  floats = record { Group = ℕ; is_same = λ a b. a == b };
  is_scaled = λ n. false;
  has_extent = λ n. true;
  onto = λ r n s. r;
}

abbrev clock_place : IRect
clock_place = record { left = pos 64; top = pos 32; right = pos 128; bottom = pos 64 }

-- What a member gives: its frame in the place of the clock, elsewhere the layer's own colour.
abbrev shade_clock : Member ℕ → ℤ → ℤ → ℕ
shade_clock n x y =
    if covers n.dst x y then if covers clock_place x y then n.generation else n.serial else 0

abbrev sum : List ℕ → ℕ
sum [] = 0
sum (s ∷ ss) = s + sum ss

sum-nothing : (ss : List ℕ) → All (λ s. s ≡ 0) ss → sum ss ≡ 0
sum-nothing [] h = refl
sum-nothing (s ∷ ss) (h, hs) = rw (h, sum-nothing ss hs) refl

shade_clock-same :
    (a b : Member ℕ) (x y : ℤ)
    → IsAlike unscaled a b
    → a.generation ≡ b.generation
    → a.turned ≡ b.turned
    → shade_clock a x y ≡ shade_clock b x y
shade_clock-same a b x y same g t =
    let places = same_rect-covers a.dst b.dst x y (ground arith) in rw (places, same.0, g) refl

abbrev clock_painter : Painter unscaled
clock_painter = record {
  Sample = ℕ;
  Pixel = ℕ;
  nothing = 0;
  shade = shade_clock;
  blend = sum;
  shade_outside = λ n x y h. rw h refl;
  blend-nothing = λ ss ts h k. sum-nothing ss h ∙ sym (sum-nothing ts k);
  shade_same = shade_clock-same;
}

clock_damage-IsHonest :
    (serial generation : ℕ) → IsHonest clock_painter serial generation (clock_place ∷ [])
unfolding seen_rects is_empty covered
clock_damage-IsHonest serial generation n k x y s t e g d c =
    let out : covers clock_place x y ≡ false = ground arith in rw out refl

abbrev wallpaper : ℕ → Member ℕ
wallpaper g = record {
  source = 11;
  generation = g;
  serial = 1;
  solid = false;
  color = 0;
  src = 1;
  dst = record { left = pos 0; top = pos 0; right = pos 1536; bottom = pos 2048 };
  alpha = 1;
  premultiplied = true;
  opaque = true;
  transform = 0;
  corners = 0;
  turned = 0;
}

abbrev gpu_engine : Engine
gpu_engine = record {
  draws_scaled_in_part = true;
  draws_many_parts = true;
  draws_empty_part = true;
}

abbrev held : Snapshot ℕ
held = record {
  valid = true;
  width = 1536;
  height = 2048;
  members = wallpaper 3 ∷ [];
  partial_run = 0;
}

abbrev heard : DamageHistory
heard = record_damage 1 4 (clock_place ∷ []) no_history

heard_LayersHonest : LayersHonest clock_painter heard.layers
heard_LayersHonest =
    record_damage-LayersHonest clock_painter 1 4 (clock_place ∷ []) no_history
      (clock_damage-IsHonest 1 4) tt

-- A frame whose damage is the clock is drawn in the place of the clock alone.
clock_is_drawn :
    decide unscaled held 1536 2048 (wallpaper 4 ∷ []) heard gpu_engine
    ≡ record { kind = partly; why = no_reason; parts = clock_place ∷ [] }
unfolding down up join area_of meet growth bounds_from bounds_of area fit fit_all join_with join_at
    is_near first_near near_pair join_near draws_something first_idle best_partner partner_of
    join_idle pairs_with pairs_from least join_least join_idle_if gather find_layer put_layer
    last_generation keep_last oldest_from erase_layer drop_oldest is_old frames_of record_damage
    find_frame seen_rects add_frame between_from between found_and plan_parts plan_found
    same_but_frame known_places member_places all_places decide is_empty width height covered min_ℤ
    max_ℤ ◌+ℤ◌ ◌-ℤ◌
clock_is_drawn = refl

unchanged_is_left :
    decide unscaled held 1536 2048 (wallpaper 3 ∷ []) heard gpu_engine
    ≡ record { kind = unchanged; why = no_reason; parts = [] }
unfolding down up join area_of meet growth bounds_from bounds_of area fit fit_all join_with join_at
    is_near first_near near_pair join_near draws_something first_idle best_partner partner_of
    join_idle pairs_with pairs_from least join_least join_idle_if gather find_layer put_layer
    last_generation keep_last oldest_from erase_layer drop_oldest is_old frames_of record_damage
    find_frame seen_rects add_frame between_from between found_and plan_parts plan_found
    same_but_frame known_places member_places all_places decide is_empty width height covered min_ℤ
    max_ℤ ◌+ℤ◌ ◌-ℤ◌
unchanged_is_left = refl

decide-Redraws_example :
    Redraws clock_painter
      (decide unscaled held 1536 2048 (wallpaper 4 ∷ []) heard gpu_engine)
      (wallpaper 3 ∷ [])
      (wallpaper 4 ∷ [])
      1536
      2048
decide-Redraws_example =
    decide-Redraws clock_painter held 1536 2048 (wallpaper 4 ∷ []) heard gpu_engine
      heard_LayersHonest (refl, tt)

turn_is_missed_example :
    decide unscaled held 1536 2048 (turned_as unscaled (7 ∷ []) (wallpaper 3 ∷ [])) heard gpu_engine
    ≡ record { kind = unchanged; why = no_reason; parts = [] }
turn_is_missed_example =
    turn_is_missed unscaled held (7 ∷ []) heard gpu_engine (λ g. ground arith) refl (omega arith)
      (omega arith, tt) refl

abbrev two_places : List IRect
two_places =
    record { left = pos 3; top = pos 5; right = pos 40; bottom = pos 20 }
    ∷ record { left = pos 1000; top = pos 1500; right = pos 1100; bottom = pos 1600 }
    ∷ []

gather_parts_example :
    let parts = gather two_places (buffer_bounds 1536 2048) [] gpu_engine in
    ((x y : ℤ)
      → covers (buffer_bounds 1536 2048) x y ≡ true
      → covered two_places x y ≡ true
      → covered parts x y ≡ true)
    × AllInside (buffer_bounds 1536 2048) parts
    × (length parts ≤ most_parts)
    × (gpu_engine.draws_many_parts ≡ false → length parts ≤ 1)
gather_parts_example = gather_parts two_places (buffer_bounds 1536 2048) [] gpu_engine (refl, refl)

join_near_settles_example :
    AreFar (join_near 2 two_places)
    × ((not (covered two_places (pos 5) (pos 5))
          || covered (join_near 2 two_places) (pos 5) (pos 5))
        ≡ true)
join_near_settles_example = join_near_settles 2 two_places (pos 5) (pos 5) (omega arith)

abbrev fresh : World clock_painter ℕ
fresh = start clock_painter ℕ gpu_engine (λ slot x y. 0)

abbrev first_drawn : World clock_painter ℕ
first_drawn = drawn_world clock_painter ℕ fresh 5 1536 2048 (wallpaper 3 ∷ []) (some 9)

abbrev second_heard : World clock_painter ℕ
second_heard = heard_world clock_painter ℕ first_drawn (wallpaper 4) (clock_place ∷ [])

abbrev second_drawn : World clock_painter ℕ
second_drawn = drawn_world clock_painter ℕ second_heard 5 1536 2048 (wallpaper 4 ∷ []) (some 10)

two_drawings : Steps clock_painter ℕ fresh second_drawn
unfolding drawn_slot record_member
two_drawings =
    then_step
      (then_step
        (then_step (done fresh) (drew fresh 5 1536 2048 (wallpaper 3 ∷ []) (some 9) (λ h e. cc)))
        (recorded first_drawn (wallpaper 4) (clock_place ∷ []) (clock_damage-IsHonest 1 4)))
      (drew second_heard 5 1536 2048 (wallpaper 4 ∷ []) (some 10) (λ h e.
        subst (λ k. KeepTurns clock_painter (wallpaper 4 ∷ []) k.snapshot.members)
          (some-injective _ _ e) (refl, tt)))

known_slots_show_example : AllShow clock_painter ℕ second_drawn
known_slots_show_example =
    known_slots_show clock_painter ℕ gpu_engine (λ slot x y. 0) second_drawn two_drawings
