-- ===== src/PartialRedraw/Turns.antt =====
-- PartialRedraw.cpp: members that are turned otherwise than the ones in their places were.
use android_hardware_nvidia.PartialRedraw.Gather.{Engine, fit_all, gather}
use android_hardware_nvidia.PartialRedraw.Plans.{
  FloatMath, Snapshot, all_places, decide, found_and, member_places, most_partial_in_a_row,
  no_reason, plan_found, plan_parts, same_but_frame, to_draw, unchanged,
}
use android_hardware_nvidia.PartialRedraw.History.{DamageHistory}
use android_hardware_nvidia.Rect.{IRect}
use android_hardware_nvidia.Prelude.{
  All, Bool, List, [], arith, false, length, refl, true, ◌<◌, ◌∷◌, ◌≡◌, ◌≢◌,
}
use android_hardware_nvidia.PictureMemory.{Member, same_rect, same_bool}

same_bool_self : (b : Bool) → same_bool b b ≡ true
same_bool_self true = refl
same_bool_self false = refl

same_rect_self : (r : IRect) → same_rect r r ≡ true
same_rect_self r = ground arith

module _ (m : FloatMath) where
  open m use {floats}
  open floats use {Group, is_same}

  abbrev pub turned_as : List Group → List (Member Group) → List (Member Group)
  turned_as ts [] = []
  turned_as [] (n ∷ ns) = n ∷ turned_as [] ns
  turned_as (t ∷ ts) (n ∷ ns) = record n { turned = t } ∷ turned_as ts ns

  abbrev pub HaveSerials : List (Member Group) → Type 0
  HaveSerials = All (λ n. n.serial ≢ 0)

  same_but_frame-turned :
      (n : Member Group) (t : Group)
      → ((g : Group) → is_same g g ≡ true)
      → same_but_frame m (record n { turned = t }) n ≡ true
  unfolding same_but_frame
  same_but_frame-turned n t same = grind arith

  member_places-turned :
      (history : DamageHistory) (n : Member Group) (t : Group)
      → ((g : Group) → is_same g g ≡ true)
      → n.serial ≢ 0
      → member_places m history (record n { turned = t }) n ≡ to_draw []
  unfolding member_places
  member_places-turned history n t same s = ground (arith, same_but_frame-turned n t same)

  all_places-turned :
      (history : DamageHistory) (ns : List (Member Group)) (ts : List Group)
      → ((g : Group) → is_same g g ≡ true)
      → HaveSerials ns
      → all_places m history (turned_as ts ns) ns ≡ to_draw []
  unfolding all_places found_and
  all_places-turned history [] ts same s = refl
  all_places-turned history (n ∷ ns) [] same (s, ss) =
      rw (member_places-turned history n n.turned same s, all_places-turned history ns [] same ss)
        refl
  all_places-turned history (n ∷ ns) (t ∷ ts) same (s, ss) =
      rw (member_places-turned history n t same s, all_places-turned history ns ts same ss) refl

  length-turned_as :
      (ts : List Group) (ns : List (Member Group)) → length (turned_as ts ns) ≡ length ns
  length-turned_as ts [] = refl
  length-turned_as [] (n ∷ ns) = rw (length-turned_as [] ns) refl
  length-turned_as (t ∷ ts) (n ∷ ns) = rw (length-turned_as ts ns) refl

  -- The buffer is known, of the size wanted, and was not drawn in part too many times in a row, its
  -- members have serials, and the engine draws scaled members in part, as the one of the GPU does. Then
  -- for the same frames of the same members there is nothing to draw, whatever way they are now turned.
  pub turn_is_missed :
      (held : Snapshot Group) (turns : List Group) (history : DamageHistory) (engine : Engine)
      → ((g : Group) → is_same g g ≡ true)
      → held.valid ≡ true
      → held.partial_run < most_partial_in_a_row
      → HaveSerials held.members
      → engine.draws_scaled_in_part ≡ true
      → decide m held held.width held.height (turned_as turns held.members) history engine
        ≡ record { kind = unchanged; why = no_reason; parts = [] }
  unfolding decide plan_found plan_parts gather fit_all
  turn_is_missed held turns history engine same valid run s scaled =
      let unmoved = all_places-turned history held.members turns same s in
      let as_many = length-turned_as turns held.members in
      rw (unmoved, plan_found) ground (arith, as_many)
