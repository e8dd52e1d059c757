-- ===== src/PartialRedraw/Plans.antt =====
-- compositor/PartialRedraw.cpp: what to draw into a buffer, from what it holds and what is known of the
-- damage since.
use android_hardware_nvidia.PartialRedraw.Gather.{Engine, area, gather}
use android_hardware_nvidia.PartialRedraw.History.{DamageHistory, between}
use android_hardware_nvidia.Rect.{IRect}
use android_hardware_nvidia.Prelude.{
  Bool, List, Option, [], false, if◌then◌else◌, is_nil, leb, length, ltb, none, not, pos, some, ℕ,
  ◌&&◌, ◌++◌, ◌==◌, ◌||◌, ◌∷◌,
}
use android_hardware_nvidia.PictureMemory.{Floats, Member, same_bool, same_rect}

-- What the code computes of a member in floats: `Scaled`, whether its part of the buffer has an extent,
-- and `Onto`.
pub record FloatMath : Type 1 where
  pub floats : Floats
  pub is_scaled : Member floats.Group → Bool
  pub has_extent : Member floats.Group → Bool
  pub onto : IRect → Member floats.Group → Bool → IRect

pub record Snapshot (Group : Type 0) : Type 0 where
  pub valid : Bool
  pub width : ℕ
  pub height : ℕ
  pub members : List (Member Group)
  pub partial_run : ℕ

pub data Kind : Type 0 where
  full : Kind
  partly : Kind
  unchanged : Kind

-- `why` with a word for each letter: n, h, s, c, r, i, g, t, d and a.
pub data Why : Type 0 where
  no_reason : Why
  buffer_unknown : Why
  scaled_member : Why
  member_count : Why
  too_many_in_a_row : Why
  not_the_same_layer : Why
  frame_went_back : Why
  turned_or_empty : Why
  damage_unknown : Why
  not_smaller : Why

pub record Plan : Type 0 where
  pub kind : Kind
  pub why : Why
  pub parts : List IRect

abbrev pub most_partial_in_a_row : ℕ
most_partial_in_a_row = 30

-- What the members come to: the places to draw again, or why all is drawn.
pub data Found : Type 0 where
  refused : Why → Found
  to_draw : List IRect → Found

abbrev pub add_places : List IRect → Found → Found
add_places rs (refused w) = refused w
add_places rs (to_draw ss) = to_draw (rs ++ ss)

unfoldable pub found_and : Found → Found → Found
found_and (refused w) rest = refused w
found_and (to_draw rs) rest = add_places rs rest

-- The end of `Decide`: drawing in part is drawing less.
unfoldable pub plan_parts : List IRect → List IRect → Plan
plan_parts parts full_parts =
    if is_nil parts
    then record { kind = unchanged; why = no_reason; parts = [] }
    else if leb (area full_parts) (area parts)
    then record { kind = full; why = not_smaller; parts = full_parts }
    else record { kind = partly; why = no_reason; parts = parts }

abbrev pub buffer_bounds : ℕ → ℕ → IRect
buffer_bounds width height = record {
  left = pos 0;
  top = pos 0;
  right = pos width;
  bottom = pos height;
}

unfoldable pub plan_found : Found → IRect → List IRect → Engine → List IRect → Plan
unfolding plan_parts
plan_found (refused w) bounds members engine full_parts = record {
  kind = full;
  why = w;
  parts = full_parts;
}
plan_found (to_draw rs) bounds members engine full_parts =
    plan_parts (gather rs bounds members engine) full_parts

module _ (m : FloatMath) where
  open m use {floats, is_scaled, has_extent, onto}
  open floats use {Group, is_same}

  unfoldable pub same_but_frame : Member Group → Member Group → Bool
  same_but_frame a b =
      a.serial == b.serial
      && same_bool a.solid b.solid
      && is_same a.color b.color
      && is_same a.src b.src
      && same_rect a.dst b.dst
      && is_same a.alpha b.alpha
      && same_bool a.premultiplied b.premultiplied
      && same_bool a.opaque b.opaque
      && a.transform == b.transform
      && is_same a.corners b.corners

  abbrev pub dst_places : List (Member Group) → List IRect
  dst_places [] = []
  dst_places (n ∷ ns) = n.dst ∷ dst_places ns

  abbrev pub any_scaled : List (Member Group) → Bool
  any_scaled [] = false
  any_scaled (n ∷ ns) = is_scaled n || any_scaled ns

  abbrev pub onto_all : Member Group → List IRect → List IRect
  onto_all now [] = []
  onto_all now (r ∷ rs) = onto r now (is_scaled now) ∷ onto_all now rs

  unfoldable pub known_places : Member Group → Option (List IRect × Bool) → Found
  known_places now none = refused damage_unknown
  known_places now (some (rects, whole)) =
      to_draw ((if whole then now.dst ∷ [] else []) ++ onto_all now rects)

  -- The body of the loop of `Decide`, for a member and the one that stood in its place.
  unfoldable pub member_places : DamageHistory → Member Group → Member Group → Found
  unfolding known_places
  member_places history now then' =
      if now.serial == 0 || not (same_but_frame now then')
      then refused not_the_same_layer
      else if ltb now.generation then'.generation
      then refused frame_went_back
      else if now.generation == then'.generation
      then to_draw []
      else if not (now.transform == 0) || not (has_extent now)
      then refused turned_or_empty
      else known_places now (between now.serial then'.generation now.generation history)

  unfoldable pub all_places : DamageHistory → List (Member Group) → List (Member Group) → Found
  unfolding found_and
  all_places history (n ∷ ns) (t ∷ ts) =
      found_and (member_places history n t) (all_places history ns ts)
  all_places history _ _ = to_draw []

  unfoldable pub decide :
      Snapshot Group → ℕ → ℕ → List (Member Group) → DamageHistory → Engine → Plan
  unfolding plan_found
  decide held width height members history engine =
      let bounds = buffer_bounds width height in
      let full_parts =
        gather (dst_places held.members ++ dst_places members) bounds (dst_places members) engine in
      if not held.valid || not (held.width == width) || not (held.height == height)
      then record { kind = full; why = buffer_unknown; parts = [] }
      else if not engine.draws_scaled_in_part && any_scaled members
      then record { kind = full; why = scaled_member; parts = [] }
      else if not (length held.members == length members)
      then record { kind = full; why = member_count; parts = full_parts }
      else if leb most_partial_in_a_row held.partial_run
      then record { kind = full; why = too_many_in_a_row; parts = full_parts }
      else plan_found (all_places history members held.members) bounds (dst_places members) engine
          full_parts
