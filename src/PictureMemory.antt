-- ===== src/PictureMemory.antt =====
-- compositor/PictureMemory.cpp: whether a picture is the one that an engine drew last. The floats of a
-- member come in groups; each group is of a type of its own with the test `!=` of the source.
pub mod Recognised
mod Tests
use android_hardware_nvidia.Prelude.{
  Bool, List, [], false, if◌then◌else◌, length, neg_part, not, pos_part, true, ℕ, ◌&&◌, ◌+◌, ◌==◌,
  ◌||◌, ◌∷◌,
}
use android_hardware_nvidia.Rect.{IRect}

-- Arrays and rectangles of floats: the type and its equality test, which NaN fails against itself.
pub record Floats : Type 1 where
  pub Group : Type 0
  pub is_same : Group → Group → Bool

abbrev pub same_bool : Bool → Bool → Bool
same_bool a b = if a then b else not b

abbrev pub same_rect : IRect → IRect → Bool
same_rect a b =
    (pos_part a.left + neg_part b.left == pos_part b.left + neg_part a.left)
    && (pos_part a.top + neg_part b.top == pos_part b.top + neg_part a.top)
    && (pos_part a.right + neg_part b.right == pos_part b.right + neg_part a.right)
    && (pos_part a.bottom + neg_part b.bottom == pos_part b.bottom + neg_part a.bottom)

pub record Member (Group : Type 0) : Type 0 where
  pub source : ℕ
  pub generation : ℕ
  pub serial : ℕ
  pub solid : Bool
  pub color : Group
  pub src : Group
  pub dst : IRect
  pub alpha : Group
  pub premultiplied : Bool
  pub opaque : Bool
  pub transform : ℕ
  pub corners : Group
  pub turned : Group

pub data Verdict : Type 0 where
  same : Verdict
  first_sight : Verdict
  changed_shape : Verdict
  changed_size : Verdict
  nameless : Verdict
  changed_identity : Verdict
  changed_frame : Verdict
  changed_geometry : Verdict
  changed_blend : Verdict
  changed_transform : Verdict
  changed_effects : Verdict

abbrev pub is_same_verdict : Verdict → Bool
is_same_verdict same = true
is_same_verdict _ = false

pub record PictureMemory (Group : Type 0) : Type 0 where
  pub remembered : Bool
  pub width : ℕ
  pub height : ℕ
  pub members : List (Member Group)

module _ (floats : Floats) where
  open floats use {Group, is_same}

  -- What is compared of a member whether or not newer frames are set aside.
  unfoldable pub compare_look : Member Group → Member Group → Verdict
  compare_look m r =
      if not (is_same m.src r.src) || not (same_rect m.dst r.dst)
      then changed_geometry
      else if not (is_same m.alpha r.alpha)
          || not (same_bool m.premultiplied r.premultiplied)
          || not (same_bool m.opaque r.opaque)
      then changed_blend
      else if not (m.transform == r.transform)
      then changed_transform
      else if not (is_same m.corners r.corners) || not (is_same m.turned r.turned)
      then changed_effects
      else same

  unfoldable pub compare_member : Bool → Member Group → Member Group → Verdict
  unfolding compare_look
  compare_member frames_aside m r =
      if frames_aside
      then if m.serial == 0
        then nameless
        else if not (same_bool m.solid r.solid)
            || not (m.serial == r.serial)
            || not (is_same m.color r.color)
        then changed_identity
        else compare_look m r
      else if not m.solid && m.source == 0
      then nameless
      else if not (same_bool m.solid r.solid)
          || not (m.source == r.source)
          || not (is_same m.color r.color)
      then changed_identity
      else if not (m.generation == r.generation)
      then changed_frame
      else compare_look m r

  -- The loop of `Compare`, which ends at the first member that differs.
  unfoldable pub compare_members : Bool → List (Member Group) → List (Member Group) → Verdict
  compare_members frames_aside (m ∷ ms) (r ∷ rs) =
      let rest = compare_members frames_aside ms rs in
      let here = compare_member frames_aside m r in if is_same_verdict here then rest else here
  compare_members frames_aside [] _ = same
  compare_members frames_aside (_ ∷ _) [] = same

  unfoldable pub compare_picture :
      PictureMemory Group → ℕ → ℕ → List (Member Group) → Bool → Verdict
  compare_picture p width height members frames_aside =
      if not p.remembered
      then first_sight
      else if not (length members == length p.members)
      then changed_shape
      else if not (width == p.width) || not (height == p.height)
      then changed_size
      else compare_members frames_aside members p.members

  unfoldable pub judge : PictureMemory Group → ℕ → ℕ → List (Member Group) → Verdict
  judge p width height members = compare_picture p width height members false

  unfoldable pub same_but_frames : PictureMemory Group → ℕ → ℕ → List (Member Group) → Bool
  same_but_frames p width height members =
      is_same_verdict (compare_picture p width height members true)

  unfoldable pub remember : PictureMemory Group → ℕ → ℕ → List (Member Group) → PictureMemory Group
  remember p width height members = record {
    remembered = true;
    width = width;
    height = height;
    members = members;
  }

  unfoldable pub forget : PictureMemory Group → PictureMemory Group
  forget p = record p { remembered = false }
