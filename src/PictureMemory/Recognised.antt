-- ===== src/PictureMemory/Recognised.antt =====
-- PictureMemory.cpp: which pictures are recognised.
use android_hardware_nvidia.Rect.{height, width}
use android_hardware_nvidia.Prelude.{
  All, List, [], arith, false, length, refl, true, ℕ, ◌<◌, ◌∷◌, ◌≡◌, ◌⊎◌,
}
use android_hardware_nvidia.PictureMemory.{
  Floats, Member, PictureMemory, compare_look, compare_member, compare_members, compare_picture,
  first_sight, forget, judge, remember, same, same_rect,
}

module _ (floats : Floats) where
  open floats use {Group, is_same}

  -- A member that names its pixels, and whose floats are all equal to themselves.
  abbrev pub IsNamed : Member Group → Type 0
  IsNamed m =
      ((m.solid ≡ true) ⊎ (0 < m.source))
      × (is_same m.color m.color ≡ true)
      × (is_same m.src m.src ≡ true)
      × (is_same m.alpha m.alpha ≡ true)
      × (is_same m.corners m.corners ≡ true)
      × (is_same m.turned m.turned ≡ true)

  compare_member_refl : (m : Member Group) → IsNamed m → compare_member floats false m m ≡ same
  unfolding compare_member compare_look
  compare_member_refl m h = ground arith

  compare_members_refl :
      (ms : List (Member Group)) → All IsNamed ms → compare_members floats false ms ms ≡ same
  unfolding compare_members
  compare_members_refl [] h = refl
  compare_members_refl (m ∷ ms) (h, hs) = rw (compare_member_refl m h) (compare_members_refl ms hs)

  -- What makes two members draw the same pixels.
  abbrev pub Alike : Member Group → Member Group → Type 0
  Alike m r =
      (m.solid ≡ r.solid)
      × (m.source ≡ r.source)
      × ((m.solid ≡ true) ⊎ (0 < m.source))
      × (m.generation ≡ r.generation)
      × (same_rect m.dst r.dst ≡ true)
      × (is_same m.color r.color ≡ true)
      × (is_same m.src r.src ≡ true)
      × (is_same m.alpha r.alpha ≡ true)
      × (m.premultiplied ≡ r.premultiplied)
      × (m.opaque ≡ r.opaque)
      × (m.transform ≡ r.transform)
      × (is_same m.corners r.corners ≡ true)
      × (is_same m.turned r.turned ≡ true)

  abbrev pub AllAlike : List (Member Group) → List (Member Group) → Type 0
  AllAlike [] [] = Unit {0}
  AllAlike (m ∷ ms) (r ∷ rs) = Alike m r × AllAlike ms rs
  AllAlike _ _ = ⊥

  compare_member-Alike : (m r : Member Group) → compare_member floats false m r ≡ same → Alike m r
  unfolding compare_member compare_look
  compare_member-Alike m r h = ground arith

  compare_members-AllAlike :
      (ms rs : List (Member Group))
      → length ms ≡ length rs
      → compare_members floats false ms rs ≡ same
      → AllAlike ms rs
  unfolding compare_members
  compare_members-AllAlike [] [] l h = tt
  compare_members-AllAlike [] (r ∷ rs) l h = absurd (omega arith)
  compare_members-AllAlike (m ∷ ms) [] l h = absurd (omega arith)
  compare_members-AllAlike (m ∷ ms) (r ∷ rs) l h = (
    compare_member-Alike m r (ground arith),
    compare_members-AllAlike ms rs (omega arith) (ground arith),
  )

  -- A picture is judged the remembered one only if one is remembered, of the same size, and each member
  -- draws the same pixels as the one remembered in its place: the same source or colour, the same
  -- frame of it, in the same place, blended, turned and shaped the same.
  pub recognised_is_the_same :
      (p : PictureMemory Group) (width height : ℕ) (members : List (Member Group))
      → judge floats p width height members ≡ same
      → (p.remembered ≡ true) × (width ≡ p.width) × (height ≡ p.height) × AllAlike members p.members
  unfolding judge compare_picture
  recognised_is_the_same p width height members h =
      let alike : compare_members floats false members p.members ≡ same = ground arith in
      (
        ground arith,
        ground arith,
        ground arith,
        compare_members-AllAlike members p.members (ground arith) alike,
      )

  -- A picture that was remembered is recognised, as long as each of its members has a name and no float
  -- that differs from itself; and once it was forgotten, no picture is.
  pub remembered_is_recognised :
      (p : PictureMemory Group) (width height : ℕ) (members : List (Member Group))
      → All IsNamed members
      → (judge floats (remember floats p width height members) width height members ≡ same)
        × ((other : List (Member Group)) (w h : ℕ)
            → judge floats (forget floats (remember floats p width height members)) w h other
              ≡ first_sight)
  unfolding judge remember forget compare_picture
  remembered_is_recognised p width height members h =
      (ground (arith, compare_members_refl members h), λ other w k. refl)
