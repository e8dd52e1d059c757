-- ===== src/PartialRedraw/Painter.antt =====
-- PartialRedraw.cpp: the pictures that an engine draws, and the damage that its clients tell of them.
use android_hardware_nvidia.PartialRedraw.Plans.{FloatMath, Plan, full, onto_all, partly, unchanged}
use android_hardware_nvidia.PartialRedraw.History.{DamageFrame, Layer, seen_rects}
use android_hardware_nvidia.Prelude.{
  All, List, [], false, if◌then◌else◌, is_nil, suc, true, ℕ, ℤ, ◌||◌, ◌∷◌, ◌≡◌, ◌≢◌,
}
use android_hardware_nvidia.PictureMemory.{Member, same_rect}
use android_hardware_nvidia.Rect.{IRect, covered, covers}

-- Members that agree in all that is drawn but the frame and the turn.
abbrev pub IsAlike : (m : FloatMath) → Member m.floats.Group → Member m.floats.Group → Type 0
IsAlike m a b =
    (a.serial ≡ b.serial)
    × (a.solid ≡ b.solid)
    × (m.floats.is_same a.color b.color ≡ true)
    × (m.floats.is_same a.src b.src ≡ true)
    × (same_rect a.dst b.dst ≡ true)
    × (m.floats.is_same a.alpha b.alpha ≡ true)
    × (a.premultiplied ≡ b.premultiplied)
    × (a.opaque ≡ b.opaque)
    × (a.transform ≡ b.transform)
    × (m.floats.is_same a.corners b.corners ≡ true)

-- How an engine draws a picture: what each member gives at a pixel, and what these come to. A member
-- gives nothing outside its place, whatever gives nothing shows as cleared, and what a member gives
-- is made of its layer's frame and of how it is placed alone.
pub record Painter (m : FloatMath) : Type 1 where
  pub Sample : Type 0
  pub Pixel : Type 0
  pub nothing : Sample
  pub shade : Member m.floats.Group → ℤ → ℤ → Sample
  pub blend : List Sample → Pixel
  pub shade_outside :
      (n : Member m.floats.Group) (x y : ℤ) → covers n.dst x y ≡ false → shade n x y ≡ nothing
  pub blend-nothing :
      (ss ts : List Sample)
      → All (λ s. s ≡ nothing) ss
      → All (λ s. s ≡ nothing) ts
      → blend ss ≡ blend ts
  pub shade_same :
      (a b : Member m.floats.Group) (x y : ℤ)
      → IsAlike m a b
      → a.generation ≡ b.generation
      → a.turned ≡ b.turned
      → shade a x y ≡ shade b x y

module _ {m : FloatMath} (p : Painter m) where
  open m use {floats, is_scaled, has_extent, onto}
  open floats use {Group, is_same}
  open p use {Sample, Pixel, nothing, shade, blend}

  abbrev pub samples : List (Member Group) → ℤ → ℤ → List Sample
  samples [] x y = []
  samples (n ∷ ns) x y = shade n x y ∷ samples ns x y

  abbrev pub picture : List (Member Group) → ℤ → ℤ → Pixel
  picture ns x y = blend (samples ns x y)

  -- What a buffer shows that held one picture, once the plan for another is drawn.
  abbrev pub drawn : Plan → Pixel → Pixel → ℤ → ℤ → Pixel
  drawn plan old new x y = elim plan.kind [
    | full ↦ if is_nil plan.parts || covered plan.parts x y then new else old
    | partly ↦ if covered plan.parts x y then new else old
    | unchanged ↦ old
  ]

  -- The member, drawn with another frame of its layer.
  abbrev pub at_frame : Member Group → ℕ → Member Group
  at_frame n g = record n { generation = g }

  -- A client's damage for a frame: where it is not empty, what an upright member with an extent gives
  -- outside its rectangles is what it gave with the frame before.
  abbrev pub IsHonest : ℕ → ℕ → List IRect → Type 0
  IsHonest serial generation damage =
      (n : Member Group) (k : ℕ) (x y : ℤ)
      → n.serial ≡ serial
      → n.transform ≡ 0
      → has_extent n ≡ true
      → generation ≡ suc k
      → damage ≢ []
      → covered (onto_all m n (seen_rects damage)) x y ≡ false
      → shade (at_frame n (suc k)) x y ≡ shade (at_frame n k) x y

  abbrev pub FramesHonest : ℕ → List DamageFrame → Type 0
  FramesHonest serial [] = Unit {0}
  FramesHonest serial (f ∷ fs) = IsHonest serial f.generation f.damage × FramesHonest serial fs

  abbrev pub LayersHonest : List (ℕ × Layer) → Type 0
  LayersHonest [] = Unit {0}
  LayersHonest ((s, l) ∷ ls) = FramesHonest s l.frames × LayersHonest ls

  -- Each member is turned as the one in its place was.
  abbrev pub KeepTurns : List (Member Group) → List (Member Group) → Type 0
  KeepTurns (n ∷ ns) (t ∷ ts) = (n.turned ≡ t.turned) × KeepTurns ns ts
  KeepTurns _ _ = Unit {0}
