-- ===== src/PartialRedraw/Redraws.antt =====
-- PartialRedraw.cpp: what a buffer holds once it was drawn as decided, against the picture wanted.
use android_hardware_nvidia.PartialRedraw.Painter.{
  FramesHonest, IsAlike, IsHonest, LayersHonest, Painter, at_frame,
}
use mathlib.Core.Path.{subst}
use android_hardware_nvidia.PartialRedraw.Plans.{
  FloatMath, known_places, member_places, onto_all, same_but_frame, to_draw,
}
use android_hardware_nvidia.Rect.{IRect, covered, covered-append, covers, within}
use android_hardware_nvidia.PartialRedraw.History.{
  DamageFrame, DamageHistory, Layer, add_frame, between, between_from, find_frame, find_layer,
  seen_rects,
}
use android_hardware_nvidia.Prelude.{
  Bool, Bool-cases, List, Option, Option-cases, [], ap, arith, false, if◌then◌else◌, inl, inr,
  neg_part, none, not, pos_part, refl, some, suc, sym, true, zero, ℕ, ℤ, ◌++◌, ◌+◌, ◌-◌, ◌==◌, ◌||◌,
  ◌∙◌, ◌∷◌, ◌≡◌, ◌≢◌, ◌≤◌,
}
use android_hardware_nvidia.PictureMemory.{Member, same_rect}

up_to : (from to : ℕ) → from ≤ to → to ≡ from + (to - from)
up_to from to h = omega arith

within_same :
    (a b c d x : ℤ)
    → (pos_part a + neg_part b == pos_part b + neg_part a) ≡ true
    → (pos_part c + neg_part d == pos_part d + neg_part c) ≡ true
    → within a c x ≡ within b d x
within_same a b c d x h k = ground arith

pub same_rect-covers : (a b : IRect) (x y : ℤ) → same_rect a b ≡ true → covers a x y ≡ covers b x y
unfolding covers
same_rect-covers a b x y h =
    let parts : ((pos_part a.left + neg_part b.left == pos_part b.left + neg_part a.left) ≡ true)
        × ((pos_part a.right + neg_part b.right == pos_part b.right + neg_part a.right) ≡ true)
        × ((pos_part a.top + neg_part b.top == pos_part b.top + neg_part a.top) ≡ true)
        × ((pos_part a.bottom + neg_part b.bottom == pos_part b.bottom + neg_part a.bottom)
            ≡ true) =
      (ground arith, ground arith, ground arith, ground arith) in
    let across = within_same a.left b.left a.right b.right x parts.0 parts.1 in
    let along = within_same a.top b.top a.bottom b.bottom y parts.2 parts.3 in
    rw (across, along) refl

add_frame-known :
    (o : Option (List IRect)) (rest : Option (List IRect × Bool)) (rects : List IRect)
    → add_frame o rest ≡ some (rects, false)
    → (d : List IRect) × (later : List IRect) × (o ≡ some d)
      × (d ≢ [])
      × (rest ≡ some (later, false))
      × (rects ≡ seen_rects d ++ later)
unfolding add_frame
add_frame-known none rest rects e = cc
add_frame-known (some []) rest rects e = cc
add_frame-known (some (r ∷ rs)) none rects e = cc
add_frame-known (some (r ∷ rs)) (some (later, true)) rects e = cc
add_frame-known (some (r ∷ rs)) (some (later, false)) rects e = (r ∷ rs, later, refl, cc, refl, cc)

module _ {m : FloatMath} (p : Painter m) where
  open m use {floats, is_scaled, has_extent, onto}
  open floats use {Group, is_same}
  open p use {Sample, Pixel, nothing, shade, blend}

  find_frame-IsHonest :
      (serial g : ℕ) (fs : List DamageFrame) (d : List IRect)
      → FramesHonest p serial fs
      → find_frame g fs ≡ some d
      → IsHonest p serial g d
  unfolding find_frame
  find_frame-IsHonest serial g [] d h e = cc
  find_frame-IsHonest serial g (f ∷ fs) d h e = elim (Bool-cases (f.generation == g)) [
    | inl here ↦
        let same_frame : f.generation ≡ g = ground arith in
        let same_damage : f.damage ≡ d = ground arith in
        subst (λ k. IsHonest p serial k d) same_frame
          (subst (λ rs. IsHonest p serial f.generation rs) same_damage h.0)
    | inr there ↦ find_frame-IsHonest serial g fs d h.1 (ground arith)
  ]

  onto_all-append :
      (n : Member Group) (rs ss : List IRect)
      → onto_all m n (rs ++ ss) ≡ onto_all m n rs ++ onto_all m n ss
  onto_all-append n [] ss = refl
  onto_all-append n (r ∷ rs) ss = rw (onto_all-append n rs ss)

  between_from-shade :
      (fs : List DamageFrame) (n : Member Group) (k count : ℕ) (rects : List IRect) (x y : ℤ)
      → FramesHonest p n.serial fs
      → n.transform ≡ 0
      → has_extent n ≡ true
      → between_from fs (suc k) count ≡ some (rects, false)
      → covered (onto_all m n rects) x y ≡ false
      → shade (at_frame p n (k + count)) x y ≡ shade (at_frame p n k) x y
  unfolding between_from
  between_from-shade fs n k zero rects x y h t e b c =
      ap (λ g. shade (at_frame p n g) x y) (omega arith)
  between_from-shade fs n k (suc count) rects x y h t e b c =
      let (d, later, found, some_damage, on, all) =
        add_frame-known (find_frame (suc k) fs) (between_from fs (suc (suc k)) count) rects b in
      let parted : covered (onto_all m n (seen_rects d) ++ onto_all m n later) x y ≡ false =
        subst (λ rs. covered rs x y ≡ false)
          (ap (onto_all m n) all ∙ onto_all-append n (seen_rects d) later) c in
      let apart =
        sym (covered-append (onto_all m n (seen_rects d)) (onto_all m n later) x y) ∙ parted in
      let first =
        find_frame-IsHonest n.serial (suc k) fs d h found n k x y refl t e refl some_damage
          (ground arith) in
      let rest = between_from-shade fs n (suc k) count later x y h t e on (ground arith) in
      ap (λ g. shade (at_frame p n g) x y) (omega arith) ∙ rest ∙ first

  pub FramesHonest-find_layer :
      (serial : ℕ) (ls : List (ℕ × Layer)) (l : Layer)
      → LayersHonest p ls
      → find_layer serial ls ≡ some l
      → FramesHonest p serial l.frames
  unfolding find_layer
  FramesHonest-find_layer serial [] l h e = cc
  FramesHonest-find_layer serial ((s, k) ∷ ls) l h e = elim (Bool-cases (s == serial)) [
    | inl here ↦
        let same_serial : s ≡ serial = ground arith in
        let same_layer : k ≡ l = ground arith in
        subst (λ j. FramesHonest p serial j.frames) same_layer
          (subst (λ i. FramesHonest p i k.frames) same_serial h.0)
    | inr there ↦ FramesHonest-find_layer serial ls l h.1 (ground arith)
  ]

  -- Where `Between` knows all rectangles, a member shows the same outside them.
  between-shade :
      (h : DamageHistory) (n : Member Group) (from to : ℕ) (rects : List IRect) (x y : ℤ)
      → LayersHonest p h.layers
      → n.transform ≡ 0
      → has_extent n ≡ true
      → from ≤ to
      → between n.serial from to h ≡ some (rects, false)
      → covered (onto_all m n rects) x y ≡ false
      → shade (at_frame p n to) x y ≡ shade (at_frame p n from) x y
  unfolding between
  between-shade h n from to rects x y v t e le b c =
      elim (Option-cases (find_layer n.serial h.layers)) [
        | inl gone ↦ absurd (ground arith)
        | inr (l, found) ↦
            let honest = FramesHonest-find_layer n.serial h.layers l v found in
            let known : between_from l.frames (suc from) (to - from) ≡ some (rects, false) =
              ground arith in
            ap (λ g. shade (at_frame p n g) x y) (omega arith)
            ∙ between_from-shade l.frames n from (to - from) rects x y honest t e known c
      ]

  known_places-to_draw :
      (now : Member Group) (o : Option (List IRect × Bool)) (rs : List IRect)
      → known_places m now o ≡ to_draw rs
      → (rects : List IRect) × (whole : Bool) × (o ≡ some (rects, whole))
        × (rs ≡ (if whole then now.dst ∷ [] else []) ++ onto_all m now rects)
  unfolding known_places
  known_places-to_draw now none rs e = cc
  known_places-to_draw now (some (rects, whole)) rs e = (rects, whole, refl, cc)

  same_but_frame-IsAlike : (a b : Member Group) → same_but_frame m a b ≡ true → IsAlike m a b
  unfolding same_but_frame
  same_but_frame-IsAlike a b h = ground arith

  same_but_frame-dst :
      (a b : Member Group) (x y : ℤ)
      → same_but_frame m a b ≡ true
      → covers a.dst x y ≡ covers b.dst x y
  unfolding same_but_frame
  same_but_frame-dst a b x y h = same_rect-covers a.dst b.dst x y (ground arith)

  whole-shade :
      (now then' : Member Group) (rects : List IRect) (x y : ℤ)
      → same_but_frame m now then' ≡ true
      → covered (now.dst ∷ rects) x y ≡ false
      → shade now x y ≡ shade then' x y
  unfolding covered
  whole-shade now then' rects x y same c =
      let out : covers now.dst x y ≡ false = ground arith in
      p.shade_outside now x y out
      ∙ sym (p.shade_outside then' x y (sym (same_but_frame-dst now then' x y same) ∙ out))

  known-shade :
      (h : DamageHistory) (now then' : Member Group) (rs : List IRect) (x y : ℤ)
      → LayersHonest p h.layers
      → now.turned ≡ then'.turned
      → same_but_frame m now then' ≡ true
      → then'.generation ≤ now.generation
      → now.transform ≡ 0
      → has_extent now ≡ true
      → known_places m now (between now.serial then'.generation now.generation h) ≡ to_draw rs
      → covered rs x y ≡ false
      → shade now x y ≡ shade then' x y
  known-shade h now then' rs x y v turns same le t e k c =
      go (known_places-to_draw now (between now.serial then'.generation now.generation h) rs k)
    where
      go :
          (rects : List IRect) × (whole : Bool) × (between now.serial then'.generation
                now.generation h
              ≡ some (rects, whole))
            × (rs ≡ (if whole then now.dst ∷ [] else []) ++ onto_all m now rects)
          → shade now x y ≡ shade then' x y
      go (rects, true, b, r) =
          whole-shade now then' (onto_all m now rects) x y same
            (subst (λ ps. covered ps x y ≡ false) r c)
      go (rects, false, b, r) =
          between-shade h now then'.generation now.generation rects x y v t e le b
            (subst (λ ps. covered ps x y ≡ false) r c)
          ∙ p.shade_same (at_frame p now then'.generation) then' x y
              (same_but_frame-IsAlike now then' same) refl turns

  pub member_places-shade :
      (h : DamageHistory) (now then' : Member Group) (rs : List IRect) (x y : ℤ)
      → LayersHonest p h.layers
      → now.turned ≡ then'.turned
      → member_places m h now then' ≡ to_draw rs
      → covered rs x y ≡ false
      → shade now x y ≡ shade then' x y
  unfolding member_places
  member_places-shade h now then' rs x y v turns e c =
      elim (Bool-cases (now.serial == 0 || not (same_but_frame m now then'))) [
        | inl odd ↦ absurd (ground arith)
        | inr fine ↦
            let same : same_but_frame m now then' ≡ true = ground arith in
            elim (Bool-cases (now.generation == then'.generation)) [
              | inl still ↦
                  p.shade_same now then' x y (same_but_frame-IsAlike now then' same) (ground arith)
                    turns
              | inr newer ↦
                  known-shade h now then' rs x y v turns same (ground arith) (ground arith)
                    (ground arith) (ground arith) c
            ]
      ]
