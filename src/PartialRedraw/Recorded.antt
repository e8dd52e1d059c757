-- ===== src/PartialRedraw/Recorded.antt =====
-- PartialRedraw.cpp: what the history keeps is what was recorded, and it keeps little.
use android_hardware_nvidia.PartialRedraw.Painter.{FramesHonest, IsHonest, LayersHonest, Painter}
use mathlib.Core.Path.{subst}
use android_hardware_nvidia.PartialRedraw.Redraws.{FramesHonest-find_layer}
use android_hardware_nvidia.PartialRedraw.Plans.{FloatMath}
use android_hardware_nvidia.Rect.{IRect}
use android_hardware_nvidia.PartialRedraw.History.{
  DamageFrame, DamageHistory, Layer, drop_oldest, erase_layer, find_layer, frames_of, is_old,
  keep_last, most_frames, most_layers, oldest_from, put_layer, record_damage,
}
use android_hardware_nvidia.Prelude.{
  Bool-cases, List, Option-cases, [], arith, inl, inr, length, ltb, sym, ℕ, ◌++◌, ◌+◌, ◌==◌, ◌∷◌,
  ◌≡◌,
}

module _ {m : FloatMath} (p : Painter m) where
  FramesHonest-append :
      (serial : ℕ) (fs gs : List DamageFrame)
      → FramesHonest p serial fs
      → FramesHonest p serial gs
      → FramesHonest p serial (fs ++ gs)
  FramesHonest-append serial [] gs h k = k
  FramesHonest-append serial (f ∷ fs) gs (h, hs) k = (h, FramesHonest-append serial fs gs hs k)

  FramesHonest-keep_last :
      (serial : ℕ) (fs : List DamageFrame)
      → FramesHonest p serial fs
      → FramesHonest p serial (keep_last fs)
  unfolding keep_last
  FramesHonest-keep_last serial [] h = h
  FramesHonest-keep_last serial (f ∷ fs) h = elim (Bool-cases (ltb most_frames (length (f ∷ fs)))) [
    | inl many ↦ rw (many, keep_last) (FramesHonest-keep_last serial fs h.1)
    | inr few ↦ rw (few, keep_last) h
  ]

  LayersHonest-put_layer :
      (serial : ℕ) (l : Layer) (ls : List (ℕ × Layer))
      → FramesHonest p serial l.frames
      → LayersHonest p ls
      → LayersHonest p (put_layer serial l ls)
  unfolding put_layer
  LayersHonest-put_layer serial l [] f h = (f, tt)
  LayersHonest-put_layer serial l ((s, k) ∷ ls) f h = elim (Bool-cases (s == serial)) [
    | inl here ↦
        let same : s ≡ serial = ground arith in
        rw (here, put_layer) (subst (λ i. FramesHonest p i l.frames) (sym same) f, h.1)
    | inr there ↦ rw (there, put_layer) (h.0, LayersHonest-put_layer serial l ls f h.1)
  ]

  LayersHonest-erase_layer :
      (serial : ℕ) (ls : List (ℕ × Layer))
      → LayersHonest p ls
      → LayersHonest p (erase_layer serial ls)
  unfolding erase_layer
  LayersHonest-erase_layer serial [] h = h
  LayersHonest-erase_layer serial ((s, k) ∷ ls) h = elim (Bool-cases (s == serial)) [
    | inl here ↦ rw (here, erase_layer) h.1
    | inr there ↦ rw (there, erase_layer) (h.0, LayersHonest-erase_layer serial ls h.1)
  ]

  LayersHonest-drop_oldest :
      (ls : List (ℕ × Layer)) → LayersHonest p ls → LayersHonest p (drop_oldest ls)
  unfolding drop_oldest
  LayersHonest-drop_oldest [] h = h
  LayersHonest-drop_oldest (l ∷ ls) h =
      let erased = LayersHonest-erase_layer (oldest_from l ls).0 (l ∷ ls) h in
      elim (Bool-cases (ltb most_layers (length (l ∷ ls)))) [
        | inl many ↦ rw (many, drop_oldest) erased
        | inr few ↦ rw (few, drop_oldest) h
      ]

  FramesHonest-frames_of :
      (serial : ℕ) (ls : List (ℕ × Layer))
      → LayersHonest p ls
      → FramesHonest p serial (frames_of serial ls)
  unfolding frames_of
  FramesHonest-frames_of serial ls h = elim (Option-cases (find_layer serial ls)) [
    | inl gone ↦ rw (gone, frames_of) tt
    | inr (l, found) ↦ rw (found, frames_of) (FramesHonest-find_layer p serial ls l h found)
  ]

  -- A client that does not understate its damage leaves an honest history.
  pub record_damage-LayersHonest :
      (serial generation : ℕ) (damage : List IRect) (h : DamageHistory)
      → IsHonest p serial generation damage
      → LayersHonest p h.layers
      → LayersHonest p (record_damage serial generation damage h).layers
  unfolding record_damage
  record_damage-LayersHonest serial generation damage h c v =
      let frames = frames_of serial h.layers in
      let known = FramesHonest-frames_of serial h.layers v in
      let longer = frames ++ record { generation = generation; damage = damage } ∷ [] in
      let kept = FramesHonest-keep_last serial longer (
        FramesHonest-append serial frames (record { generation = generation; damage = damage } ∷ [])
          known (c, tt)) in
      let heard = λ (fs : List DamageFrame) (k : FramesHonest p serial fs).
        LayersHonest-put_layer serial (record { frames = fs; recorded_at = h.clock + 1 }) h.layers k
          v in
      elim (Bool-cases (is_old frames generation)) [
        | inl old ↦ rw (old, record_damage) (heard frames known)
        | inr new ↦
            rw (new, record_damage) (LayersHonest-drop_oldest _ (heard (keep_last longer) kept))
      ]
