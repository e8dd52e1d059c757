-- ===== src/Occlusion/Exact.antt =====
-- Occlusion.cpp: `Resolve` against what can be seen pixel by pixel.
use mathlib.Core.Path.{fun_ext, subst, ap₂}
use android_hardware_nvidia.Rect.{
  IRect, covered, covered-append, covers, covers_corner, is_empty, is_empty-covers,
}
use android_hardware_nvidia.Prelude.{
  Bool, List, [], arith, false, get_elem?, length, not, refl, some, sym, true, ℤ, ◌&&◌, ◌++◌, ◌||◌,
  ◌↔◌, ◌∙◌, ◌∷◌, ◌≡◌,
}
use mathlib.Core.Path.{ap₂}
use android_hardware_nvidia.Occlusion.{
  Layer, Shown, clip_visible, intersect, join_all, opaque_parts, push_seen, region_of, resolve,
  resolve_layers, show, subtract_all,
}
use android_hardware_nvidia.Occlusion.Subtract.{
  AllSeen, covered-subtract_all, covers-intersect, subtract_all-AllSeen,
}
use android_hardware_nvidia.Rect.Contains.{Contains, covers-Contains}
use android_hardware_nvidia.Occlusion.Bounds.{join_all-covers, join_all-least}

-- The pixel is the layer's own: in its frame, and in the region that SurfaceFlinger gave, if it gave
-- one.
pub is_shown_at : Layer → ℤ → ℤ → Bool
is_shown_at l x y =
    covers l.frame x y && elim l.visible [ [] ↦ true | v ∷ vs ↦ covered (v ∷ vs) x y ]

-- The pixel is under an opaque part of one of the layers.
pub is_hidden_by : List Layer → ℤ → ℤ → Bool
is_hidden_by [] x y = false
is_hidden_by (l ∷ ls) x y = covered (opaque_parts l) x y || is_hidden_by ls x y

-- The pixel of the layer is seen under the layers above.
pub is_seen : Layer → List Layer → ℤ → ℤ → Bool
unfolding is_shown_at is_hidden_by
is_seen l above x y = is_shown_at l x y && not (is_hidden_by above x y)

covered-clip_visible :
    (vs : List IRect) (frame : IRect) (x y : ℤ)
    → covered (clip_visible vs frame) x y ≡ (covers frame x y && covered vs x y)
unfolding clip_visible push_seen covered
covered-clip_visible [] frame x y = ground arith
covered-clip_visible (v ∷ vs) frame x y = ground (
  arith,
  covered-clip_visible vs frame x y,
  covers-intersect v frame x y,
  is_empty-covers (intersect v frame) x y,
)

covered-region_of : (l : Layer) (x y : ℤ) → covered (region_of l) x y ≡ is_shown_at l x y
unfolding region_of is_shown_at covered
covered-region_of l x y = go l.visible
  where
    go :
        (vs : List IRect)
        → covered (elim vs [ [] ↦ l.frame ∷ [] | v ∷ ws ↦ clip_visible (v ∷ ws) l.frame ]) x y
          ≡ (covers l.frame x y && elim vs [ [] ↦ true | v ∷ ws ↦ covered (v ∷ ws) x y ])
    go [] = ground arith
    go (v ∷ vs) = covered-clip_visible (v ∷ vs) l.frame x y

clip_visible-AllSeen : (vs : List IRect) (frame : IRect) → AllSeen (clip_visible vs frame)
unfolding clip_visible push_seen
clip_visible-AllSeen [] frame = tt
clip_visible-AllSeen (v ∷ vs) frame = ground (arith, clip_visible-AllSeen vs frame)

region_of-AllSeen : (l : Layer) → is_empty l.frame ≡ false → AllSeen (region_of l)
unfolding region_of
region_of-AllSeen l h = go l.visible
  where
    go :
        (vs : List IRect)
        → AllSeen (elim vs [ [] ↦ l.frame ∷ [] | v ∷ ws ↦ clip_visible (v ∷ ws) l.frame ])
    go [] = (h, tt)
    go (v ∷ vs) = clip_visible-AllSeen (v ∷ vs) l.frame

-- What the walk down has gathered hides what the layers above hide.
covered-resolve_layers :
    (above : List Layer) (x y : ℤ) → covered (resolve_layers above).1 x y ≡ is_hidden_by above x y
unfolding resolve_layers is_hidden_by covered
covered-resolve_layers [] x y = refl
covered-resolve_layers (l ∷ above) x y =
    rw (covered-append (resolve_layers above).1 (opaque_parts l) x y)
      (ground (arith, covered-resolve_layers above x y))

resolve_at :
    (below above : List Layer) (l : Layer)
    → get_elem? (resolve_layers (below ++ l ∷ above)).0 (length below)
      ≡ some (show l (resolve_layers above).1)
unfolding resolve_layers
resolve_at [] above l = refl
resolve_at (b ∷ below) above l = resolve_at below above l

-- What `show` says of a layer, over the pixels that are seen of it.
abbrev pub SaysExactly : Shown → (ℤ → ℤ → Bool) → Type 0
SaysExactly s seen =
    ((s.hidden ≡ true) ↔ ((x y : ℤ) → seen x y ≡ false))
    × ((x y : ℤ) → seen x y ≡ true → covers s.bounds x y ≡ true)
    × ((box : IRect)
        → s.hidden ≡ false
        → ((x y : ℤ) → seen x y ≡ true → covers box x y ≡ true)
        → Contains box s.bounds)

abbrev shown_of : IRect → List IRect → Shown
shown_of frame rs = elim rs [
  | [] ↦ record { hidden = true; bounds = frame }
  | r ∷ rest ↦ record { hidden = false; bounds = join_all r (r ∷ rest) }
]

shown_of-SaysExactly :
    (frame : IRect) (rs : List IRect) → AllSeen rs → SaysExactly (shown_of frame rs) (covered rs)
unfolding covered
shown_of-SaysExactly frame [] v = ((λ _ x y. refl, λ _. refl), λ x y h. cc, λ box h _. cc)
shown_of-SaysExactly frame (r ∷ rest) v = (
  (λ h. cc, λ none_seen. absurd (ground (arith, none_seen r.left r.top, covers_corner r v.0))),
  λ x y h. join_all-covers r (r ∷ rest) x y h,
  λ box h all.
      join_all-least box r (r ∷ rest) v
        (covers-Contains box r v.0 (λ x y k. all x y (ground arith))) all,
)

show_seen :
    (l : Layer) (hiding : List IRect)
    → l.keep ≡ false
    → is_empty l.frame ≡ false
    → show l hiding ≡ shown_of l.frame (subtract_all (region_of l) hiding)
unfolding show
show_seen l hiding touched framed = ground arith

-- A layer that may be hidden and has a frame is hidden exactly when no pixel of it is seen: none in its
-- frame, in the region SurfaceFlinger gave it, that no opaque part of a layer above covers. The bounds
-- hold every pixel of it that is seen, and where the layer is not hidden no smaller box does.
pub resolve_exact :
    (below above : List Layer) (l : Layer) (s : Shown)
    → get_elem? (resolve (below ++ l ∷ above)) (length below) ≡ some s
    → l.keep ≡ false
    → is_empty l.frame ≡ false
    → SaysExactly s (is_seen l above)
unfolding resolve show is_seen
resolve_exact below above l s at touched framed =
    let hiding = (resolve_layers above).1 in
    let rs = subtract_all (region_of l) hiding in
    let same : ◌≡◌ {A = ℤ → ℤ → Bool} (covered rs)
        (λ x y. is_shown_at l x y && not (is_hidden_by above x y)) =
      fun_ext λ x. fun_ext λ y.
        covered-subtract_all (region_of l) hiding x y
        ∙ ap₂ (λ a b. a && not b) (covered-region_of l x y) (covered-resolve_layers above x y) in
    let shows : s ≡ show l hiding = cc (resolve_at below above l) in
    let e : s ≡ shown_of l.frame rs = shows ∙ show_seen l hiding touched framed in
    subst (SaysExactly s) same (
      subst (λ t. SaysExactly t (covered rs)) (sym e)
        (shown_of-SaysExactly l.frame rs
          (subtract_all-AllSeen (region_of l) hiding (region_of-AllSeen l framed))))
