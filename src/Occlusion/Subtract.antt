-- ===== src/Occlusion/Subtract.antt =====
-- Occlusion.cpp: `Subtract` takes exactly the pixels of the cut away.
use android_hardware_nvidia.Rect.{
  IRect, covered, covered-append, covers, is_empty, is_empty-covers, within,
}
use android_hardware_nvidia.Prelude.{
  Bool, Bool-cases, List, [], arith, false, inl, inr, ltb_ℤ, max_ℤ, max_ℤ_parts, min_ℤ, min_ℤ_parts,
  not, refl, sym, true, ℤ, ◌&&◌, ◌++◌, ◌<ℤ◌, ◌||◌, ◌∙◌, ◌∷◌, ◌≡◌, ◌≤ℤ◌,
}
use android_hardware_nvidia.Occlusion.{
  intersect, subtract, subtract_all, pieces, piece_above, piece_below, piece_left, piece_right,
  push_if,
}

within-intersect :
    (a b c d x : ℤ) → within (max_ℤ a b) (min_ℤ c d) x ≡ (within a c x && within b d x)
unfolding max_ℤ min_ℤ
within-intersect a b c d x = ground arith

pub covers-intersect :
    (a b : IRect) (x y : ℤ) → covers (intersect a b) x y ≡ (covers a x y && covers b x y)
unfolding intersect covers
covers-intersect a b x y = ground (
  arith,
  within-intersect a.left b.left a.right b.right x,
  within-intersect a.top b.top a.bottom b.bottom y,
)

-- An edge cut in three: outside the middle lie the two ends.
within_split :
    (l a b h x : ℤ)
    → l ≤ℤ a
    → a ≤ℤ b
    → b ≤ℤ h
    → ((within l h x && not (within a b x)) ≡ (within l a x || within b h x))
      × (within a b x ≡ true → within l h x ≡ true)
within_split l a b h x p q r = (ground arith, λ h. ground arith)

-- The same on both axes, as the four bands around the middle.
bands :
    (xs xm xl xr ys ym yt yb : Bool)
    → (xs && not xm) ≡ (xl || xr)
    → (xm ≡ true → xs ≡ true)
    → (ys && not ym) ≡ (yt || yb)
    → (ym ≡ true → ys ≡ true)
    → ((xs && yt) || ((xs && yb) || ((xl && ym) || (xr && ym)))) ≡ ((xs && ys) && not (xm && ym))
bands xs xm xl xr ys ym yt yb h k m n = ground arith

covered-push_if :
    (b : Bool) (r : IRect) (x y : ℤ)
    → (b ≡ false → covers r x y ≡ false)
    → covered (push_if b r) x y ≡ covers r x y
unfolding covered
covered-push_if true r x y h = ground arith
covered-push_if false r x y h = sym (h refl)

covered-four :
    (a b c d : List IRect) (x y : ℤ)
    → covered (a ++ (b ++ (c ++ d))) x y
      ≡ (covered a x y || (covered b x y || (covered c x y || covered d x y)))
covered-four a b c d x y =
    rw (covered-append a (b ++ (c ++ d)) x y)
      (rw (covered-append b (c ++ d) x y) (rw (covered-append c d x y)))

-- The overlap lies inside, and is not empty.
record IsInside (o r : IRect) : Type 0 where
  left_in : r.left ≤ℤ o.left
  wide : o.left <ℤ o.right
  right_in : o.right ≤ℤ r.right
  top_in : r.top ≤ℤ o.top
  high : o.top <ℤ o.bottom
  bottom_in : o.bottom ≤ℤ r.bottom

intersect-IsInside :
    (r cut : IRect) → is_empty (intersect r cut) ≡ false → IsInside (intersect r cut) r
unfolding intersect is_empty
intersect-IsInside r cut h = grind (
  arith,
  max_ℤ_parts r.left cut.left,
  max_ℤ_parts r.top cut.top,
  min_ℤ_parts r.right cut.right,
  min_ℤ_parts r.bottom cut.bottom,
)

covered-pieces :
    (r o : IRect) (x y : ℤ)
    → IsInside o r
    → covered (pieces r o) x y ≡ (covers r x y && not (covers o x y))
unfolding pieces covers
covered-pieces r o x y v =
    let across = within_split r.left o.left o.right r.right x v.left_in (omega arith) v.right_in in
    let down = within_split r.top o.top o.bottom r.bottom y v.top_in (omega arith) v.bottom_in in
    covered-four (push_if (ltb_ℤ r.top o.top) (piece_above r o))
      (push_if (ltb_ℤ o.bottom r.bottom) (piece_below r o))
      (push_if (ltb_ℤ r.left o.left) (piece_left r o))
      (push_if (ltb_ℤ o.right r.right) (piece_right r o)) x y
    ∙ (rw (covered-push_if (ltb_ℤ r.top o.top) (piece_above r o) x y (λ h. ground arith)) (
        rw (covered-push_if (ltb_ℤ o.bottom r.bottom) (piece_below r o) x y (λ h. ground arith)) (
          rw (covered-push_if (ltb_ℤ r.left o.left) (piece_left r o) x y (λ h. ground arith)) (
            rw (covered-push_if (ltb_ℤ o.right r.right) (piece_right r o) x y (λ h. ground arith))
              (bands _ _ _ _ _ _ _ _ across.0 across.1 down.0 down.1)))))

-- A pixel is left exactly if it was there and the cut does not cover it.
pub covered-subtract :
    (rs : List IRect) (cut : IRect) (x y : ℤ)
    → covered (subtract rs cut) x y ≡ (covered rs x y && not (covers cut x y))
unfolding subtract covered
covered-subtract [] cut x y = refl
covered-subtract (r ∷ rs) cut x y = elim (Bool-cases (is_empty (intersect r cut))) [
  | inl none_cut ↦ rw none_cut (
      ground (
        arith,
        covered-subtract rs cut x y,
        covers-intersect r cut x y,
        is_empty-covers (intersect r cut) x y none_cut,
      ))
  | inr some_cut ↦ rw some_cut (
      ground (
        arith,
        covered-append (pieces r (intersect r cut)) (subtract rs cut) x y,
        covered-pieces r (intersect r cut) x y (intersect-IsInside r cut some_cut),
        covered-subtract rs cut x y,
        covers-intersect r cut x y,
      ))
]

pub covered-subtract_all :
    (rs hs : List IRect) (x y : ℤ)
    → covered (subtract_all rs hs) x y ≡ (covered rs x y && not (covered hs x y))
unfolding subtract_all covered
covered-subtract_all [] hs x y = refl
covered-subtract_all (r ∷ rs) [] x y = ground arith
covered-subtract_all (r ∷ rs) (h ∷ hs) x y =
    ground
      (arith, covered-subtract_all (subtract (r ∷ rs) h) hs x y, covered-subtract (r ∷ rs) h x y)

-- None of the rectangles is empty.
abbrev pub AllSeen : List IRect → Type 0
AllSeen [] = Unit {0}
AllSeen (r ∷ rs) = (is_empty r ≡ false) × AllSeen rs

AllSeen-append : (rs ss : List IRect) → AllSeen rs → AllSeen ss → AllSeen (rs ++ ss)
AllSeen-append [] ss h k = k
AllSeen-append (r ∷ rs) ss h k = (h.0, AllSeen-append rs ss h.1 k)

AllSeen-push_if : (b : Bool) (r : IRect) → (b ≡ true → is_empty r ≡ false) → AllSeen (push_if b r)
AllSeen-push_if true r h = (h refl, tt)
AllSeen-push_if false r h = tt

pieces-AllSeen : (r o : IRect) → is_empty r ≡ false → IsInside o r → AllSeen (pieces r o)
unfolding pieces is_empty
pieces-AllSeen r o h v =
    AllSeen-append _ _ (AllSeen-push_if (ltb_ℤ r.top o.top) (piece_above r o) (λ k. ground arith)) (
      AllSeen-append _ _
        (AllSeen-push_if (ltb_ℤ o.bottom r.bottom) (piece_below r o) (λ k. ground arith))
        (AllSeen-append _ _
          (AllSeen-push_if (ltb_ℤ r.left o.left) (piece_left r o) (λ k. ground arith))
          (AllSeen-push_if (ltb_ℤ o.right r.right) (piece_right r o) (λ k. ground arith))))

subtract-AllSeen : (rs : List IRect) (cut : IRect) → AllSeen rs → AllSeen (subtract rs cut)
unfolding subtract
subtract-AllSeen [] cut h = tt
subtract-AllSeen (r ∷ rs) cut h = elim (Bool-cases (is_empty (intersect r cut))) [
  | inl none_cut ↦ rw none_cut (h.0, subtract-AllSeen rs cut h.1)
  | inr some_cut ↦ rw some_cut (
      AllSeen-append _ _
        (pieces-AllSeen r (intersect r cut) h.0 (intersect-IsInside r cut some_cut))
        (subtract-AllSeen rs cut h.1))
]

pub subtract_all-AllSeen : (rs hs : List IRect) → AllSeen rs → AllSeen (subtract_all rs hs)
unfolding subtract_all
subtract_all-AllSeen [] hs h = tt
subtract_all-AllSeen (r ∷ rs) [] h = h
subtract_all-AllSeen (r ∷ rs) (c ∷ hs) h =
    subtract_all-AllSeen (subtract (r ∷ rs) c) hs (subtract-AllSeen (r ∷ rs) c h)
