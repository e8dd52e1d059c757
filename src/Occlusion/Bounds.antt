-- ===== src/Occlusion/Bounds.antt =====
-- Occlusion.cpp: the box around what is left of a region.
use android_hardware_nvidia.Rect.Contains.{
  Contains, Contains-covers, Contains-trans, covers-Contains,
}
use android_hardware_nvidia.Occlusion.Subtract.{AllSeen}
use android_hardware_nvidia.Rect.{IRect, covered, covers}
use android_hardware_nvidia.Prelude.{
  Bool-cases, List, [], arith, inl, inr, max_ℤ_parts, min_ℤ_parts, true, ℤ, ◌∷◌, ◌≡◌,
}
use android_hardware_nvidia.Occlusion.{join, join_all}

join-Contains : (b r : IRect) → Contains (join b r) b × Contains (join b r) r
unfolding join
join-Contains b r =
    let l = min_ℤ_parts b.left r.left in
    let t = min_ℤ_parts b.top r.top in
    let h = max_ℤ_parts b.right r.right in
    let m = max_ℤ_parts b.bottom r.bottom in (omega arith, omega arith)

join-least : (box b r : IRect) → Contains box b → Contains box r → Contains box (join b r)
unfolding join
join-least box b r v w = record {
  left_in = (min_ℤ_parts b.left r.left).2 box.left v.left_in w.left_in;
  right_in = (max_ℤ_parts b.right r.right).2 box.right v.right_in w.right_in;
  top_in = (min_ℤ_parts b.top r.top).2 box.top v.top_in w.top_in;
  bottom_in = (max_ℤ_parts b.bottom r.bottom).2 box.bottom v.bottom_in w.bottom_in;
}

join_all-Contains : (b : IRect) (rs : List IRect) → Contains (join_all b rs) b
unfolding join_all
join_all-Contains b [] = omega arith
join_all-Contains b (r ∷ rs) =
    Contains-trans (join_all (join b r) rs) (join b r) b (join_all-Contains (join b r) rs)
      (join-Contains b r).0

-- Every pixel of the rectangles lies in the box around them.
pub join_all-covers :
    (b : IRect) (rs : List IRect) (x y : ℤ)
    → covered rs x y ≡ true
    → covers (join_all b rs) x y ≡ true
unfolding join_all covered
join_all-covers b [] x y h = cc
join_all-covers b (r ∷ rs) x y h = elim (Bool-cases (covers r x y)) [
  | inl first ↦
      Contains-covers (join_all (join b r) rs) r x y
        (Contains-trans (join_all (join b r) rs) (join b r) r (join_all-Contains (join b r) rs)
          (join-Contains b r).1)
        first
  | inr rest ↦ join_all-covers (join b r) rs x y (ground arith)
]

-- And any box with all those pixels contains it, when none of the rectangles is empty.
pub join_all-least :
    (box b : IRect) (rs : List IRect)
    → AllSeen rs
    → Contains box b
    → ((x y : ℤ) → covered rs x y ≡ true → covers box x y ≡ true)
    → Contains box (join_all b rs)
unfolding join_all covered
join_all-least box b [] v h all = h
join_all-least box b (r ∷ rs) v h all =
    join_all-least box (join b r) rs v.1
      (join-least box b r h (covers-Contains box r v.0 (λ x y k. all x y (rw k))))
      (λ x y k. all x y (ground arith))
