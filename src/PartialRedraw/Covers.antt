-- ===== src/PartialRedraw/Covers.antt =====
-- PartialRedraw.cpp: what the parts cover.
use mathlib.Core.Option.{some-injective}
use mathlib.Core.Path.{subst}
use android_hardware_nvidia.Rect.Contains.{Contains, Contains-covers}
use android_hardware_nvidia.Rect.{IRect, covered, covers, is_empty, is_empty-covers, within}
use android_hardware_nvidia.PartialRedraw.Gather.{
  down, erase, fit, fit_all, join, join_at, join_with, up,
}
use android_hardware_nvidia.Prelude.{
  +ℤ_parts, All, Bool-cases, List, Option, [], and_true, arith, get_elem?, inl, inr, max_ℤ,
  max_ℤ_parts, min_ℤ, min_ℤ_parts, neg_part, negsuc, none, pos, pos_part, refl, some, sub_ℕ, suc,
  true, zero, ℕ, ℤ, ◌*◌, ◌+ℤ◌, ◌/◌, ◌<ℤ◌, ◌||◌, ◌∷◌, ◌≡◌, ◌≤ℤ◌,
}

-- The buffer, whose top left pixel is the origin.
abbrev pub IsBuffer : IRect → Type 0
IsBuffer bounds = (bounds.left ≡ pos 0) × (bounds.top ≡ pos 0)

negative_parts : (m : ℕ) → (pos_part (sub_ℕ 0 m) ≡ 0) × (neg_part (sub_ℕ 0 m) ≡ m)
negative_parts zero = (refl, refl)
negative_parts (suc m) = (ground arith, ground arith)

down_low : (v x : ℤ) → v ≤ℤ x → pos 0 ≤ℤ x → (down v 16 ≤ℤ x) × (down v 2 ≤ℤ x)
unfolding down
down_low (pos n) x h k = (omega arith, omega arith)
down_low (negsuc n) x h k =
    let p = negative_parts (suc n / 16 * 16) in
    let q = negative_parts (suc n / 2 * 2) in (omega arith, omega arith)

down_high : (v : ℤ) → (v ≤ℤ down v 16 +ℤ pos 15) × (v ≤ℤ down v 2 +ℤ pos 1)
unfolding down
down_high (pos n) =
    let p = +ℤ_parts (pos (n / 16 * 16)) (pos 15) in
    let q = +ℤ_parts (pos (n / 2 * 2)) (pos 1) in (omega arith, omega arith)
down_high (negsuc n) =
    let a = negative_parts (suc n / 16 * 16) in
    let b = negative_parts (suc n / 2 * 2) in
    let p = +ℤ_parts (sub_ℕ 0 (suc n / 16 * 16)) (pos 15) in
    let q = +ℤ_parts (sub_ℕ 0 (suc n / 2 * 2)) (pos 1) in (omega arith, omega arith)

up_high : (v : ℤ) → (v ≤ℤ up v 16) × (v ≤ℤ up v 2)
unfolding up
up_high v =
    let p = down_high (v +ℤ pos 15) in
    let q = down_high (v +ℤ pos 1) in
    let a = +ℤ_parts v (pos 15) in
    let b = +ℤ_parts v (pos 1) in
    let c = +ℤ_parts (down (v +ℤ pos 15) 16) (pos 15) in
    let d = +ℤ_parts (down (v +ℤ pos 1) 2) (pos 1) in (omega arith, omega arith)

within_clip :
    (low high d u x : ℤ)
    → d ≤ℤ x
    → x <ℤ u
    → within low high x ≡ true
    → within (max_ℤ d low) (min_ℤ u high) x ≡ true
unfolding max_ℤ min_ℤ
within_clip low high d u x p q h = ground arith

within_parts : (low high x : ℤ) → within low high x ≡ true → (low ≤ℤ x) × (x <ℤ high)
within_parts low high x h = ground arith

covers-fit :
    (bounds r : IRect) (x y : ℤ)
    → IsBuffer bounds
    → covers bounds x y ≡ true
    → covers r x y ≡ true
    → covers (fit bounds r) x y ≡ true
unfolding covers fit
covers-fit bounds r x y (o, p) b h =
    let (bx, by') =
      and_true (within bounds.left bounds.right x) (within bounds.top bounds.bottom y) b in
    let (rx, ry) = and_true (within r.left r.right x) (within r.top r.bottom y) h in
    let (low_x, high_x) = within_parts r.left r.right x rx in
    let (low_y, high_y) = within_parts r.top r.bottom y ry in
    let from_x =
      within_parts (pos 0) bounds.right x (subst (λ v. within v bounds.right x ≡ true) o bx) in
    let from_y =
      within_parts (pos 0) bounds.bottom y (subst (λ v. within v bounds.bottom y ≡ true) p by') in
    let across =
      within_clip bounds.left bounds.right (down r.left 16) (up r.right 16) x
        (down_low r.left x low_x from_x.0).0 (omega (arith, (up_high r.right).0)) bx in
    let along =
      within_clip bounds.top bounds.bottom (down r.top 2) (up r.bottom 2) y
        (down_low r.top y low_y from_y.0).1 (omega (arith, (up_high r.bottom).1)) by' in
    rw (across, along) refl

fit-Contains : (bounds r : IRect) → Contains bounds (fit bounds r)
unfolding fit
fit-Contains bounds r =
    let a = max_ℤ_parts (down r.left 16) bounds.left in
    let b = max_ℤ_parts (down r.top 2) bounds.top in
    let c = min_ℤ_parts (up r.right 16) bounds.right in
    let d = min_ℤ_parts (up r.bottom 2) bounds.bottom in omega arith

pub covered-fit_all :
    (bounds : IRect) (rs : List IRect) (x y : ℤ)
    → IsBuffer bounds
    → covers bounds x y ≡ true
    → covered rs x y ≡ true
    → covered (fit_all bounds rs) x y ≡ true
unfolding covered fit_all
covered-fit_all bounds [] x y o b h = cc
covered-fit_all bounds (r ∷ rs) x y o b h = ground (
  arith,
  covers-fit bounds r x y o b,
  is_empty-covers (fit bounds r) x y,
  covered-fit_all bounds rs x y o b,
)

abbrev pub AllInside : IRect → List IRect → Type 0
AllInside bounds = All (Contains bounds)

pub fit_all-AllInside : (bounds : IRect) (rs : List IRect) → AllInside bounds (fit_all bounds rs)
unfolding fit_all
fit_all-AllInside bounds [] = tt
fit_all-AllInside bounds (r ∷ rs) = elim (Bool-cases (is_empty (fit bounds r))) [
  | inl e ↦ rw e (fit_all-AllInside bounds rs)
  | inr e ↦ rw e (fit-Contains bounds r, fit_all-AllInside bounds rs)
]

join-Contains : (a b : IRect) → Contains (join a b) a × Contains (join a b) b
unfolding join
join-Contains a b =
    let l = min_ℤ_parts a.left b.left in
    let t = min_ℤ_parts a.top b.top in
    let h = max_ℤ_parts a.right b.right in
    let m = max_ℤ_parts a.bottom b.bottom in (omega arith, omega arith)

pub join_inside : (box a b : IRect) → Contains box a → Contains box b → Contains box (join a b)
unfolding join
join_inside box a b v w = record {
  left_in = (min_ℤ_parts a.left b.left).2 box.left v.left_in w.left_in;
  right_in = (max_ℤ_parts a.right b.right).2 box.right v.right_in w.right_in;
  top_in = (min_ℤ_parts a.top b.top).2 box.top v.top_in w.top_in;
  bottom_in = (max_ℤ_parts a.bottom b.bottom).2 box.bottom v.bottom_in w.bottom_in;
}

pub covers-join :
    (a b : IRect) (x y : ℤ) → (covers a x y || covers b x y) ≡ true → covers (join a b) x y ≡ true
covers-join a b x y h = elim (Bool-cases (covers a x y)) [
  | inl first ↦ Contains-covers (join a b) a x y (join-Contains a b).0 first
  | inr other ↦ Contains-covers (join a b) b x y (join-Contains a b).1 (ground arith)
]

covered-erase :
    (parts : List IRect) (j : ℕ) (s : IRect) (x y : ℤ)
    → get_elem? parts j ≡ some s
    → covered parts x y ≡ true
    → (covers s x y || covered (erase parts j) x y) ≡ true
unfolding covered
covered-erase [] j s x y e h = cc
covered-erase (r ∷ rs) zero s x y e h = ground arith
covered-erase (r ∷ rs) (suc j) s x y e h = ground (arith, covered-erase rs j s x y e)

covered-join_with :
    (r : IRect) (o : Option IRect) (j : ℕ) (rs : List IRect) (x y : ℤ)
    → get_elem? rs j ≡ o
    → covered (r ∷ rs) x y ≡ true
    → covered (join_with r o j rs) x y ≡ true
unfolding join_with covered
covered-join_with r none j rs x y e h = h
covered-join_with r (some s) j rs x y e h =
    ground (arith, covered-erase rs j s x y e, covers-join r s x y)

-- Joining two parts uncovers nothing.
pub covered-join_at :
    (i j : ℕ) (parts : List IRect) (x y : ℤ)
    → covered parts x y ≡ true
    → covered (join_at i j parts) x y ≡ true
unfolding join_at covered
covered-join_at zero zero parts x y h = h
covered-join_at (suc i) zero parts x y h = h
covered-join_at zero (suc j) [] x y h = h
covered-join_at (suc i) (suc j) [] x y h = h
covered-join_at (suc i) (suc j) (r ∷ rs) x y h = ground (arith, covered-join_at i j rs x y)
covered-join_at zero (suc j) (r ∷ rs) x y h = covered-join_with r (get_elem? rs j) j rs x y refl h

get_elem?-AllInside :
    (bounds : IRect) (rs : List IRect) (j : ℕ) (s : IRect)
    → AllInside bounds rs
    → get_elem? rs j ≡ some s
    → Contains bounds s
get_elem?-AllInside bounds [] j s v e = cc
get_elem?-AllInside bounds (r ∷ rs) zero s v e = subst (Contains bounds) (some-injective r s e) v.0
get_elem?-AllInside bounds (r ∷ rs) (suc j) s v e = get_elem?-AllInside bounds rs j s v.1 e

erase-AllInside :
    (bounds : IRect) (rs : List IRect) (j : ℕ) → AllInside bounds rs → AllInside bounds (erase rs j)
erase-AllInside bounds [] j v = tt
erase-AllInside bounds (r ∷ rs) zero v = v.1
erase-AllInside bounds (r ∷ rs) (suc j) v = (v.0, erase-AllInside bounds rs j v.1)

join_with-AllInside :
    (bounds r : IRect) (o : Option IRect) (j : ℕ) (rs : List IRect)
    → get_elem? rs j ≡ o
    → AllInside bounds (r ∷ rs)
    → AllInside bounds (join_with r o j rs)
unfolding join_with
join_with-AllInside bounds r none j rs e v = v
join_with-AllInside bounds r (some s) j rs e v = (
  join_inside bounds r s v.0 (get_elem?-AllInside bounds rs j s v.1 e),
  erase-AllInside bounds rs j v.1,
)

pub join_at-AllInside :
    (bounds : IRect) (i j : ℕ) (parts : List IRect)
    → AllInside bounds parts
    → AllInside bounds (join_at i j parts)
unfolding join_at
join_at-AllInside bounds zero zero parts v = v
join_at-AllInside bounds (suc i) zero parts v = v
join_at-AllInside bounds zero (suc j) [] v = v
join_at-AllInside bounds (suc i) (suc j) [] v = v
join_at-AllInside bounds (suc i) (suc j) (r ∷ rs) v = (v.0, join_at-AllInside bounds i j rs v.1)
join_at-AllInside bounds zero (suc j) (r ∷ rs) v =
    join_with-AllInside bounds r (get_elem? rs j) j rs refl v
