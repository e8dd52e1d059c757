-- ===== src/PartialRedraw/Near.antt =====
-- PartialRedraw.cpp: the first loop of `Gather`, which joins parts that are near.
use android_hardware_nvidia.PartialRedraw.Covers.{covered-join_at}
use android_hardware_nvidia.PartialRedraw.Gather.{
  erase, first_near, growth, is_near, join_at, join_near, join_with, meet, near_pair, part_pixels,
}
use android_hardware_nvidia.Rect.{IRect, covered}
use android_hardware_nvidia.Prelude.{
  All, Bool, List, Option-cases, [], arith, false, get_elem?, inl, inr, leb_ℤ, length, none, not,
  pos, refl, some, suc, true, zero, ℕ, ℤ, ◌<◌, ◌||◌, ◌∷◌, ◌≡◌, ◌≤◌,
}
use android_hardware_nvidia.Rect.{covered}

length-erase : (rs : List IRect) (j : ℕ) → j < length rs → suc (length (erase rs j)) ≡ length rs
length-erase [] j h = absurd (omega arith)
length-erase (r ∷ rs) zero h = refl
length-erase (r ∷ rs) (suc j) h = omega (arith, length-erase rs j (omega arith))

get_elem?-in : (rs : List IRect) (j : ℕ) → j < length rs → (s : IRect) × (get_elem? rs j ≡ some s)
get_elem?-in [] j h = absurd (omega arith)
get_elem?-in (r ∷ rs) zero h = (r, refl)
get_elem?-in (r ∷ rs) (suc j) h = get_elem?-in rs j (omega arith)

pub length-join_at :
    (i j : ℕ) (parts : List IRect)
    → i < j
    → j < length parts
    → suc (length (join_at i j parts)) ≡ length parts
unfolding join_at
length-join_at i zero parts h l = absurd (omega arith)
length-join_at i (suc j) [] h l = absurd (omega arith)
length-join_at (suc i) (suc j) (r ∷ rs) h l =
    omega (arith, length-join_at i j rs (omega arith) (omega arith))
length-join_at zero (suc j) (r ∷ rs) h l =
    let (s, there) = get_elem?-in rs j (omega arith) in
    rw there (unfold join_with in omega (arith, length-erase rs j (omega arith)))

first_near-in : (r : IRect) (ss : List IRect) (j : ℕ) → first_near r ss ≡ some j → j < length ss
unfolding first_near
first_near-in r [] j e = cc
first_near-in r (s ∷ ss) j e = elim (Option-cases (first_near r ss)) [
  | inl n ↦ ground arith
  | inr (k, f) ↦ let rest = first_near-in r ss k f in ground arith
]

near_pair-in :
    (parts : List IRect) (p : ℕ × ℕ) → near_pair parts ≡ some p → (p.0 < p.1) × (p.1 < length parts)
unfolding near_pair
near_pair-in [] p e = cc
near_pair-in (r ∷ rs) p e = elim (Option-cases (first_near r rs)) [
  | inr (k, f) ↦ let here = first_near-in r rs k f in ground arith
  | inl n ↦ elim (Option-cases (near_pair rs)) [
    | inl m ↦ ground arith
    | inr (q, f) ↦ let rest = near_pair-in rs q f in ground arith
  ]
]

-- Two parts share no pixel, and to draw them as one would add more than `part_pixels` pixels.
abbrev pub IsFar : IRect → IRect → Type 0
IsFar a b = (meet a b ≡ false) × (leb_ℤ (growth a b) (pos part_pixels) ≡ false)

abbrev pub AreFar : List IRect → Type 0
AreFar [] = Unit {0}
AreFar (r ∷ rs) = All (IsFar r) rs × AreFar rs

first_near-IsFar : (r : IRect) (ss : List IRect) → first_near r ss ≡ none → All (IsFar r) ss
unfolding first_near is_near
first_near-IsFar r [] e = tt
first_near-IsFar r (s ∷ ss) e = elim (Option-cases (first_near r ss)) [
  | inl n ↦ (ground (arith, e, n), first_near-IsFar r ss n)
  | inr (k, f) ↦ absurd (ground (arith, e, f))
]

near_pair-AreFar : (parts : List IRect) → near_pair parts ≡ none → AreFar parts
unfolding near_pair
near_pair-AreFar [] e = tt
near_pair-AreFar (r ∷ rs) e = elim (Option-cases (first_near r rs)) [
  | inr (k, f) ↦ absurd (ground (arith, e, f))
  | inl n ↦ elim (Option-cases (near_pair rs)) [
    | inl m ↦ (first_near-IsFar r rs n, near_pair-AreFar rs m)
    | inr (q, f) ↦ absurd (ground (arith, e, n, f))
  ]
]

join_near-AreFar :
    (fuel : ℕ) (parts : List IRect) → length parts ≤ fuel → AreFar (join_near fuel parts)
unfolding join_near
join_near-AreFar zero [] h = tt
join_near-AreFar zero (r ∷ rs) h = absurd (omega arith)
join_near-AreFar (suc fuel) parts h = elim (Option-cases (near_pair parts)) [
  | inl e ↦ rw (e, join_near) (near_pair-AreFar parts e)
  | inr (p, e) ↦
      let (less, in') = near_pair-in parts p e in
      let one_less = length-join_at p.0 p.1 parts less in' in
      rw (e, join_near) (join_near-AreFar fuel (join_at p.0 p.1 parts) (omega arith))
]

covered-join_near :
    (fuel : ℕ) (parts : List IRect) (x y : ℤ)
    → covered parts x y ≡ true
    → covered (join_near fuel parts) x y ≡ true
unfolding join_near
covered-join_near zero parts x y h = h
covered-join_near (suc fuel) parts x y h = elim (Option-cases (near_pair parts)) [
  | inl e ↦ rw (e, join_near) h
  | inr (p, e) ↦
      rw (e, join_near)
        (covered-join_near fuel (join_at p.0 p.1 parts) x y (covered-join_at p.0 p.1 parts x y h))
]

still_covered : (b c : Bool) → (b ≡ true → c ≡ true) → (not b || c) ≡ true
still_covered true c h = h refl
still_covered false c h = refl

-- With as many rounds as there are parts: of any two parts that are left, the two share no pixel, and drawing
-- them as one would add more pixels than a part costs; and a pixel that the parts covered is covered still.
pub join_near_settles :
    (fuel : ℕ) (parts : List IRect) (x y : ℤ)
    → length parts ≤ fuel
    → AreFar (join_near fuel parts)
      × ((not (covered parts x y) || covered (join_near fuel parts) x y) ≡ true)
join_near_settles fuel parts x y h = (
  join_near-AreFar fuel parts h,
  still_covered (covered parts x y) (covered (join_near fuel parts) x y)
      (covered-join_near fuel parts x y),
)
