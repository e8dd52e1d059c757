-- ===== src/PartialRedraw/Parts.antt =====
-- PartialRedraw.cpp: what `Gather` makes of the places, on each branch.
use android_hardware_nvidia.PartialRedraw.Few.{join_least_ends}
use android_hardware_nvidia.PartialRedraw.Covers.{
  AllInside, IsBuffer, covered-fit_all, covered-join_at, covers-join, fit_all-AllInside,
  join_at-AllInside, join_inside,
}
use android_hardware_nvidia.Rect.Contains.{Contains}
use Prim.Native.Nat.{max, min}
use android_hardware_nvidia.PartialRedraw.Gather.{
  Engine, bounds_from, bounds_of, first_idle, fit_all, gather, join, join_at, join_idle,
  join_idle_if, join_least, join_near, least, most_parts, near_pair, pairs_from, partner_of,
}
use android_hardware_nvidia.Rect.{IRect, covered, covers}
use android_hardware_nvidia.Prelude.{
  Bool, Bool-cases, List, [], arith, false, if◌then◌else◌, inl, inr, is_nil, length, ltb, none,
  refl, some, suc, true, zero, ℕ, ℤ, ◌==◌, ◌||◌, ◌∷◌, ◌≡◌, ◌≤◌,
}

-- `q` says of parts what joining two of them keeps.
module _ (q : List IRect → Type 0)
    (kept : (i j : ℕ) (ps : List IRect) → q ps → q (join_at i j ps)) where
  if_keeps : (b : Bool) {ps rs : List IRect} → q ps → q rs → q (if b then ps else rs)
  if_keeps true h k = h
  if_keeps false h k = k

  nil_or : (ps : List IRect) {rs : List IRect} → q ps → q rs → q (if is_nil ps then [] else rs)
  nil_or [] h k = h
  nil_or (p ∷ ps) h k = k

  join_near_keeps : (fuel : ℕ) (parts : List IRect) → q parts → q (join_near fuel parts)
  unfolding join_near
  join_near_keeps zero parts h = h
  join_near_keeps (suc fuel) parts h =
      elim (near_pair parts)
        as (λ o. q (elim o [ none ↦ parts | some (i, j) ↦ join_near fuel (join_at i j parts) ])) [
          | none ↦ h
          | some (i, j) ↦ (join_near_keeps fuel (join_at i j parts) (kept i j parts h))
        ]

  join_idle_keeps :
      (places : List IRect) (fuel : ℕ) (parts : List IRect)
      → q parts
      → q (join_idle places fuel parts)
  unfolding join_idle
  join_idle_keeps places zero parts h = h
  join_idle_keeps places (suc fuel) parts h =
      elim (first_idle places parts)
        as (λ o. q (elim o [
          | none ↦ parts
          | some (i, r) ↦
              let j = partner_of places i r parts in
              let rest = join_idle places fuel (join_at (min i j) (max i j) parts) in
              if length parts == 1 then parts else rest
        ])) [
          | none ↦ h
          | some (i, r) ↦
              let j = partner_of places i r parts in
              let next =
                join_idle_keeps places fuel (join_at (min i j) (max i j) parts)
                  (kept (min i j) (max i j) parts h) in
              if_keeps (length parts == 1) h next
        ]

  join_least_keeps : (fuel : ℕ) (parts : List IRect) → q parts → q (join_least fuel parts)
  unfolding join_least
  join_least_keeps zero parts h = h
  join_least_keeps (suc fuel) parts h =
      elim (pairs_from 0 parts)
        as (λ pairs. q (elim pairs [
          | [] ↦ parts
          | p ∷ ps ↦
              let best = least p ps in
              let rest = join_least fuel (join_at best.first best.second parts) in
              if ltb most_parts (length parts) then rest else parts
        ])) [
          | [] ↦ h
          | p ∷ ps ↦
              let best = least p ps in
              let next =
                join_least_keeps fuel (join_at best.first best.second parts)
                  (kept best.first best.second parts h) in
              (if_keeps (ltb most_parts (length parts)) next h)
        ]

  gather_keeps :
      (places : List IRect) (bounds : IRect) (members : List IRect) (engine : Engine)
      → engine.draws_many_parts ≡ true
      → q (fit_all bounds places)
      → q (gather places bounds members engine)
  unfolding gather join_idle_if
  gather_keeps places bounds members engine m h =
      let parts = fit_all bounds places in
      let near = join_near_keeps (length parts) parts h in
      let idle =
        join_idle_keeps members (length (join_near (length parts) parts))
          (join_near (length parts) parts) near in
      let drawn = if_keeps engine.draws_empty_part near idle in
      rw m (
        nil_or (fit_all bounds places) h (
          join_least_keeps
            (length (join_idle_if engine.draws_empty_part members (join_near (length parts) parts)))
            _ drawn))

bounds_from-Contains :
    (bounds box : IRect) (rs : List IRect)
    → Contains bounds box
    → AllInside bounds rs
    → Contains bounds (bounds_from box rs)
unfolding bounds_from
bounds_from-Contains bounds box [] h v = h
bounds_from-Contains bounds box (r ∷ rs) h v =
    bounds_from-Contains bounds (join box r) rs (join_inside bounds box r h v.0) v.1

bounds_from-covers :
    (box : IRect) (rs : List IRect) (x y : ℤ)
    → (covers box x y || covered rs x y) ≡ true
    → covers (bounds_from box rs) x y ≡ true
unfolding bounds_from covered
bounds_from-covers box [] x y h = ground arith
bounds_from-covers box (r ∷ rs) x y h =
    let joined = covers-join box r x y in
    bounds_from-covers (join box r) rs x y (ground (arith, joined))

-- The box, in place of the parts.
boxed_parts :
    (bounds : IRect) (parts : List IRect)
    → AllInside bounds parts
    → let boxed = if is_nil parts then [] else bounds_of parts ∷ [] in
      ((x y : ℤ) → covered parts x y ≡ true → covered boxed x y ≡ true)
      × AllInside bounds boxed
      × (length boxed ≤ 1)
unfolding bounds_of covered
boxed_parts bounds [] v = (λ x y h. h, tt, omega arith)
boxed_parts bounds (r ∷ rs) v = (
  λ x y h. rw (bounds_from-covers r rs x y h) refl,
  (bounds_from-Contains bounds r rs v.0 v.1, tt),
  omega arith,
)

gather_whole :
    (places : List IRect) (bounds : IRect) (members : List IRect) (engine : Engine)
    → engine.draws_many_parts ≡ false
    → let parts = fit_all bounds places in
      gather places bounds members engine ≡ (if is_nil parts then [] else bounds_of parts ∷ [])
unfolding gather
gather_whole places bounds members engine one = rw one refl

few_or :
    (b : Bool) (rs : List IRect)
    → length rs ≤ most_parts
    → length (if b then [] else rs) ≤ most_parts
few_or true rs h = omega arith
few_or false rs h = h

gather_few :
    (places : List IRect) (bounds : IRect) (members : List IRect) (engine : Engine)
    → engine.draws_many_parts ≡ true
    → length (gather places bounds members engine) ≤ most_parts
unfolding gather
gather_few places bounds members engine many =
    let parts = fit_all bounds places in
    let drawn = join_idle_if engine.draws_empty_part members (join_near (length parts) parts) in
    let few = join_least_ends (length drawn) drawn (omega arith) in
    rw many (few_or (is_nil parts) (join_least (length drawn) drawn) few)

-- What the places to draw come to, for any engine: every pixel of the buffer that lies in a place lies
-- in a part, all parts lie in the buffer, and there are at most four of them, or one where the engine
-- draws a picture in one go.
pub gather_parts :
    (places : List IRect) (bounds : IRect) (members : List IRect) (engine : Engine)
    → IsBuffer bounds
    → let parts = gather places bounds members engine in
      ((x y : ℤ) → covers bounds x y ≡ true → covered places x y ≡ true → covered parts x y ≡ true)
      × AllInside bounds parts
      × (length parts ≤ most_parts)
      × (engine.draws_many_parts ≡ false → length parts ≤ 1)
gather_parts places bounds members engine o = elim (Bool-cases engine.draws_many_parts) [
  | inl many ↦ (
    λ x y b h.
        gather_keeps (λ ps. covered ps x y ≡ true) (λ i j ps. covered-join_at i j ps x y) places
          bounds members engine many (covered-fit_all bounds places x y o b h),
    gather_keeps (AllInside bounds) (join_at-AllInside bounds) places bounds members engine many
        (fit_all-AllInside bounds places),
    gather_few places bounds members engine many,
    λ one. cc,
  )
  | inr one ↦
      let (all, inside, few) =
        boxed_parts bounds (fit_all bounds places) (fit_all-AllInside bounds places) in
      let whole = gather_whole places bounds members engine one in
      (
        λ x y b h. rw whole (all x y (covered-fit_all bounds places x y o b h)),
        rw whole inside,
        rw whole (omega arith),
        λ _. rw whole few,
      )
]
