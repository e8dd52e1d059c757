-- ===== src/PartialRedraw/Gather.antt =====
-- compositor/PartialRedraw.cpp: the places to draw, as the parts that an engine can take.
use Prim.Native.Nat.{max, min}
use android_hardware_nvidia.Rect.{IRect, height, is_empty, width}
use android_hardware_nvidia.Prelude.{
  Bool, List, Option, [], false, get_elem?, if◌then◌else◌, is_nil, leb_ℤ, length, ltb, ltb_ℤ, max_ℤ,
  min_ℤ, negsuc, none, not, pos, pos_part, some, sub_ℕ, suc, zero, ℕ, ℤ, ◌&&◌, ◌*◌, ◌++◌, ◌+ℤ◌, ◌+◌,
  ◌-ℤ◌, ◌-◌, ◌/◌, ◌==◌, ◌||◌, ◌∷◌,
}

abbrev pub most_parts : ℕ
most_parts = 4

abbrev pub part_pixels : ℕ
part_pixels = 65536

pub record Engine : Type 0 where
  pub draws_scaled_in_part : Bool
  pub draws_many_parts : Bool
  pub draws_empty_part : Bool

-- `v / grain * grain`, where the division rounds towards nought.
unfoldable pub down : ℤ → ℕ → ℤ
down (pos n) grain = pos (n / grain * grain)
down (negsuc n) grain = sub_ℕ 0 (suc n / grain * grain)

unfoldable pub up : ℤ → ℕ → ℤ
unfolding down
up v grain = down (v +ℤ pos (grain - 1)) grain

unfoldable pub join : IRect → IRect → IRect
join a b = record {
  left = min_ℤ a.left b.left;
  top = min_ℤ a.top b.top;
  right = max_ℤ a.right b.right;
  bottom = max_ℤ a.bottom b.bottom;
}

unfoldable pub area_of : IRect → ℕ
area_of r = if is_empty r then 0 else pos_part (width r) * pos_part (height r)

unfoldable pub meet : IRect → IRect → Bool
meet a b =
    ltb_ℤ a.left b.right && ltb_ℤ b.left a.right && ltb_ℤ a.top b.bottom && ltb_ℤ b.top a.bottom

unfoldable pub growth : IRect → IRect → ℤ
unfolding area_of
growth a b = pos (area_of (join a b)) -ℤ pos (area_of a) -ℤ pos (area_of b)

-- The box around some parts.
unfoldable pub bounds_from : IRect → List IRect → IRect
bounds_from box [] = box
bounds_from box (r ∷ rs) = bounds_from (join box r) rs

abbrev pub no_rect : IRect
no_rect = record { left = pos 0; top = pos 0; right = pos 0; bottom = pos 0 }

unfoldable pub bounds_of : List IRect → IRect
bounds_of [] = no_rect
bounds_of (r ∷ rs) = bounds_from r rs

unfoldable pub area : List IRect → ℕ
unfolding area_of
area [] = 0
area (r ∷ rs) = area_of r + area rs

-- A place on the engine's edges, inside the buffer.
unfoldable pub fit : IRect → IRect → IRect
fit bounds r = record {
  left = max_ℤ (down r.left 16) bounds.left;
  top = max_ℤ (down r.top 2) bounds.top;
  right = min_ℤ (up r.right 16) bounds.right;
  bottom = min_ℤ (up r.bottom 2) bounds.bottom;
}

unfoldable pub fit_all : IRect → List IRect → List IRect
fit_all bounds [] = []
fit_all bounds (r ∷ rs) =
    let p = fit bounds r in if is_empty p then fit_all bounds rs else p ∷ fit_all bounds rs

abbrev pub erase : List IRect → ℕ → List IRect
erase [] j = []
erase (r ∷ rs) zero = rs
erase (r ∷ rs) (suc j) = r ∷ erase rs j

unfoldable pub join_with : IRect → Option IRect → ℕ → List IRect → List IRect
join_with r none j rs = r ∷ rs
join_with r (some s) j rs = join r s ∷ erase rs j

-- The lambda `join`: part `j` goes into part `i`, which stands before it.
unfoldable pub join_at : ℕ → ℕ → List IRect → List IRect
unfolding join_with
join_at zero (suc j) (r ∷ rs) = join_with r (get_elem? rs j) j rs
join_at (suc i) (suc j) (r ∷ rs) = r ∷ join_at i j rs
join_at _ _ rs = rs

-- Whether two parts are drawn as one.
unfoldable pub is_near : IRect → IRect → Bool
is_near a b = meet a b || leb_ℤ (growth a b) (pos part_pixels)

unfoldable pub first_near : IRect → List IRect → Option ℕ
first_near r [] = none
first_near r (s ∷ ss) =
    let rest = first_near r ss in
    if is_near r s then some 0 else elim rest [ none ↦ none | some j ↦ some (suc j) ]

-- The first two parts that are near, in the order of the loops.
unfoldable pub near_pair : List IRect → Option (ℕ × ℕ)
near_pair [] = none
near_pair (r ∷ rs) = elim (first_near r rs) [
  | some j ↦ some (0, suc j)
  | none ↦ elim (near_pair rs) [ none ↦ none | some (i, j) ↦ some (suc i, suc j) ]
]

-- The first loop. Each round joins two parts, so as many rounds as there are parts are enough.
unfoldable pub join_near : ℕ → List IRect → List IRect
join_near zero parts = parts
join_near (suc fuel) parts = elim (near_pair parts) [
  | none ↦ parts
  | some (i, j) ↦ join_near fuel (join_at i j parts)
]

-- `places` are those of the members.
unfoldable pub draws_something : List IRect → IRect → Bool
draws_something [] part = false
draws_something (p ∷ ps) part = meet p part || draws_something ps part

-- The first part in which no member lands: where the second loop stops, which starts again after it
-- has joined one.
unfoldable pub first_idle : List IRect → List IRect → Option (ℕ × IRect)
first_idle places [] = none
first_idle places (r ∷ rs) =
    let rest = first_idle places rs in
    if draws_something places r
    then elim rest [ none ↦ none | some (i, s) ↦ some (suc i, s) ]
    else some (0, r)

-- The loop over `j`, with the best so far.
unfoldable pub best_partner : List IRect → ℕ → IRect → ℕ → List IRect → ℕ × IRect → ℕ × IRect
best_partner places i r j [] best = best
best_partner places i r j (s ∷ ss) best = best_partner places i r (suc j) ss (
    if not (j == i) && draws_something places s && ltb_ℤ (growth r s) (growth r best.1)
    then (j, s)
    else best)

-- What an idle part is joined with: the second part if it is the first, else the first, unless one that
-- draws grows less.
unfoldable pub partner_of : List IRect → ℕ → IRect → List IRect → ℕ
partner_of places i r parts =
    let first = if i == 0 then 1 else 0 in
    elim (get_elem? parts first) [
      | none ↦ first
      | some s ↦ (best_partner places i r 0 parts (first, s)).0
    ]

-- The second loop.
unfoldable pub join_idle : List IRect → ℕ → List IRect → List IRect
join_idle places zero parts = parts
join_idle places (suc fuel) parts = elim (first_idle places parts) [
  | none ↦ parts
  | some (i, r) ↦
      let j = partner_of places i r parts in
      let rest = join_idle places fuel (join_at (min i j) (max i j) parts) in
      if length parts == 1 then parts else rest
]

pub record Pair : Type 0 where
  pub first : ℕ
  pub second : ℕ
  pub grows : ℤ

unfoldable pub pairs_with : ℕ → IRect → ℕ → List IRect → List Pair
pairs_with i r j [] = []
pairs_with i r j (s ∷ ss) =
    record { first = i; second = j; grows = growth r s } ∷ pairs_with i r (suc j) ss

-- All pairs in the order of the loops.
unfoldable pub pairs_from : ℕ → List IRect → List Pair
pairs_from i [] = []
pairs_from i (r ∷ rs) = pairs_with i r (suc i) rs ++ pairs_from (suc i) rs

unfoldable pub least : Pair → List Pair → Pair
least best [] = best
least best (p ∷ ps) = least (if ltb_ℤ p.grows best.grows then p else best) ps

-- The third loop.
unfoldable pub join_least : ℕ → List IRect → List IRect
join_least zero parts = parts
join_least (suc fuel) parts = elim (pairs_from 0 parts) [
  | [] ↦ parts
  | p ∷ ps ↦
      let best = least p ps in
      let rest = join_least fuel (join_at best.first best.second parts) in
      if ltb most_parts (length parts) then rest else parts
]

unfoldable pub join_idle_if : Bool → List IRect → List IRect → List IRect
join_idle_if draws_empty places parts =
    if draws_empty then parts else join_idle places (length parts) parts

unfoldable pub gather : List IRect → IRect → List IRect → Engine → List IRect
gather places bounds members engine =
    let parts = fit_all bounds places in
    if is_nil parts
    then []
    else if not engine.draws_many_parts
    then bounds_of parts ∷ []
    else let near = join_near (length parts) parts in
      let drawn = join_idle_if engine.draws_empty_part members near in
      join_least (length drawn) drawn
