-- ===== src/CompositionPlanner/Windows.antt =====
-- GenericCompositionPlanner.cpp: the sliding window. It finds the cheapest range, and tries all there are.
use android_hardware_nvidia.CompositionPlanner.Layers.{HwcLayer}
use android_hardware_nvidia.CompositionPlanner.Ranges.{
  Range, Search, calc_pix_ops, cheapest_range, slide, sum_pix_ops,
}
use android_hardware_nvidia.Rect.{width}
use android_hardware_nvidia.Prelude.{
  Bool, List, [], ap, arith, drop, false, if◌then◌else◌, inl, inr, ltb, refl, suc, sym, take, true,
  zero, ℕ, ◌%◌, ◌+◌, ◌-◌, ◌<◌, ◌^◌, ◌∙◌, ◌∷◌, ◌≡◌, ◌≤◌, ◌⊎◌,
}

abbrev pub pixels_of : List HwcLayer → ℕ
pixels_of [] = 0
pixels_of (l ∷ ls) = l.pix_ops + pixels_of ls

-- The pixels of a range, counted without bound.
abbrev pub range_pixels : List HwcLayer → ℕ → ℕ → ℕ
range_pixels layers from width = pixels_of (take width (drop from layers))

take-pixels : (n : ℕ) (ls : List HwcLayer) → pixels_of (take n ls) ≤ pixels_of ls
take-pixels zero ls = omega arith
take-pixels (suc n) [] = omega arith
take-pixels (suc n) (l ∷ ls) = omega (arith, take-pixels n ls)

drop-pixels : (n : ℕ) (ls : List HwcLayer) → pixels_of (drop n ls) ≤ pixels_of ls
drop-pixels zero ls = omega arith
drop-pixels (suc n) [] = omega arith
drop-pixels (suc n) (l ∷ ls) = omega (arith, drop-pixels n ls)

range-pixels :
    (layers : List HwcLayer) (from width : ℕ) → range_pixels layers from width ≤ pixels_of layers
range-pixels layers from width =
    omega (arith, take-pixels width (drop from layers), drop-pixels from layers)

sum_pix_ops-pixels :
    (n : ℕ) (ls : List HwcLayer) → n + pixels_of ls < 2 ^ 32 → sum_pix_ops n ls ≡ n + pixels_of ls
sum_pix_ops-pixels n [] h = omega arith
sum_pix_ops-pixels n (l ∷ ls) h =
    let fits : (n + l.pix_ops) % 2 ^ 32 ≡ n + l.pix_ops = omega (arith, h) in
    let rest = sum_pix_ops-pixels ((n + l.pix_ops) % 2 ^ 32) ls (omega (arith, h, fits)) in
    omega (arith, rest, fits)

-- Few enough pixels in all that no count of them wraps, nor is as great as what the search starts from.
abbrev pub HaveFewPixels : List HwcLayer → Type 0
HaveFewPixels layers = pixels_of layers < 2 ^ 32 - 1

pub calc_pix_ops-pixels :
    (layers : List HwcLayer) (from width : ℕ)
    → HaveFewPixels layers
    → calc_pix_ops layers from width ≡ range_pixels layers from width
unfolding calc_pix_ops
calc_pix_ops-pixels layers from width h =
    sum_pix_ops-pixels 0 (take width (drop from layers))
      (omega (arith, h, range-pixels layers from width))
    ∙ omega arith

-- What the window leaves, with the best before it: no start tried is better, and it is the best before or
-- one of those tried.
abbrev IsBest : List HwcLayer → ℕ → ℕ → ℕ → ℕ × ℕ → ℕ × ℕ → Type 0
IsBest layers width from steps best r =
    (r.0 ≤ best.0)
    × ((i : ℕ) → i < steps → r.0 ≤ calc_pix_ops layers (from + i) width)
    × ((r ≡ best)
        ⊎ ((i : ℕ) × (i < steps) × (r.1 ≡ from + i) × (r.0 ≡ calc_pix_ops layers r.1 width)))

-- The better of the best so far and a start that is tried.
better_of :
    (b : Bool) (best tried : ℕ × ℕ)
    → ltb tried.0 best.0 ≡ b
    → let next = if b then tried else best in
      (next.0 ≤ best.0) × (next.0 ≤ tried.0) × ((next ≡ best) ⊎ (next ≡ tried))
better_of true best tried e = (ground (arith, e), omega arith, inr refl)
better_of false best tried e = (omega arith, ground (arith, e), inl refl)

IsBest-earlier :
    (layers : List HwcLayer) (width from steps : ℕ) (best next r : ℕ × ℕ)
    → (next.0 ≤ best.0)
      × (next.0 ≤ calc_pix_ops layers from width)
      × ((next ≡ best) ⊎ (next ≡ (calc_pix_ops layers from width, from)))
    → IsBest layers width (suc from) steps next r
    → IsBest layers width from (suc steps) best r
IsBest-earlier layers width from steps best next r (less, cheap, which) (least, all, found) =
    (omega (arith, least, less), tried, chosen which found)
  where
    at :
        (i : ℕ)
        → calc_pix_ops layers (suc from + i) width ≡ calc_pix_ops layers (from + suc i) width
    at i = ap (λ z. calc_pix_ops layers z width) (omega arith)

    tried : (i : ℕ) → i < suc steps → r.0 ≤ calc_pix_ops layers (from + i) width
    tried zero h =
        let here : calc_pix_ops layers from width ≡ calc_pix_ops layers (from + 0) width =
          ap (λ z. calc_pix_ops layers z width) (omega arith) in
        omega (arith, least, cheap, here)
    tried (suc i) h = omega (arith, all i (omega (arith, h)), at i)

    chosen :
        ((next ≡ best) ⊎ (next ≡ (calc_pix_ops layers from width, from)))
        → ((r ≡ next)
            ⊎ ((i : ℕ) × (i < steps)
                × (r.1 ≡ suc from + i)
                × (r.0 ≡ calc_pix_ops layers r.1 width)))
        → (r ≡ best)
          ⊎ ((i : ℕ) × (i < suc steps) × (r.1 ≡ from + i) × (r.0 ≡ calc_pix_ops layers r.1 width))
    chosen (inl e) (inl k) = inl (k ∙ e)
    chosen (inr e) (inl k) =
        let same = k ∙ e in
        let place : r.1 ≡ from = ap (λ q. q.1) same in
        inr (
          0,
          omega arith,
          omega (arith, place),
          ap (λ q. q.0) same ∙ ap (λ z. calc_pix_ops layers z width) (sym place),
        )
    chosen e (inr (i, less', place, counts)) =
        inr (suc i, omega (arith, less'), omega (arith, place), counts)

slide-IsBest :
    (layers : List HwcLayer) (width from steps : ℕ) (best : ℕ × ℕ)
    → IsBest layers width from steps best (slide layers width from steps best)
unfolding slide
slide-IsBest layers width from zero best =
    (omega arith, (λ i h. absurd (omega (arith, h))), inl refl)
slide-IsBest layers width from (suc steps) best =
    let po = calc_pix_ops layers from width in
    let next = if ltb po best.0 then (po, from) else best in
    IsBest-earlier layers width from steps best next _
      (better_of (ltb po best.0) best (po, from) refl)
      (slide-IsBest layers width (suc from) steps next)

abbrev pub IsCheapest : List HwcLayer → Search → ℕ → Type 0
IsCheapest layers s chosen =
    (s.from ≤ chosen)
    × (chosen < s.from + s.steps)
    × ((start : ℕ)
        → s.from ≤ start
        → start < s.from + s.steps
        → range_pixels layers chosen s.width ≤ range_pixels layers start s.width)

IsBest-IsCheapest :
    (layers : List HwcLayer) (s : Search) (start : ℕ) (r : ℕ × ℕ)
    → HaveFewPixels layers
    → 0 < s.steps
    → IsBest layers s.width s.from s.steps (2 ^ 32 - 1, start) r
    → IsCheapest layers s r.1
IsBest-IsCheapest layers s start r few some_step (_, all, inl e) =
    let none_found : r.0 ≡ 2 ^ 32 - 1 = ap (λ q. q.0) e in
    absurd (
      omega (
        arith,
        all 0 some_step,
        calc_pix_ops-pixels layers (s.from + 0) s.width few,
        range-pixels layers (s.from + 0) s.width,
        few,
        none_found,
      ))
IsBest-IsCheapest layers s start r few some_step (_, all, inr (i, tried, place, counts)) =
    (omega (arith, place), omega (arith, place, tried), cheapest)
  where
    cheapest :
        (other : ℕ)
        → s.from ≤ other
        → other < s.from + s.steps
        → range_pixels layers r.1 s.width ≤ range_pixels layers other s.width
    cheapest other from to =
        let same : s.from + (other - s.from) ≡ other = omega (arith, from) in
        omega (
          arith,
          all (other - s.from) (omega (arith, from, to)),
          counts,
          ap (λ z. calc_pix_ops layers z s.width) same,
          calc_pix_ops-pixels layers r.1 s.width few,
          calc_pix_ops-pixels layers other s.width few,
        )

-- Of the starts that are tried, the window takes one from which the range has the fewest pixels.
pub cheapest_range-IsCheapest :
    (layers : List HwcLayer) (s : Search) (r : Range)
    → HaveFewPixels layers
    → 0 < s.steps
    → IsCheapest layers s (cheapest_range layers s r).start
unfolding cheapest_range
cheapest_range-IsCheapest layers s r few some_step =
    IsBest-IsCheapest layers s r.start _ few some_step
      (slide-IsBest layers s.width s.from s.steps (2 ^ 32 - 1, r.start))
