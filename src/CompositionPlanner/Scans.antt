-- ===== src/CompositionPlanner/Scans.antt =====
-- GenericCompositionPlanner.cpp: the range of the layers that only the client can draw, and the pixels of
-- a range.
use android_hardware_nvidia.CompositionPlanner.Layers.{HwcLayer}
use android_hardware_nvidia.CompositionPlanner.Ranges.{Range, client_range, with_place}
use android_hardware_nvidia.Rect.{within}
use android_hardware_nvidia.Prelude.{
  Bool, Bool-cases, List, [], arith, false, if◌then◌else◌, inl, inr, length, suc, true, ℕ, ◌+◌, ◌<◌,
  ◌==◌, ◌∷◌, ◌≡◌, ◌≤◌,
}

-- The range holds the places of all layers of the client.
abbrev pub HoldsFrom : (HwcLayer → Bool) → ℕ → Range → List HwcLayer → Type 0
HoldsFrom is_client z r [] = Unit {0}
HoldsFrom is_client z r (l ∷ ls) =
    (is_client l ≡ true → (r.start ≤ z) × (z < r.start + r.size)) × HoldsFrom is_client (suc z) r ls

-- The one range lies in the other, if it is not empty.
abbrev pub Within : Range → Range → Type 0
Within r s = 0 < r.size → (s.start ≤ r.start) × (r.start + r.size ≤ s.start + s.size)

pub Within-trans : (r s t : Range) → r.size ≤ s.size → Within r s → Within s t → Within r t
Within-trans r s t le h k more = ground (arith, h more, k)

pub HoldsFrom-Within :
    (is_client : HwcLayer → Bool) (z : ℕ) (r s : Range) (ls : List HwcLayer)
    → Within r s
    → HoldsFrom is_client z r ls
    → HoldsFrom is_client z s ls
HoldsFrom-Within is_client z r s [] w h = tt
HoldsFrom-Within is_client z r s (l ∷ ls) w (h, hs) =
    (λ c. ground (arith, h c, w), HoldsFrom-Within is_client (suc z) r s ls w hs)

-- The range, with the place of a layer if it is the client's.
abbrev pub Grows : Bool → ℕ → Range → Range → Type 0
Grows taken z r q =
    (q.start + q.size ≤ suc z)
    × (r.size ≤ q.size)
    × Within r q
    × (taken ≡ true → (0 < q.size) × (q.start ≤ z) × (z < q.start + q.size))

pub with_place-Grows :
    (taken : Bool) (z : ℕ) (r : Range)
    → r.start + r.size ≤ z
    → Grows taken z r (if taken then with_place z r else r)
unfolding with_place
with_place-Grows true z r h = elim (Bool-cases (r.size == 0)) [
  | inl empty ↦ ground (arith, h, empty)
  | inr some_client ↦ ground (arith, h, some_client)
]
with_place-Grows false z r h =
    (omega (arith, h), omega arith, (λ _. (omega arith, omega arith)), (λ c. cc))

in_place :
    (z : ℕ) (q t : Range)
    → (0 < q.size) × (q.start ≤ z) × (z < q.start + q.size)
    → Within q t
    → (t.start ≤ z) × (z < t.start + t.size)
in_place z q t (some_client, from, to) w =
    let (a, b) = w some_client in (omega (arith, a, from), omega (arith, b, to))

pub client_range-HoldsFrom :
    (is_client : HwcLayer → Bool) (z : ℕ) (r : Range) (ls : List HwcLayer)
    → r.start + r.size ≤ z
    → let t = client_range is_client z r ls in
      (t.start + t.size ≤ z + length ls)
      × (r.size ≤ t.size)
      × Within r t
      × HoldsFrom is_client z t ls
unfolding client_range
client_range-HoldsFrom is_client z r [] h =
    (omega (arith, h), omega arith, (λ _. (omega arith, omega arith)), tt)
client_range-HoldsFrom is_client z r (l ∷ ls) h =
    let q = if is_client l then with_place z r else r in
    let (ends, wide, keeps, place) = with_place-Grows (is_client l) z r h in
    let (fits, wider, within, holds) = client_range-HoldsFrom is_client (suc z) q ls ends in
    (
      omega (arith, fits),
      omega (arith, wide, wider),
      Within-trans r q (client_range is_client (suc z) q ls) wide keeps within,
      ((λ c. in_place z q _ (place c) within), holds),
    )
