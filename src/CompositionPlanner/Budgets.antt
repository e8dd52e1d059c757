-- ===== src/CompositionPlanner/Budgets.antt =====
-- GenericCompositionPlanner.cpp: the extra range of the client is in its place, is the cheapest there is,
-- and leaves no more layers than there are planes.
use android_hardware_nvidia.CompositionPlanner.Layers.{HwcLayer}
use android_hardware_nvidia.CompositionPlanner.Scans.{Within}
use android_hardware_nvidia.CompositionPlanner.Ranges.{
  Budget, Range, budget_for, counted_budget, is_top_cursor, one_less, search_for,
}
use android_hardware_nvidia.Prelude.{
  Bool, Bool-cases, List, arith, false, if◌then◌else◌, inl, inr, length, ltb, not, refl, true, ℕ,
  ◌&&◌, ◌+◌, ◌-◌, ◌<◌, ◌==◌, ◌↔◌, ◌≡◌, ◌≤◌, ◌⊎◌,
}

-- The search looks at every range of its width that lies among the layers counted and holds the range of
-- the client.
pub search_for_complete :
    (b : Budget) (r : Range) (extra : ℕ)
    → r.start + r.size ≤ b.layers_size
    → extra ≤ b.layers_size - r.size
    → let s = search_for b r extra in
      (0 < s.steps)
      × (s.width ≡ r.size + extra)
      × ((start : ℕ)
          → ((s.from ≤ start) × (start < s.from + s.steps)) ↔ (
              (start + s.width ≤ b.layers_size)
              × Within r (record { start = start; size = s.width })))
unfolding search_for
search_for_complete b r extra h k = elim (Bool-cases (r.size == 0)) [
  | inl empty ↦
      let nothing : r.size ≡ 0 = ground (arith, empty) in
      rw (empty, search_for)
        (
          omega (arith, h, k),
          omega (arith, nothing),
          λ start. (
            (λ e. (
              omega (arith, e.0, e.1, k),
              λ some_client. absurd (omega (arith, nothing, some_client)),
            )),
            (λ e. (omega (arith, nothing), omega (arith, e.0, nothing, k))),
          ),
        )
  | inr held ↦
      let some_client : 0 < r.size = ground (arith, held) in
      rw (held, search_for)
        (
          omega (arith, h, k),
          refl,
          λ start. (
            (λ e. (
              omega (arith, e.0, e.1, h, k),
              λ _. (omega (arith, e.0, e.1, h, k), omega (arith, e.0, e.1, h, k)),
            )),
            (λ e.
                let (left, right) = e.1 some_client in
                (omega (arith, e.0, left, right, h, k), omega (arith, e.0, left, right, h, k))),
          ),
        )
]

-- What the budget is for layers of which the client's range leaves out those that are not counted.
abbrev pub Fair : ℕ → ℕ → Range → Budget → Type 0
Fair planes counted r b =
    (r.start + r.size ≤ b.layers_size)
    × (b.layers_size ≤ counted)
    × ((size : ℕ)
        → b.layers_size - size ≤ b.avail_planes
        → size ≤ b.layers_size
        → counted - size + (if size == 0 then 0 else 1) ≤ planes)

counted_budget-Fair :
    (planes size : ℕ) (r : Range) (use_cursor_plane : Bool)
    → 0 < planes
    → let b = counted_budget planes size use_cursor_plane in
      r.start + r.size ≤ b.layers_size → Fair planes b.layers_size r b
unfolding counted_budget
counted_budget-Fair planes size r use_cursor_plane p h =
    (h, omega arith, λ k e f. ground (arith, p, e, f))

-- One plane and one layer fewer: the layer is counted against the plane kept for it.
reserve_arith :
    (planes counted avail size : ℕ)
    → 0 < avail
    → ((planes < counted) × (avail ≡ planes - 1)) ⊎ ((counted ≤ planes) × (avail ≡ planes))
    → counted - 1 - size ≤ avail - 1
    → size ≤ counted - 1
    → 0 < counted
    → counted - size + (if size == 0 then 0 else 1) ≤ planes
reserve_arith planes counted avail size p (inl (scarce, a)) e f c =
    ground (arith, p, scarce, a, e, f, c)
reserve_arith planes counted avail size p (inr (plenty, a)) e f c =
    ground (arith, p, plenty, a, e, f, c)

counted_avail :
    (planes size : ℕ) (use_cursor_plane : Bool)
    → 0 < planes
    → let b = counted_budget planes size use_cursor_plane in
      ((planes < b.layers_size) × (b.avail_planes ≡ planes - 1))
      ⊎ ((b.layers_size ≤ planes) × (b.avail_planes ≡ planes))
unfolding counted_budget
counted_avail planes size use_cursor_plane p =
    let n = if use_cursor_plane then one_less size else size in
    elim (Bool-cases (ltb planes n)) [
      | inl scarce ↦ inl (ground (arith, scarce), ground (arith, scarce, p))
      | inr plenty ↦ inr (ground (arith, plenty), ground (arith, plenty))
    ]

if_fair :
    (P : Budget → Type 0) (more : Bool) (s t : Budget)
    → (more ≡ true → P s)
    → P t
    → P (if more then s else t)
if_fair P true s t h k = h refl
if_fair P false s t h k = k

pub budget_for-Fair :
    (planes : ℕ) (layers : List HwcLayer) (r : Range) (use_cursor_plane : Bool)
    → 0 < planes
    → let counted = (counted_budget planes (length layers) use_cursor_plane).layers_size in
      r.start + r.size ≤ counted
      → Fair planes counted r (budget_for planes layers r use_cursor_plane)
unfolding budget_for
budget_for-Fair planes layers r use_cursor_plane p h =
    let b = counted_budget planes (length layers) use_cursor_plane in
    if_fair (Fair planes b.layers_size r)
      (not use_cursor_plane
        && ltb 0 b.avail_planes
        && ltb 0 b.layers_size
        && ltb (r.start + r.size) b.layers_size
        && is_top_cursor layers)
      (record { avail_planes = b.avail_planes - 1; layers_size = b.layers_size - 1 }) b
      (λ more. (
        ground (arith, more),
        omega arith,
        λ size e f.
            reserve_arith planes b.layers_size b.avail_planes size (ground (arith, more))
              (counted_avail planes (length layers) use_cursor_plane p) e f (ground (arith, more)),
      ))
      (counted_budget-Fair planes (length layers) r use_cursor_plane p h)
