-- ===== src/CacheBudget/Victims.antt =====
-- CacheBudget.h: what is let go is what was asked for longest ago.
use android_hardware_nvidia.CacheBudget.{pick_from, pick_victim}
use android_hardware_nvidia.Prelude.{
  All, Bool, List, Option, [], ap, arith, false, get_elem?, if◌then◌else◌, inl, inr, leb, ltb, none,
  refl, some, suc, true, ℕ, ◌+◌, ◌<◌, ◌∙◌, ◌∷◌, ◌≡◌, ◌≤◌, ◌⊎◌,
}

-- Beside the victim, the image is in hand or was asked for no earlier.
abbrev pub IsNoOlder : ℕ → Option (ℕ × ℕ) → ℕ → Type 0
IsNoOlder protect_from none used = protect_from ≤ used
IsNoOlder protect_from (some v) used = (protect_from ≤ used) ⊎ (v.1 ≤ used)

abbrev pub MayGo : ℕ → Option (ℕ × ℕ) → Type 0
MayGo protect_from none = Unit {0}
MayGo protect_from (some v) = v.1 < protect_from

-- A victim found after another is no younger.
abbrev NoYounger : Option (ℕ × ℕ) → Option (ℕ × ℕ) → Type 0
NoYounger none o = Unit {0}
NoYounger (some v) none = ⊥
NoYounger (some v) (some w) = w.1 ≤ v.1

-- The victim is the one that the loop came with, or stands in the rest.
abbrev pub IsFrom : ℕ → Option (ℕ × ℕ) → List ℕ → Option (ℕ × ℕ) → Type 0
IsFrom i victim uses none = victim ≡ none
IsFrom i victim uses (some v) =
    (victim ≡ some v) ⊎ ((j : ℕ) × (v.0 ≡ i + j) × (get_elem? uses j ≡ some v.1))

abbrev pub Picks : ℕ → ℕ → Option (ℕ × ℕ) → List ℕ → Option (ℕ × ℕ) → Type 0
Picks protect_from i victim uses o =
    MayGo protect_from o
    × All (IsNoOlder protect_from o) uses
    × NoYounger victim o
    × IsFrom i victim uses o

module _ (protect_from i used : ℕ) (uses : List ℕ) where
  Picks-kept :
      (victim o : Option (ℕ × ℕ))
      → IsNoOlder protect_from victim used
      → Picks protect_from (suc i) victim uses o
      → Picks protect_from i victim (used ∷ uses) o
  Picks-kept none none h (m, a, y, f) = (m, (h, a), y, f)
  Picks-kept (some v) none h (m, a, y, f) = elim y [ ]
  Picks-kept none (some w) h (m, a, y, inl e) = cc
  Picks-kept none (some w) h (m, a, y, inr (j, k, g)) =
      (m, (inl h, a), y, inr (suc j, omega (arith, k), g))
  Picks-kept (some v) (some w) h (m, a, y, f) = (m, (no_older h, a), y, later f)
    where
      no_older : (protect_from ≤ used) ⊎ (v.1 ≤ used) → (protect_from ≤ used) ⊎ (w.1 ≤ used)
      no_older (inl k) = inl k
      no_older (inr k) = inr (omega (arith, k, y))

      later : IsFrom (suc i) (some v) uses (some w) → IsFrom i (some v) (used ∷ uses) (some w)
      later (inl e) = inl e
      later (inr (j, k, g)) = inr (suc j, omega (arith, k), g)

  Picks-taken :
      (victim o : Option (ℕ × ℕ))
      → NoYounger victim (some (i, used))
      → Picks protect_from (suc i) (some (i, used)) uses o
      → Picks protect_from i victim (used ∷ uses) o
  Picks-taken victim none h (m, a, y, f) = elim y [ ]
  Picks-taken victim (some w) h (m, a, y, f) = (m, (inr y, a), older victim h, inr (stands f))
    where
      older : (v : Option (ℕ × ℕ)) → NoYounger v (some (i, used)) → NoYounger v (some w)
      older none k = tt
      older (some v) k = omega (arith, k, y)

      stands :
          IsFrom (suc i) (some (i, used)) uses (some w)
          → (j : ℕ) × (w.0 ≡ i + j) × (get_elem? (used ∷ uses) j ≡ some w.1)
      stands (inl e) = (0, ground (arith, e), ground (arith, e))
      stands (inr (j, k, g)) = (suc j, omega (arith, k), g)

if_either :
    (P : Option (ℕ × ℕ) → Type 0) (b : Bool) (s t : Option (ℕ × ℕ))
    → (b ≡ true → P s)
    → (b ≡ false → P t)
    → P (if b then s else t)
if_either P true s t h k = h refl
if_either P false s t h k = k refl

Picks-cases :
    (protect_from i used : ℕ) (uses : List ℕ) (victim taken kept : Option (ℕ × ℕ))
    → used < protect_from
    → Picks protect_from (suc i) (some (i, used)) uses taken
    → Picks protect_from (suc i) victim uses kept
    → Picks protect_from i victim
        (used ∷ uses)
        (elim victim [ none ↦ taken | some (_, best) ↦ if ltb used best then taken else kept ])
Picks-cases protect_from i used uses none taken kept h t k =
    Picks-taken protect_from i used uses none taken tt t
Picks-cases protect_from i used uses (some v) taken kept h t k =
    if_either (Picks protect_from i (some v) (used ∷ uses)) (ltb used v.1) taken kept
      (λ older. Picks-taken protect_from i used uses (some v) taken (ground arith) t)
      (λ younger. Picks-kept protect_from i used uses (some v) kept (inr (ground arith)) k)

in_hand :
    (protect_from used : ℕ) (victim : Option (ℕ × ℕ))
    → protect_from ≤ used
    → IsNoOlder protect_from victim used
in_hand protect_from used none h = h
in_hand protect_from used (some v) h = inl h

pick_from-Picks :
    (protect_from i : ℕ) (victim : Option (ℕ × ℕ)) (uses : List ℕ)
    → MayGo protect_from victim
    → Picks protect_from i victim uses (pick_from protect_from i victim uses)
unfolding pick_from
pick_from-Picks protect_from i none [] m = (m, tt, tt, refl)
pick_from-Picks protect_from i (some v) [] m = (m, tt, omega arith, inl refl)
pick_from-Picks protect_from i victim (used ∷ uses) m =
    let kept = pick_from-Picks protect_from (suc i) victim uses m in
    if_either (Picks protect_from i victim (used ∷ uses)) (leb protect_from used) _ _
      (λ held.
        Picks-kept protect_from i used uses victim _
          (in_hand protect_from used victim (ground arith)) kept)
      (λ free.
        let may : used < protect_from = ground arith in
        Picks-cases protect_from i used uses victim _ _ may
          (pick_from-Picks protect_from (suc i) (some (i, used)) uses may) kept)

-- What is known of the image let go: none, with all of them in hand; or one that is not in hand, and no
-- other that is not was asked for before it.
abbrev pub IsVictim : List ℕ → ℕ → Option ℕ → Type 0
IsVictim uses protect_from none = All (λ used. protect_from ≤ used) uses
IsVictim uses protect_from (some i) =
    (best : ℕ) × (get_elem? uses i ≡ some best)
    × (best < protect_from)
    × All (λ used. (protect_from ≤ used) ⊎ (best ≤ used)) uses

-- An image is let go unless all of them are in hand; it stands in the cache, is not in hand, and none
-- of the others that are not in hand was asked for before it.
pub pick_victim-IsVictim :
    (uses : List ℕ) (protect_from : ℕ) → IsVictim uses protect_from (pick_victim uses protect_from)
unfolding pick_victim
pick_victim-IsVictim uses protect_from =
    go (pick_from protect_from 0 none uses) (pick_from-Picks protect_from 0 none uses tt)
  where
    go :
        (o : Option (ℕ × ℕ))
        → Picks protect_from 0 none uses o
        → IsVictim uses protect_from (elim o [ none ↦ none | some (i, _) ↦ some i ])
    go none (m, a, y, f) = a
    go (some v) (m, a, y, inl e) = cc
    go (some v) (m, a, y, inr (j, k, g)) = (v.1, ap (get_elem? uses) (omega (arith, k)) ∙ g, m, a)
