-- ===== src/PartialRedraw/Few.antt =====
-- PartialRedraw.cpp: the last loop of `Gather`, which leaves few parts.
use android_hardware_nvidia.PartialRedraw.Near.{length-join_at}
use android_hardware_nvidia.PartialRedraw.Gather.{
  Pair, join_at, join_least, least, most_parts, pairs_from, pairs_with,
}
use android_hardware_nvidia.Rect.{IRect}
use android_hardware_nvidia.Prelude.{
  All, Bool-cases, List, [], arith, inl, inr, length, ltb_ℤ, refl, suc, zero, ℕ, ◌++◌, ◌+◌, ◌<◌,
  ◌∷◌, ◌≡◌, ◌≤◌, ◌⊎◌,
}
use mathlib.Core.Path.{subst}

List-cases {ℓ} :
    {A : Type ℓ} (xs : List A) → (xs ≡ []) ⊎ ((x : A) × (rest : List A) × (xs ≡ x ∷ rest))
List-cases [] = inl refl
List-cases (x ∷ xs) = inr (x, xs, refl)

abbrev IsPair : ℕ → Pair → Type 0
IsPair n p = (p.first < p.second) × (p.second < n)

pairs_with-IsPair :
    (n i : ℕ) (r : IRect) (j : ℕ) (ss : List IRect)
    → i < j
    → j + length ss ≤ n
    → All (IsPair n) (pairs_with i r j ss)
unfolding pairs_with
pairs_with-IsPair n i r j [] h l = tt
pairs_with-IsPair n i r j (s ∷ ss) h l =
    ((h, omega arith), pairs_with-IsPair n i r (suc j) ss (omega arith) (omega arith))

All-append : {A : Type 0} (P : A → Type 0) (xs ys : List A) → All P xs → All P ys → All P (xs ++ ys)
All-append P [] ys h k = k
All-append P (x ∷ xs) ys (p, h) k = (p, All-append P xs ys h k)

pairs_from-IsPair :
    (n i : ℕ) (rs : List IRect) → i + length rs ≤ n → All (IsPair n) (pairs_from i rs)
unfolding pairs_from
pairs_from-IsPair n i [] l = tt
pairs_from-IsPair n i (r ∷ rs) l =
    All-append (IsPair n) (pairs_with i r (suc i) rs) (pairs_from (suc i) rs)
      (pairs_with-IsPair n i r (suc i) rs (omega arith) (omega arith))
      (pairs_from-IsPair n (suc i) rs (omega arith))

least-IsPair :
    (n : ℕ) (best : Pair) (ps : List Pair)
    → IsPair n best
    → All (IsPair n) ps
    → IsPair n (least best ps)
unfolding least
least-IsPair n best [] h k = h
least-IsPair n best (p ∷ ps) h (k, ks) = elim (Bool-cases (ltb_ℤ p.grows best.grows)) [
  | inl e ↦ rw (e, least) (least-IsPair n p ps k ks)
  | inr e ↦ rw (e, least) (least-IsPair n best ps h ks)
]

no_pairs : (i : ℕ) (rs : List IRect) → pairs_from i rs ≡ [] → length rs ≤ most_parts
unfolding pairs_from pairs_with
no_pairs i [] e = omega arith
no_pairs i (r ∷ []) e = omega arith
no_pairs i (r ∷ s ∷ rs) e = cc

-- With as many rounds as there are parts, few enough are left.
pub join_least_ends :
    (fuel : ℕ) (parts : List IRect)
    → length parts ≤ fuel
    → length (join_least fuel parts) ≤ most_parts
unfolding join_least
join_least_ends zero parts h = omega arith
join_least_ends (suc fuel) parts h =
    let valid = pairs_from-IsPair (length parts) 0 parts (omega arith) in
    elim (List-cases (pairs_from 0 parts)) [
      | inl e ↦ rw (e, join_least) (no_pairs 0 parts e)
      | inr (p, ps, e) ↦
          let valid' : All (IsPair (length parts)) (p ∷ ps) =
            subst (All (IsPair (length parts))) e valid in
          let (less, in') = least-IsPair (length parts) p ps valid'.0 valid'.1 in
          let best = least p ps in
          let one_less = length-join_at best.first best.second parts less in' in
          let rest = join_least_ends fuel (join_at best.first best.second parts) (omega arith) in
          rw (e, join_least) (ground (arith, rest))
    ]
