-- ===== src/MergeGroup/Moves.antt =====
-- MergeGroup.cpp: layers may change places where they do not overlap.
use android_hardware_nvidia.Prelude.{
  All, List, [], arith, false, inl, inr, suc, true, ℕ, ◌++◌, ◌<◌, ◌∷◌, ◌≡◌, ◌⊎◌,
}
use android_hardware_nvidia.MergeGroup.{GroupMember, Placed, is_clear, numbered, overlaps}

-- `x` stands before `y`: either it did at first, or the two do not overlap.
abbrev pub Keeps : Placed → Placed → Type 0
Keeps x y = (x.index < y.index) ⊎ (overlaps y.layer x.layer ≡ false)

abbrev pub Pairs : List Placed → Type 0
Pairs [] = Unit {0}
Pairs (x ∷ xs) = All (Keeps x) xs × Pairs xs

module _ (P : Placed → Type 0) where
  All-move :
      (xs ms zs : List Placed) (x : Placed)
      → All P (xs ++ (ms ++ x ∷ zs))
      → All P (xs ++ x ∷ (ms ++ zs))
  All-move (y ∷ xs) ms zs x (p, h) = (p, All-move xs ms zs x h)
  All-move [] [] zs x h = h
  All-move [] (m ∷ ms) zs x (p, h) = let (q, k) = All-move [] ms zs x h in (q, (p, k))

  All-append : (xs ys : List Placed) → All P xs → All P ys → All P (xs ++ ys)
  All-append [] ys h k = k
  All-append (x ∷ xs) ys (p, h) k = (p, All-append xs ys h k)

Pairs-last :
    (ms zs : List Placed) (x : Placed) → Pairs (ms ++ x ∷ zs) → All (Keeps x) zs × Pairs (ms ++ zs)
Pairs-last [] zs x (a, p) = (a, p)
Pairs-last (m ∷ ms) zs x (a, p) =
    let (b, q) = Pairs-last ms zs x p in (b, ((All-move (Keeps m) [] ms zs x a).1, q))

-- What stands above some layers may be moved beneath them where it keeps clear of them.
pub Pairs-move :
    (xs ms zs : List Placed) (x : Placed)
    → All (Keeps x) ms
    → Pairs (xs ++ (ms ++ x ∷ zs))
    → Pairs (xs ++ x ∷ (ms ++ zs))
Pairs-move [] ms zs x c p = let (a, q) = Pairs-last ms zs x p in (All-append (Keeps x) ms zs c a, q)
Pairs-move (y ∷ xs) ms zs x c (a, p) = (All-move (Keeps y) xs ms zs x a, Pairs-move xs ms zs x c p)

pub is_clear-Keeps : (ms : List Placed) (x : Placed) → is_clear ms x.layer ≡ true → All (Keeps x) ms
unfolding is_clear
is_clear-Keeps [] x h = tt
is_clear-Keeps (m ∷ ms) x h = (inr (ground arith), is_clear-Keeps ms x (ground arith))

numbered-above :
    (n k : ℕ) (ls : List GroupMember) (l : GroupMember)
    → n < k
    → All (Keeps (record { index = n; layer = l })) (numbered k ls)
numbered-above n k [] l h = tt
numbered-above n k (x ∷ ls) l h = (inl h, numbered-above n (suc k) ls l (omega arith))

pub numbered-Pairs : (n : ℕ) (ls : List GroupMember) → Pairs (numbered n ls)
numbered-Pairs n [] = tt
numbered-Pairs n (l ∷ ls) = (numbered-above n (suc n) ls l (omega arith), numbered-Pairs (suc n) ls)
