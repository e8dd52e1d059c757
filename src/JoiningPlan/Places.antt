-- ===== src/JoiningPlan/Places.antt =====
-- LayerToPlaneJoiningPlan.cpp: what holds of layers put on planes, one at a time and by the first fit.
use mathlib.Core.Path.{subst}
use android_hardware_nvidia.JoiningPlan.Fit.{
  Joining, LayerData, LayerTransform, Pipe, accepts, emplace, find_if, place_first_fit, same_flag,
  shares_turn, turn_bits, turns_with_merged,
}
use android_hardware_nvidia.Prelude.{
  All, Bool, Bool-cases, List, Option-cases, [], ap, arith, if◌then◌else◌, inl, inr, length, refl,
  some, suc, sym, true, ℕ, ◌++◌, ◌+◌, ◌∙◌, ◌∷◌, ◌≡◌, ◌≤◌,
}
use mathlib.Core.Option.{some-injective}
use mathlib.Core.List.{append-nil, append_assoc}

abbrev pub count : {A : Type 0} → (A → Bool) → List A → ℕ
count q [] = 0
count q (x ∷ xs) = (if q x then 1 else 0) + count q xs

pub count-append :
    {A : Type 0} (q : A → Bool) (xs ys : List A) → count q (xs ++ ys) ≡ count q xs + count q ys
count-append q [] ys = omega arith
count-append q (x ∷ xs) ys = omega (arith, count-append q xs ys)

pub find_if-found :
    {A : Type 0} (p : A → Bool) (xs : List A) (x : A) (after : List A)
    → find_if p xs ≡ some (x, after)
    → (p x ≡ true) × ((q : A → Bool) → count q (x ∷ after) ≤ count q xs)
unfolding find_if
find_if-found p [] x after e = cc
find_if-found {A = A} p (y ∷ ys) x after e = elim (Bool-cases (p y)) [
  | inl here ↦
      subst
        (λ (r : A × List A).
          (p r.0 ≡ true) × ((q : A → Bool) → count q (r.0 ∷ r.1) ≤ count q (y ∷ ys)))
        (some-injective {A = A × List A} (y, ys) (x, after) (ground arith)) (here, λ q. omega arith)
  | inr there ↦
      let (holds, few) = find_if-found p ys x after (ground arith) in
      (holds, λ q. omega (arith, few q))
]

same_transform :
    (a b : LayerTransform) → a.hflip ≡ b.hflip → a.vflip ≡ b.vflip → a.rotate90 ≡ b.rotate90 → a ≡ b
same_transform a b h v r = λ i. record { hflip = h i; vflip = v i; rotate90 = r i }

pub turn_bits-eq : (a b : LayerTransform) → turn_bits a ≡ turn_bits b → a ≡ b
turn_bits-eq a b e = same_transform a b (ground arith) (ground arith) (ground arith)

shares_turn-eq : (a b : LayerTransform) → shares_turn a b ≡ true → a ≡ b
unfolding shares_turn same_flag
shares_turn-eq a b e = same_transform a b (ground arith) (ground arith) (ground arith)

module _ (pipe : Pipe) where
  open pipe use {Data, Plane, is_merging, is_valid}

  abbrev pub layers_of : List (Joining pipe) → List (LayerData Data)
  layers_of [] = []
  layers_of (j ∷ js) = j.layer ∷ layers_of js

  abbrev pub planes_of : List (Joining pipe) → List Plane
  planes_of [] = []
  planes_of (j ∷ js) = j.plane ∷ planes_of js

  abbrev pub AreValid : List (Joining pipe) → Type 0
  AreValid = All (λ j. is_valid j.plane j.layer ≡ true)

  abbrev pub RiseFrom : ℕ → List (Joining pipe) → Type 0
  RiseFrom z [] = Unit {0}
  RiseFrom z (j ∷ js) = (j.z_pos ≡ z) × RiseFrom (suc z) js

  abbrev pub Alike : Joining pipe → Joining pipe → Type 0
  Alike j k =
      is_merging j.plane ≡ true → is_merging k.plane ≡ true → j.layer.transform ≡ k.layer.transform

  -- All that is merged is turned the same way.
  abbrev pub Together : List (Joining pipe) → Type 0
  Together [] = Unit {0}
  Together (j ∷ js) = All (Alike j) js × Together js

  pub All-append_one :
      (P : Joining pipe → Type 0) (js : List (Joining pipe)) (j : Joining pipe)
      → All P js
      → P j
      → All P (js ++ j ∷ [])
  All-append_one P [] j h k = (k, tt)
  All-append_one P (i ∷ js) j (h, hs) k = (h, All-append_one P js j hs k)

  pub emplace-RiseFrom :
      (z : ℕ) (js : List (Joining pipe)) (j : Joining pipe)
      → RiseFrom z js
      → j.z_pos ≡ z + length js
      → RiseFrom z (js ++ j ∷ [])
  emplace-RiseFrom z [] j h e = (omega arith, tt)
  emplace-RiseFrom z (i ∷ js) j (h, hs) e = (h, emplace-RiseFrom (suc z) js j hs (omega arith))

  emplace-Together :
      (js : List (Joining pipe)) (j : Joining pipe)
      → (is_merging j.plane ≡ true → turns_with_merged pipe j.layer js ≡ true)
      → Together js
      → Together (js ++ j ∷ [])
  emplace-Together [] j h t = (tt, tt)
  emplace-Together (i ∷ js) j h (a, t) = (
    All-append_one (Alike i) js j a
        (λ m n. sym (shares_turn-eq j.layer.transform i.layer.transform (ground (arith, h n, m)))),
    emplace-Together js j (λ n. ground (arith, h n)) t,
  )

  pub layers_of-emplace :
      (js : List (Joining pipe)) (l : LayerData Data) (p : Plane) (z : ℕ)
      → layers_of (js ++ record { layer = l; plane = p; z_pos = z } ∷ []) ≡ layers_of js ++ l ∷ []
  layers_of-emplace [] l p z = refl
  layers_of-emplace (j ∷ js) l p z = ap (λ ls. j.layer ∷ ls) (layers_of-emplace js l p z)

  pub planes_of-emplace :
      (js : List (Joining pipe)) (l : LayerData Data) (p : Plane) (z : ℕ)
      → planes_of (js ++ record { layer = l; plane = p; z_pos = z } ∷ []) ≡ planes_of js ++ p ∷ []
  planes_of-emplace [] l p z = refl
  planes_of-emplace (j ∷ js) l p z = ap (λ ps. j.plane ∷ ps) (planes_of-emplace js l p z)

  -- What a plan's joinings are, whichever way the layers were placed.
  abbrev pub AreSound : List (Joining pipe) → Type 0
  AreSound js = AreValid js × RiseFrom 0 js × Together js

  emplace-AreSound :
      (js : List (Joining pipe)) (l : LayerData Data) (p : Plane)
      → accepts pipe js l p ≡ true
      → AreSound js
      → AreSound (emplace pipe js l p)
  unfolding emplace accepts
  emplace-AreSound js l p a (v, z, t) = (
    All-append_one (λ j. is_valid j.plane j.layer ≡ true) js _ v (ground (arith, a)),
    emplace-RiseFrom 0 js _ z (omega arith),
    emplace-Together js _ (λ m. ground (arith, a, m)) t,
  )

  -- The first fit shows the layers in their order, and takes no plane more often than it is offered.
  pub place_first_fit-AreSound :
      (joined : List (Joining pipe)) (avail : List Plane) (ls : List (LayerData Data))
      (out : List (Joining pipe))
      → place_first_fit pipe joined avail ls ≡ some out
      → AreSound joined
      → AreSound out
        × (layers_of out ≡ layers_of joined ++ ls)
        × ((q : Plane → Bool)
            → count q (planes_of out) ≤ count q (planes_of joined) + count q avail)
  unfolding place_first_fit emplace
  place_first_fit-AreSound joined avail [] out e v =
      let same = some-injective joined out e in
      subst
        (λ os.
          AreSound os
          × (layers_of os ≡ layers_of joined ++ [])
          × ((q : Plane → Bool)
              → count q (planes_of os) ≤ count q (planes_of joined) + count q avail))
        same (v, sym (append-nil (layers_of joined)), λ q. omega arith)
  place_first_fit-AreSound joined avail (l ∷ ls) out e v =
      elim (Option-cases (find_if (accepts pipe joined l) avail)) [
        | inl gone ↦ absurd (ground arith)
        | inr ((p, after), found) ↦
            let (ok, few) = find_if-found (accepts pipe joined l) avail p after found in
            let on : place_first_fit pipe (emplace pipe joined l p) after ls ≡ some out =
              ground (arith, found, e) in
            let (sound, shown, used) =
              place_first_fit-AreSound (emplace pipe joined l p) after ls out on
                (emplace-AreSound joined l p ok v) in
            (
              sound,
              shown
                  ∙ ap (λ ks. ks ++ ls) (layers_of-emplace joined l p (length joined))
                  ∙ append_assoc (layers_of joined) (l ∷ []) ls,
              λ q. omega (
                arith,
                used q,
                few q,
                ap (count q) (planes_of-emplace joined l p (length joined)),
                count-append q (planes_of joined) (p ∷ []),
              ),
            )
      ]
