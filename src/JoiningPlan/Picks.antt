-- ===== src/JoiningPlan/Picks.antt =====
-- LayerToPlaneJoiningPlan.cpp: what holds of the layers in the order that a merge group is chosen with.
use android_hardware_nvidia.JoiningPlan.Seats.{AreTurned}
use android_hardware_nvidia.JoiningPlan.Fit.{LayerData, Pipe, is_merged, turn_bits}
use android_hardware_nvidia.JoiningPlan.Steer.{member_of, members_of, pick}
use android_hardware_nvidia.Prelude.{
  All, Bool, List, Option, Option-cases, [], ap, arith, false, get_elem?, if◌then◌else◌, inl, inr,
  length, length-append, none, refl, some, suc, true, ℕ, ◌++◌, ◌+◌, ◌==◌, ◌∙◌, ◌∷◌, ◌≡◌, ◌≤◌,
}
use android_hardware_nvidia.MergeGroup.{Placed, numbered}
use mathlib.Core.List.{append_assoc, Perm, Permᴰ}
use mathlib.Core.Logic.{∥∥₁_elim}
use mathlib.Core.Path.{subst}

-- A sum over the layers of a stack does not depend on their order.
abbrev pub total : (Placed → ℕ) → List Placed → ℕ
total f [] = 0
total f (p ∷ ps) = f p + total f ps

Permᴰ-total : (f : Placed → ℕ) (ps qs : List Placed) → Permᴰ ps qs → total f ps ≡ total f qs
Permᴰ-total f ps qs Permᴰ.nil = refl
Permᴰ-total f (p ∷ ps) (q ∷ qs) (Permᴰ.cons e d) = omega (arith, ap f e, Permᴰ-total f ps qs d)
Permᴰ-total f (p ∷ q ∷ ps) (q' ∷ p' ∷ qs) (Permᴰ.swap e k) = omega (arith, ap f e, ap f k)
Permᴰ-total f ps qs (Permᴰ.trans {l₂ = ks} c d) = Permᴰ-total f ps ks c ∙ Permᴰ-total f ks qs d

pub Perm-total : (f : Placed → ℕ) (ps qs : List Placed) → Perm ps qs → total f ps ≡ total f qs
Perm-total f ps qs p = ∥∥₁_elim p (hlevel) (λ d. Permᴰ-total f ps qs d)

module _ (pipe : Pipe) where
  open pipe use {Data}

  -- What the order's layer of a position says is the turn of the layer that stands there.
  abbrev pub names_turn : List (LayerData Data) → Placed → Bool
  names_turn composition p = elim (get_elem? composition p.index) [
    | none ↦ false
    | some l ↦ turn_bits l.transform == p.layer.turn
  ]

  abbrev pub misnamed : List (LayerData Data) → Placed → ℕ
  misnamed composition p = if names_turn composition p then 0 else 1

  get_elem?-append :
      (before : List (LayerData Data)) (l : LayerData Data) (ls : List (LayerData Data))
      → get_elem? (before ++ l ∷ ls) (length before) ≡ some l
  get_elem?-append [] l ls = refl
  get_elem?-append (b ∷ before) l ls = get_elem?-append before l ls

  abbrev misnames : ℕ → Option (LayerData Data) → ℕ
  misnames turn o =
      if elim o [ none ↦ false | some l ↦ turn_bits l.transform == turn ] then 0 else 1

  names_itself :
      (before : List (LayerData Data)) (l : LayerData Data) (ls : List (LayerData Data))
      → misnamed (before ++ l ∷ ls) (record { index = length before; layer = member_of pipe l }) ≡ 0
  unfolding member_of
  names_itself before l ls =
      let here : misnames (turn_bits l.transform) (some l) ≡ 0 = ground arith in
      ap (misnames (turn_bits l.transform)) (get_elem?-append before l ls) ∙ here

  next_stands :
      (before : List (LayerData Data)) (l : LayerData Data) (P : List (LayerData Data) → ℕ → Type 0)
      (ls : List (LayerData Data))
      → P ((before ++ l ∷ []) ++ ls) (length (before ++ l ∷ []))
      → P (before ++ l ∷ ls) (suc (length before))
  next_stands before l P ls h =
      subst (λ n. P (before ++ l ∷ ls) n) (omega (arith, length-append before (l ∷ [])))
        (subst (λ ks. P ks (length (before ++ l ∷ []))) (append_assoc before (l ∷ []) ls) h)

  pub numbered-named :
      (before ls : List (LayerData Data))
      → total (misnamed (before ++ ls)) (numbered (length before) (members_of pipe ls)) ≡ 0
  unfolding member_of
  numbered-named before [] = refl
  numbered-named before (l ∷ ls) =
      let on : total (misnamed (before ++ l ∷ ls))
            (numbered (suc (length before)) (members_of pipe ls))
          ≡ 0 =
        next_stands before l (λ ks n. total (misnamed ks) (numbered n (members_of pipe ls)) ≡ 0) ls
          (numbered-named (before ++ l ∷ []) ls) in
      omega (arith, names_itself before l ls, on)

  pub numbered-pick :
      (before ls : List (LayerData Data))
      → pick pipe (before ++ ls) (numbered (length before) (members_of pipe ls)) ≡ ls
  unfolding pick
  numbered-pick before [] = refl
  numbered-pick before (l ∷ ls) =
      let on : pick pipe (before ++ l ∷ ls) (numbered (suc (length before)) (members_of pipe ls))
          ≡ ls =
        next_stands before l (λ ks n. pick pipe ks (numbered n (members_of pipe ls)) ≡ ls) ls
          (numbered-pick (before ++ l ∷ []) ls) in
      rw (get_elem?-append before l ls, pick) (ap (λ ks. l ∷ ks) on)

  -- The layers from the `i`-th on, named in an order in which those of the run are of one turn.
  abbrev pub AreOfTurn : ℕ → ℕ → ℕ → ℕ → List Placed → Type 0
  AreOfTurn begin run_len turn i [] = Unit {0}
  AreOfTurn begin run_len turn i (p ∷ ps) =
      (is_merged pipe begin run_len i ≡ true → p.layer.turn ≡ turn)
      × AreOfTurn begin run_len turn (suc i) ps

  pub pick-AreTurned :
      (composition : List (LayerData Data)) (begin run_len turn i : ℕ) (order : List Placed)
      → total (misnamed composition) order ≡ 0
      → AreOfTurn begin run_len turn i order
      → AreTurned pipe begin run_len turn i (pick pipe composition order)
  unfolding pick
  pick-AreTurned composition begin run_len turn i [] n t = tt
  pick-AreTurned composition begin run_len turn i (p ∷ ps) n (t, ts) =
      let rest = pick-AreTurned composition begin run_len turn (suc i) ps (omega (arith, n)) ts in
      elim (Option-cases (get_elem? composition p.index)) [
        | inl gone ↦ absurd (ground (arith, gone, n))
        | inr (l, there) ↦ rw (there, pick) ((λ m. ground (arith, there, n, t m)), rest)
      ]

  after-AreOfTurn :
      (begin run_len turn i : ℕ) (ps : List Placed)
      → begin + run_len ≤ i
      → AreOfTurn begin run_len turn i ps
  after-AreOfTurn begin run_len turn i [] h = tt
  after-AreOfTurn begin run_len turn i (p ∷ ps) h =
      (λ m. absurd (ground arith), after-AreOfTurn begin run_len turn (suc i) ps (omega arith))

  pub group-AreOfTurn :
      (begin run_len turn i : ℕ) (group after : List Placed)
      → begin + run_len ≤ i + length group
      → All (λ p. p.layer.turn ≡ turn) group
      → AreOfTurn begin run_len turn i (group ++ after)
  group-AreOfTurn begin run_len turn i [] after h t =
      after-AreOfTurn begin run_len turn i after (omega arith)
  group-AreOfTurn begin run_len turn i (p ∷ ps) after h (t, ts) =
      (λ _. t, group-AreOfTurn begin run_len turn (suc i) ps after (omega arith) ts)

  pub before-AreOfTurn :
      (begin run_len turn i : ℕ) (before rest : List Placed)
      → i + length before ≡ begin
      → AreOfTurn begin run_len turn begin rest
      → AreOfTurn begin run_len turn i (before ++ rest)
  before-AreOfTurn begin run_len turn i [] rest h t =
      subst (λ k. AreOfTurn begin run_len turn k rest) (omega arith) t
  before-AreOfTurn begin run_len turn i (p ∷ ps) rest h t = (
    λ m. absurd (ground arith),
    before-AreOfTurn begin run_len turn (suc i) ps rest (omega arith) t,
  )
