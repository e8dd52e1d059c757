-- ===== src/Governor/ClockSteps/Choice.antt =====
-- ClockSteps.h: which step is chosen.
use mathlib.Core.Path.{subst}
use android_hardware_nvidia.Prelude.{
  Bool-cases, List, [], arith, inl, inr, leb, leb-false, leb→le, refl, sym, ℕ, ◌<◌, ◌∷◌, ◌≡◌, ◌≤◌,
  ◌⊎◌,
}
use android_hardware_nvidia.Governor.ClockSteps.{
  ClockLadder, at_least, at_least_from, top_from, top_of,
}

-- Steps stand in rising order, above `n`.
abbrev pub RisesAbove : ℕ → List ℕ → Type 0
RisesAbove n [] = Unit {0}
RisesAbove n (s ∷ ss) = (n < s) × RisesAbove s ss

abbrev pub IsStep : ℕ → List ℕ → Type 0
IsStep x [] = ⊥
IsStep x (s ∷ ss) = (x ≡ s) ⊎ IsStep x ss

-- The cap allows the step.
abbrev pub Allows : ClockLadder → ℕ → Type 0
Allows l s = (l.cap_mhz ≡ 0) ⊎ (s ≤ l.cap_mhz)

abbrev pub AllowedBy : ℕ → ℕ → Type 0
AllowedBy cap s = (cap ≡ 0) ⊎ (s ≤ cap)

top_from-le : (cap top n : ℕ) (ss : List ℕ) → RisesAbove n ss → top ≤ n → top ≤ top_from cap top ss
unfolding top_from
top_from-le cap top n [] r h = omega arith
top_from-le cap top n (s ∷ ss) r h =
    ground (arith, top_from-le cap s s ss r.1, top_from-le cap top s ss r.1)

top_from_greatest :
    (cap top n : ℕ) (ss : List ℕ) (x : ℕ)
    → RisesAbove n ss
    → top ≤ n
    → IsStep x ss
    → AllowedBy cap x
    → x ≤ top_from cap top ss
unfolding top_from
top_from_greatest cap top n [] x r h m a = absurd m
top_from_greatest cap top n (s ∷ ss) x r h (inl e) a = ground (arith, top_from-le cap s s ss r.1)
top_from_greatest cap top n (s ∷ ss) x r h (inr m) a =
    ground (arith, top_from_greatest cap s s ss x r.1, top_from_greatest cap top s ss x r.1)

top_from_found :
    (cap top : ℕ) (ss : List ℕ)
    → (top_from cap top ss ≡ top)
      ⊎ (IsStep (top_from cap top ss) ss × AllowedBy cap (top_from cap top ss))
unfolding top_from
top_from_found cap top [] = inl refl
top_from_found cap top (s ∷ ss) = ground (arith, top_from_found cap s ss, top_from_found cap top ss)

-- What `AtLeast` finds among the steps up to the top `t`.
abbrev pub FindsLeast : ℕ → ℕ → List ℕ → ℕ → Type 0
FindsLeast t need ss r =
    ((r ≡ 0) × ((x : ℕ) → IsStep x ss → x ≤ t → x < need))
    ⊎ (IsStep r ss × (need ≤ r) × (r ≤ t) × ((x : ℕ) → IsStep x ss → need ≤ x → r ≤ x))

IsStep-above : (n : ℕ) (ss : List ℕ) (x : ℕ) → RisesAbove n ss → IsStep x ss → n < x
IsStep-above n [] x r m = absurd m
IsStep-above n (s ∷ ss) x r (inl e) = omega arith
IsStep-above n (s ∷ ss) x r (inr m) = omega (arith, IsStep-above s ss x r.1 m)

at_least_from_least :
    (t need n : ℕ) (ss : List ℕ) → RisesAbove n ss → FindsLeast t need ss (at_least_from t need ss)
unfolding at_least_from
at_least_from_least t need n [] r = inl (refl, λ x m _. absurd m)
at_least_from_least t need n (s ∷ ss) r = elim (Bool-cases (leb s t)) [
  | inr above ↦
      subst (FindsLeast t need (s ∷ ss)) (sym (rw above))
        (inl (refl, λ x m k. absurd (too_high x m k (leb-false s t above))))
  | inl fits ↦ elim (Bool-cases (leb need s)) [
    | inl enough ↦
        subst (FindsLeast t need (s ∷ ss)) (sym (rw (fits, enough)))
          (inr (inl refl, leb→le need s enough, leb→le s t fits, λ x m k. least x m))
    | inr short ↦
        subst (FindsLeast t need (s ∷ ss)) (sym (rw (fits, short)))
          (later (at_least_from_least t need s ss r.1) (leb-false need s short))
  ]
]
  where
    least : (x : ℕ) → IsStep x (s ∷ ss) → s ≤ x
    least x (inl e) = omega arith
    least x (inr m) = omega (arith, IsStep-above s ss x r.1 m)

    too_high : (x : ℕ) → IsStep x (s ∷ ss) → x ≤ t → t < s → ⊥
    too_high x m k h = omega (arith, least x m)

    later :
        FindsLeast t need ss (at_least_from t need ss)
        → s < need
        → FindsLeast t need (s ∷ ss) (at_least_from t need ss)
    later (inl (e, all)) h = inl (e, λ x m k. elim m [ inl e' ↦ omega arith | inr m' ↦ all x m' k ])
    later (inr (m, a, b, all)) h =
        inr (inr m, a, b, λ x m k. elim m [ inl e' ↦ absurd (omega arith) | inr m' ↦ all x m' k ])

module _ (l : ClockLadder) (rising : RisesAbove 0 l.steps) where
  -- On a ladder of rising steps the top is the highest step that the cap allows, nought if it allows
  -- none. The step asked for a need is the lowest step up to the top that covers it, and nought exactly
  -- if every step up to the top is too low.
  pub at_least_choice :
      (need : ℕ)
      → (((top_of l ≡ 0) ⊎ (IsStep (top_of l) l.steps × Allows l (top_of l)))
          × ((x : ℕ) → IsStep x l.steps → Allows l x → x ≤ top_of l))
        × FindsLeast (top_of l) need l.steps (at_least l need)
  unfolding top_of at_least
  at_least_choice need = (
    (
      top_from_found l.cap_mhz 0 l.steps,
      λ x m a. top_from_greatest l.cap_mhz 0 0 l.steps x rising (omega arith) m a,
    ),
    at_least_from_least (top_of l) need 0 l.steps rising,
  )
