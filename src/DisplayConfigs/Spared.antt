-- ===== src/DisplayConfigs/Spared.antt =====
-- HwcDisplayConfigs.cpp: what the loops of `SanitizeGroups` erase, and what they leave.
use android_hardware_nvidia.DisplayConfigs.Lists.{Any}
use android_hardware_nvidia.DisplayConfigs.Sanitized.{erase_near_grows}
use android_hardware_nvidia.DisplayConfigs.{
  HwcDisplayConfig, Modes, clash, erase_near, erased_by, has,
}
use android_hardware_nvidia.Prelude.{
  All, All-imp, Bool, List, [], arith, false, if_result, if◌then◌else◌, inl, inr, not, refl, true,
  ℕ, ◌&&◌, ◌==◌, ◌∷◌, ◌≡◌, ◌⊎◌,
}

spared :
    (c : Bool) (m n : ℕ) (erased : List ℕ)
    → has n erased ≡ false
    → (c ≡ false) ⊎ ((m == n) ≡ false)
    → has n (if c && not (has m erased) then m ∷ erased else erased) ≡ false
spared c m n erased h s = ground (arith, h, s)

module _ {Mode : Type 0} (k : Modes Mode) where
  -- A later configuration erases none that it does not clash with.
  pub erase_near-Spares :
      (c : HwcDisplayConfig Mode) (n : ℕ) (erased : List ℕ) (bs : List (HwcDisplayConfig Mode))
      → has n erased ≡ false
      → All (λ b. (clash k c b ≡ false) ⊎ ((b.id == n) ≡ false)) bs
      → has n (erase_near k c erased bs) ≡ false
  unfolding erase_near
  erase_near-Spares c n erased [] h s = h
  erase_near-Spares c n erased (b ∷ bs) h (s, ss) =
      erase_near-Spares c n (if clash k c b && not (has b.id erased) then b.id ∷ erased else erased)
        bs (spared (clash k c b) b.id n erased h s) ss

  abbrev pub Spares : List (HwcDisplayConfig Mode) → ℕ → List ℕ → HwcDisplayConfig Mode → Type 0
  Spares all n erased c =
      (has c.id erased ≡ true) ⊎ All (λ b. (clash k c b ≡ false) ⊎ ((b.id == n) ≡ false)) all

  next-Spares :
      (all : List (HwcDisplayConfig Mode)) (n : ℕ) (erased : List ℕ) (c : HwcDisplayConfig Mode)
      (b : Bool)
      → has c.id erased ≡ b
      → has n erased ≡ false
      → Spares all n erased c
      → has n (if b then erased else erase_near k c erased all) ≡ false
  next-Spares all n erased c true e h s = h
  next-Spares all n erased c false e h (inl s) = absurd (ground (arith, e, s))
  next-Spares all n erased c false e h (inr s) = erase_near-Spares c n erased all h s

  next_grows :
      (all : List (HwcDisplayConfig Mode)) (n : ℕ) (erased : List ℕ) (c : HwcDisplayConfig Mode)
      → has n erased ≡ true
      → has n (if has c.id erased then erased else erase_near k c erased all) ≡ true
  next_grows all n erased c h =
      if_result {A = List ℕ} (λ es. has n es ≡ true) (has c.id erased) h
        (erase_near_grows k c n erased all h)

  still-Spares :
      (all : List (HwcDisplayConfig Mode)) (n : ℕ) (erased : List ℕ) (c d : HwcDisplayConfig Mode)
      → Spares all n erased d
      → Spares all n (if has c.id erased then erased else erase_near k c erased all) d
  still-Spares all n erased c d (inl e) = inl (next_grows all d.id erased c e)
  still-Spares all n erased c d (inr s) = inr s

  pub erased_by-Spares :
      (all : List (HwcDisplayConfig Mode)) (n : ℕ) (erased : List ℕ)
      (rest : List (HwcDisplayConfig Mode))
      → has n erased ≡ false
      → All (Spares all n erased) rest
      → has n (erased_by k all erased rest) ≡ false
  unfolding erased_by
  erased_by-Spares all n erased [] h s = h
  erased_by-Spares all n erased (c ∷ rest) h (s, ss) =
      let next = if has c.id erased then erased else erase_near k c erased all in
      erased_by-Spares all n next rest (next-Spares all n erased c (has c.id erased) refl h s)
        (All-imp (Spares all n erased) (Spares all n next) rest (still-Spares all n erased c) ss)

  added_for :
      (c : Bool) (m n : ℕ) (erased : List ℕ)
      → has n (if c && not (has m erased) then m ∷ erased else erased) ≡ true
      → (has n erased ≡ true) ⊎ ((m ≡ n) × (c ≡ true))
  added_for c m n erased h = ground (arith, h)

  pub erase_near_why :
      (a : HwcDisplayConfig Mode) (n : ℕ) (erased : List ℕ) (bs : List (HwcDisplayConfig Mode))
      → has n (erase_near k a erased bs) ≡ true
      → (has n erased ≡ true) ⊎ Any (λ b. (b.id ≡ n) × (clash k a b ≡ true)) bs
  unfolding erase_near
  erase_near_why a n erased [] h = inl h
  erase_near_why a n erased (b ∷ bs) h =
      elim (erase_near_why a n
        (if clash k a b && not (has b.id erased) then b.id ∷ erased else erased) bs h) [
          | inl e ↦ elim (added_for (clash k a b) b.id n erased e) [
            | inl was ↦ inl was
            | inr now ↦ inr (inl now)
          ]
          | inr later ↦ inr (inr later)
        ]
