-- ===== src/DisplayConfigs/Sanitized.antt =====
-- HwcDisplayConfigs.cpp: the configurations that `SanitizeGroups` leaves.
use android_hardware_nvidia.DisplayConfigs.{HwcDisplayConfig, Modes, clash, erase_near, has}
use android_hardware_nvidia.Prelude.{
  All, Bool, Bool-cases, List, [], arith, false, if◌then◌else◌, inl, inr, not, true, ℕ, ◌&&◌, ◌∷◌,
  ◌≡◌, ◌⊎◌,
}

module _ {Mode : Type 0} (k : Modes Mode) where
  pub erase_near_grows :
      (a : HwcDisplayConfig Mode) (n : ℕ) (erased : List ℕ) (bs : List (HwcDisplayConfig Mode))
      → has n erased ≡ true
      → has n (erase_near k a erased bs) ≡ true
  unfolding erase_near
  erase_near_grows a n erased [] h = h
  erase_near_grows a n erased (b ∷ bs) h =
      erase_near_grows a n (if clash k a b && not (has b.id erased) then b.id ∷ erased else erased)
        bs (ground (arith, h))

  abbrev pub IsErased : List ℕ → HwcDisplayConfig Mode → HwcDisplayConfig Mode → Type 0
  IsErased erased a b = (clash k a b ≡ false) ⊎ (has b.id erased ≡ true)

  added_erased :
      (c : Bool) (n : ℕ) (erased : List ℕ)
      → c ≡ true
      → has n (if c && not (has n erased) then n ∷ erased else erased) ≡ true
  added_erased c n erased e = ground arith

  head-IsErased :
      (a b : HwcDisplayConfig Mode) (erased : List ℕ) (bs : List (HwcDisplayConfig Mode))
      → (clash k a b ≡ true) ⊎ (clash k a b ≡ false)
      → IsErased
          (erase_near k a
            (if clash k a b && not (has b.id erased) then b.id ∷ erased else erased)
            bs)
          a
          b
  head-IsErased a b erased bs (inl e) =
      inr (erase_near_grows a b.id _ bs (added_erased (clash k a b) b.id erased e))
  head-IsErased a b erased bs (inr e) = inl e

  pub erase_near-All :
      (a : HwcDisplayConfig Mode) (erased : List ℕ) (bs : List (HwcDisplayConfig Mode))
      → All (IsErased (erase_near k a erased bs) a) bs
  unfolding erase_near
  erase_near-All a erased [] = tt
  erase_near-All a erased (b ∷ bs) =
      let next = if clash k a b && not (has b.id erased) then b.id ∷ erased else erased in
      (head-IsErased a b erased bs (Bool-cases (clash k a b)), erase_near-All a next bs)

  -- No two of the configurations clash.
  abbrev pub AreApart : List (HwcDisplayConfig Mode) → Type 0
  AreApart cs = All (λ a. All (λ b. clash k a b ≡ false) cs) cs
