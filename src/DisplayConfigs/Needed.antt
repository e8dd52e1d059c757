-- ===== src/DisplayConfigs/Needed.antt =====
-- HwcDisplayConfigs.cpp: `SanitizeGroups` erases nothing without need.
use android_hardware_nvidia.DisplayConfigs.Lists.{
  All-Any, All-zip, All_of, Any, Any-imp, filter-Any, members,
}
use android_hardware_nvidia.DisplayConfigs.Spared.{
  Spares, erase_near-Spares, erase_near_why, erased_by-Spares,
}
use android_hardware_nvidia.DisplayConfigs.Sanitized.{IsErased, erase_near-All}
use android_hardware_nvidia.DisplayConfigs.{
  HwcDisplayConfig, HwcDisplayConfigs, Modes, OutputType, clash, erase_near, erased_by, filter, has,
  same_output, sanitize_groups,
}
use android_hardware_nvidia.Prelude.{
  All, All-imp, Bool, Bool-cases, List, [], ap, arith, false, if◌then◌else◌, inl, inr, not, refl,
  sym, true, ℕ, ◌==◌, ◌∙◌, ◌∷◌, ◌≡◌, ◌⊎◌,
}
use mathlib.Core.Path.{subst}

module _ {Mode : Type 0} (k : Modes Mode) where
  abbrev Own : List (HwcDisplayConfig Mode) → HwcDisplayConfig Mode → Type 0
  Own all b = All (λ c. ((c.id == b.id) ≡ false) ⊎ (c ≡ b)) all

  -- No two configurations have one identity.
  abbrev pub HaveOwnIds : List (HwcDisplayConfig Mode) → Type 0
  HaveOwnIds all = All (Own all) all

  Own-clash :
      (all : List (HwcDisplayConfig Mode)) (a b : HwcDisplayConfig Mode)
      → Own all b
      → Any (λ c. (c.id ≡ b.id) × (clash k a c ≡ true)) all
      → clash k a b ≡ true
  Own-clash all a b own found =
      (All-Any (λ c. ((c.id == b.id) ≡ false) ⊎ (c ≡ b)) (λ c. (c.id ≡ b.id) × (clash k a c ≡ true))
        (λ c. clash k a b ≡ true) all
        (λ c o e. elim o [
          | inl differs ↦ absurd (ground (arith, differs, e))
          | inr same ↦ subst (λ x. clash k a x ≡ true) same e.1
        ])
        own found).1

  clash_self : (a b : HwcDisplayConfig Mode) → (clash k a b ≡ false) ⊎ ((b.id == a.id) ≡ false)
  unfolding clash
  clash_self a b = ground arith

  module _ (near_sym : (m n : Mode) → k.is_near m n ≡ k.is_near n m) where
    same_output_sym : (s t : OutputType) → same_output s t ≡ same_output t s
    same_output_sym s t = ground arith

    equal_sym : (m n : ℕ) → (m == n) ≡ (n == m)
    equal_sym m n = ground arith

    clash_sym : (a b : HwcDisplayConfig Mode) → clash k a b ≡ clash k b a
    unfolding clash
    clash_sym a b =
        rw
          (
            equal_sym a.id b.id,
            equal_sym a.group_id b.group_id,
            same_output_sym a.output_type b.output_type,
            near_sym a.mode b.mode,
          )
          refl

    Spares-of :
        (all : List (HwcDisplayConfig Mode)) (a : HwcDisplayConfig Mode) (next : List ℕ)
        (c : HwcDisplayConfig Mode)
        → Own all a
        → IsErased k next a c
        → Spares k all a.id next c
    Spares-of all a next c own (inr e) = inl e
    Spares-of all a next c own (inl e) = inr (
        All-imp (λ b. ((b.id == a.id) ≡ false) ⊎ (b ≡ a))
          (λ b. (clash k c b ≡ false) ⊎ ((b.id == a.id) ≡ false)) all
          (λ b o. elim o [
            | inl differs ↦ inr differs
            | inr same ↦ inl (subst (λ x. clash k c x ≡ false) (sym same) (clash_sym c a ∙ e))
          ])
          own)

    -- Why an identity is erased, once the loop has come to `rest`.
    abbrev IsNeeded :
        List ℕ → List ℕ → List (HwcDisplayConfig Mode) → HwcDisplayConfig Mode → Type 0
    IsNeeded gone erased rest b =
        (has b.id gone ≡ false)
        ⊎ ((has b.id erased ≡ true)
            ⊎ Any (λ a. (has a.id gone ≡ false) × (clash k a b ≡ true)) rest)

    IsNeeded-first :
        (all : List (HwcDisplayConfig Mode)) (erased : List ℕ) (a : HwcDisplayConfig Mode)
        (rest : List (HwcDisplayConfig Mode)) (b : HwcDisplayConfig Mode) (t : Bool)
        → has a.id erased ≡ t
        → Own all a
        → Own all b
        → ((P : HwcDisplayConfig Mode → Type 0) → All P all → All P rest)
        → let next = if t then erased else erase_near k a erased all in
          has b.id next ≡ true → IsNeeded (erased_by k all next rest) erased (a ∷ rest) b
    IsNeeded-first all erased a rest b true e own_a own_b sub h = inr (inl h)
    IsNeeded-first all erased a rest b false e own_a own_b sub h =
        let next = erase_near k a erased all in
        let free = erase_near-Spares k a a.id erased all e (All_of _ all (clash_self a)) in
        let spared_by = sub (Spares k all a.id next) (
          All-imp (IsErased k next a) (Spares k all a.id next) all
            (λ c. Spares-of all a next c own_a) (erase_near-All k a erased all)) in
        elim (erase_near_why k a b.id erased all h) [
          | inl was ↦ inr (inl was)
          | inr found ↦ inr (
              inr (
                inl (
                  erased_by-Spares k all a.id next rest free spared_by,
                  Own-clash all a b own_b found,
                )))
        ]

    IsNeeded-now :
        (all : List (HwcDisplayConfig Mode)) (erased : List ℕ) (a : HwcDisplayConfig Mode)
        (rest : List (HwcDisplayConfig Mode)) (b : HwcDisplayConfig Mode)
        → Own all a
        → Own all b
        → ((P : HwcDisplayConfig Mode → Type 0) → All P all → All P rest)
        → let next = if has a.id erased then erased else erase_near k a erased all in
          IsNeeded (erased_by k all next rest) next rest b
          → IsNeeded (erased_by k all next rest) erased (a ∷ rest) b
    IsNeeded-now all erased a rest b own_a own_b sub (inl kept) = inl kept
    IsNeeded-now all erased a rest b own_a own_b sub (inr (inr found)) = inr (inr (inr found))
    IsNeeded-now all erased a rest b own_a own_b sub (inr (inl e)) =
        IsNeeded-first all erased a rest b (has a.id erased) refl own_a own_b sub e

    erased_by-IsNeeded :
        (all : List (HwcDisplayConfig Mode)) (erased : List ℕ) (rest : List (HwcDisplayConfig Mode))
        → HaveOwnIds all
        → ((P : HwcDisplayConfig Mode → Type 0) → All P all → All P rest)
        → All (IsNeeded (erased_by k all erased rest) erased rest) all
    unfolding erased_by
    erased_by-IsNeeded all erased [] own sub =
        All_of _ all
          (λ b. elim (Bool-cases (has b.id erased)) [ inl e ↦ inr (inl e) | inr e ↦ inl e ])
    erased_by-IsNeeded all erased (a ∷ rest) own sub =
        let next = if has a.id erased then erased else erase_near k a erased all in
        let gone = erased_by k all next rest in
        All-imp (λ b. Own all b × IsNeeded gone next rest b) (IsNeeded gone erased (a ∷ rest)) all
          (λ b h.
            IsNeeded-now all erased a rest b (sub (Own all) own).0 h.0 (λ P l. (sub P l).1) h.1)
          (All-zip (Own all) (IsNeeded gone next rest) all own
            (erased_by-IsNeeded all next rest own (λ P l. (sub P l).1)))

    -- Of the configurations that are kept, one is `b`, or is the reason that `b` is not.
    abbrev pub IsKeptOrNear : List (HwcDisplayConfig Mode) → HwcDisplayConfig Mode → Type 0
    IsKeptOrNear kept b = Any (λ a. a ≡ b) kept ⊎ Any (λ a. clash k a b ≡ true) kept

    IsKeptOrNear-one :
        (all : List (HwcDisplayConfig Mode)) (gone : List ℕ) (b : HwcDisplayConfig Mode)
        → Any (λ a. a ≡ b) all
        → IsNeeded gone [] all b
        → IsKeptOrNear (filter (λ a. not (has a.id gone)) all) b
    IsKeptOrNear-one all gone b here (inl e) = inl (
        filter-Any (λ a. a ≡ b) (λ a. not (has a.id gone)) all
          (Any-imp (λ a. a ≡ b) (λ a. (not (has a.id gone) ≡ true) × (a ≡ b)) all
            (λ a same. (subst (λ x. not (has x.id gone) ≡ true) (sym same) (ap not e), same)) here))
    IsKeptOrNear-one all gone b here (inr (inl e)) = absurd (ground (arith, e))
    IsKeptOrNear-one all gone b here (inr (inr found)) = inr (
        filter-Any (λ a. clash k a b ≡ true) (λ a. not (has a.id gone)) all
          (Any-imp (λ a. (has a.id gone ≡ false) × (clash k a b ≡ true))
            (λ a. (not (has a.id gone) ≡ true) × (clash k a b ≡ true)) all
            (λ a h. (ap not h.0, h.1)) found))

    -- Where it does not matter which of two refresh rates is compared with the other, and no two
    -- configurations have one identity: each configuration is kept, or there is one kept that it would clash
    -- with, so that nothing is erased without need.
    pub sanitize_groups-IsKeptOrNear :
        (c : HwcDisplayConfigs Mode)
        → HaveOwnIds c.hwc_configs
        → All (IsKeptOrNear (sanitize_groups k c).hwc_configs) c.hwc_configs
    unfolding sanitize_groups
    sanitize_groups-IsKeptOrNear c own =
        let all = c.hwc_configs in
        let gone = erased_by k all [] all in
        All-imp (λ b. Any (λ a. a ≡ b) all × IsNeeded gone [] all b)
          (IsKeptOrNear (filter (λ a. not (has a.id gone)) all)) all
          (λ b h. IsKeptOrNear-one all gone b h.0 h.1)
          (All-zip (λ b. Any (λ a. a ≡ b) all) (IsNeeded gone [] all) all (members all)
            (erased_by-IsNeeded all [] all own (λ P l. l)))
