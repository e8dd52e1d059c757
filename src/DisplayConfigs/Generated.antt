-- ===== src/DisplayConfigs/Generated.antt =====
-- HwcDisplayConfigs.cpp: the configurations that `GenerateDisplayConfigs` makes.
use android_hardware_nvidia.DisplayConfigs.Lists.{Any}
use android_hardware_nvidia.DisplayConfigs.{
  HwcConfigParameters, HwcDisplayConfig, HwcDisplayConfigs, Modes, OutputType, configs_of,
  configs_of_type, enables_hdr, first_or, generate_display_configs, preferred_from, supported_types,
  usable_modes,
}
use android_hardware_nvidia.Prelude.{
  All, All-imp, Bool, List, Option, [], ap, arith, false, if_result, if◌then◌else◌, inl, inr,
  length, length-append, none, refl, some, suc, sym, true, ℕ, ◌&&◌, ◌++◌, ◌+◌, ◌<◌, ◌==◌, ◌∙◌, ◌∷◌,
  ◌≡◌, ◌≤◌, ◌⊎◌,
}
use mathlib.Core.Path.{subst}

All-append : {A : Type 0} (P : A → Type 0) (xs ys : List A) → All P xs → All P ys → All P (xs ++ ys)
All-append P [] ys h k = k
All-append P (x ∷ xs) ys (h, hs) k = (h, All-append P xs ys hs k)

first_stays : (n m : ℕ) → 0 < n → n ≡ (if n == 0 then m else n)
first_stays n m p = ground arith

unset : (b : Bool) (n m : ℕ) → 0 < m → (if b && (m == 0) then n else m) ≡ m
unset b n m p = ground arith

module _ {Mode : Type 0} where
  abbrev pub IsWithin : ℕ → ℕ → HwcDisplayConfig Mode → Type 0
  IsWithin from to c = (from ≤ c.id) × (c.id < to)

  configs_of_type-length :
      (t : OutputType) (id group : ℕ) (modes : List Mode)
      → length (configs_of_type t id group modes) ≡ length modes
  unfolding configs_of_type
  configs_of_type-length t id group [] = refl
  configs_of_type-length t id group (m ∷ ms) =
      ap suc (configs_of_type-length t (suc id) (suc group) ms)

  configs_of_type-IsWithin :
      (t : OutputType) (id group : ℕ) (modes : List Mode)
      → All (IsWithin id (id + length modes)) (configs_of_type t id group modes)
  unfolding configs_of_type
  configs_of_type-IsWithin t id group [] = tt
  configs_of_type-IsWithin t id group (m ∷ ms) = (
    (omega arith, omega arith),
    All-imp (IsWithin (suc id) (suc id + length ms)) (IsWithin id (id + suc (length ms))) _
        (λ c h. (omega (arith, h.0), omega (arith, h.1)))
        (configs_of_type-IsWithin t (suc id) (suc group) ms),
  )

  configs_of-IsWithin :
      (ts : List OutputType) (id group : ℕ) (modes : List Mode)
      → All
          (IsWithin id (id + length (configs_of ts id group modes)))
          (configs_of ts id group modes)
  unfolding configs_of
  configs_of-IsWithin [] id group modes = tt
  configs_of-IsWithin (t ∷ ts) id group modes =
      let n = length modes in
      let own = configs_of_type t id group modes in
      let others = configs_of ts (id + n) (group + n) modes in
      let size = length-append own others in
      let same = configs_of_type-length t id group modes in
      All-append (IsWithin id (id + length (own ++ others))) own others
        (All-imp (IsWithin id (id + n)) (IsWithin id (id + length (own ++ others))) own
          (λ c h. (h.0, omega (arith, h.1, size, same)))
          (configs_of_type-IsWithin t id group modes))
        (All-imp (IsWithin (id + n) (id + n + length others))
          (IsWithin id (id + length (own ++ others))) others
          (λ c h. (omega (arith, h.0), omega (arith, h.1, size, same)))
          (configs_of-IsWithin ts (id + n) (group + n) modes))

  module _ (k : Modes Mode) where
    preferred_from_stays :
        (id : ℕ) (cs : List (HwcDisplayConfig Mode)) → 0 < id → preferred_from k id cs ≡ id
    unfolding preferred_from
    preferred_from_stays id [] p = refl
    preferred_from_stays id (c ∷ cs) p =
        ap (λ n. preferred_from k n cs) (unset (k.is_preferred c.mode) c.id id p)
        ∙ preferred_from_stays id cs p

    abbrev pub IsChosen : ℕ → HwcDisplayConfig Mode → Type 0
    IsChosen id c = (c.id ≡ id) × (k.is_preferred c.mode ≡ true)

    abbrev IsPlain : HwcDisplayConfig Mode → Type 0
    IsPlain c = k.is_preferred c.mode ≡ false

    abbrev IsPick : ℕ → List (HwcDisplayConfig Mode) → Type 0
    IsPick n cs = ((n ≡ 0) × All IsPlain cs) ⊎ Any (IsChosen n) cs

    picked_now :
        (c : HwcDisplayConfig Mode) (cs : List (HwcDisplayConfig Mode)) (b : Bool)
        → 0 < c.id
        → k.is_preferred c.mode ≡ b
        → IsPick (preferred_from k 0 cs) cs
        → IsPick (preferred_from k (if b && true then c.id else 0) cs) (c ∷ cs)
    picked_now c cs true p e h = inr (inl (sym (preferred_from_stays c.id cs p), e))
    picked_now c cs false p e (inl (none_yet, plain)) = inl (none_yet, (e, plain))
    picked_now c cs false p e (inr found) = inr (inr found)

    preferred_from-IsPick :
        (cs : List (HwcDisplayConfig Mode))
        → All (λ c. 0 < c.id) cs
        → IsPick (preferred_from k 0 cs) cs
    unfolding preferred_from
    preferred_from-IsPick [] h = inl (refl, tt)
    preferred_from-IsPick (c ∷ cs) (p, h) =
        picked_now c cs (k.is_preferred c.mode) p refl (preferred_from-IsPick cs h)

    -- The identity is of a configuration: of a preferred one, or of the first where none is preferred.
    abbrev pub IsPreference : ℕ → List (HwcDisplayConfig Mode) → Type 0
    IsPreference id [] = ⊥
    IsPreference id (c ∷ cs) = ((id ≡ c.id) × All IsPlain (c ∷ cs)) ⊎ Any (IsChosen id) (c ∷ cs)

    chosen_is_positive :
        (n : ℕ) (cs : List (HwcDisplayConfig Mode))
        → All (λ c. 0 < c.id) cs
        → Any (IsChosen n) cs
        → 0 < n
    chosen_is_positive n [] h a = elim a [ ]
    chosen_is_positive n (c ∷ cs) (p, h) (inl (e, _)) = omega (arith, e, p)
    chosen_is_positive n (c ∷ cs) (p, h) (inr a) = chosen_is_positive n cs h a

    first_or-IsPreference :
        (n : ℕ) (cs : List (HwcDisplayConfig Mode))
        → All (λ c. 0 < c.id) cs
        → (length cs == 0) ≡ false
        → IsPick n cs
        → IsPreference (first_or n cs) cs
    first_or-IsPreference n [] h l s = absurd (ground arith)
    first_or-IsPreference n (c ∷ cs) h l (inl (z, plain)) = inl (ground (arith, z), plain)
    first_or-IsPreference n (c ∷ cs) h l (inr found) = inr (
        subst (λ m. Any (IsChosen m) (c ∷ cs))
          (first_stays n c.id (chosen_is_positive n (c ∷ cs) h found)) found)

    -- What is generated is fit to be used: the identities are fresh, and the preferred one is of one of them.
    abbrev pub IsFresh : ℕ → Option (HwcDisplayConfigs Mode) × ℕ → Type 0
    IsFresh next (none, after) = next ≤ after
    IsFresh next (some c, after) =
        All (IsWithin next after) c.hwc_configs × IsPreference c.preferred_config_id c.hwc_configs

    made-IsFresh :
        (next : ℕ) (cs : List (HwcDisplayConfig Mode)) (b : Bool)
        → 0 < next
        → All (IsWithin next (next + length cs)) cs
        → (length cs == 0) ≡ b
        → IsFresh next (
          if b
              then none
              else some (record {
                hwc_configs = cs;
                preferred_config_id = first_or (preferred_from k 0 cs) cs;
              }),
          next + length cs,
        )
    made-IsFresh next cs true some_id h e = omega arith
    made-IsFresh next cs false some_id h e =
        let positive =
          All-imp (IsWithin next (next + length cs)) (λ c. 0 < c.id) cs (λ c w. omega (arith, w.0))
            h in
        (
          h,
          first_or-IsPreference (preferred_from k 0 cs) cs positive e
              (preferred_from-IsPick cs positive),
        )

    -- From an identity above nought, whatever the modes and whatever a backend filters: if configurations are
    -- generated, each has an identity from the next on and below the one that is next after, so that none was
    -- given before or will be given again; and the preferred identity is that of a configuration whose mode is
    -- preferred, or of the first where no mode is. If none are generated, the next identity is not below.
    pub generate_display_configs-IsFresh :
        (p : HwcConfigParameters Mode) (is_external : Bool) (modes : List Mode) (next : ℕ)
        → 0 < next
        → IsFresh next (generate_display_configs k p is_external modes next)
    unfolding generate_display_configs
    generate_display_configs-IsFresh p is_external modes next some_id =
        let ts = supported_types (enables_hdr is_external p) in
        let cs = configs_of ts next 1 (usable_modes k p modes) in
        if_result {A = Option (HwcDisplayConfigs Mode) × ℕ} (IsFresh next) (length modes == 0)
          (omega arith)
          (made-IsFresh next cs (length cs == 0) some_id
            (configs_of-IsWithin ts next 1 (usable_modes k p modes)) refl)
