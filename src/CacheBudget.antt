-- ===== src/CacheBudget.antt =====
-- vk/CacheBudget.h: which image the cache of the compositor on the GPU lets go.
pub mod Victims
mod Tests
use android_hardware_nvidia.Prelude.{
  Bool, List, Option, [], if◌then◌else◌, leb, ltb, none, some, suc, ℕ, ◌*◌, ◌+◌, ◌^◌, ◌||◌, ◌∷◌,
}

pub record CacheBudget : Type 0 where
  pub most_entries : ℕ
  pub most_bytes : ℕ

abbrev pub default_budget : CacheBudget
default_budget = record { most_entries = 64; most_bytes = 128 * 2 ^ 20 }

unfoldable pub is_over : CacheBudget → ℕ → ℕ → ℕ → Bool
is_over budget entries bytes adding =
    ltb budget.most_entries (entries + 1) || ltb budget.most_bytes (bytes + adding)

-- The loop over the images, each with when it was last asked for. The victim so far is kept with its
-- last use.
unfoldable pub pick_from : ℕ → ℕ → Option (ℕ × ℕ) → List ℕ → Option (ℕ × ℕ)
pick_from protect_from i victim [] = victim
pick_from protect_from i victim (last_use ∷ uses) =
    let kept = pick_from protect_from (suc i) victim uses in
    let taken = pick_from protect_from (suc i) (some (i, last_use)) uses in
    if leb protect_from last_use
    then kept
    else elim victim [ none ↦ taken | some (_, best) ↦ if ltb last_use best then taken else kept ]

unfoldable pub pick_victim : List ℕ → ℕ → Option ℕ
unfolding pick_from
pick_victim uses protect_from = elim (pick_from protect_from 0 none uses) [
  | none ↦ none
  | some (i, _) ↦ some i
]
