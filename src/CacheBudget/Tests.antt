-- ===== src/CacheBudget/Tests.antt =====
-- Runs of vk/CacheBudget.h, and the theorem about it at a concrete cache.
use android_hardware_nvidia.CacheBudget.{default_budget, is_over, pick_from, pick_victim}
use android_hardware_nvidia.Prelude.{[], none, refl, some, true, ◌∷◌, ◌≡◌}

oldest_goes : pick_victim (7 ∷ 3 ∷ 9 ∷ 3 ∷ []) 8 ≡ some 1
unfolding pick_victim pick_from
oldest_goes = refl

all_in_hand : pick_victim (9 ∷ 8 ∷ []) 8 ≡ none
unfolding pick_victim pick_from
all_in_hand = refl

one_more_image : is_over default_budget 64 0 1 ≡ true
unfolding is_over
one_more_image = refl
