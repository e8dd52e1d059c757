-- ===== src/MergeGroup/Tests.antt =====
-- Runs of compositor/MergeGroup.cpp, and the theorem about it at a concrete stack.
use android_hardware_nvidia.MergeGroup.Sound.{BestIsSound, chosen_is_sound}
use android_hardware_nvidia.Prelude.{
  Bool, List, Option, [], false, map, max_ℤ, min_ℤ, none, pos, refl, some, true, ℕ, ◌+◌, ◌∷◌, ◌≡◌,
}
use android_hardware_nvidia.MergeGroup.{
  GroupChoice, GroupMember, choose_merge_group, is_clear, is_cut, numbered, overlaps, record_choice,
  search_from, walk,
}

abbrev column : ℕ → Bool → GroupMember
column n live = record {
  live = live;
  frame = some (record { left = pos n; top = pos 0; right = pos (n + 10); bottom = pos 10 });
  turn = 0;
}

-- Three columns side by side, the middle one live.
abbrev columns : List GroupMember
columns = column 0 false ∷ column 20 true ∷ column 40 false ∷ []

abbrev order_of : Option GroupChoice → List ℕ
order_of none = []
order_of (some c) = map (λ x. x.index) c.order

-- The live column is lowered beneath the other two.
columns_chosen : order_of (choose_merge_group columns 2) ≡ 1 ∷ 0 ∷ 2 ∷ []
unfolding choose_merge_group search_from walk record_choice is_cut is_clear overlaps max_ℤ min_ℤ
columns_chosen = refl

chosen_is_sound_example : BestIsSound (numbered 0 columns) 2 (choose_merge_group columns 2)
chosen_is_sound_example = chosen_is_sound columns 2
