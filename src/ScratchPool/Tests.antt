-- ===== src/ScratchPool/Tests.antt =====
-- Runs of tegra/ScratchPool.cpp, and the theorems about it at concrete frames.
use android_hardware_nvidia.ScratchPool.Rotation.{
  Frame, frame, frames, lost, next_is_free, on_screen, replaced_by, shown, shown_after,
}
use android_hardware_nvidia.ScratchPool.{create, next, presented, rewind}
use android_hardware_nvidia.Prelude.{List, [], arith, false, none, refl, some, ℕ, ◌<◌, ◌∷◌, ◌≡◌}

-- Of three buffers, with a frame lost on the way.
abbrev four_frames : List (Frame ℕ)
four_frames = shown 10 ∷ shown 20 ∷ lost ∷ shown 30 ∷ shown 40 ∷ []

next_is_free_example :
    let done = shown_after (create 3) [] four_frames in
    let (p, given) = next (frames (create 3) four_frames) in
    (given ≡ some (p.at_slot, replaced_by p.at_slot none done))
    × (on_screen p.at_slot done ≡ false)
    × (p.at_slot < 3)
next_is_free_example = next_is_free 3 four_frames (omega arith)

third_replaces : (next (frames (create 3) four_frames)).1 ≡ some (2, some 30)
unfolding next frames frame presented rewind create
third_replaces = refl
