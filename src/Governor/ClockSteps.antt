-- ===== src/Governor/ClockSteps.antt =====
-- governor/ClockSteps.h: an engine's clock steps, and the step asked for a need.
pub mod Choice
use android_hardware_nvidia.Prelude.{List, [], if◌then◌else◌, leb, ℕ, ◌==◌, ◌||◌, ◌∷◌}

-- `cap_mhz` is nought where the top step may be asked for.
pub record ClockLadder : Type 0 where
  pub steps : List ℕ
  pub cap_mhz : ℕ

-- The loop of `Top`: the last step that the cap allows.
pub top_from : ℕ → ℕ → List ℕ → ℕ
top_from cap top [] = top
top_from cap top (s ∷ ss) = top_from cap (if cap == 0 || leb s cap then s else top) ss

unfoldable pub top_of : ClockLadder → ℕ
unfolding top_from
top_of l = top_from l.cap_mhz 0 l.steps

-- The loop of `AtLeast`, which ends at the first step above the top.
pub at_least_from : ℕ → ℕ → List ℕ → ℕ
at_least_from top need [] = 0
at_least_from top need (s ∷ ss) =
    let rest = at_least_from top need ss in if leb s top then if leb need s then s else rest else 0

unfoldable pub at_least : ClockLadder → ℕ → ℕ
unfolding at_least_from top_of
at_least l need_mhz = at_least_from (top_of l) need_mhz l.steps

abbrev pub clock_steps_mhz : List ℕ
clock_steps_mhz = 180 ∷ 258 ∷ 336 ∷ 378 ∷ 420 ∷ 462 ∷ 504 ∷ 552 ∷ 600 ∷ 684 ∷ 720 ∷ 756 ∷ []

abbrev pub vic_ladder : ClockLadder
vic_ladder = record { steps = clock_steps_mhz; cap_mhz = 0 }

abbrev pub gpu_steps_mhz : List ℕ
gpu_steps_mhz =
    72 ∷ 108 ∷ 180 ∷ 252 ∷ 324 ∷ 396 ∷ 468 ∷ 540 ∷ 612 ∷ 648 ∷ 684 ∷ 708 ∷ 756 ∷ 804 ∷ 852 ∷ []

abbrev pub gpu_ladder : ℕ → ClockLadder
gpu_ladder cap_mhz = record { steps = gpu_steps_mhz; cap_mhz = cap_mhz }
