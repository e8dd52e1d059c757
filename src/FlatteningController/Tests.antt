-- ===== src/FlatteningController/Tests.antt =====
-- Runs of compositor/FlatteningController.cpp, and the theorems about it at concrete events.
use android_hardware_nvidia.FlatteningController.Idle.{
  AllLate, flattens_when_idle, idle_is_noticed, last_draw, rounds,
}
use android_hardware_nvidia.Prelude.{List, [], arith, refl, true, ℕ, ◌+◌, ◌<◌, ◌∷◌, ◌≡◌, ◌≢◌, ◌≤◌}
use android_hardware_nvidia.FlatteningController.{
  Controller, Event, active, draws, exited, init, look, new_frame, run, runs, set_state,
  should_flatten, step, thread_step, waits_until,
}

abbrev drawing : List Event
drawing = runs 5 ∷ draws 100 ∷ runs 110 ∷ runs 111 ∷ runs 112 ∷ []

active_again : Controller
active_again = run true 1000 init drawing

flattens_when_idle_example : last_draw 0 drawing + 1000 ≤ 1151
unfolding run step init new_frame set_state thread_step look should_flatten
flattens_when_idle_example = flattens_when_idle true 1000 drawing 1151 refl refl

abbrev waiting : Controller
waiting = record {
  state = active;
  sleep_until = 1100;
  thread = waits_until 1100;
  atoms = active ∷ [];
  triggered = 0;
}

abbrev late : List ℕ
late = 1100 ∷ 1101 ∷ 1102 ∷ []

waiting_runs : waiting.thread ≢ exited
waiting_runs = cc

late-AllLate : AllLate 1100 late
late-AllLate = (omega arith, (omega arith, (omega arith, tt)))

idle_is_noticed_example :
    let d = run true 1000 waiting (rounds late) in
    (0 < d.triggered) × (should_flatten true 1000 d ≡ true)
idle_is_noticed_example =
    idle_is_noticed true 1000 waiting late refl waiting_runs late-AllLate (omega arith)
