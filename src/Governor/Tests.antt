-- ===== src/Governor/Tests.antt =====
-- Runs of governor/ClockSteps.h, FenceWatch.cpp and FloorLane.cpp with the clock of EngineClock.cpp, and
-- the theorems about them at concrete inputs.
use android_hardware_nvidia.Governor.Mailbox.{Bell, Mailbox, on}
use android_hardware_nvidia.Governor.Mailbox.Deliveries.{mail_is_delivered}
use android_hardware_nvidia.Governor.Mailbox.Calls.{
  Call, IsRung, Post, calls, got_gpu_of, got_of, plans, reported_gpu_of, reported_of, rings,
  standing, standing_gpu, submits, takes,
}
use mathlib.Core.List.{Perm}
use android_hardware_nvidia.Governor.EngineClock.{
  Answer, EngineClock, engine_actuator, granted, is_usable, note_answer, request, set_floor,
  current_mhz,
}
use android_hardware_nvidia.Governor.FenceWatch.Ownership.{
  Act, acts, adds, all_given, drops, fences_are_owned, judges,
}
use android_hardware_nvidia.Governor.FloorLane.Exits.{HasExit, floor_goes}
use android_hardware_nvidia.Governor.FloorLane.Stranded.{floor_is_stranded}
use android_hardware_nvidia.Governor.FenceWatch.{fds_of, is_watching_none, no_fences}
use android_hardware_nvidia.Governor.ClockSteps.{at_least, gpu_ladder, top_of}
use android_hardware_nvidia.Governor.EngineClock.{Answer, EngineClock, engine_actuator, granted}
use android_hardware_nvidia.Prelude.{
  List, Option, [], arith, false, inl, inr, negsuc, none, not, pos, refl, some, suc, true, ℕ, ℤ,
  ◌++◌, ◌<◌, ◌==◌, ◌∷◌, ◌≡◌, ◌⊎◌,
}
use android_hardware_nvidia.Governor.FloorLane.{
  FloorActuator, FloorLane, LaneTuning, Round, ask, next_due_ns, raise, release_if_due, reported,
  turns,
}

chosen_steps :
    (top_of (gpu_ladder 600) ≡ 540)
    × (at_least (gpu_ladder 600) 300 ≡ 324)
    × (at_least (gpu_ladder 600) 600 ≡ 0)
unfolding top_of at_least
chosen_steps = (refl, refl, refl)

abbrev watch_acts : List Act
watch_acts =
    adds (pos 5) 1 100
    ∷ adds (negsuc 0) 2 110
    ∷ adds (pos 6) 3 120
    ∷ judges (record { fd = pos 5; is_due = true } ∷ record { fd = pos 6; is_due = false } ∷ []) 0
        200 1000
    ∷ []

fences_are_owned_example :
    Perm
      (all_given watch_acts)
      ((acts no_fences watch_acts).1 ++ fds_of (acts no_fences watch_acts).0.watched)
    × Perm (all_given watch_acts) (acts no_fences (watch_acts ++ drops ∷ [])).1
fences_are_owned_example = fences_are_owned watch_acts

-- A kernel that grants each request, with devfreq at 200 MHz; its state counts the calls.
abbrev grants : ℕ → ℕ → ℕ × Answer
grants k rate = (suc k, granted)

abbrev reads : ℕ → ℕ × Option ℕ
reads k = (suc k, some 200000000)

abbrev vic : FloorActuator
vic = engine_actuator grants reads

abbrev tuning : LaneTuning
tuning = record { hold_ms = 50; orphan_ms = 100; fence_patience_ms = 500 }

abbrev idle_lane : FloorLane (EngineClock ℕ)
idle_lane = record {
  actuator = record { kernel = 0; is_open = true; is_refused = false; floor_mhz = 0 };
  fences = no_fences;
  first_slot = 0;
  release_due_ns = 0;
  orphan_due_ns = 0;
  owed_mhz = 0;
}

abbrev asks : Round
asks = record {
  ahead = [];
  slots = [];
  reports = [];
  decision = some (420, 600, false);
  now = 1000;
}

abbrev hears : ℤ → Round
hears fd = record {
  ahead = [];
  slots = [];
  reports = record { fd = fd; seq = 1; since_ns = 2000 } ∷ [];
  decision = none;
  now = 2000;
}

idle-HasExit : HasExit vic tuning idle_lane
idle-HasExit = inl refl

floor_goes_example :
    let m = turns vic tuning idle_lane (asks ∷ hears (pos 7) ∷ []) in
    (vic.floor_mhz m.actuator ≡ 0)
    ⊎ ((0 < next_due_ns vic tuning m)
        × (is_watching_none m.fences ≡ true
            → vic.floor_mhz (release_if_due vic tuning m (next_due_ns vic tuning m)).actuator ≡ 0))
floor_goes_example =
    floor_goes vic tuning idle_lane (asks ∷ hears (pos 7) ∷ [])
      ((omega arith, inl refl), ((omega arith, inr refl), tt)) (omega arith) idle-HasExit

abbrev asked_lane : FloorLane (EngineClock ℕ)
asked_lane = ask vic tuning idle_lane 420 600 false 1000

asked_for_nothing_seen : (asked_lane.fences.watched ≡ []) × (asked_lane.release_due_ns ≡ 0)
unfolding ask raise current_mhz set_floor request is_usable note_answer no_fences
asked_for_nothing_seen = (refl, refl)

-- The lane asked 420 MHz and owes 600; the report without a fence has it ask them, and there they stay.
floor_is_stranded_example :
    let m = turns vic tuning asked_lane (
      hears (negsuc 0)
      ∷ record { ahead = []; slots = []; reports = []; decision = none; now = 90000000000 }
      ∷ []) in
    (vic.floor_mhz m.actuator ≡ vic.floor_mhz (reported vic tuning asked_lane).actuator)
    × (next_due_ns vic tuning m ≡ 0)
floor_is_stranded_example =
    floor_is_stranded vic tuning asked_lane (hears (negsuc 0))
      (record { ahead = []; slots = []; reports = []; decision = none; now = 90000000000 } ∷ [])
      (cc, (refl, tt)) refl ((refl, refl), tt) asked_for_nothing_seen

stranded_at : vic.floor_mhz (reported vic tuning asked_lane).actuator ≡ 600
unfolding reported ask raise current_mhz set_floor request is_usable note_answer
stranded_at = refl

-- An eventfd by its counter.
abbrev counter : Bell
counter = record {
  State = ℕ;
  ring = suc;
  drain = λ _. 0;
  is_readable = λ n. not (n == 0);
  is_readable-ring = λ n. ground arith;
}

abbrev empty_box : Mailbox ℕ ℕ ℕ
empty_box = record {
  event = 0;
  pending = none;
  submitted = [];
  gpu_pending = none;
  gpu_submitted = [];
  power = on;
  stop = false;
}

abbrev empty_post : Post ℕ ℕ ℕ
empty_post = record { box = empty_box; rings_due = 0; is_unseen = false }

-- The thread takes the first plan before its call has rung.
abbrev letters : List (Call ℕ ℕ)
letters =
    plans 1 (7 ∷ [])
    ∷ takes false
    ∷ rings
    ∷ submits (record { fd = pos 5; seq = 1; since_ns = 10 })
    ∷ takes true
    ∷ rings
    ∷ plans 2 []
    ∷ submits (record { fd = pos 6; seq = 2; since_ns = 20 })
    ∷ rings
    ∷ []

mail_is_delivered_example :
    let (after, got) = calls counter empty_post letters in
    ([] ++ reported_of letters ≡ got_of counter got ++ after.box.submitted)
    × ([] ++ reported_gpu_of letters ≡ got_gpu_of counter got ++ after.box.gpu_submitted)
    × (after.box.pending ≡ standing none letters)
    × (after.box.gpu_pending ≡ standing_gpu none letters)
    × IsRung counter after
mail_is_delivered_example =
    mail_is_delivered counter empty_post letters (inl (refl, (refl, refl, refl, refl)))
