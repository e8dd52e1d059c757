-- ===== src/HdcpController/Tests.antt =====
-- Runs of compositor/HdcpController.cpp, and the theorems about it at concrete events.
use android_hardware_nvidia.HdcpController.Decides.{IsSettled, deadline_decides}
use android_hardware_nvidia.HdcpController.Turns.{AllLate, run_thread}
use android_hardware_nvidia.HdcpController.Notices.{
  NoticesAgree, TellsOn, notices_agree, terminate_is_overtaken,
}
use android_hardware_nvidia.Prelude.{
  Bool, List, [], arith, false, none, refl, true, ℕ, ◌∷◌, ◌≡◌, ◌≢◌,
}
use android_hardware_nvidia.HdcpController.{
  Controller, Event, checks, exited, init, look, looks, request, requested, requests, run, runs,
  set_content_protection_status, start, starts, step, terminates, thread_step, undesired,
  waits_until,
}

-- Two attempts that both fail: a frame to try again is asked for once, and protection is given up.
abbrev failing : List Event
failing =
    starts
    ∷ requests 100
    ∷ runs 2000 false
    ∷ runs 2000 false
    ∷ runs 2000 false
    ∷ requests 2100
    ∷ runs 4000 false
    ∷ runs 4000 false
    ∷ runs 4000 false
    ∷ []

failing_ends :
    ((run 1000 init failing).state ≡ undesired)
    × ((run 1000 init failing).retry_frames ≡ 1)
    × ((run 1000 init failing).notices ≡ none ∷ [])
unfolding run step init start request thread_step look set_content_protection_status
failing_ends = (refl, refl, refl)

abbrev asked : Controller
asked = record {
  state = requested;
  was_retry = true;
  sleep_until = 1100;
  thread = waits_until 1100;
  notices = [];
  retry_frames = 1;
}

abbrev late : List (ℕ × Bool)
late = (1100, true) ∷ (1101, false) ∷ (1102, false) ∷ (1103, false) ∷ (1104, false) ∷ []

late-AllLate : AllLate 1100 late
late-AllLate = (omega arith, (omega arith, (omega arith, (omega arith, (omega arith, tt)))))

asked_waits : asked.thread ≢ exited
asked_waits = cc

deadline_decides_example : IsSettled asked late (run_thread asked late)
deadline_decides_example = deadline_decides asked late refl asked_waits late-AllLate (omega arith)

notices_agree_example : NoticesAgree (run 1000 init failing)
unfolding run step init start request thread_step look set_content_protection_status
notices_agree_example =
    notices_agree 1000 failing (tt, (tt, (tt, (tt, (tt, (tt, (tt, (tt, (tt, tt)))))))))

terminate_is_overtaken_example :
    let d =
      run 1000
        (record asked { thread = checks })
        (runs 1200 true ∷ terminates ∷ runs 1300 false ∷ []) in
    (d.state ≡ undesired) × (d.thread ≡ looks) × TellsOn d.notices
terminate_is_overtaken_example =
    terminate_is_overtaken 1000 1200 1300 false (record asked { thread = checks }) refl refl
