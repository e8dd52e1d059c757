-- ===== src/VsyncWorker/Tests.antt =====
-- Runs of display/VSyncWorker.cpp, and the theorems about it at concrete calls and turns.
use android_hardware_nvidia.VsyncWorker.Periods.{TellOf, expected_period_is_not_told}
use android_hardware_nvidia.VsyncWorker.Exits.{run_turns, stopped_thread_exits}
use android_hardware_nvidia.VsyncWorker.Settled.{IsSettled, run-IsSettled}
use android_hardware_nvidia.VsyncWorker.Calls.{unwanted_calls_once}
use android_hardware_nvidia.VsyncWorker.{
  SyncFile, Worker, create_instance, expect_vsync_period_ns, get_last_vsync_timestamp,
  get_vsync_period_ns, phased, ran_at_expected_period, set_display_on, set_timestamp_callback,
  set_vsync_period_ns, set_vsync_timestamp_tracking, should_enable, stop_thread,
  update_vsync_control,
}
use android_hardware_nvidia.Prelude.{
  List, Option, [], arith, false, length, map, refl, some, suc, true, ℕ, ◌++◌, ◌∷◌, ◌≡◌, ◌≢◌, ◌≤◌,
}
use android_hardware_nvidia.VsyncWorker.Thread.{
  Moment, after_sleep, after_wait, blank, exited, no_blank, note_blank, notice, slept, took_hold,
  turn, turn_at, woken_by_signal,
}
use android_hardware_nvidia.VsyncWorker.Steps.{
  Event, call, calls, expects_period, init, notifies, run, sets_callback, sets_display_on,
  sets_period, sets_tracking, step, stops, turns, updates,
}

abbrev file_at : ℕ → Option SyncFile
file_at fence = some (record { status = 1; timestamps = fence ∷ [] })

-- The display tells of a blank at a time, and of how long the frame took.
abbrev tick : ℕ → ℕ → Event ℕ ℕ
tick timestamp ran = turns (record {
  now = timestamp;
  sync_file_info = file_at;
  waited = blank timestamp ran;
  sleep = slept;
})

abbrev dark : ℕ → Moment ℕ
dark now = record { now = now; sync_file_info = file_at; waited = no_blank 0; sleep = slept }

-- Someone wants the blanks of a display that runs at 60 frames a second, and two of them are told of.
abbrev wanted : List (Event ℕ ℕ)
wanted =
    calls (sets_callback (some 7))
    ∷ updates
    ∷ notifies
    ∷ tick 1000 16666666
    ∷ tick 1000 16666666
    ∷ tick 1000 16666666
    ∷ tick 1000 16666666
    ∷ []

-- The display goes dark while the thread waits for a blank.
abbrev going_dark : List (Event ℕ ℕ)
going_dark =
    calls (sets_callback (some 7))
    ∷ updates
    ∷ notifies
    ∷ tick 1000 16666666
    ∷ tick 1000 16666666
    ∷ calls (sets_display_on false)
    ∷ updates
    ∷ []

abbrev dark_turns : List (Event ℕ ℕ)
dark_turns = notifies ∷ tick 1000 16666666 ∷ tick 1000 16666666 ∷ tick 1000 16666666 ∷ []

-- A new rate is asked for, and one frame more runs at the old one.
abbrev changing : List (Event ℕ ℕ)
changing =
    calls (expects_period 8333333)
    ∷ calls (sets_callback (some 7))
    ∷ updates
    ∷ notifies
    ∷ tick 1000 16666666
    ∷ tick 1000 16666666
    ∷ tick 1000 16666666
    ∷ tick 1000 16666666
    ∷ []

-- The first frame at the new rate ends.
abbrev changed : List (Event ℕ ℕ)
changed =
    tick 8334333 8333333 ∷ tick 8334333 8333333 ∷ tick 8334333 8333333 ∷ tick 8334333 8333333 ∷ []

abbrev shown : Worker ℕ ℕ
shown = record (create_instance true) { vsync_period_ns = 50; last_present_fence = some 137 }

wanted_is_told :
    (run wanted (init true)).notices
    ≡ record { callback = 7; timestamp = 1000; period_ns = 16666666 } ∷ []
unfolding init create_instance run step turn turn_at note_blank took_hold update_vsync_control
    should_enable call set_timestamp_callback set_vsync_period_ns expect_vsync_period_ns
    set_vsync_timestamp_tracking set_display_on stop_thread ran_at_expected_period after_wait
    after_sleep notice get_last_vsync_timestamp
wanted_is_told = refl

changed_is_told :
    map
      (λ n. n.period_ns)
      (run (calls (sets_period 16666666) ∷ (changing ++ changed)) (init true)).notices
    ≡ 8333333 ∷ 16666666 ∷ []
unfolding init create_instance run step turn turn_at note_blank took_hold update_vsync_control
    should_enable call set_timestamp_callback set_vsync_period_ns expect_vsync_period_ns
    set_vsync_timestamp_tracking set_display_on stop_thread ran_at_expected_period after_wait
    after_sleep notice get_last_vsync_timestamp
changed_is_told = refl

-- The blank after 683 is told, and one is passed over where the time is before the last.
phased_blanks : (phased 50 683 (some 137) ≡ 687) × (phased 50 100 (some 137) ≡ 187)
unfolding phased
phased_blanks = (refl, refl)

-- Tracking that is ended leaves the last timestamp to be read.
tracking_ends :
    get_last_vsync_timestamp
      (run
        (calls (sets_tracking true) ∷ (wanted ++ (calls (sets_tracking false) ∷ updates ∷ [])))
        (init true)).worker
    ≡ 1000
unfolding init create_instance run step turn turn_at note_blank took_hold update_vsync_control
    should_enable call set_timestamp_callback set_vsync_period_ns expect_vsync_period_ns
    set_vsync_timestamp_tracking set_display_on stop_thread ran_at_expected_period after_wait
    after_sleep notice get_last_vsync_timestamp
tracking_ends = refl

run-IsSettled_example : IsSettled (run going_dark (init true))
run-IsSettled_example = run-IsSettled true going_dark

calm : slept ≢ woken_by_signal
calm e = cc

stopped_thread_exits_example :
    (run_turns
      (dark 1 ∷ dark 2 ∷ dark 3 ∷ dark 4 ∷ dark 5 ∷ dark 6 ∷ dark 7 ∷ [])
      (step notifies (run (wanted ++ (calls stops ∷ [])) (init true)))).thread
    ≡ exited
unfolding init create_instance run step turn turn_at note_blank took_hold update_vsync_control
    should_enable call set_timestamp_callback set_vsync_period_ns expect_vsync_period_ns
    set_vsync_timestamp_tracking set_display_on stop_thread ran_at_expected_period after_wait
    after_sleep notice get_last_vsync_timestamp
stopped_thread_exits_example =
    stopped_thread_exits true (wanted ++ (calls stops ∷ []))
      (dark 1 ∷ dark 2 ∷ dark 3 ∷ dark 4 ∷ dark 5 ∷ dark 6 ∷ dark 7 ∷ []) refl
      (calm, (calm, (calm, (calm, (calm, (calm, (calm, tt))))))) (omega arith)

unwanted_calls_once_example :
    length (run dark_turns (run going_dark (init true))).notices
    ≤ suc (length (run going_dark (init true)).notices)
unfolding init create_instance run step turn turn_at note_blank took_hold update_vsync_control
    should_enable call set_timestamp_callback set_vsync_period_ns expect_vsync_period_ns
    set_vsync_timestamp_tracking set_display_on stop_thread ran_at_expected_period after_wait
    after_sleep notice get_last_vsync_timestamp
unwanted_calls_once_example =
    unwanted_calls_once true going_dark dark_turns refl refl (refl, (refl, (refl, (refl, tt))))

expected_period_is_not_told_example :
    TellOf 16666666 (run (calls (sets_period 16666666) ∷ changing) (init true)).notices
    × (get_vsync_period_ns (run (calls (sets_period 16666666) ∷ changing) (init true)).worker
        ≡ 16666666)
expected_period_is_not_told_example = expected_period_is_not_told 16666666 8333333 changing refl
