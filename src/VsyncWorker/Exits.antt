-- ===== src/VsyncWorker/Exits.antt =====
-- VSyncWorker.cpp: a thread that is told to exit does.
use android_hardware_nvidia.VsyncWorker.Steps.{Event, init, notifies, run, step}
use android_hardware_nvidia.VsyncWorker.Settled.{IsAwake, is_waiting, run-IsSettled}
use android_hardware_nvidia.VsyncWorker.{get_phased_vsync, update_last_vsync_time_with_present_time}
use android_hardware_nvidia.Prelude.{
  Bool, List, [], arith, false, length, refl, suc, true, ℕ, ◌∷◌, ◌≡◌, ◌≢◌, ◌≤◌,
}
use android_hardware_nvidia.VsyncWorker.Thread.{
  Moment, System, Thread, after_sleep, after_wait, asks_source, calls_back, exited, has_blank,
  note_blank, sleeps, starts, stops_source, synthesizes, turn, turn_at, waits, woken,
  woken_by_signal,
}

-- The turns that are left at most.
abbrev turns_left : {Callback : Type 0} → Thread Callback → ℕ
turns_left exited = 0
turns_left starts = 1
turns_left stops_source = 1
turns_left (calls_back _ _ _) = 2
turns_left (has_blank _ _) = 3
turns_left (sleeps _ _) = 4
turns_left (synthesizes _) = 5
turns_left asks_source = 6
turns_left woken = 7
turns_left waits = 8

-- No signal ends a sleep.
abbrev pub IsUndisturbed : {Fence : Type 0} → List (Moment Fence) → Type 0
IsUndisturbed [] = Unit {0}
IsUndisturbed (m ∷ ms) = (m.sleep ≢ woken_by_signal) × IsUndisturbed ms

nothing_left : {Callback : Type 0} (t : Thread Callback) → turns_left t ≤ 0 → t ≡ exited
nothing_left exited l = refl
nothing_left starts l = absurd (omega arith)
nothing_left stops_source l = absurd (omega arith)
nothing_left waits l = absurd (omega arith)
nothing_left woken l = absurd (omega arith)
nothing_left asks_source l = absurd (omega arith)
nothing_left (synthesizes ran) l = absurd (omega arith)
nothing_left (sleeps timestamp ran) l = absurd (omega arith)
nothing_left (has_blank timestamp ran) l = absurd (omega arith)
nothing_left (calls_back callback timestamp period) l = absurd (omega arith)

awake_turns_left :
    {Callback : Type 0} (t : Thread Callback) → is_waiting t ≡ false → turns_left t ≤ 7
awake_turns_left t h = ground arith

module _ {Fence Callback : Type 0} where
  abbrev pub run_turns : List (Moment Fence) → System Fence Callback → System Fence Callback
  run_turns [] s = s
  run_turns (m ∷ ms) s = run_turns ms (turn m s)

  turn_at-IsLeaving :
      (m : Moment Fence) (s : System Fence Callback) (t : Thread Callback) (n : ℕ)
      → m.sleep ≢ woken_by_signal
      → s.worker.thread_exit ≡ true
      → s.thread ≡ t
      → is_waiting t ≡ false
      → turns_left t ≤ suc n
      → (((turn_at m s t).worker.thread_exit ≡ true)
          × ((is_waiting (turn_at m s t).thread ≡ false) × (turns_left (turn_at m s t).thread ≤ n)))
  unfolding turn_at note_blank get_phased_vsync update_last_vsync_time_with_present_time after_wait
      after_sleep
  turn_at-IsLeaving m s starts n u x e w l = ground arith
  turn_at-IsLeaving m s stops_source n u x e w l = ground arith
  turn_at-IsLeaving m s waits n u x e w l = ground arith
  turn_at-IsLeaving m s woken n u x e w l = ground arith
  turn_at-IsLeaving m s asks_source n u x e w l = ground arith
  turn_at-IsLeaving m s (synthesizes ran) n u x e w l = ground arith
  turn_at-IsLeaving m s (sleeps timestamp ran) n u x e w l = ground arith
  turn_at-IsLeaving m s (has_blank timestamp ran) n u x e w l = ground arith
  turn_at-IsLeaving m s (calls_back callback timestamp period) n u x e w l = ground arith
  turn_at-IsLeaving m s exited n u x e w l = ground arith

  run_turns_exit :
      (ms : List (Moment Fence)) (s : System Fence Callback)
      → IsUndisturbed ms
      → s.worker.thread_exit ≡ true
      → is_waiting s.thread ≡ false
      → turns_left s.thread ≤ length ms
      → (run_turns ms s).thread ≡ exited
  unfolding turn
  run_turns_exit [] s u x w l = nothing_left s.thread l
  run_turns_exit (m ∷ ms) s (u, us) x w l =
      let (x', (w', l')) = turn_at-IsLeaving m s s.thread (length ms) u x refl w l in
      run_turns_exit ms (turn m s) us x' w' l'

  notified_stays_awake :
      (s : System Fence Callback)
      → IsAwake s
      → s.worker.thread_exit ≡ true
      → is_waiting (step notifies s).thread ≡ false
  unfolding step
  notified_stays_awake s h x = ground arith

  notified_still_exits :
      (s : System Fence Callback)
      → s.worker.thread_exit ≡ true
      → (step notifies s).worker.thread_exit ≡ true
  unfolding step
  notified_still_exits s x = ground arith

  -- After any calls and turns that leave the thread to exit: once a notification that is due, if one is, has
  -- been made, seven turns, or more, in none of which a signal ends the sleep, end the thread, whatever the
  -- source and the clock answer.
  pub stopped_thread_exits :
      (has_pipe : Bool) (es : List (Event Fence Callback)) (ms : List (Moment Fence))
      → (run es (init has_pipe)).worker.thread_exit ≡ true
      → IsUndisturbed ms
      → 7 ≤ length ms
      → (run_turns ms (step notifies (run es (init has_pipe)))).thread ≡ exited
  stopped_thread_exits has_pipe es ms x u l =
      let s = run es (init has_pipe) in
      let awake = notified_stays_awake s (run-IsSettled has_pipe es).1 x in
      run_turns_exit ms (step notifies s) u (notified_still_exits s x) awake
        (omega (arith, awake_turns_left (step notifies s).thread awake))
