-- ===== src/VsyncWorker/Settled.antt =====
-- VSyncWorker.cpp: the control is as the last call left it, and no waiting thread is left asleep.
use android_hardware_nvidia.Prelude.{
  Bool, List, [], arith, false, inl, inr, refl, true, ◌<◌, ◌∷◌, ◌≡◌, ◌⊎◌,
}
use android_hardware_nvidia.VsyncWorker.Thread.{
  Moment, System, Thread, after_sleep, after_wait, asks_source, calls_back, exited, has_blank,
  note_blank, sleeps, starts, stops_source, synthesizes, turn, turn_at, waits, woken,
}
use android_hardware_nvidia.VsyncWorker.Steps.{
  Call, Event, adds_fence, asks_next, call, calls, expects_period, init, notifies, run,
  sets_callback, sets_display_on, sets_period, sets_tracking, step, stops, turns, updates, wakes,
}
use android_hardware_nvidia.VsyncWorker.{
  add_last_present_fence, create_instance, expect_vsync_period_ns, get_next_vsync_timestamp,
  get_phased_vsync, set_display_on, set_timestamp_callback, set_vsync_period_ns,
  set_vsync_timestamp_tracking, should_enable, stop_thread,
  update_last_vsync_time_with_present_time, update_vsync_control,
}

abbrev pub is_waiting : {Callback : Type 0} → Thread Callback → Bool
is_waiting waits = true
is_waiting _ = false

module _ {Fence Callback : Type 0} where
  abbrev pub IsControlled : System Fence Callback → Type 0
  IsControlled s =
      (0 < s.updates_due)
      ⊎ ((s.worker.thread_exit ≡ true) ⊎ (s.worker.enabled ≡ should_enable s.worker))

  abbrev pub IsAwake : System Fence Callback → Type 0
  IsAwake s =
      (0 < s.notifies_due)
      ⊎ ((is_waiting s.thread ≡ false)
          ⊎ ((s.worker.thread_exit ≡ false) × (s.worker.enabled ≡ false)))

  abbrev pub IsSettled : System Fence Callback → Type 0
  IsSettled s = IsControlled s × IsAwake s

  call-IsControlled :
      (c : Call Fence Callback) (s : System Fence Callback)
      → IsControlled s
      → IsControlled (step (calls c) s)
  unfolding step call set_vsync_period_ns expect_vsync_period_ns set_vsync_timestamp_tracking
      set_display_on add_last_present_fence get_next_vsync_timestamp get_phased_vsync
      update_last_vsync_time_with_present_time set_timestamp_callback stop_thread should_enable
  call-IsControlled (sets_period period) s h = ground arith
  call-IsControlled (expects_period period) s h = ground arith
  call-IsControlled (sets_tracking on) s h = inl (omega arith)
  call-IsControlled (sets_display_on on) s h = inl (omega arith)
  call-IsControlled (adds_fence fence) s h = ground arith
  call-IsControlled (asks_next sync_file_info time) s h = ground arith
  call-IsControlled (sets_callback callback) s h = inl (omega arith)
  call-IsControlled stops s h = ground arith

  call-IsAwake :
      (c : Call Fence Callback) (s : System Fence Callback) → IsAwake s → IsAwake (step (calls c) s)
  unfolding step call set_vsync_period_ns expect_vsync_period_ns set_vsync_timestamp_tracking
      set_display_on add_last_present_fence get_next_vsync_timestamp get_phased_vsync
      update_last_vsync_time_with_present_time set_timestamp_callback stop_thread
  call-IsAwake (sets_period period) s h = ground arith
  call-IsAwake (expects_period period) s h = ground arith
  call-IsAwake (sets_tracking on) s h = ground arith
  call-IsAwake (sets_display_on on) s h = ground arith
  call-IsAwake (adds_fence fence) s h = ground arith
  call-IsAwake (asks_next sync_file_info time) s h = ground arith
  call-IsAwake (sets_callback callback) s h = ground arith
  call-IsAwake stops s h = inl (omega arith)

  turn_at-IsControlled :
      (m : Moment Fence) (s : System Fence Callback) (t : Thread Callback)
      → IsControlled s
      → IsControlled (turn_at m s t)
  unfolding turn_at note_blank get_phased_vsync update_last_vsync_time_with_present_time
      should_enable
  turn_at-IsControlled m s starts h = ground arith
  turn_at-IsControlled m s stops_source h = ground arith
  turn_at-IsControlled m s waits h = h
  turn_at-IsControlled m s woken h = ground arith
  turn_at-IsControlled m s asks_source h = ground arith
  turn_at-IsControlled m s (synthesizes ran) h = ground arith
  turn_at-IsControlled m s (sleeps timestamp ran) h = h
  turn_at-IsControlled m s (has_blank timestamp ran) h = ground arith
  turn_at-IsControlled m s (calls_back callback timestamp period) h = h
  turn_at-IsControlled m s exited h = h

  turn_at-IsAwake :
      (m : Moment Fence) (s : System Fence Callback) (t : Thread Callback)
      → s.thread ≡ t
      → IsAwake s
      → IsAwake (turn_at m s t)
  unfolding turn_at note_blank get_phased_vsync update_last_vsync_time_with_present_time after_wait
      after_sleep
  turn_at-IsAwake m s starts e h = ground arith
  turn_at-IsAwake m s stops_source e h = ground arith
  turn_at-IsAwake m s waits e h = h
  turn_at-IsAwake m s woken e h = ground arith
  turn_at-IsAwake m s asks_source e h = ground arith
  turn_at-IsAwake m s (synthesizes ran) e h = inr (inl refl)
  turn_at-IsAwake m s (sleeps timestamp ran) e h = ground arith
  turn_at-IsAwake m s (has_blank timestamp ran) e h = ground arith
  turn_at-IsAwake m s (calls_back callback timestamp period) e h = inr (inl refl)
  turn_at-IsAwake m s exited e h = h

  step-IsSettled :
      (e : Event Fence Callback) (s : System Fence Callback) → IsSettled s → IsSettled (step e s)
  unfolding step turn update_vsync_control
  step-IsSettled (calls c) s (h, k) = (call-IsControlled c s h, call-IsAwake c s k)
  step-IsSettled updates s h = ground arith
  step-IsSettled notifies s h = ground arith
  step-IsSettled wakes s h = ground arith
  step-IsSettled (turns m) s (h, k) =
      (turn_at-IsControlled m s s.thread h, turn_at-IsAwake m s s.thread refl k)

  run-IsSettled-from :
      (es : List (Event Fence Callback)) (s : System Fence Callback)
      → IsSettled s
      → IsSettled (run es s)
  unfolding run
  run-IsSettled-from [] s h = h
  run-IsSettled-from (e ∷ es) s h = run-IsSettled-from es (step e s) (step-IsSettled e s h)

  -- Whatever the calls and the turns of the thread, in any order of their sections: where no call is between
  -- its two sections and the thread is not to exit, the worker is enabled exactly if the display is on and
  -- someone wants its blanks; and a thread that waits while it is to exit or the worker is enabled is still
  -- to be notified, so that no wake-up is lost.
  pub run-IsSettled :
      (has_pipe : Bool) (es : List (Event Fence Callback)) → IsSettled (run es (init has_pipe))
  unfolding init create_instance should_enable
  run-IsSettled has_pipe es = run-IsSettled-from es (init has_pipe) (inr (inr refl), inr (inl refl))
