-- ===== src/VsyncWorker/Steps.antt =====
-- VSyncWorker.cpp: the worker with its thread and the calls of its client, in any order of their sections.
use android_hardware_nvidia.Prelude.{Bool, List, Option, [], if◌then◌else◌, ℕ, ◌+◌, ◌-◌, ◌==◌, ◌∷◌}
use android_hardware_nvidia.VsyncWorker.Thread.{
  Moment, System, Thread, at, starts, turn, waits, woken,
}
use android_hardware_nvidia.VsyncWorker.{
  SyncFile, Worker, add_last_present_fence, create_instance, expect_vsync_period_ns,
  get_next_vsync_timestamp, set_display_on, set_timestamp_callback, set_vsync_period_ns,
  set_vsync_timestamp_tracking, stop_thread, update_vsync_control,
}

pub data Call (Fence Callback : Type 0) : Type 0 where
  sets_period : ℕ → Call Fence Callback
  expects_period : ℕ → Call Fence Callback
  sets_tracking : Bool → Call Fence Callback
  sets_display_on : Bool → Call Fence Callback
  adds_fence : Option Fence → Call Fence Callback
  asks_next : (Fence → Option SyncFile) → ℕ → Call Fence Callback
  sets_callback : Option Callback → Call Fence Callback
  stops : Call Fence Callback

-- The first section of a call; the update that follows it; a notification; a wait that ends on its own; and
-- a turn of the thread.
pub data Event (Fence Callback : Type 0) : Type 0 where
  calls : Call Fence Callback → Event Fence Callback
  updates : Event Fence Callback
  notifies : Event Fence Callback
  wakes : Event Fence Callback
  turns : Moment Fence → Event Fence Callback

abbrev pub wake : {Callback : Type 0} → Thread Callback → Thread Callback
wake waits = woken
wake t = t

module _ {Fence Callback : Type 0} where
  unfoldable pub call : Call Fence Callback → Worker Fence Callback → Worker Fence Callback
  unfolding set_vsync_period_ns expect_vsync_period_ns set_vsync_timestamp_tracking set_display_on
      add_last_present_fence get_next_vsync_timestamp set_timestamp_callback stop_thread
  call (sets_period period) w = set_vsync_period_ns period w
  call (expects_period period) w = expect_vsync_period_ns period w
  call (sets_tracking on) w = set_vsync_timestamp_tracking on w
  call (sets_display_on on) w = set_display_on on w
  call (adds_fence fence) w = add_last_present_fence fence w
  call (asks_next sync_file_info time) w = (get_next_vsync_timestamp sync_file_info time w).1
  call (sets_callback callback) w = set_timestamp_callback callback w
  call stops w = stop_thread w

  -- The updates and the notifications that a call goes on to make.
  abbrev pub updates_of : Call Fence Callback → ℕ
  updates_of (sets_tracking _) = 1
  updates_of (sets_display_on _) = 1
  updates_of (sets_callback _) = 1
  updates_of _ = 0

  abbrev pub notifies_of : Call Fence Callback → ℕ
  notifies_of stops = 1
  notifies_of _ = 0

  unfoldable pub step : Event Fence Callback → System Fence Callback → System Fence Callback
  unfolding call update_vsync_control turn
  step (calls c) s = record s {
    worker = call c s.worker;
    updates_due = s.updates_due + updates_of c;
    notifies_due = s.notifies_due + notifies_of c;
  }
  step updates s = if s.updates_due == 0 then s else record s {
    worker = update_vsync_control s.worker;
    updates_due = s.updates_due - 1;
    notifies_due = s.notifies_due + 1;
  }
  step notifies s =
      if s.notifies_due == 0
      then s
      else record s { thread = wake s.thread; notifies_due = s.notifies_due - 1 }
  step wakes s = at (wake s.thread) s
  step (turns m) s = turn m s

  unfoldable pub run : List (Event Fence Callback) → System Fence Callback → System Fence Callback
  unfolding step
  run [] s = s
  run (e ∷ es) s = run es (step e s)

  unfoldable pub init : Bool → System Fence Callback
  unfolding create_instance
  init has_pipe = record {
    worker = create_instance has_pipe;
    thread = starts;
    updates_due = 0;
    notifies_due = 0;
    notices = [];
  }
