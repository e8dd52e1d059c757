-- ===== src/VsyncWorker/Thread.antt =====
-- VSyncWorker.cpp: `ThreadFn`, one step for each section that holds the mutex and one for each wait, between
-- which the calls of the client fall. The name and the priority of the thread are left out.
use android_hardware_nvidia.Prelude.{
  Bool, List, Option, false, if◌then◌else◌, none, not, some, ℕ, ◌&&◌, ◌==◌, ◌||◌, ◌∷◌,
}
use android_hardware_nvidia.VsyncWorker.{
  SyncFile, Worker, get_phased_vsync, lands_on_expected_period, ran_at_expected_period,
}

-- What a wait for a blank comes to: when the blank was and how long the frame took; a signal; or no blank,
-- with what has been written of the length of the frame.
pub data Waited : Type 0 where
  blank : ℕ → ℕ → Waited
  interrupted : Waited
  no_blank : ℕ → Waited

pub data Slept : Type 0 where
  slept : Slept
  woken_by_signal : Slept
  sleep_failed : Slept

-- What the outer world answers during a turn of the thread.
pub record Moment (Fence : Type 0) : Type 0 where
  pub now : ℕ
  pub sync_file_info : Fence → Option SyncFile
  pub waited : Waited
  pub sleep : Slept

-- Where the thread stands.
pub data Thread (Callback : Type 0) : Type 0 where
  starts : Thread Callback
  stops_source : Thread Callback
  waits : Thread Callback
  woken : Thread Callback
  asks_source : Thread Callback
  synthesizes : ℕ → Thread Callback
  sleeps : ℕ → ℕ → Thread Callback
  has_blank : ℕ → ℕ → Thread Callback
  calls_back : Option Callback → ℕ → ℕ → Thread Callback
  exited : Thread Callback

pub record Notice (Callback : Type 0) : Type 0 where
  pub callback : Callback
  pub timestamp : ℕ
  pub period_ns : ℕ

-- The updates of the control and the notifications that calls under way have still to make, and the
-- callbacks made so far, the latest first.
pub record System (Fence Callback : Type 0) : Type 0 where
  pub worker : Worker Fence Callback
  pub thread : Thread Callback
  pub updates_due : ℕ
  pub notifies_due : ℕ
  pub notices : List (Notice Callback)

unfoldable pub after_wait : {Callback : Type 0} → Waited → Thread Callback
after_wait (blank timestamp ran) = has_blank timestamp ran
after_wait interrupted = starts
after_wait (no_blank ran) = synthesizes ran

unfoldable pub after_sleep : {Callback : Type 0} → Slept → ℕ → ℕ → Thread Callback
after_sleep slept timestamp ran = has_blank timestamp ran
after_sleep woken_by_signal timestamp ran = sleeps timestamp ran
after_sleep sleep_failed timestamp ran = starts

unfoldable pub notice :
    {Callback : Type 0} → Option Callback → ℕ → ℕ → List (Notice Callback) → List (Notice Callback)
notice none timestamp period ns = ns
notice (some callback) timestamp period ns =
    record { callback = callback; timestamp = timestamp; period_ns = period } ∷ ns

module _ {Fence Callback : Type 0} where
  unfoldable pub took_hold : ℕ → ℕ → Worker Fence Callback → Bool
  unfolding ran_at_expected_period lands_on_expected_period
  took_hold timestamp ran w =
      if not (ran == 0) then ran_at_expected_period ran w else elim w.last_timestamp [
        | none ↦ false
        | some previous ↦ lands_on_expected_period previous timestamp w
      ]

  -- What a blank leaves of the worker.
  unfoldable pub note_blank : ℕ → ℕ → Worker Fence Callback → Worker Fence Callback
  unfolding took_hold
  note_blank timestamp ran w =
      let changes = not (w.expected_period_ns == 0) && took_hold timestamp ran w in
      record w {
        last_timestamp_is_fresh = w.enable_vsync_timestamps || w.last_timestamp_is_fresh;
        vsync_period_ns = if changes then w.expected_period_ns else w.vsync_period_ns;
        expected_period_ns = if changes then 0 else w.expected_period_ns;
        last_timestamp = some timestamp;
      }

  abbrev pub at : Thread Callback → System Fence Callback → System Fence Callback
  at t s = record s { thread = t }

  unfoldable pub turn_at :
      Moment Fence → System Fence Callback → Thread Callback → System Fence Callback
  unfolding note_blank after_wait after_sleep notice get_phased_vsync
  turn_at m s starts =
      if s.worker.thread_exit
      then at exited s
      else if s.worker.enabled
      then at asks_source s
      else if s.worker.has_source
      then at stops_source s
      else at waits s
  turn_at m s stops_source =
      if s.worker.thread_exit
      then at exited s
      else if s.worker.enabled
      then at asks_source s
      else at waits s
  turn_at m s waits = s
  turn_at m s woken = if s.worker.enabled then at asks_source s else at starts s
  turn_at m s asks_source =
      if s.worker.has_source then at (after_wait m.waited) s else at (synthesizes 0) s
  turn_at m s (synthesizes ran) =
      let (timestamp, w) =
        get_phased_vsync m.sync_file_info s.worker.vsync_period_ns m.now s.worker in
      record s { worker = w; thread = sleeps timestamp ran }
  turn_at m s (sleeps timestamp ran) = at (after_sleep m.sleep timestamp ran) s
  turn_at m s (has_blank timestamp ran) =
      let w = note_blank timestamp ran s.worker in
      if s.worker.enabled
      then record s { worker = w; thread = calls_back w.callback timestamp w.vsync_period_ns }
      else at starts s
  turn_at m s (calls_back callback timestamp period) = record s {
    thread = starts;
    notices = notice callback timestamp period s.notices;
  }
  turn_at m s exited = s

  unfoldable pub turn : Moment Fence → System Fence Callback → System Fence Callback
  unfolding turn_at
  turn m s = turn_at m s s.thread
