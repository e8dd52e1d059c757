-- ===== src/VsyncWorker/Calls.antt =====
-- VSyncWorker.cpp: no blank is told of that nobody wants.
use android_hardware_nvidia.VsyncWorker.Settled.{IsControlled, run-IsSettled}
use android_hardware_nvidia.VsyncWorker.{
  get_phased_vsync, should_enable, update_last_vsync_time_with_present_time,
}
use android_hardware_nvidia.Prelude.{
  Bool, List, Option, [], arith, false, length, none, refl, some, suc, true, ℕ, ◌+◌, ◌∷◌, ◌≡◌, ◌≤◌,
  ◌⊎◌,
}
use android_hardware_nvidia.VsyncWorker.Thread.{
  Moment, Notice, System, Thread, after_sleep, after_wait, asks_source, calls_back, exited,
  has_blank, note_blank, notice, sleeps, starts, stops_source, synthesizes, turn, turn_at, waits,
  woken,
}
use android_hardware_nvidia.VsyncWorker.Steps.{
  Event, calls, init, notifies, run, step, turns, updates, wakes,
}

-- The callbacks that the thread can still make.
abbrev owed : {Callback : Type 0} → Bool → Thread Callback → ℕ
owed enabled starts = 0
owed enabled stops_source = 0
owed enabled exited = 0
owed enabled (calls_back _ _ _) = 1
owed true _ = 1
owed false _ = 0

abbrev pub is_call : {Fence Callback : Type 0} → Event Fence Callback → Bool
is_call (calls c) = true
is_call _ = false

abbrev pub AreUnasked : {Fence Callback : Type 0} → List (Event Fence Callback) → Type 0
AreUnasked [] = Unit {0}
AreUnasked (e ∷ es) = (is_call e ≡ false) × AreUnasked es

notice_adds :
    {Callback : Type 0} (o : Option Callback) (timestamp period : ℕ) (ns : List (Notice Callback))
    → length (notice o timestamp period ns) ≤ suc (length ns)
unfolding notice
notice_adds none timestamp period ns = omega arith
notice_adds (some c) timestamp period ns = omega arith

owed_one : {Callback : Type 0} (b : Bool) (t : Thread Callback) → owed b t ≤ 1
owed_one b t = ground arith

module _ {Fence Callback : Type 0} where
  abbrev IsHushed : ℕ → System Fence Callback → Type 0
  IsHushed n s =
      (s.updates_due ≡ 0)
      × (((s.worker.enabled ≡ false) ⊎ (s.worker.thread_exit ≡ true))
          × (length s.notices + owed s.worker.enabled s.thread ≤ n))

  turn_at-IsHushed :
      (m : Moment Fence) (s : System Fence Callback) (t : Thread Callback) (n : ℕ)
      → s.thread ≡ t
      → IsHushed n s
      → IsHushed n (turn_at m s t)
  unfolding turn_at note_blank get_phased_vsync update_last_vsync_time_with_present_time after_wait
      after_sleep
  turn_at-IsHushed m s starts n e h = ground arith
  turn_at-IsHushed m s stops_source n e h = ground arith
  turn_at-IsHushed m s waits n e h = h
  turn_at-IsHushed m s woken n e h = ground arith
  turn_at-IsHushed m s asks_source n e h = ground arith
  turn_at-IsHushed m s (synthesizes ran) n e h = ground arith
  turn_at-IsHushed m s (sleeps timestamp ran) n e h = ground arith
  turn_at-IsHushed m s (has_blank timestamp ran) n e h = ground arith
  turn_at-IsHushed m s (calls_back callback timestamp period) n e h =
      ground (arith, notice_adds callback timestamp period s.notices)
  turn_at-IsHushed m s exited n e h = h

  step-IsHushed :
      (e : Event Fence Callback) (s : System Fence Callback) (n : ℕ)
      → is_call e ≡ false
      → IsHushed n s
      → IsHushed n (step e s)
  unfolding step turn
  step-IsHushed (calls c) s n u h = absurd (ground arith)
  step-IsHushed updates s n u h = ground arith
  step-IsHushed notifies s n u h = ground arith
  step-IsHushed wakes s n u h = ground arith
  step-IsHushed (turns m) s n u h = turn_at-IsHushed m s s.thread n refl h

  run-IsHushed :
      (es : List (Event Fence Callback)) (s : System Fence Callback) (n : ℕ)
      → AreUnasked es
      → IsHushed n s
      → IsHushed n (run es s)
  unfolding run
  run-IsHushed [] s n u h = h
  run-IsHushed (e ∷ es) s n (u, us) h = run-IsHushed es (step e s) n us (step-IsHushed e s n u h)

  unwanted_is_quiet :
      (s : System Fence Callback)
      → IsControlled s
      → s.updates_due ≡ 0
      → should_enable s.worker ≡ false
      → (s.worker.enabled ≡ false) ⊎ (s.worker.thread_exit ≡ true)
  unwanted_is_quiet s h d u = ground arith

  -- After any calls and turns, where no call is between its two sections and the display is off or nobody
  -- wants its blanks: as long as no call is made, the thread makes one callback at most, the one that was
  -- under way, whatever it is notified of and whatever the source and the clock answer.
  pub unwanted_calls_once :
      (has_pipe : Bool) (es later : List (Event Fence Callback))
      → (run es (init has_pipe)).updates_due ≡ 0
      → should_enable (run es (init has_pipe)).worker ≡ false
      → AreUnasked later
      → length (run later (run es (init has_pipe))).notices
        ≤ suc (length (run es (init has_pipe)).notices)
  unwanted_calls_once has_pipe es later none_due unwanted u =
      let s = run es (init has_pipe) in
      let quiet = unwanted_is_quiet s (run-IsSettled has_pipe es).0 none_due unwanted in
      let (_, (_, l)) =
        run-IsHushed later s (suc (length s.notices)) u
          (none_due, (quiet, omega (arith, owed_one s.worker.enabled s.thread))) in
      omega (arith, l)
