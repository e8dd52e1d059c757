-- ===== src/VsyncWorker/Periods.antt =====
-- VSyncWorker.cpp: a period that is expected is not told of before the display runs at it.
use android_hardware_nvidia.VsyncWorker.{
  Worker, add_last_present_fence, create_instance, distance, expect_vsync_period_ns,
  get_next_vsync_timestamp, get_phased_vsync, get_vsync_period_ns, ran_at_expected_period,
  set_display_on, set_timestamp_callback, set_vsync_period_ns, set_vsync_timestamp_tracking,
  stop_thread, update_last_vsync_time_with_present_time, update_vsync_control,
}
use android_hardware_nvidia.Prelude.{
  Bool, List, Option, [], and_true, ap, arith, false, if_result, inl, inr, leb, none, not, refl,
  some, sym, true, ℕ, ◌&&◌, ◌/◌, ◌==◌, ◌∙◌, ◌∷◌, ◌≡◌, ◌⊎◌,
}
use android_hardware_nvidia.VsyncWorker.Steps.{
  Call, Event, adds_fence, asks_next, call, calls, expects_period, init, notifies, run,
  sets_callback, sets_display_on, sets_period, sets_tracking, step, stops, turns, updates, wakes,
}
use android_hardware_nvidia.VsyncWorker.Thread.{
  Moment, Notice, System, Thread, Waited, after_sleep, after_wait, asks_source, at, blank,
  calls_back, exited, has_blank, interrupted, no_blank, note_blank, notice, sleeps, starts,
  stops_source, synthesizes, took_hold, turn, turn_at, waits, woken,
}

abbrev pub is_off_rate : ℕ → ℕ → Bool
is_off_rate period ran = not (ran == 0) && not (leb (distance ran period) (period / 100))

abbrev waited_off_rate : Waited → ℕ → Bool
waited_off_rate (blank timestamp ran) period = is_off_rate period ran
waited_off_rate interrupted period = true
waited_off_rate (no_blank ran) period = is_off_rate period ran

-- No period but the one is expected and none is set; the display tells how long each frame took, and none ran
-- at the period within a hundredth.
abbrev pub is_before : {Fence Callback : Type 0} → ℕ → Event Fence Callback → Bool
is_before period (calls (sets_period _)) = false
is_before period (calls (expects_period p)) = p == period
is_before period (turns m) = waited_off_rate m.waited period
is_before period _ = true

abbrev pub are_before : {Fence Callback : Type 0} → ℕ → List (Event Fence Callback) → Bool
are_before period [] = true
are_before period (e ∷ es) = is_before period e && are_before period es

-- What the thread carries from one turn to the next.
abbrev carries : {Callback : Type 0} → ℕ → ℕ → Thread Callback → Bool
carries told period (synthesizes ran) = is_off_rate period ran
carries told period (sleeps _ ran) = is_off_rate period ran
carries told period (has_blank _ ran) = is_off_rate period ran
carries told period (calls_back _ _ p) = p == told
carries told period _ = true

abbrev pub TellOf : {Callback : Type 0} → ℕ → List (Notice Callback) → Type 0
TellOf told [] = Unit {0}
TellOf told (n ∷ ns) = (n.period_ns ≡ told) × TellOf told ns

notice-TellOf :
    {Callback : Type 0} (told : ℕ) (o : Option Callback) (timestamp period : ℕ)
    (ns : List (Notice Callback))
    → period ≡ told
    → TellOf told ns
    → TellOf told (notice o timestamp period ns)
unfolding notice
notice-TellOf told none timestamp period ns e h = h
notice-TellOf told (some c) timestamp period ns e h = (e, h)

equal_told : (told p : ℕ) → (p == told) ≡ true → p ≡ told
equal_told told p e = ground arith

told_equal : (told p : ℕ) → p ≡ told → (p == told) ≡ true
told_equal told p e = ground arith

module _ {Fence Callback : Type 0} (told period : ℕ) where
  abbrev IsTelling : System Fence Callback → Type 0
  IsTelling s =
      (s.worker.has_source ≡ true)
      × ((s.worker.vsync_period_ns ≡ told)
          × (((s.worker.expected_period_ns ≡ 0) ⊎ (s.worker.expected_period_ns ≡ period))
              × ((carries told period s.thread ≡ true) × TellOf told s.notices)))

  off_rate_keeps :
      (timestamp ran : ℕ) (w : Worker Fence Callback)
      → is_off_rate period ran ≡ true
      → (w.expected_period_ns ≡ 0) ⊎ (w.expected_period_ns ≡ period)
      → (not (w.expected_period_ns == 0) && took_hold timestamp ran w) ≡ false
  unfolding took_hold ran_at_expected_period
  off_rate_keeps timestamp ran w o (inl e) = ground arith
  off_rate_keeps timestamp ran w o (inr e) = rw e (ground arith)

  note_blank_keeps :
      (timestamp ran : ℕ) (w : Worker Fence Callback)
      → is_off_rate period ran ≡ true
      → (w.expected_period_ns ≡ 0) ⊎ (w.expected_period_ns ≡ period)
      → ((note_blank timestamp ran w).vsync_period_ns ≡ w.vsync_period_ns)
        × ((note_blank timestamp ran w).expected_period_ns ≡ w.expected_period_ns)
  unfolding note_blank
  note_blank_keeps timestamp ran w o e = ground (arith, off_rate_keeps timestamp ran w o e)

  starts-IsTelling : (s : System Fence Callback) → IsTelling s → IsTelling (at starts s)
  starts-IsTelling s (source, (same, (expects, (_, notices)))) =
      (source, (same, (expects, (refl, notices))))

  told-IsTelling :
      (callback : Option Callback) (timestamp p : ℕ) (s : System Fence Callback)
      → p ≡ told
      → IsTelling s
      → IsTelling (record s { thread = starts; notices = notice callback timestamp p s.notices })
  told-IsTelling callback timestamp p s e (source, (same, (expects, (_, notices)))) =
      let all = notice-TellOf told callback timestamp p s.notices e notices in
      (source, (same, (expects, (refl, all))))

  blank-IsTelling :
      (timestamp ran : ℕ) (s : System Fence Callback)
      → is_off_rate period ran ≡ true
      → IsTelling s
      → let w = note_blank timestamp ran s.worker in
        IsTelling
          (record s { worker = w; thread = calls_back w.callback timestamp w.vsync_period_ns })
  blank-IsTelling timestamp ran s o (source, (same, (expects, (_, notices)))) =
      let (keeps, waits_for) = note_blank_keeps timestamp ran s.worker o expects in
      (
        unfold note_blank in source,
        (keeps ∙ same, (rw waits_for expects, (told_equal told _ (keeps ∙ same), notices))),
      )

  turn_at-IsTelling :
      (m : Moment Fence) (s : System Fence Callback) (t : Thread Callback)
      → s.thread ≡ t
      → waited_off_rate m.waited period ≡ true
      → IsTelling s
      → IsTelling (turn_at m s t)
  unfolding turn_at note_blank took_hold ran_at_expected_period get_phased_vsync
      update_last_vsync_time_with_present_time after_wait after_sleep
  turn_at-IsTelling m s starts e r h = ground arith
  turn_at-IsTelling m s stops_source e r h = ground arith
  turn_at-IsTelling m s waits e r h = h
  turn_at-IsTelling m s woken e r h = ground arith
  turn_at-IsTelling m s asks_source e r h = ground arith
  turn_at-IsTelling m s (synthesizes ran) e r h = ground arith
  turn_at-IsTelling m s (sleeps timestamp ran) e r h = ground arith
  turn_at-IsTelling m s (has_blank timestamp ran) e r h =
      if_result {A = System Fence Callback} IsTelling s.worker.enabled
        (blank-IsTelling timestamp ran s (sym (ap (carries told period) e) ∙ h.1.1.1.0) h)
        (starts-IsTelling s h)
  turn_at-IsTelling m s (calls_back callback timestamp p) e r h =
      told-IsTelling callback timestamp p s
        (equal_told told p (sym (ap (carries told period) e) ∙ h.1.1.1.0)) h
  turn_at-IsTelling m s exited e r h = h

  call-IsTelling :
      (c : Call Fence Callback) (s : System Fence Callback)
      → is_before period (calls c) ≡ true
      → IsTelling s
      → IsTelling (step (calls c) s)
  unfolding step call set_vsync_period_ns expect_vsync_period_ns set_vsync_timestamp_tracking
      set_display_on add_last_present_fence get_next_vsync_timestamp get_phased_vsync
      update_last_vsync_time_with_present_time set_timestamp_callback stop_thread
  call-IsTelling (sets_period p) s b h = absurd (ground arith)
  call-IsTelling (expects_period p) s b (source, (same, (_, rest))) =
      (source, (same, (ground arith, rest)))
  call-IsTelling (sets_tracking on) s b h = h
  call-IsTelling (sets_display_on on) s b h = h
  call-IsTelling (adds_fence fence) s b h = h
  call-IsTelling (asks_next sync_file_info time) s b h = ground arith
  call-IsTelling (sets_callback callback) s b h = h
  call-IsTelling stops s b h = h

  step-IsTelling :
      (e : Event Fence Callback) (s : System Fence Callback)
      → is_before period e ≡ true
      → IsTelling s
      → IsTelling (step e s)
  unfolding step turn update_vsync_control
  step-IsTelling (calls c) s b h = call-IsTelling c s b h
  step-IsTelling updates s b h = ground arith
  step-IsTelling notifies s b h = ground arith
  step-IsTelling wakes s b h = ground arith
  step-IsTelling (turns m) s b h = turn_at-IsTelling m s s.thread refl b h

  run-IsTelling :
      (es : List (Event Fence Callback)) (s : System Fence Callback)
      → are_before period es ≡ true
      → IsTelling s
      → IsTelling (run es s)
  unfolding run
  run-IsTelling [] s b h = h
  run-IsTelling (e ∷ es) s b h =
      let (now, later) = and_true (is_before period e) (are_before period es) b in
      run-IsTelling es (step e s) later (step-IsTelling e s now h)

  -- A display that has a source is set to a period, once, and told to expect another, any number of times. As
  -- long as the source tells how long each frame took, and none took the expected period within a
  -- hundredth: whatever else is called, in any order of the sections, every callback that is made tells of
  -- the period that was set, and so does `get_vsync_period_ns`.
  pub expected_period_is_not_told :
      (es : List (Event Fence Callback))
      → are_before period es ≡ true
      → TellOf told (run (calls (sets_period told) ∷ es) (init true)).notices
        × (get_vsync_period_ns (run (calls (sets_period told) ∷ es) (init true)).worker ≡ told)
  unfolding init create_instance run step call set_vsync_period_ns get_vsync_period_ns
  expected_period_is_not_told es b =
      let set : IsTelling (step (calls (sets_period told)) (init true)) =
        (refl, (refl, (inl refl, (refl, tt)))) in
      let (_, (same, (_, (_, all)))) =
        run-IsTelling es (step (calls (sets_period told)) (init true)) b set in
      (all, same)
