-- ===== src/FlatteningController/Idle.antt =====
-- FlatteningController.cpp: a scene is flattened only after it was idle, and an idle scene is noticed.
use mathlib.Core.Path.{subst}
use android_hardware_nvidia.Prelude.{
  Bool, List, [], arith, false, inl, inr, length, refl, suc, sym, true, ℕ, ◌+◌, ◌<◌, ◌∷◌, ◌≡◌, ◌≢◌,
  ◌≤◌, ◌⊎◌,
}
use android_hardware_nvidia.FlatteningController.{
  Controller, Event, Thread, active, disable_flattening, disables, draws, exited, init, look, looks,
  new_frame, run, runs, set_state, settled_frame, settles, should_flatten, step, stop_thread, stops,
  thread_step, triggered_callback, triggers,
}

-- The time of the last frame that was registered.
abbrev pub last_draw : ℕ → List Event → ℕ
last_draw t [] = t
last_draw t (draws now ∷ es) = last_draw now es
last_draw t (_ ∷ es) = last_draw t es

abbrev pub draws_of : List Event → ℕ
draws_of [] = 0
draws_of (draws _ ∷ es) = suc (draws_of es)
draws_of (_ ∷ es) = draws_of es

-- Rounds of the thread with no call of the client between them: what the clock reads.
abbrev pub rounds : List ℕ → List Event
rounds [] = []
rounds (now ∷ nows) = runs now ∷ rounds nows

abbrev pub AllLate : ℕ → List ℕ → Type 0
AllLate deadline [] = Unit {0}
AllLate deadline (now ∷ nows) = (deadline ≤ now) × AllLate deadline nows

module _ (has_reporter : Bool) (timeout : ℕ) where
  -- While a scene is active, it is due one timeout after its last frame.
  abbrev IsDue : ℕ → Controller → Type 0
  IsDue last c = (c.state ≡ active) → c.sleep_until ≡ last + timeout

  step-IsDue :
      (last : ℕ) (c : Controller) (e : Event)
      → IsDue last c
      → IsDue (last_draw last (e ∷ [])) (step has_reporter timeout c e)
  unfolding step
  step-IsDue last c disables h = unfold disable_flattening set_state in ground arith
  step-IsDue last c (draws now) h = unfold new_frame set_state in ground arith
  step-IsDue last c settles h = unfold settled_frame set_state in ground arith
  step-IsDue last c stops h = unfold stop_thread set_state in ground arith
  step-IsDue last c (runs now) h = unfold thread_step look set_state in ground arith

  last_draw-cons :
      (last : ℕ) (e : Event) (es : List Event)
      → last_draw last (e ∷ es) ≡ last_draw (last_draw last (e ∷ [])) es
  last_draw-cons last disables es = refl
  last_draw-cons last (draws _) es = refl
  last_draw-cons last settles es = refl
  last_draw-cons last stops es = refl
  last_draw-cons last (runs _) es = refl

  run-IsDue :
      (last : ℕ) (c : Controller) (es : List Event)
      → IsDue last c
      → IsDue (last_draw last es) (run has_reporter timeout c es)
  unfolding run
  run-IsDue last c [] h = h
  run-IsDue last c (e ∷ es) h =
      subst (λ t. IsDue t (run has_reporter timeout (step has_reporter timeout c e) es))
        (sym (last_draw-cons last e es))
        (run-IsDue (last_draw last (e ∷ [])) (step has_reporter timeout c e) es
          (step-IsDue last c e h))

  look_flattens_late :
      (last now : ℕ) (c : Controller)
      → IsDue last c
      → should_flatten has_reporter timeout c ≡ false
      → should_flatten has_reporter timeout (step has_reporter timeout c (runs now)) ≡ true
      → last + timeout ≤ now
  unfolding step thread_step look set_state should_flatten
  look_flattens_late last now c d h k = ground arith

  -- Whatever calls and steps went before: where a step of the thread is what makes a scene one to flatten,
  -- at least the timeout has passed since the last frame that was registered.
  pub flattens_when_idle :
      (es : List Event) (now : ℕ)
      → let c = run has_reporter timeout init es in
        should_flatten has_reporter timeout c ≡ false
        → should_flatten has_reporter timeout (step has_reporter timeout c (runs now)) ≡ true
        → last_draw 0 es + timeout ≤ now
  flattens_when_idle es now h k =
      look_flattens_late (last_draw 0 es) now (run has_reporter timeout init es)
        (run-IsDue 0 init es (unfold init in λ e. cc)) h k

  -- The callbacks that may come without another frame.
  abbrev budget : Controller → ℕ
  budget c = elim c.thread [ triggers ↦ 1 | _ ↦ 0 ] + elim c.state [ active ↦ 1 | _ ↦ 0 ]

  step-budget :
      (c : Controller) (e : Event)
      → let d = step has_reporter timeout c e in
        d.triggered + budget d ≤ draws_of (e ∷ []) + (c.triggered + budget c)
  unfolding step
  step-budget c disables = unfold disable_flattening set_state in ground arith
  step-budget c (draws now) = unfold new_frame set_state in ground arith
  step-budget c settles = unfold settled_frame set_state in ground arith
  step-budget c stops = unfold stop_thread set_state in ground arith
  step-budget c (runs now) = unfold thread_step look set_state in ground arith

  draws_of-cons :
      (e : Event) (es : List Event) → draws_of (e ∷ es) ≡ draws_of (e ∷ []) + draws_of es
  draws_of-cons disables es = omega arith
  draws_of-cons (draws _) es = omega arith
  draws_of-cons settles es = omega arith
  draws_of-cons stops es = omega arith
  draws_of-cons (runs _) es = omega arith

  run-budget :
      (c : Controller) (es : List Event)
      → let d = run has_reporter timeout c es in
        d.triggered + budget d ≤ draws_of es + (c.triggered + budget c)
  unfolding run
  run-budget c [] = omega arith
  run-budget c (e ∷ es) =
      let before = step-budget c e in
      let after = run-budget (step has_reporter timeout c e) es in
      let drawn = draws_of-cons e es in omega arith

  -- From any start, whatever happens: at most one callback is made per frame that is registered.
  pub callbacks_are_few :
      (es : List Event) → (run has_reporter timeout init es).triggered ≤ draws_of es
  callbacks_are_few es = let few = run-budget init es in unfold init in omega arith

  -- The callback has been made since, and no frame has come.
  abbrev IsCalled : ℕ → Controller → Type 0
  IsCalled before c = (c.state ≡ triggered_callback) × (before < c.triggered)

  abbrev IsCalling : ℕ → Controller → Type 0
  IsCalling before c =
      (c.state ≡ triggered_callback) × (c.thread ≡ triggers) × (before ≤ c.triggered)

  abbrev IsRunning : ℕ → Controller → Type 0
  IsRunning before c = (c.state ≡ active) × (c.thread ≢ exited) × (before ≤ c.triggered)

  step-IsCalled :
      (before now : ℕ) (c : Controller)
      → IsCalled before c ⊎ IsCalling before c
      → IsCalled before (step has_reporter timeout c (runs now))
  unfolding step thread_step look
  step-IsCalled before now c h = ground arith

  run-IsCalled :
      (before : ℕ) (c : Controller) (nows : List ℕ)
      → IsCalled before c
      → IsCalled before (run has_reporter timeout c (rounds nows))
  unfolding run
  run-IsCalled before c [] h = h
  run-IsCalled before c (now ∷ nows) h =
      run-IsCalled before (step has_reporter timeout c (runs now)) nows
        (step-IsCalled before now c (inl h))

  -- The steps of the thread that are left before it decides on the callback.
  abbrev steps_left : Thread → ℕ
  steps_left looks = 1
  steps_left _ = 2

  step_nears :
      (before now : ℕ) (c : Controller)
      → IsRunning before c
      → c.sleep_until ≤ now
      → let d = step has_reporter timeout c (runs now) in
        IsCalling before d
        ⊎ (IsRunning before d
            × (d.sleep_until ≡ c.sleep_until)
            × (steps_left d.thread < steps_left c.thread))
  unfolding step thread_step look set_state
  step_nears before now c h l = ground arith

  calls_in :
      (before : ℕ) (c : Controller) (nows : List ℕ)
      → IsRunning before c
      → AllLate c.sleep_until nows
      → steps_left c.thread < length nows
      → IsCalled before (run has_reporter timeout c (rounds nows))
  unfolding run
  calls_in before c [] h l n = absurd (omega arith)
  calls_in before c (now ∷ []) h l n = absurd (one_is_short c.thread n)
    where
      one_is_short : (t : Thread) → steps_left t < 1 → ⊥
      one_is_short t k = ground arith
  calls_in before c (now ∷ next ∷ nows) h (l, ls) n =
      let d = step has_reporter timeout c (runs now) in
      elim (step_nears before now c h l) [
        | inl calling ↦ run-IsCalled before _ nows (step-IsCalled before next d (inr calling))
        | inr (running, same, m) ↦
            calls_in before d (next ∷ nows) running
              (subst (λ t. AllLate t (next ∷ nows)) (sym same) ls) (omega arith)
      ]

  -- A scene that is active and past its time is noticed: wherever the thread stands, short of its end,
  -- three of its steps make the callback, and the scene counts as one to flatten until the client calls.
  pub idle_is_noticed :
      (c : Controller) (nows : List ℕ)
      → c.state ≡ active
      → c.thread ≢ exited
      → AllLate c.sleep_until nows
      → 3 ≤ length nows
      → let d = run has_reporter timeout c (rounds nows) in
        (c.triggered < d.triggered) × (should_flatten has_reporter timeout d ≡ true)
  unfolding should_flatten
  idle_is_noticed c nows a x l n =
      let (s, m) = calls_in c.triggered c nows (a, x, omega arith) l (ground arith) in
      (m, rw s refl)
