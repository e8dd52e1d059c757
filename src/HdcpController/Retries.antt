-- ===== src/HdcpController/Retries.antt =====
-- HdcpController.cpp: how often a frame is asked for to try again.
use android_hardware_nvidia.Prelude.{
  List, [], arith, false, if◌then◌else◌, suc, ℕ, ◌+◌, ◌∷◌, ◌≡◌, ◌≤◌, ◌⊎◌,
}
use android_hardware_nvidia.HdcpController.{
  Controller, Event, desired, destroy, destroys, init, look, looks, request, requested, requests,
  retry, run, runs, set_content_protection_status, start, starts, step, terminate, terminates,
  thread_step, triggers, undesired,
}

-- A commit reports its request only if it carried one, which it does in two states alone:
-- hwc/HwcDisplay.cpp reads the state where it builds a commit.
abbrev pub IsInOrder : Controller → Event → Type 0
IsInOrder c (requests _) = (c.state ≡ desired) ⊎ (c.state ≡ retry)
IsInOrder _ _ = Unit {0}

abbrev pub AllInOrder : ℕ → Controller → List Event → Type 0
AllInOrder timeout c [] = Unit {0}
AllInOrder timeout c (e ∷ es) = IsInOrder c e × AllInOrder timeout (step timeout c e) es

abbrev pub starts_of : List Event → ℕ
starts_of [] = 0
starts_of (starts ∷ es) = suc (starts_of es)
starts_of (_ ∷ es) = starts_of es

-- The frames that may still be asked for before the next start.
abbrev budget : Controller → ℕ
budget c =
    elim c.state [ desired ↦ 1 | requested ↦ (if c.was_retry then 0 else 1) | _ ↦ 0 ]
    + elim c.thread [ triggers ↦ 1 | _ ↦ 0 ]

step-budget :
    (timeout : ℕ) (c : Controller) (e : Event)
    → IsInOrder c e
    → (step timeout c e).retry_frames + budget (step timeout c e)
      ≤ starts_of (e ∷ []) + (c.retry_frames + budget c)
unfolding step
step-budget timeout c starts o = unfold start in ground arith
step-budget timeout c (requests now) o = unfold request in ground arith
step-budget timeout c terminates o = unfold terminate in ground arith
step-budget timeout c destroys o = unfold destroy in ground arith
step-budget timeout c (runs now cp) o =
    unfold thread_step look set_content_protection_status in ground arith

starts_of-cons :
    (e : Event) (es : List Event) → starts_of (e ∷ es) ≡ starts_of (e ∷ []) + starts_of es
starts_of-cons starts es = omega arith
starts_of-cons (requests _) es = omega arith
starts_of-cons terminates es = omega arith
starts_of-cons destroys es = omega arith
starts_of-cons (runs _ _) es = omega arith

run-budget :
    (timeout : ℕ) (c : Controller) (es : List Event)
    → AllInOrder timeout c es
    → (run timeout c es).retry_frames + budget (run timeout c es)
      ≤ starts_of es + (c.retry_frames + budget c)
unfolding run
run-budget timeout c [] o = omega arith
run-budget timeout c (e ∷ es) (o, os) =
    let before = step-budget timeout c e o in
    let after = run-budget timeout (step timeout c e) es os in
    let starting = starts_of-cons e es in omega arith

-- Whatever the client calls, whatever the connector answers and however the steps of the thread fall
-- between, as long as a request is reported only by a commit that carried one: at most one frame to
-- try again is asked for per call of `Start`.
pub retries_are_few :
    (timeout : ℕ) (es : List Event)
    → AllInOrder timeout init es
    → (run timeout init es).retry_frames ≤ starts_of es
unfolding init
retries_are_few timeout es o =
    let few =
      run-budget timeout
        (record {
          state = undesired;
          was_retry = false;
          sleep_until = 0;
          thread = looks;
          notices = [];
          retry_frames = 0;
        })
        es o in
    omega arith
