-- ===== src/HdcpController/Notices.antt =====
-- HdcpController.cpp: what the client has been told, against what the state is.
use android_hardware_nvidia.Prelude.{Bool, List, Option, [], arith, false, some, true, ℕ, ◌∷◌, ◌≡◌}
use android_hardware_nvidia.HdcpController.{
  ContentType, Controller, Event, Thread, checks, destroy, destroys, enabled, init, look, looks,
  notifies, request, requested, requests, run, runs, set_content_protection_status, start, starts,
  step, terminate, terminates, thread_step, undesired,
}

-- What the client has been told, with what the thread is about to tell it.
abbrev pub told : Controller → List (Option ContentType)
told c = elim c.thread [ notifies t ↦ t ∷ c.notices | _ ↦ c.notices ]

abbrev pub TellsOn : List (Option ContentType) → Type 0
TellsOn (some t ∷ _) = Unit {0}
TellsOn _ = ⊥

abbrev pub TellsOff : List (Option ContentType) → Type 0
TellsOff (some t ∷ _) = ⊥
TellsOff _ = Unit {0}

-- Where the controller is in a settled state, the last notice says so; no notice says undesired.
abbrev pub NoticesAgree : Controller → Type 0
NoticesAgree c = elim c.state [
  | enabled ↦ TellsOn (told c)
  | undesired ↦ TellsOff (told c)
  | _ ↦ Unit {0}
]

abbrev pub is_notifying : Thread → Bool
is_notifying (notifies _) = true
is_notifying _ = false

-- A termination does not come between a decision and its notice.
abbrev pub IsCalm : Controller → Event → Type 0
IsCalm c terminates = is_notifying c.thread ≡ false
IsCalm _ _ = Unit {0}

abbrev pub AllCalm : ℕ → Controller → List Event → Type 0
AllCalm timeout c [] = Unit {0}
AllCalm timeout c (e ∷ es) = IsCalm c e × AllCalm timeout (step timeout c e) es

step-NoticesAgree :
    (timeout : ℕ) (c : Controller) (e : Event)
    → IsCalm c e
    → NoticesAgree c
    → NoticesAgree (step timeout c e)
unfolding step
step-NoticesAgree timeout c starts o h = unfold start in ground arith
step-NoticesAgree timeout c (requests now) o h = unfold request in ground arith
step-NoticesAgree timeout c terminates o h = unfold terminate in ground arith
step-NoticesAgree timeout c destroys o h = unfold destroy in ground arith
step-NoticesAgree timeout c (runs now cp) o h =
    unfold thread_step look set_content_protection_status in ground arith

run-NoticesAgree :
    (timeout : ℕ) (c : Controller) (es : List Event)
    → AllCalm timeout c es
    → NoticesAgree c
    → NoticesAgree (run timeout c es)
unfolding run
run-NoticesAgree timeout c [] o h = h
run-NoticesAgree timeout c (e ∷ es) (o, os) h =
    run-NoticesAgree timeout (step timeout c e) es os (step-NoticesAgree timeout c e o h)

-- From the start, whatever happens, as long as no termination falls between a decision of the thread and
-- its notice: where content protection is enabled, the last that the client was or is just being told
-- is a content type; where it is undesired, that is no type, or nothing was told.
pub notices_agree :
    (timeout : ℕ) (es : List Event) → AllCalm timeout init es → NoticesAgree (run timeout init es)
unfolding init
notices_agree timeout es o =
    run-NoticesAgree timeout
      (record {
        state = undesired;
        was_retry = false;
        sleep_until = 0;
        thread = looks;
        notices = [];
        retry_frames = 0;
      })
      es o tt

-- Where the thread is about to decide a request and the connector says that protection is on, a
-- termination that comes before the thread's notice is overtaken by it: the state is undesired, and
-- the last the client is told is a content type.
pub terminate_is_overtaken :
    (timeout now later : ℕ) (cp : Bool) (c : Controller)
    → c.state ≡ requested
    → c.thread ≡ checks
    → let d = run timeout c (runs now true ∷ terminates ∷ runs later cp ∷ []) in
      (d.state ≡ undesired) × (d.thread ≡ looks) × TellsOn d.notices
unfolding run step terminate thread_step set_content_protection_status
terminate_is_overtaken timeout now later cp c s x = ground arith
