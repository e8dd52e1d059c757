-- ===== src/FlatteningController.antt =====
-- compositor/FlatteningController.cpp: the controller that finds a scene idle, as the client's calls
-- and the steps of its thread. Each step holds the mutex once; the callback, which the thread makes
-- without it, is a step of its own. Times are nanoseconds since the epoch of the clock.
pub mod Idle
mod Tests
use android_hardware_nvidia.Prelude.{
  Bool, List, [], false, if◌then◌else◌, leb, suc, true, ℕ, ◌&&◌, ◌+◌, ◌==◌, ◌∷◌,
}

pub data FlatState : Type 0 where
  disabled : FlatState
  active : FlatState
  triggered_callback : FlatState
  flattened : FlatState
  exit_thread : FlatState

-- Where the thread stands in `ThreadFn`.
pub data Thread : Type 0 where
  looks : Thread
  waits : Thread
  waits_until : ℕ → Thread
  triggers : Thread
  exited : Thread

-- With the states reported so far, the latest first, and the callbacks made.
pub record Controller : Type 0 where
  pub state : FlatState
  pub sleep_until : ℕ
  pub thread : Thread
  pub atoms : List FlatState
  pub triggered : ℕ

unfoldable pub init : Controller
init = record { state = disabled; sleep_until = 0; thread = looks; atoms = []; triggered = 0 }

abbrev pub is_active : FlatState → Bool
is_active active = true
is_active _ = false

abbrev pub is_reported : FlatState → Bool
is_reported triggered_callback = false
is_reported exit_thread = false
is_reported _ = true

abbrev pub code : FlatState → ℕ
code disabled = 0
code active = 1
code triggered_callback = 2
code flattened = 3
code exit_thread = 4

-- A reporter may be missing, as `has_reporter` says.
unfoldable pub set_state : Bool → FlatState → Controller → Controller
set_state has_reporter s c =
    if code c.state == code s
    then c
    else if has_reporter && is_reported s
    then record c { state = s; atoms = s ∷ c.atoms }
    else record c { state = s }

module _ (has_reporter : Bool) (timeout : ℕ) where
  unfoldable pub disable_flattening : Controller → Controller
  disable_flattening c = set_state has_reporter disabled c

  -- What waits on the condition variable may go on at any time, so `notify_all` moves nothing.
  unfoldable pub new_frame : ℕ → Controller → Controller
  new_frame now c = elim c.state [
    | triggered_callback ↦ set_state has_reporter flattened c
    | _ ↦ set_state has_reporter active (record c { sleep_until = now + timeout })
  ]

  unfoldable pub settled_frame : Controller → Controller
  settled_frame c = elim c.state [
    | disabled ↦ c
    | exit_thread ↦ c
    | _ ↦ set_state has_reporter flattened c
  ]

  unfoldable pub should_flatten : Controller → Bool
  should_flatten c = elim c.state [ triggered_callback ↦ true | flattened ↦ true | _ ↦ false ]

  unfoldable pub stop_thread : Controller → Controller
  stop_thread c = set_state has_reporter exit_thread c

  -- The head of the loop, under the lock.
  unfoldable pub look : ℕ → Controller → Controller
  look now c = elim c.state [
    | exit_thread ↦ record c { thread = exited }
    | active ↦
        if leb c.sleep_until now
        then set_state has_reporter triggered_callback (record c { thread = triggers })
        else record c { thread = waits_until c.sleep_until }
    | _ ↦ record c { thread = waits }
  ]

  unfoldable pub thread_step : ℕ → Controller → Controller
  unfolding look
  thread_step now c = elim c.thread [
    | looks ↦ look now c
    | waits ↦ record c { thread = looks }
    | waits_until _ ↦ record c { thread = looks }
    | triggers ↦ record c { thread = looks; triggered = suc c.triggered }
    | exited ↦ c
  ]

-- The client's calls and the steps of the thread, in the order in which they happen.
pub data Event : Type 0 where
  disables : Event
  draws : ℕ → Event
  settles : Event
  stops : Event
  runs : ℕ → Event

module _ (has_reporter : Bool) (timeout : ℕ) where
  unfoldable pub step : Controller → Event → Controller
  unfolding disable_flattening new_frame settled_frame stop_thread thread_step
  step c disables = disable_flattening has_reporter timeout c
  step c (draws now) = new_frame has_reporter timeout now c
  step c settles = settled_frame has_reporter timeout c
  step c stops = stop_thread has_reporter timeout c
  step c (runs now) = thread_step has_reporter timeout now c

  unfoldable pub run : Controller → List Event → Controller
  run c [] = c
  run c (e ∷ es) = run (step c e) es
