-- ===== src/HdcpController.antt =====
-- compositor/HdcpController.cpp: the controller of content protection, as steps of its thread and of
-- the client's calls. Each step holds the mutex once; the callbacks, which the thread makes without it,
-- are steps of their own. Times are nanoseconds since the epoch of the clock.
pub mod Retries
pub mod Turns
pub mod Decides
pub mod Notices
mod Tests
use Prim.Native.Nat.{min}
use android_hardware_nvidia.Prelude.{
  Bool, List, Option, [], false, if◌then◌else◌, leb, none, not, some, suc, true, ℕ, ◌+◌, ◌∷◌,
}

pub data HdcpState : Type 0 where
  undesired : HdcpState
  desired : HdcpState
  requested : HdcpState
  enabled : HdcpState
  retry : HdcpState
  thread_exit : HdcpState

pub data ContentType : Type 0 where
  type0 : ContentType
  type1 : ContentType

-- Where the thread stands in `ThreadFn`.
pub data Thread : Type 0 where
  looks : Thread
  waits : Thread
  waits_until : ℕ → Thread
  -- With `early_check` set, before the connector is asked.
  checks_early : Thread
  -- At the start of `SetContentProtectionStatus`.
  checks : Thread
  notifies : Option ContentType → Thread
  triggers : Thread
  exited : Thread

-- With the callbacks made so far, the latest first.
pub record Controller : Type 0 where
  pub state : HdcpState
  pub was_retry : Bool
  pub sleep_until : ℕ
  pub thread : Thread
  pub notices : List (Option ContentType)
  pub retry_frames : ℕ

abbrev pub is_requested : HdcpState → Bool
is_requested requested = true
is_requested _ = false

abbrev pub is_retry : HdcpState → Bool
is_retry retry = true
is_retry _ = false

unfoldable pub init : Controller
init = record {
  state = undesired;
  was_retry = false;
  sleep_until = 0;
  thread = looks;
  notices = [];
  retry_frames = 0;
}

-- What waits on the condition variable may go on at any time, so a call's `notify_all` moves nothing.
unfoldable pub start : Controller → Controller
start c = if is_retry c.state then c else record c { state = desired }

unfoldable pub request : ℕ → ℕ → Controller → Controller
request timeout now c = elim c.state [
  | enabled ↦ c
  | undesired ↦ c
  | s ↦ record c { was_retry = is_retry s; state = requested; sleep_until = now + timeout }
]

unfoldable pub terminate : Controller → Controller
terminate c = record c { state = undesired; notices = none ∷ c.notices }

unfoldable pub destroy : Controller → Controller
destroy c = record c { state = thread_exit }

-- `SetContentProtectionStatus` up to its callbacks, with what the connector answered before.
unfoldable pub set_content_protection_status : Bool → Controller → Controller
set_content_protection_status cp_enabled c =
    if not (is_requested c.state)
    then record c { thread = looks }
    else if cp_enabled
    then record c {
      state = enabled;
      was_retry = false;
      thread = notifies (if c.was_retry then some type0 else some type1);
    }
    else if c.was_retry
    then record c { state = undesired; was_retry = false; thread = notifies none }
    else record c { state = retry; thread = triggers }

abbrev pub ns_per_s : ℕ
ns_per_s = 1000000000

-- The head of the loop, under the lock.
unfoldable pub look : ℕ → Controller → Controller
look now c = elim c.state [
  | thread_exit ↦ record c { thread = exited }
  | requested ↦
      if leb c.sleep_until now
      then record c { thread = checks }
      else record c { thread = waits_until (min c.sleep_until (now + ns_per_s)) }
  | _ ↦ record c { thread = waits }
]

-- The next step of the thread, with the clock and the connector as it finds them.
unfoldable pub thread_step : ℕ → Bool → Controller → Controller
unfolding look set_content_protection_status
thread_step now cp_enabled c = elim c.thread [
  | looks ↦ look now c
  | waits ↦ record c { thread = looks }
  | waits_until _ ↦
      if is_requested c.state
      then record c { thread = checks_early }
      else record c { thread = looks }
  | checks_early ↦ if cp_enabled then record c { thread = checks } else record c { thread = looks }
  | checks ↦ set_content_protection_status cp_enabled c
  | notifies t ↦ record c { thread = looks; notices = t ∷ c.notices }
  | triggers ↦ record c { thread = looks; retry_frames = suc c.retry_frames }
  | exited ↦ c
]

-- The client's calls and the steps of the thread, in the order in which they happen.
pub data Event : Type 0 where
  starts : Event
  requests : ℕ → Event
  terminates : Event
  destroys : Event
  runs : ℕ → Bool → Event

unfoldable pub step : ℕ → Controller → Event → Controller
unfolding start request terminate destroy thread_step
step timeout c starts = start c
step timeout c (requests now) = request timeout now c
step timeout c terminates = terminate c
step timeout c destroys = destroy c
step timeout c (runs now cp_enabled) = thread_step now cp_enabled c

unfoldable pub run : ℕ → Controller → List Event → Controller
run timeout c [] = c
run timeout c (e ∷ es) = run timeout (step timeout c e) es
